-- ===== src/Iam/Organization.antt =====
-- `internal/controller/organization/organization.go`.
use provider_dip.Base.{Text, Bool, true, false, some, [], given, differs, ◌!=◌}
use provider_dip.Base.{text_Comparable, int_Comparable, if◌then◌else◌}
use provider_dip.Go.{M, pure, ◌>>=◌}
use provider_dip.Managed.{ExternalObservation, ExternalCreation, no_details}
use provider_dip.Apis.Iam.{OrganizationParameters, OrganizationObservation}
use provider_dip.Apis.Object.{Object}
use provider_dip.Apis.Kinds.{organization_kind}
use provider_dip.Iam.Remote
use provider_dip.Controller.{RemoteApi, Observer, asserted, from_spec, from_named, observe_external}
use provider_dip.Controller.{create_external, update_external, delete_external}
use provider_dip.Controller.Connect
use provider_dip.Controller.Session.{ExternalClient}
use provider_dip.Controller.Connect.{Environment}
use provider_dip.Dip.Client.{Client}

unfoldable pub is_up_to_date : OrganizationParameters → Remote.Organization → Bool
is_up_to_date fp org =
    if fp.name != org.name
    then false
    else if differs fp.description org.description
    then false
    else if differs fp.display_name org.display_name
    then false
    else true

unfoldable pub record_status :
    Remote.Organization → OrganizationObservation → OrganizationObservation
record_status org status = record status { id = some org.id; active = some org.active }

abbrev pub observer : Observer OrganizationParameters OrganizationObservation Remote.Organization
observer = record {
  message = "cannot get organization";
  record_status = record_status;
  is_up_to_date = is_up_to_date;
}

-- What `Create` and `Update` send.
unfoldable pub new_org : OrganizationParameters → Remote.Organization
new_org fp = record {
  id = [];
  name = fp.name;
  description = given fp.description [];
  display_name = given fp.display_name [];
  parent = given fp.parent_org_id [];
  type = given fp.type [];
  external_id = given fp.external_id [];
  active = false;
}

unfoldable pub updated_org : Text → OrganizationParameters → Remote.Organization
updated_org external_name fp = record {
  id = external_name;
  name = fp.name;
  description = given fp.description [];
  display_name = given fp.display_name [];
  parent = [];
  type = [];
  external_id = [];
  active = false;
}

abbrev pub org_by_id : Text → Remote.Organization
org_by_id external_name = record {
  id = external_name;
  name = [];
  description = [];
  display_name = [];
  parent = [];
  type = [];
  external_id = [];
  active = false;
}

module _ {W : Type 0}
    (api : RemoteApi W Remote.Organization Remote.Organization Remote.Organization) where
  unfoldable pub observe : M (Object × W) ExternalObservation
  unfolding is_up_to_date record_status
  observe = asserted organization_kind (observe_external observer api.get)

  unfoldable pub create : M (Object × W) ExternalCreation
  unfolding new_org
  create = asserted organization_kind (do
    created ←
        create_external (from_spec new_org) api.create "cannot create organization" (λ r. r.id)
    pure no_details)

  unfoldable pub update : M (Object × W) (Unit {0})
  unfolding updated_org
  update =
      asserted organization_kind
        (update_external (from_named updated_org) api.update "cannot update organization")

  unfoldable pub delete : M (Object × W) (Unit {0})
  delete =
      asserted organization_kind (delete_external org_by_id api.delete "cannot delete organization")

  -- `external`, whose calls are these.
  abbrev pub external : ExternalClient W
  external = record { observe = observe; create = create; update = update; delete = delete }

unfoldable pub connect :
    {W Iam Mdm Provisioning : Type 0}
    → Environment W Iam Mdm Provisioning
    → M (Object × W) (Client Iam Mdm Provisioning)
unfolding Connect.connect
connect env = Connect.connect organization_kind env
