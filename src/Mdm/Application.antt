-- ===== src/Mdm/Application.antt =====
-- `internal/controller/mdm/application/application.go`.
use provider_dip.Base.{
  Text, Bool, true, false, some, [], given, differs, ◌!=◌, text_Comparable, codes, if◌then◌else◌,
}
use provider_dip.Go.{M, pure, ◌>>=◌}
use provider_dip.Managed.{ExternalObservation, ExternalCreation, no_details, deleting}
use provider_dip.Apis.Mdm
use provider_dip.Apis.Object.{Object}
use provider_dip.Apis.MdmKinds.{mdm_application_kind}
use provider_dip.Mdm.Remote
use provider_dip.Controller.{RemoteApi, Observer, asserted, from_spec, from_named, observe_external}
use provider_dip.Controller.{create_external, update_external, set_conditions}
use provider_dip.Controller.Session.{ExternalClient}
use provider_dip.Controller.Connect.{Environment, connect_mdm}
use provider_dip.Dip.Client.{Client}

unfoldable pub is_up_to_date : Mdm.ApplicationParameters → Remote.Application → Bool
is_up_to_date fp app =
    if fp.name != app.name
    then false
    else if differs fp.description app.description
    then false
    else true

unfoldable pub record_status :
    Remote.Application → Mdm.ApplicationObservation → Mdm.ApplicationObservation
record_status app status = record status { id = some app.id }

abbrev pub observer :
    Observer Mdm.ApplicationParameters Mdm.ApplicationObservation Remote.Application
observer = record {
  message = "cannot get MDM application";
  record_status = record_status;
  is_up_to_date = is_up_to_date;
}

-- What `Create` and `Update` send.
unfoldable pub new_app : Mdm.ApplicationParameters → Remote.Application
new_app fp = record {
  id = [];
  resource_type = codes "Application";
  name = fp.name;
  description = given fp.description [];
  proposition_id = given fp.proposition_id [];
  global_reference_id = fp.global_reference_id;
  application_guid = fp.application_guid;
  default_group_guid = fp.default_group_guid;
}

unfoldable pub updated_app : Text → Mdm.ApplicationParameters → Remote.Application
updated_app external_name fp = record {
  id = external_name;
  resource_type = codes "Application";
  name = fp.name;
  description = given fp.description [];
  proposition_id = given fp.proposition_id [];
  global_reference_id = fp.global_reference_id;
  application_guid = fp.application_guid;
  default_group_guid = fp.default_group_guid;
}

module _ {W : Type 0}
    (api : RemoteApi W Remote.Application Remote.Application Remote.Application) where
  unfoldable pub observe : M (Object × W) ExternalObservation
  unfolding is_up_to_date record_status
  observe = asserted mdm_application_kind (observe_external observer api.get)

  unfoldable pub create : M (Object × W) ExternalCreation
  unfolding new_app
  create = asserted mdm_application_kind (do
    created ←
        create_external (from_spec new_app) api.create "cannot create MDM application" (λ r. r.id)
    pure no_details)

  unfoldable pub update : M (Object × W) (Unit {0})
  unfolding updated_app
  update =
      asserted mdm_application_kind
        (update_external (from_named updated_app) api.update "cannot update MDM application")

  -- `Delete` calls nothing.
  unfoldable pub delete : M (Object × W) (Unit {0})
  delete = asserted mdm_application_kind (set_conditions deleting)

  -- `external`, whose calls are these.
  abbrev pub external : ExternalClient W
  external = record { observe = observe; create = create; update = update; delete = delete }

unfoldable pub connect :
    {W Iam Mdm Provisioning : Type 0}
    → Environment W Iam Mdm Provisioning
    → M (Object × W) (Client Iam Mdm Provisioning)
unfolding connect_mdm
connect env = connect_mdm mdm_application_kind env
