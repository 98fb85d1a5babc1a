-- ===== src/Mdm/Proposition.antt =====
-- `internal/controller/mdm/proposition/proposition.go`.
use provider_dip.Base.{
  Text, Bool, true, false, some, [], given, differs, ◌!=◌, text_Comparable, codes, if◌then◌else◌,
}
use provider_dip.Go.{M, pure, ◌>>=◌}
use provider_dip.Managed.{ExternalObservation, ExternalCreation, no_details, deleting}
use provider_dip.Apis.Mdm
use provider_dip.Apis.Object.{Object}
use provider_dip.Apis.MdmKinds.{mdm_proposition_kind}
use provider_dip.Mdm.Remote
use provider_dip.Controller.{RemoteApi, Observer, asserted, from_spec, from_named, observe_external}
use provider_dip.Controller.{create_external, update_external, set_conditions}
use provider_dip.Controller.Session.{ExternalClient}
use provider_dip.Controller.Connect.{Environment, connect_mdm}
use provider_dip.Dip.Client.{Client}

unfoldable pub is_up_to_date : Mdm.PropositionParameters → Remote.Proposition → Bool
is_up_to_date fp prop =
    if fp.name != prop.name
    then false
    else if differs fp.description prop.description
    then false
    else true

unfoldable pub record_status :
    Remote.Proposition → Mdm.PropositionObservation → Mdm.PropositionObservation
record_status prop status = record status { id = some prop.id }

abbrev pub observer :
    Observer Mdm.PropositionParameters Mdm.PropositionObservation Remote.Proposition
observer = record {
  message = "cannot get MDM proposition";
  record_status = record_status;
  is_up_to_date = is_up_to_date;
}

-- What `Create` and `Update` send.
unfoldable pub new_prop : Mdm.PropositionParameters → Remote.Proposition
new_prop fp = record {
  id = [];
  resource_type = codes "Proposition";
  name = fp.name;
  description = given fp.description [];
  organization_id = fp.organization_id;
  proposition_guid = fp.proposition_guid;
  global_reference_id = fp.global_reference_id;
  status = given fp.status [];
}

unfoldable pub updated_prop : Text → Mdm.PropositionParameters → Remote.Proposition
updated_prop external_name fp = record {
  id = external_name;
  resource_type = codes "Proposition";
  name = fp.name;
  description = given fp.description [];
  organization_id = fp.organization_id;
  proposition_guid = fp.proposition_guid;
  global_reference_id = fp.global_reference_id;
  status = given fp.status [];
}

module _ {W : Type 0}
    (api : RemoteApi W Remote.Proposition Remote.Proposition Remote.Proposition) where
  unfoldable pub observe : M (Object × W) ExternalObservation
  unfolding is_up_to_date record_status
  observe = asserted mdm_proposition_kind (observe_external observer api.get)

  unfoldable pub create : M (Object × W) ExternalCreation
  unfolding new_prop
  create = asserted mdm_proposition_kind (do
    created ←
        create_external (from_spec new_prop) api.create "cannot create MDM proposition" (λ r. r.id)
    pure no_details)

  unfoldable pub update : M (Object × W) (Unit {0})
  unfolding updated_prop
  update =
      asserted mdm_proposition_kind
        (update_external (from_named updated_prop) api.update "cannot update MDM proposition")

  -- `Delete` calls nothing.
  unfoldable pub delete : M (Object × W) (Unit {0})
  delete = asserted mdm_proposition_kind (set_conditions deleting)

  -- `external`, whose calls are these.
  abbrev pub external : ExternalClient W
  external = record { observe = observe; create = create; update = update; delete = delete }

unfoldable pub connect :
    {W Iam Mdm Provisioning : Type 0}
    → Environment W Iam Mdm Provisioning
    → M (Object × W) (Client Iam Mdm Provisioning)
unfolding connect_mdm
connect env = connect_mdm mdm_proposition_kind env
