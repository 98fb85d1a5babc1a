-- ===== src/Iam/Proposition.antt =====
-- `internal/controller/proposition/proposition.go`.
use provider_dip.Base.{Text, Bool, true, false, some, [], given, differs, ◌!=◌}
use provider_dip.Base.{text_Comparable, int_Comparable, if◌then◌else◌}
use provider_dip.Go.{M, pure, ◌>>=◌}
use provider_dip.Managed.{ExternalObservation, ExternalCreation, no_details}
use provider_dip.Apis.Iam.{PropositionParameters, PropositionObservation}
use provider_dip.Apis.Object.{Object}
use provider_dip.Apis.Kinds.{proposition_kind}
use provider_dip.Iam.Remote
use provider_dip.Controller.{RemoteApi, Observer, asserted, from_spec, observe_external}
use provider_dip.Controller.{create_external, delete_external}
use provider_dip.Controller.Connect
use provider_dip.Controller.Session.{ExternalClient}
use provider_dip.Controller.Connect.{Environment}
use provider_dip.Dip.Client.{Client}

unfoldable pub is_up_to_date : PropositionParameters → Remote.Proposition → Bool
is_up_to_date fp prop =
    if fp.name != prop.name
    then false
    else if differs fp.description prop.description
    then false
    else true

unfoldable pub record_status : Remote.Proposition → PropositionObservation → PropositionObservation
record_status prop status = record status { id = some prop.id }

abbrev pub observer : Observer PropositionParameters PropositionObservation Remote.Proposition
observer = record {
  message = "cannot get proposition";
  record_status = record_status;
  is_up_to_date = is_up_to_date;
}

-- What `Create` sends.
unfoldable pub new_prop : PropositionParameters → Remote.Proposition
new_prop fp = record {
  id = [];
  name = fp.name;
  description = given fp.description [];
  organization_id = given fp.organization_id [];
  global_reference_id = fp.global_reference_id;
}

abbrev pub prop_by_id : Text → Remote.Proposition
prop_by_id external_name = record {
  id = external_name;
  name = [];
  description = [];
  organization_id = [];
  global_reference_id = [];
}

module _ {W : Type 0}
    (api : RemoteApi W Remote.Proposition Remote.Proposition Remote.Proposition) where
  unfoldable pub observe : M (Object × W) ExternalObservation
  unfolding is_up_to_date record_status
  observe = asserted proposition_kind (observe_external observer api.get)

  unfoldable pub create : M (Object × W) ExternalCreation
  unfolding new_prop
  create = asserted proposition_kind (do
    created ←
        create_external (from_spec new_prop) api.create "cannot create proposition" (λ r. r.id)
    pure no_details)

  -- `Update` calls nothing: the API has no update of this resource.
  unfoldable pub update : M (Object × W) (Unit {0})
  update = asserted proposition_kind (pure tt)

  unfoldable pub delete : M (Object × W) (Unit {0})
  delete =
      asserted proposition_kind (delete_external prop_by_id api.delete "cannot delete proposition")

  -- `external`, whose calls are these.
  abbrev pub external : ExternalClient W
  external = record { observe = observe; create = create; update = update; delete = delete }

unfoldable pub connect :
    {W Iam Mdm Provisioning : Type 0}
    → Environment W Iam Mdm Provisioning
    → M (Object × W) (Client Iam Mdm Provisioning)
unfolding Connect.connect
connect env = Connect.connect proposition_kind env
