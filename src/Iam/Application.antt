-- ===== src/Iam/Application.antt =====
-- `internal/controller/application/application.go`.
use provider_dip.Base.{Text, Bool, true, false, some, [], given, differs, ◌!=◌}
use provider_dip.Base.{text_Comparable, int_Comparable, if◌then◌else◌}
use provider_dip.Go.{M, pure, ◌>>=◌}
use provider_dip.Managed.{ExternalObservation, ExternalCreation, no_details}
use provider_dip.Apis.Iam.{ApplicationParameters, ApplicationObservation}
use provider_dip.Apis.Object.{Object}
use provider_dip.Apis.Kinds.{application_kind}
use provider_dip.Iam.Remote
use provider_dip.Controller.{RemoteApi, Observer, asserted, from_spec, observe_external}
use provider_dip.Controller.{create_external, delete_external}
use provider_dip.Controller.Connect
use provider_dip.Controller.Session.{ExternalClient}
use provider_dip.Controller.Connect.{Environment}
use provider_dip.Dip.Client.{Client}

unfoldable pub is_up_to_date : ApplicationParameters → Remote.Application → Bool
is_up_to_date fp app =
    if fp.name != app.name
    then false
    else if differs fp.description app.description
    then false
    else true

unfoldable pub record_status : Remote.Application → ApplicationObservation → ApplicationObservation
record_status app status = record status { id = some app.id }

abbrev pub observer : Observer ApplicationParameters ApplicationObservation Remote.Application
observer = record {
  message = "cannot get application";
  record_status = record_status;
  is_up_to_date = is_up_to_date;
}

-- What `Create` sends.
unfoldable pub new_app : ApplicationParameters → Remote.Application
new_app fp = record {
  id = [];
  name = fp.name;
  description = given fp.description [];
  proposition_id = given fp.proposition_id [];
  global_reference_id = fp.global_reference_id;
}

abbrev pub app_by_id : Text → Remote.Application
app_by_id external_name = record {
  id = external_name;
  name = [];
  description = [];
  proposition_id = [];
  global_reference_id = [];
}

module _ {W : Type 0}
    (api : RemoteApi W Remote.Application Remote.Application Remote.Application) where
  unfoldable pub observe : M (Object × W) ExternalObservation
  unfolding is_up_to_date record_status
  observe = asserted application_kind (observe_external observer api.get)

  unfoldable pub create : M (Object × W) ExternalCreation
  unfolding new_app
  create = asserted application_kind (do
    created ← create_external (from_spec new_app) api.create "cannot create application" (λ r. r.id)
    pure no_details)

  -- `Update` calls nothing: the API has no update of this resource.
  unfoldable pub update : M (Object × W) (Unit {0})
  update = asserted application_kind (pure tt)

  unfoldable pub delete : M (Object × W) (Unit {0})
  delete =
      asserted application_kind (delete_external app_by_id api.delete "cannot delete application")

  -- `external`, whose calls are these.
  abbrev pub external : ExternalClient W
  external = record { observe = observe; create = create; update = update; delete = delete }

unfoldable pub connect :
    {W Iam Mdm Provisioning : Type 0}
    → Environment W Iam Mdm Provisioning
    → M (Object × W) (Client Iam Mdm Provisioning)
unfolding Connect.connect
connect env = Connect.connect application_kind env
