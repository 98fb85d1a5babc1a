-- ===== src/Tests/Application.antt =====
-- The handlers of `internal/controller/application/application.go`, run.
use provider_dip.Base.{Text, Option, none, some, [], ◌≡◌, refl, codes}
use provider_dip.Go.{ok}
use provider_dip.Managed.{Managed, no_details, ExternalCreation}
use provider_dip.Apis.Iam.{ApplicationParameters, ApplicationObservation}
use provider_dip.Apis.Object.{application}
use provider_dip.Iam.Remote
use provider_dip.Iam.Application
use provider_dip.Iam.Converge.Application.{Kept}
use provider_dip.Controller.{RemoteApi, asserted, create_external, checked, dereference}
use provider_dip.Controller.Lifecycle.{StoresCreated}
use provider_dip.Tests.Fake
use provider_dip.Tests.Fake.{fresh, service-StoresCreated, service-Forgets}

abbrev fp : ApplicationParameters
fp = record {
  name = codes "alpha";
  description = some (codes "first");
  proposition_id = none;
  global_reference_id = codes "global_reference_id";
}

abbrev cr : Text → Managed ApplicationParameters ApplicationObservation
cr external_name = record {
  external_name = external_name;
  namespace = codes "team";
  provider_config_ref = none;
  for_provider = fp;
  at_provider = record { id = none };
  ready = none;
}

abbrev make : Remote.Application → Remote.Application
make = λ body. record body { id = fresh }

abbrev change : Remote.Application → Remote.Application
change = λ body. body

abbrev remote :
    RemoteApi (Option Remote.Application) Remote.Application Remote.Application Remote.Application
remote = Fake.service (λ r. r.id) (λ r. r.id) make change

stores : StoresCreated remote (λ r. r.id) Kept
stores =
    service-StoresCreated (λ r. r.id) (λ r. r.id) make change Kept (λ body. refl)
      (λ body. (refl, refl))

abbrev details : ExternalCreation
details = no_details

created : (Application.create remote (application (cr []), none)).0 ≡ ok details
unfolding Application.create asserted create_external checked dereference Application.new_app
created = refl
