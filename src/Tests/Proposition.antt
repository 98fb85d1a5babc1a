-- ===== src/Tests/Proposition.antt =====
-- The handlers of `internal/controller/proposition/proposition.go`, run.
use provider_dip.Base.{Text, Option, none, some, [], ◌≡◌, refl, codes}
use provider_dip.Go.{ok}
use provider_dip.Managed.{Managed, no_details, ExternalCreation}
use provider_dip.Apis.Iam.{PropositionParameters, PropositionObservation}
use provider_dip.Apis.Object.{proposition}
use provider_dip.Iam.Remote
use provider_dip.Iam.Proposition
use provider_dip.Iam.Converge.Proposition.{Kept}
use provider_dip.Controller.{RemoteApi, asserted, create_external, checked, dereference}
use provider_dip.Controller.Lifecycle.{StoresCreated}
use provider_dip.Tests.Fake
use provider_dip.Tests.Fake.{fresh, service-StoresCreated, service-Forgets}

abbrev fp : PropositionParameters
fp = record {
  name = codes "alpha";
  description = some (codes "first");
  organization_id = none;
  global_reference_id = codes "global_reference_id";
}

abbrev cr : Text → Managed PropositionParameters PropositionObservation
cr external_name = record {
  external_name = external_name;
  namespace = codes "team";
  provider_config_ref = none;
  for_provider = fp;
  at_provider = record { id = none };
  ready = none;
}

abbrev make : Remote.Proposition → Remote.Proposition
make = λ body. record body { id = fresh }

abbrev change : Remote.Proposition → Remote.Proposition
change = λ body. body

abbrev remote :
    RemoteApi (Option Remote.Proposition) Remote.Proposition Remote.Proposition Remote.Proposition
remote = Fake.service (λ r. r.id) (λ r. r.id) make change

stores : StoresCreated remote (λ r. r.id) Kept
stores =
    service-StoresCreated (λ r. r.id) (λ r. r.id) make change Kept (λ body. refl)
      (λ body. (refl, refl))

abbrev details : ExternalCreation
details = no_details

created : (Proposition.create remote (proposition (cr []), none)).0 ≡ ok details
unfolding Proposition.create asserted create_external checked dereference Proposition.new_prop
created = refl
