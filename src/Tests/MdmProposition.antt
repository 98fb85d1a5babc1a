-- ===== src/Tests/MdmProposition.antt =====
-- The handlers of `internal/controller/mdm/proposition/proposition.go`, run.
use provider_dip.Base.{Text, Option, none, some, [], ◌≡◌, refl, codes}
use provider_dip.Go.{ok}
use provider_dip.Managed.{Managed, no_details}
use provider_dip.Apis.Mdm
use provider_dip.Apis.Object.{mdm_proposition}
use provider_dip.Mdm.Remote
use provider_dip.Mdm.Proposition
use provider_dip.Mdm.Converge.Proposition.{Kept}
use provider_dip.Controller.{RemoteApi, asserted, create_external, checked, dereference}
use provider_dip.Controller.Lifecycle.{StoresCreated}
use provider_dip.Tests.Fake
use provider_dip.Tests.Fake.{fresh, service-StoresCreated, service-StoresUpdated, service-Forgets}

abbrev fp : Mdm.PropositionParameters
fp = record {
  name = codes "name";
  description = some (codes "first");
  organization_id = codes "organization_id";
  proposition_guid = none;
  global_reference_id = codes "global_reference_id";
  status = none;
}

abbrev cr : Text → Managed Mdm.PropositionParameters Mdm.PropositionObservation
cr external_name = record {
  external_name = external_name;
  namespace = codes "team";
  provider_config_ref = none;
  for_provider = fp;
  at_provider = record { id = none };
  ready = none;
}

abbrev make : Remote.Proposition → Remote.Proposition
make = λ body. record body { id = fresh }

abbrev change : Remote.Proposition → Remote.Proposition
change = λ body. body

abbrev remote :
    RemoteApi (Option Remote.Proposition) Remote.Proposition Remote.Proposition Remote.Proposition
remote = Fake.service (λ r. r.id) (λ r. r.id) make change

stores : StoresCreated remote (λ r. r.id) Kept
stores =
    service-StoresCreated (λ r. r.id) (λ r. r.id) make change Kept (λ body. refl)
      (λ body. (refl, refl))

created : (Proposition.create remote (mdm_proposition (cr []), none)).0 ≡ ok no_details
unfolding Proposition.create asserted create_external checked dereference Proposition.new_prop
created = refl
