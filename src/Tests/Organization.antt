-- ===== src/Tests/Organization.antt =====
-- The handlers of `internal/controller/organization/organization.go`, run.
use provider_dip.Base.{Text, Option, none, some, [], ◌≡◌, refl, codes}
use provider_dip.Go.{ok}
use provider_dip.Managed.{Managed, no_details, ExternalCreation}
use provider_dip.Apis.Iam.{OrganizationParameters, OrganizationObservation}
use provider_dip.Apis.Object.{organization}
use provider_dip.Iam.Remote
use provider_dip.Iam.Organization
use provider_dip.Iam.Converge.Organization.{Kept}
use provider_dip.Controller.{RemoteApi, asserted, create_external, checked, dereference}
use provider_dip.Controller.Lifecycle.{StoresCreated, StoresUpdated}
use provider_dip.Iam.Runs.Organization.{organization_Reconciled-Moves}
use provider_dip.Controller.{observe_external, observe_name, absent}
use provider_dip.Controller.Reconcile.{creates}
use provider_dip.Controller.Reconcile.Phases.{Phase, Moves, IsIn}
use provider_dip.Controller.Reconcile.Converge.{OnlyReads}
use provider_dip.Controller.Lifecycle.{StoresCreated, StoresUpdated}
use provider_dip.Apis.Object.{Object}
use provider_dip.Tests.Fake.{service-OnlyReads, service-StoresCreated}
use provider_dip.Tests.Fake
use provider_dip.Tests.Fake.{fresh, service-StoresCreated, service-StoresUpdated, service-Forgets}

abbrev fp : OrganizationParameters
fp = record {
  name = codes "alpha";
  display_name = some (codes "Alpha");
  description = some (codes "first");
  parent_org_id = none;
  type = none;
  external_id = none;
}

abbrev cr : Text → Managed OrganizationParameters OrganizationObservation
cr external_name = record {
  external_name = external_name;
  namespace = codes "team";
  provider_config_ref = none;
  for_provider = fp;
  at_provider = record { id = none; active = none };
  ready = none;
}

abbrev make : Remote.Organization → Remote.Organization
make = λ body. record body { id = fresh }

abbrev change : Remote.Organization → Remote.Organization
change = λ body. body

abbrev remote :
    RemoteApi
      (Option Remote.Organization)
      Remote.Organization
      Remote.Organization
      Remote.Organization
remote = Fake.service (λ r. r.id) (λ r. r.id) make change

stores : StoresCreated remote (λ r. r.id) Kept
stores =
    service-StoresCreated (λ r. r.id) (λ r. r.id) make change Kept (λ body. refl)
      (λ body. (refl, refl, refl))

abbrev details : ExternalCreation
details = no_details

keeps : StoresUpdated remote (λ r. r.id) Kept
keeps =
    service-StoresUpdated (λ r. r.id) (λ r. r.id) make change Kept (λ body. refl)
      (λ body. (refl, refl, refl))

abbrev begin : Object × Option Remote.Organization
begin = (organization (cr []), none)

seen : (Organization.observe remote begin).0 ≡ ok absent
unfolding Organization.observe asserted observe_external observe_name
seen = refl

made : (Organization.create remote (Organization.observe remote begin).1).0 ≡ ok no_details
unfolding Organization.observe observe_external observe_name Organization.create asserted
    create_external checked dereference Organization.new_org
made = refl

reads : OnlyReads remote
reads = service-OnlyReads (λ r. r.id) (λ r. r.id) make change

organization_Reconciled-Moves_example :
    (p : Phase) × (q : Phase) × IsIn (Organization.external remote) begin p
    × IsIn
        (Organization.external remote)
        (Organization.create remote (Organization.observe remote begin).1).1
        q
    × Moves p q 1
organization_Reconciled-Moves_example =
    organization_Reconciled-Moves remote begin _ stores keeps reads
      (creates no_details seen made refl)
