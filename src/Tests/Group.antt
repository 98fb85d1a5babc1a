-- ===== src/Tests/Group.antt =====
-- The handlers of `internal/controller/group/group.go`, run.
use provider_dip.Base.{Text, Option, none, some, [], ◌≡◌, refl, codes}
use provider_dip.Go.{ok}
use provider_dip.Managed.{Managed, no_details, ExternalCreation}
use provider_dip.Apis.Iam.{GroupParameters, GroupObservation}
use provider_dip.Apis.Object.{group}
use provider_dip.Iam.Remote
use provider_dip.Iam.Group
use provider_dip.Iam.Converge.Group.{Kept, group_delete-observe}
use provider_dip.Controller.{
  RemoteApi, absent, asserted, create_external, delete_external, delete_name, checked, dereference,
}
use provider_dip.Controller.Lifecycle.{StoresCreated, StoresUpdated}
use provider_dip.Controller.Deletion.{Forgets}
use provider_dip.Iam.Runs.Group.{group_Reconciled-Moves}
use provider_dip.Controller.{observe_external, observe_name, absent}
use provider_dip.Controller.Reconcile.{creates}
use provider_dip.Controller.Reconcile.Phases.{Phase, Moves, IsIn}
use provider_dip.Controller.Reconcile.Converge.{OnlyReads}
use provider_dip.Controller.Lifecycle.{StoresCreated, StoresUpdated}
use provider_dip.Apis.Object.{Object}
use provider_dip.Tests.Fake.{service-OnlyReads, service-StoresCreated}
use provider_dip.Tests.Fake
use provider_dip.Tests.Fake.{fresh, service-StoresCreated, service-StoresUpdated, service-Forgets}

abbrev fp : GroupParameters
fp = record {
  name = codes "alpha";
  description = some (codes "first");
  managing_organization_id = none;
}

abbrev pub cr : Text → Managed GroupParameters GroupObservation
cr external_name = record {
  external_name = external_name;
  namespace = codes "team";
  provider_config_ref = none;
  for_provider = fp;
  at_provider = record { id = none };
  ready = none;
}

abbrev pub make : Remote.Group → Remote.Group
make = λ body. record body { id = fresh }

abbrev pub change : Remote.Group → Remote.Group
change = λ body. body

abbrev pub remote : RemoteApi (Option Remote.Group) Remote.Group Remote.Group Remote.Group
remote = Fake.service (λ r. r.id) (λ r. r.id) make change

pub stores : StoresCreated remote (λ r. r.id) Kept
stores =
    service-StoresCreated (λ r. r.id) (λ r. r.id) make change Kept (λ body. refl)
      (λ body. (refl, refl))

forgets : Forgets remote (λ r. r.id)
forgets = service-Forgets (λ r. r.id) (λ r. r.id) make change

abbrev details : ExternalCreation
details = no_details

deleted : (Group.delete remote (group (cr fresh), none)).0 ≡ ok tt
unfolding Group.delete asserted delete_external delete_name checked
deleted = refl

group_delete-observe_example :
    (Group.observe remote (Group.delete remote (group (cr fresh), none)).1).0 ≡ ok absent
group_delete-observe_example = group_delete-observe remote (group (cr fresh)) none forgets deleted

pub keeps : StoresUpdated remote (λ r. r.id) Kept
keeps =
    service-StoresUpdated (λ r. r.id) (λ r. r.id) make change Kept (λ body. refl)
      (λ body. (refl, refl))

abbrev pub begin : Object × Option Remote.Group
begin = (group (cr []), none)

pub seen : (Group.observe remote begin).0 ≡ ok absent
unfolding Group.observe asserted observe_external observe_name
seen = refl

pub made : (Group.create remote (Group.observe remote begin).1).0 ≡ ok no_details
unfolding Group.observe observe_external observe_name Group.create asserted create_external checked
    dereference Group.new_group
made = refl

pub reads : OnlyReads remote
reads = service-OnlyReads (λ r. r.id) (λ r. r.id) make change

group_Reconciled-Moves_example :
    (p : Phase) × (q : Phase) × IsIn (Group.external remote) begin p
    × IsIn (Group.external remote) (Group.create remote (Group.observe remote begin).1).1 q
    × Moves p q 1
group_Reconciled-Moves_example =
    group_Reconciled-Moves remote begin _ stores keeps reads (creates no_details seen made refl)
