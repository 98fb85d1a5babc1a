-- ===== src/Tests/Runs.antt =====
-- Sequences of calls, run on the services in memory.
use provider_dip.Base.{ℕ, ◌*◌, ◌+◌, ◌<◌, ◌≤◌, Text, Option, some, [], ◌≡◌, ◌⊎◌, inl, refl, codes}
use provider_dip.Go.{Error, ok, fail}
use provider_dip.Managed.{no_details}
use provider_dip.Apis.Object.{Object, role}
use provider_dip.Apis.Kinds.{service_kind}
use provider_dip.Iam.Remote
use provider_dip.Iam.Group
use provider_dip.Iam.Service
use provider_dip.Iam.Converge.Service.{Kept as ServiceKept}
use provider_dip.Iam.Role
use provider_dip.Iam.Runs.Group.{group_Run-bound, group_reaches}
use provider_dip.Iam.Runs.Service.{service_Session-Stays}
use provider_dip.Iam.Runs.Role.{role_Run-drifted}
use provider_dip.Controller.{asserted, observe_external, observe_name, observe_error, observe_value}
use provider_dip.Controller.Lifecycle.{settled, StoresCreated-GivesUuid}
use provider_dip.Controller.Session.{Stays, here, next, created, observed}
use provider_dip.Controller.Reconcile.{drifted, Reconciled, start, reconcile, creates, updates}
use provider_dip.Controller.Reconcile.Converge.{OnlyReads}
use provider_dip.Dip.Key.{split_lines}
use provider_dip.Dip.Key.Rounds.{Loop, split_lines-Loop}
use provider_dip.Util.{is_valid_uuid, uuid_regex, is_hex}
use provider_dip.Regex.{matches_full}
use provider_dip.Base.{text_eq}
use provider_dip.Tests.Fake.{fresh, service-Available}
use provider_dip.Tests.Group as GroupTest
use provider_dip.Tests.Service as ServiceTest
use provider_dip.Tests.Role as RoleTest

-- A group that is created.
reconciled :
    Reconciled
      (Group.external GroupTest.remote)
      GroupTest.begin
      (Group.create GroupTest.remote (Group.observe GroupTest.remote GroupTest.begin).1).1
      1
reconciled = creates no_details GroupTest.seen GroupTest.made refl

group_Run-bound_example : 1 ≤ 1
group_Run-bound_example =
    group_Run-bound GroupTest.remote GroupTest.begin _ {n = 1} GroupTest.stores GroupTest.keeps
      GroupTest.reads (reconcile start reconciled)

group_reaches_example :
    ((e : Error) × ((Group.observe GroupTest.remote GroupTest.begin).0 ≡ fail e))
    ⊎ ((t : Object × Option Remote.Group) × (n : ℕ) × Reconciled
          (Group.external GroupTest.remote)
          GroupTest.begin
          t
          n
        × ((Group.observe GroupTest.remote t).0 ≡ ok settled))
group_reaches_example =
    group_reaches GroupTest.remote GroupTest.stores GroupTest.keeps GroupTest.reads
      (service-Available (λ r. r.id) (λ r. r.id) GroupTest.make GroupTest.change) GroupTest.begin

service_Session-Stays_example :
    Stays service_kind
      (ServiceTest.cr [])
      (Service.observe ServiceTest.remote
        (Service.create ServiceTest.remote ServiceTest.begin).1).1.0
service_Session-Stays_example =
    service_Session-Stays ServiceTest.remote ServiceTest.begin (ServiceTest.cr [])
      (StoresCreated-GivesUuid ServiceTest.remote (λ r. r.id) ServiceKept ServiceTest.stores) refl
      (inl refl) (next (next here (created refl)) (observed refl))

-- A role whose description in DIP is another than that of the spec.
abbrev role_there : Object × Option Remote.Role
role_there = (
  role (RoleTest.cr fresh),
  some (record { id = fresh; name = codes "name"; description = codes "other" }),
)

role_drifts : (Role.observe RoleTest.remote role_there).0 ≡ ok drifted
unfolding Role.observe asserted observe_external observe_name observe_error observe_value text_eq
    is_valid_uuid matches_full uuid_regex is_hex
role_drifts = refl

role_updates : (Role.update RoleTest.remote (Role.observe RoleTest.remote role_there).1).0 ≡ ok tt
unfolding Role.update Role.observe asserted observe_external observe_name observe_error
    observe_value is_valid_uuid matches_full uuid_regex is_hex text_eq
role_updates = refl

role_reads : OnlyReads RoleTest.remote
role_reads = record { same = λ name w. refl }

role_Run-drifted_example :
    (Role.observe RoleTest.remote
      (Role.update RoleTest.remote (Role.observe RoleTest.remote role_there).1).1).0
    ≡ ok drifted
role_Run-drifted_example =
    role_Run-drifted RoleTest.remote role_there _ role_reads role_drifts
      (reconcile start (updates role_drifts role_updates refl))

abbrev body : Text
body = codes "MIIB"

split_lines-Loop_example :
    (n : ℕ) × Loop body (split_lines body) 0 [] n × (64 * n < 4 + 64) × (4 ≤ 64 * n)
split_lines-Loop_example = split_lines-Loop body
