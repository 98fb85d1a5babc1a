-- ===== src/Tests/Setup.antt =====
-- `SetupGated`, run with a manager that counts the controllers.
use provider_dip.Base.{
  ℕ, ◌+◌, List, true, none, some, [], ◌∷◌, ◌++◌, ◌≡◌, ◌↔◌, refl, codes, pos, In, there, here,
}
use provider_dip.Base.{Option, if◌then◌else◌, ◌==◌, nat_Comparable}
use provider_dip.Go.{Error, ok, fail, foreign}
use provider_dip.Setup
use provider_dip.Setup.{
  Manager, Options, Resource, ReconcilerOption, managed, external_connector, initializers,
  managed_builder, reconciler_options,
}
use provider_dip.Setup.Gated.{setup_gated}
use provider_dip.Setup.Order.{
  Accepts, Refuses, registrations, setup_gated_ok_iff, setup_gated_fails_iff,
}
use provider_dip.Setup.Controllers.{number, has_management_policies, registrations-options}

-- It refuses the controller of users, and takes the others.
abbrev answer : ℕ → Option Error
answer n = if n == 9 then some (foreign (codes "refused")) else none

abbrev mgr : Manager ℕ
mgr = record {
  managed_name = λ kind. codes "managed/";
  provider_config_name = λ kind. codes "config/";
  complete = λ b taken. (answer (number b.for_type), taken + 1);
}

abbrev o : Options
o = record {
  poll_interval = pos 60;
  beta_management_policies = true;
  rate_limiter = codes "global";
  for_controller_runtime = codes "options";
}

setup_gated_ok_iff_example :
    (setup_gated mgr o 0 ≡ (ok tt, 18)) ↔ Accepts mgr (registrations mgr o) 0 18
setup_gated_ok_iff_example = setup_gated_ok_iff mgr o 0 18

setup_gated_fails_iff_example :
    (setup_gated mgr o 0 ≡ (fail (foreign (codes "refused")), 9))
    ↔ Refuses mgr (registrations mgr o) 0 (foreign (codes "refused")) 9
setup_gated_fails_iff_example = setup_gated_fails_iff mgr o 0 (foreign (codes "refused")) 9

abbrev options : List ReconcilerOption
options = reconciler_options Setup.group (codes "managed/") o

group_there : In (managed_builder mgr o Setup.group) (registrations mgr o)
group_there = there (there (here refl))

registrations-options_example :
    (Setup.group ≡ Setup.group)
    × ((rest : List ReconcilerOption) × (options ≡ external_connector Setup.group ∷ rest))
    × (has_management_policies options ≡ true)
    × ((before : List ReconcilerOption) × (options ≡ before ++ initializers [] ∷ []))
unfolding managed_builder
registrations-options_example =
    registrations-options mgr o (managed_builder mgr o Setup.group) Setup.group options group_there
      refl
