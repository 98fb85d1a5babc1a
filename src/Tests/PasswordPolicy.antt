-- ===== src/Tests/PasswordPolicy.antt =====
-- The handlers of `internal/controller/passwordpolicy/passwordpolicy.go`, run.
use provider_dip.Base.{pos, Text, true, Option, none, some, [], ◌≡◌, ◌↔◌, refl, codes}
use provider_dip.Go.{ok}
use provider_dip.Managed.{Managed, no_details, ExternalCreation}
use provider_dip.Apis.Iam.{
  ChallengePolicyParameters, PasswordPolicyParameters, PasswordPolicyObservation,
}
use provider_dip.Apis.Object.{password_policy}
use provider_dip.Iam.Remote
use provider_dip.Iam.PasswordPolicy
use provider_dip.Iam.Converge.PasswordPolicy.{Kept, Agrees, policy-is_up_to_date_iff}
use provider_dip.Iam.Converge.PasswordPolicy.Fields.{Applied, apply_policy_fields-Applied}
use provider_dip.Controller.{RemoteApi, asserted, create_external, checked, dereference}
use provider_dip.Controller.Lifecycle.{StoresCreated, StoresUpdated}
use provider_dip.Iam.Runs.PasswordPolicy.{password_policy_Reconciled-Moves}
use provider_dip.Controller.{observe_external, observe_name, absent}
use provider_dip.Controller.Reconcile.{creates}
use provider_dip.Controller.Reconcile.Phases.{Phase, Moves, IsIn}
use provider_dip.Controller.Reconcile.Converge.{OnlyReads}
use provider_dip.Controller.Lifecycle.{StoresCreated, StoresUpdated}
use provider_dip.Apis.Object.{Object}
use provider_dip.Tests.Fake.{service-OnlyReads, service-StoresCreated}
use provider_dip.Tests.Fake
use provider_dip.Tests.Fake.{fresh, service-StoresCreated, service-StoresUpdated, service-Forgets}

abbrev fp : PasswordPolicyParameters
fp = record {
  managing_organization_id = none;
  expiry_period_in_days = none;
  history_count = none;
  min_length = some (pos 12);
  max_length = none;
  min_lowercase = none;
  min_uppercase = none;
  min_numeric = some (pos 2);
  min_special_chars = none;
  challenges_enabled = none;
  challenge_policy = none;
}

abbrev cr : Text → Managed PasswordPolicyParameters PasswordPolicyObservation
cr external_name = record {
  external_name = external_name;
  namespace = codes "team";
  provider_config_ref = none;
  for_provider = fp;
  at_provider = record { id = none };
  ready = none;
}

abbrev make : Remote.PasswordPolicy → Remote.PasswordPolicy
make = λ body. record body { id = fresh }

abbrev change : Remote.PasswordPolicy → Remote.PasswordPolicy
change = λ body. body

abbrev remote :
    RemoteApi
      (Option Remote.PasswordPolicy)
      Remote.PasswordPolicy
      Remote.PasswordPolicy
      Remote.PasswordPolicy
remote = Fake.service (λ r. r.id) (λ r. r.id) make change

stores : StoresCreated remote (λ r. r.id) Kept
stores =
    service-StoresCreated (λ r. r.id) (λ r. r.id) make change Kept (λ body. refl) (λ body. refl)

abbrev details : ExternalCreation
details = no_details

keeps : StoresUpdated remote (λ r. r.id) Kept
keeps = service-StoresUpdated (λ r. r.id) (λ r. r.id) make change Kept (λ body. refl) (λ body. refl)

abbrev seen : Remote.PasswordPolicy
seen = make (PasswordPolicy.new_policy fp)

policy-is_up_to_date_iff_example : (PasswordPolicy.is_up_to_date fp seen ≡ true) ↔ (
    Agrees (fp.min_length, seen.complexity.min_length)
    × Agrees (fp.max_length, seen.complexity.max_length)
    × Agrees (fp.min_lowercase, seen.complexity.min_lower_case)
    × Agrees (fp.min_uppercase, seen.complexity.min_upper_case)
    × Agrees (fp.min_numeric, seen.complexity.min_numerics)
    × Agrees (fp.min_special_chars, seen.complexity.min_special_chars))
policy-is_up_to_date_iff_example = policy-is_up_to_date_iff fp seen

abbrev challenge : ChallengePolicyParameters
challenge = record {
  default_questions = none;
  min_answer_length = some (pos 4);
  max_incorrect_attempts = some (pos 3);
}

abbrev challenging : PasswordPolicyParameters
challenging = record fp { challenge_policy = some challenge }

apply_policy_fields-Applied_example :
    Applied challenging seen (PasswordPolicy.apply_policy_fields seen challenging)
apply_policy_fields-Applied_example = apply_policy_fields-Applied challenging seen

abbrev begin : Object × Option Remote.PasswordPolicy
begin = (password_policy (cr []), none)

first_seen : (PasswordPolicy.observe remote begin).0 ≡ ok absent
unfolding PasswordPolicy.observe asserted observe_external observe_name
first_seen = refl

made : (PasswordPolicy.create remote (PasswordPolicy.observe remote begin).1).0 ≡ ok no_details
unfolding PasswordPolicy.observe observe_external observe_name PasswordPolicy.create asserted
    create_external checked dereference PasswordPolicy.new_policy
made = refl

reads : OnlyReads remote
reads = service-OnlyReads (λ r. r.id) (λ r. r.id) make change

password_policy_Reconciled-Moves_example :
    (p : Phase) × (q : Phase) × IsIn (PasswordPolicy.external remote) begin p
    × IsIn
        (PasswordPolicy.external remote)
        (PasswordPolicy.create remote (PasswordPolicy.observe remote begin).1).1
        q
    × Moves p q 1
password_policy_Reconciled-Moves_example =
    password_policy_Reconciled-Moves remote begin _ stores keeps reads
      (creates no_details first_seen made refl)
