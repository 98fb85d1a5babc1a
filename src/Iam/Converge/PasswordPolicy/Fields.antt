-- ===== src/Iam/Converge/PasswordPolicy/Fields.antt =====
-- What `applyPolicyFields` of `internal/controller/passwordpolicy/passwordpolicy.go` makes of a policy.
use provider_dip.Base.{Option, none, some, ◌≡◌, refl, pos, given}
use provider_dip.Apis.Iam.{PasswordPolicyParameters, ChallengePolicyParameters}
use provider_dip.Iam.Remote
use provider_dip.Iam.PasswordPolicy

-- A field of the spec that is given is taken over, and one that is not leaves the old value.
abbrev pub Sets : {A : Type 0} → Option A → A → A → Type 0
Sets {A} spec old new = (spec ≡ none → new ≡ old) × ((v : A) → spec ≡ some v → new ≡ v)

-- A challenge policy of the spec replaces the old one: its default questions are those of the spec,
-- given or not, and its number of incorrect attempts is that of the spec or 0.
abbrev pub SetsChallenge :
    Option ChallengePolicyParameters
    → Option Remote.ChallengePolicy
    → Option Remote.ChallengePolicy
    → Type 0
SetsChallenge none old new = new ≡ old
SetsChallenge (some cp) old new =
    (sent : Remote.ChallengePolicy) × (new ≡ some sent)
    × (sent.default_questions ≡ cp.default_questions)
    × Sets cp.max_incorrect_attempts (pos 0) sent.max_incorrect_attempts

pub record Applied (fp : PasswordPolicyParameters) (old : Remote.PasswordPolicy)
    (new : Remote.PasswordPolicy) : Type 0 where
  pub id : new.id ≡ old.id
  pub organization :
      Sets fp.managing_organization_id old.managing_organization new.managing_organization
  pub expiry : Sets fp.expiry_period_in_days old.expiry_period_in_days new.expiry_period_in_days
  pub history : Sets fp.history_count old.history_count new.history_count
  pub min_length : Sets fp.min_length old.complexity.min_length new.complexity.min_length
  pub max_length : Sets fp.max_length old.complexity.max_length new.complexity.max_length
  pub lowercase : Sets fp.min_lowercase old.complexity.min_lower_case new.complexity.min_lower_case
  pub uppercase : Sets fp.min_uppercase old.complexity.min_upper_case new.complexity.min_upper_case
  pub numeric : Sets fp.min_numeric old.complexity.min_numerics new.complexity.min_numerics
  pub special :
      Sets fp.min_special_chars old.complexity.min_special_chars new.complexity.min_special_chars
  pub enabled : Sets fp.challenges_enabled old.challenges_enabled new.challenges_enabled
  pub challenge : SetsChallenge fp.challenge_policy old.challenge_policy new.challenge_policy

given-Sets : {A : Type 0} (spec : Option A) (old : A) → Sets spec old (given spec old)
given-Sets none old = (λ _. refl, λ v h. cc)
given-Sets (some a) old = (λ h. cc, λ v h. cc)

apply_challenge_policy-SetsChallenge :
    (cp : Option ChallengePolicyParameters) (old : Option Remote.ChallengePolicy)
    → SetsChallenge cp old (PasswordPolicy.apply_challenge_policy cp old)
unfolding PasswordPolicy.apply_challenge_policy
apply_challenge_policy-SetsChallenge none old = refl
apply_challenge_policy-SetsChallenge (some cp) old =
    (_, refl, refl, given-Sets cp.max_incorrect_attempts (pos 0))

-- Whatever policy it is applied to, `applyPolicyFields` keeps the id, takes over each of the ten plain
-- fields that the spec gives and leaves each that it does not give, and replaces the challenge
-- policy if the spec gives one, with no old value left in it, and leaves it if not.
pub apply_policy_fields-Applied :
    (fp : PasswordPolicyParameters) (old : Remote.PasswordPolicy)
    → Applied fp old (PasswordPolicy.apply_policy_fields old fp)
unfolding PasswordPolicy.apply_policy_fields PasswordPolicy.apply_complexity_fields
apply_policy_fields-Applied fp old = record {
  id = refl;
  organization = given-Sets fp.managing_organization_id old.managing_organization;
  expiry = given-Sets fp.expiry_period_in_days old.expiry_period_in_days;
  history = given-Sets fp.history_count old.history_count;
  min_length = given-Sets fp.min_length old.complexity.min_length;
  max_length = given-Sets fp.max_length old.complexity.max_length;
  lowercase = given-Sets fp.min_lowercase old.complexity.min_lower_case;
  uppercase = given-Sets fp.min_uppercase old.complexity.min_upper_case;
  numeric = given-Sets fp.min_numeric old.complexity.min_numerics;
  special = given-Sets fp.min_special_chars old.complexity.min_special_chars;
  enabled = given-Sets fp.challenges_enabled old.challenges_enabled;
  challenge = apply_challenge_policy-SetsChallenge fp.challenge_policy old.challenge_policy;
}
