-- ===== src/Iam/PasswordPolicy.antt =====
-- `internal/controller/passwordpolicy/passwordpolicy.go`.
use provider_dip.Base.{Text, List, Bool, true, false, Option, none, some, [], ◌∷◌, given, differs}
use provider_dip.Base.{text_Comparable, int_Comparable, ℤ, pos, if◌then◌else◌}
use provider_dip.Go.{M, pure, ◌>>=◌}
use provider_dip.Managed.{ExternalObservation, ExternalCreation, no_details}
use provider_dip.Apis.Iam.{
  PasswordPolicyParameters, PasswordPolicyObservation, ChallengePolicyParameters,
}
use provider_dip.Apis.Object.{Object}
use provider_dip.Apis.Kinds.{password_policy_kind}
use provider_dip.Iam.Remote
use provider_dip.Controller.{RemoteApi, Observer, asserted, from_spec, from_named, observe_external}
use provider_dip.Controller.{create_external, update_external, delete_external}
use provider_dip.Controller.Connect
use provider_dip.Controller.Session.{ExternalClient}
use provider_dip.Controller.Connect.{Environment}
use provider_dip.Dip.Client.{Client}

-- The table of `isUpToDate`: what the spec says, and what the policy has.
abbrev pub checks : PasswordPolicyParameters → Remote.Complexity → List (Option ℤ × ℤ)
checks fp c =
    (fp.min_length, c.min_length)
    ∷ (fp.max_length, c.max_length)
    ∷ (fp.min_lowercase, c.min_lower_case)
    ∷ (fp.min_uppercase, c.min_upper_case)
    ∷ (fp.min_numeric, c.min_numerics)
    ∷ (fp.min_special_chars, c.min_special_chars)
    ∷ []

-- The loop over the table, which returns at the first difference.
unfoldable pub all_agree : List (Option ℤ × ℤ) → Bool
all_agree [] = true
all_agree ((spec, actual) ∷ checks) =
    let rest = all_agree checks in if differs spec actual then false else rest

unfoldable pub is_up_to_date : PasswordPolicyParameters → Remote.PasswordPolicy → Bool
unfolding all_agree
is_up_to_date fp policy = all_agree (checks fp policy.complexity)

unfoldable pub record_status :
    Remote.PasswordPolicy → PasswordPolicyObservation → PasswordPolicyObservation
record_status policy status = record status { id = some policy.id }

abbrev pub observer :
    Observer PasswordPolicyParameters PasswordPolicyObservation Remote.PasswordPolicy
observer = record {
  message = "cannot get password policy";
  record_status = record_status;
  is_up_to_date = is_up_to_date;
}

abbrev pub no_complexity : Remote.Complexity
no_complexity = record {
  min_length = pos 0;
  max_length = pos 0;
  min_lower_case = pos 0;
  min_upper_case = pos 0;
  min_numerics = pos 0;
  min_special_chars = pos 0;
}

-- `policy := iam.PasswordPolicy{ID: id}`.
abbrev pub policy_by_id : Text → Remote.PasswordPolicy
policy_by_id external_name = record {
  id = external_name;
  managing_organization = [];
  expiry_period_in_days = pos 0;
  history_count = pos 0;
  complexity = no_complexity;
  challenges_enabled = false;
  challenge_policy = none;
}

-- `applyComplexityFields`.
unfoldable pub apply_complexity_fields :
    Remote.PasswordPolicy → PasswordPolicyParameters → Remote.PasswordPolicy
apply_complexity_fields policy fp =
    let c = policy.complexity in
    record policy {
      complexity = record {
        min_length = given fp.min_length c.min_length;
        max_length = given fp.max_length c.max_length;
        min_lower_case = given fp.min_lowercase c.min_lower_case;
        min_upper_case = given fp.min_uppercase c.min_upper_case;
        min_numerics = given fp.min_numeric c.min_numerics;
        min_special_chars = given fp.min_special_chars c.min_special_chars;
      };
    }

-- The challenge policy starts anew, and `MinAnswerLength` is not copied.
unfoldable pub apply_challenge_policy :
    Option ChallengePolicyParameters → Option Remote.ChallengePolicy → Option Remote.ChallengePolicy
apply_challenge_policy none old = old
apply_challenge_policy (some cp) old = some (record {
  default_questions = cp.default_questions;
  max_incorrect_attempts = given cp.max_incorrect_attempts (pos 0);
})

-- `applyPolicyFields`.
unfoldable pub apply_policy_fields :
    Remote.PasswordPolicy → PasswordPolicyParameters → Remote.PasswordPolicy
unfolding apply_complexity_fields apply_challenge_policy
apply_policy_fields policy fp =
    let based : Remote.PasswordPolicy = record policy {
      managing_organization = given fp.managing_organization_id policy.managing_organization;
      expiry_period_in_days = given fp.expiry_period_in_days policy.expiry_period_in_days;
      history_count = given fp.history_count policy.history_count;
    } in
    let complex = apply_complexity_fields based fp in
    record complex {
      challenges_enabled = given fp.challenges_enabled complex.challenges_enabled;
      challenge_policy = apply_challenge_policy fp.challenge_policy complex.challenge_policy;
    }

-- What `Create` and `Update` send.
unfoldable pub new_policy : PasswordPolicyParameters → Remote.PasswordPolicy
unfolding apply_policy_fields
new_policy fp = apply_policy_fields (policy_by_id []) fp

unfoldable pub updated_policy : Text → PasswordPolicyParameters → Remote.PasswordPolicy
unfolding apply_policy_fields
updated_policy external_name fp = apply_policy_fields (policy_by_id external_name) fp

module _ {W : Type 0}
    (api : RemoteApi W Remote.PasswordPolicy Remote.PasswordPolicy Remote.PasswordPolicy) where
  unfoldable pub observe : M (Object × W) ExternalObservation
  unfolding is_up_to_date record_status
  observe = asserted password_policy_kind (observe_external observer api.get)

  unfoldable pub create : M (Object × W) ExternalCreation
  unfolding new_policy
  create = asserted password_policy_kind (do
    created ←
        create_external (from_spec new_policy) api.create "cannot create password policy"
          (λ r. r.id)
    pure no_details)

  unfoldable pub update : M (Object × W) (Unit {0})
  unfolding updated_policy
  update =
      asserted password_policy_kind
        (update_external (from_named updated_policy) api.update "cannot update password policy")

  unfoldable pub delete : M (Object × W) (Unit {0})
  delete =
      asserted password_policy_kind
        (delete_external policy_by_id api.delete "cannot delete password policy")

  -- `external`, whose calls are these.
  abbrev pub external : ExternalClient W
  external = record { observe = observe; create = create; update = update; delete = delete }

unfoldable pub connect :
    {W Iam Mdm Provisioning : Type 0}
    → Environment W Iam Mdm Provisioning
    → M (Object × W) (Client Iam Mdm Provisioning)
unfolding Connect.connect
connect env = Connect.connect password_policy_kind env
