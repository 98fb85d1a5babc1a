-- ===== src/Iam/Converge/PasswordPolicy.antt =====
-- `internal/controller/passwordpolicy/passwordpolicy.go`.
pub mod Fields
use provider_dip.Base.{
  Text, Text, List, Option, true, none, some, [], ◌∷◌, ◌≡◌, refl, ◌↔◌, arith, given, differs-given,
  differs_iff,
}
use provider_dip.Base.{int_Comparable, ℤ, sym, subst, All}
use provider_dip.Go.{ok, pure}
use provider_dip.Managed.{ExternalCreation, no_details}
use provider_dip.Util.{is_valid_uuid}
use provider_dip.Apis.Iam.{PasswordPolicyParameters, ChallengePolicyParameters}
use provider_dip.Apis.Object.{Object, PasswordPolicy}
use provider_dip.Apis.Kinds.{as_password_policy, password_policy_kind}
use provider_dip.Iam.Remote
use provider_dip.Iam.PasswordPolicy
use provider_dip.Controller.{RemoteApi, absent}
use provider_dip.Controller.Lifecycle.{StoresCreated, StoresUpdated, settled}
use provider_dip.Controller.Deletion.{Forgets}
use provider_dip.Controller.Objects.{
  object_create_spec-observe, object_update_named-observe, object_delete-observe,
}

-- What DIP keeps of a request, as far as `isUpToDate` looks at it.
abbrev pub Kept : Remote.PasswordPolicy → Remote.PasswordPolicy → Type 0
Kept sent policy = policy.complexity ≡ sent.complexity

abbrev pub Agrees : Option ℤ × ℤ → Type 0
Agrees (spec, actual) = (n : ℤ) → spec ≡ some n → n ≡ actual

-- The loop accepts a table exactly when each field that the spec gives has the policy's value.
pub all_agree_iff :
    (table : List (Option ℤ × ℤ)) → (PasswordPolicy.all_agree table ≡ true) ↔ All Agrees table
unfolding PasswordPolicy.all_agree
all_agree_iff [] = (λ _. tt, λ _. refl)
all_agree_iff ((spec, actual) ∷ table) = (
  λ h. ((differs_iff spec actual).0 (ground arith), (all_agree_iff table).0 (ground arith)),
  λ (h, rest). ground (arith, (differs_iff spec actual).1 h, (all_agree_iff table).1 rest),
)

-- A policy agrees with the spec exactly when each of the six complexity fields that the spec gives -
-- the minimal and the maximal length, and the least numbers of lower case, upper case, numeric and
-- special characters - has the value of the policy; no other field counts.
pub policy-is_up_to_date_iff :
    (fp : PasswordPolicyParameters) (policy : Remote.PasswordPolicy)
    → (PasswordPolicy.is_up_to_date fp policy ≡ true) ↔ (
        Agrees (fp.min_length, policy.complexity.min_length)
        × Agrees (fp.max_length, policy.complexity.max_length)
        × Agrees (fp.min_lowercase, policy.complexity.min_lower_case)
        × Agrees (fp.min_uppercase, policy.complexity.min_upper_case)
        × Agrees (fp.min_numeric, policy.complexity.min_numerics)
        × Agrees (fp.min_special_chars, policy.complexity.min_special_chars))
unfolding PasswordPolicy.is_up_to_date
policy-is_up_to_date_iff fp policy =
    let (there, back) = all_agree_iff (PasswordPolicy.checks fp policy.complexity) in
    (
      λ h.
          let (least, (most, (lower, (upper, (digits, (special, _)))))) = there h in
          (least, most, lower, upper, digits, special),
      λ (least, most, lower, upper, digits, special).
          back (least, (most, (lower, (upper, (digits, (special, tt)))))),
    )

module _ (fp : PasswordPolicyParameters) (old : Remote.PasswordPolicy) where
  applied_agrees :
      PasswordPolicy.all_agree
        (PasswordPolicy.checks fp (PasswordPolicy.apply_policy_fields old fp).complexity)
      ≡ true
  unfolding PasswordPolicy.all_agree PasswordPolicy.apply_policy_fields
      PasswordPolicy.apply_complexity_fields
  applied_agrees =
      let c = old.complexity in
      rw (
        differs-given fp.min_length c.min_length,
        differs-given fp.max_length c.max_length,
        differs-given fp.min_lowercase c.min_lower_case,
        differs-given fp.min_uppercase c.min_upper_case,
        differs-given fp.min_numeric c.min_numerics,
        differs-given fp.min_special_chars c.min_special_chars,
      )

  -- Whatever policy the spec's fields are copied into, one with the complexity of the outcome is up
  -- to date.
  pub apply_policy_fields-is_up_to_date :
      (policy : Remote.PasswordPolicy)
      → Kept (PasswordPolicy.apply_policy_fields old fp) policy
      → PasswordPolicy.is_up_to_date fp policy ≡ true
  unfolding PasswordPolicy.is_up_to_date
  apply_policy_fields-is_up_to_date policy kept =
      subst (λ c. PasswordPolicy.all_agree (PasswordPolicy.checks fp c) ≡ true) (sym kept)
        applied_agrees

given_idem : {A : Type 0} (o : Option A) (a : A) → given o (given o a) ≡ given o a
given_idem none a = refl
given_idem (some v) a = refl

challenge_idem :
    (cp : Option ChallengePolicyParameters) (old : Option Remote.ChallengePolicy)
    → PasswordPolicy.apply_challenge_policy cp (PasswordPolicy.apply_challenge_policy cp old)
      ≡ PasswordPolicy.apply_challenge_policy cp old
unfolding PasswordPolicy.apply_challenge_policy
challenge_idem none old = refl
challenge_idem (some cp) old = refl

-- Copying the fields of a spec a second time changes nothing.
pub apply_policy_fields_idem :
    (fp : PasswordPolicyParameters) (old : Remote.PasswordPolicy)
    → let applied = PasswordPolicy.apply_policy_fields old fp in
      PasswordPolicy.apply_policy_fields applied fp ≡ applied
unfolding PasswordPolicy.apply_policy_fields PasswordPolicy.apply_complexity_fields
apply_policy_fields_idem fp old =
    let c = old.complexity in
    rw (
      given_idem fp.managing_organization_id old.managing_organization,
      given_idem fp.expiry_period_in_days old.expiry_period_in_days,
      given_idem fp.history_count old.history_count,
      given_idem fp.min_length c.min_length,
      given_idem fp.max_length c.max_length,
      given_idem fp.min_lowercase c.min_lower_case,
      given_idem fp.min_uppercase c.min_upper_case,
      given_idem fp.min_numeric c.min_numerics,
      given_idem fp.min_special_chars c.min_special_chars,
      given_idem fp.challenges_enabled old.challenges_enabled,
      challenge_idem fp.challenge_policy old.challenge_policy,
    )

pub new_policy_current :
    (fp : PasswordPolicyParameters) (policy : Remote.PasswordPolicy)
    → Kept (PasswordPolicy.new_policy fp) policy
    → PasswordPolicy.is_up_to_date fp policy ≡ true
unfolding PasswordPolicy.new_policy
new_policy_current fp = apply_policy_fields-is_up_to_date fp (PasswordPolicy.policy_by_id [])

pub updated_policy_current :
    (name : Text) (fp : PasswordPolicyParameters) (policy : Remote.PasswordPolicy)
    → Kept (PasswordPolicy.updated_policy name fp) policy
    → PasswordPolicy.is_up_to_date fp policy ≡ true
unfolding PasswordPolicy.updated_policy
updated_policy_current name fp =
    apply_policy_fields-is_up_to_date fp (PasswordPolicy.policy_by_id name)

pub updated_policy-id :
    (name : Text) (fp : PasswordPolicyParameters)
    → (PasswordPolicy.updated_policy name fp).id ≡ name
unfolding PasswordPolicy.updated_policy PasswordPolicy.apply_policy_fields
    PasswordPolicy.apply_complexity_fields
updated_policy-id name fp = refl

module _ {W : Type 0}
    (api : RemoteApi W Remote.PasswordPolicy Remote.PasswordPolicy Remote.PasswordPolicy) where
  -- For password policies: if DIP gives what it creates a UUID, and a GET of it then returns the
  -- complexity that was sent, then after a successful `Create` of any object `Observe` reports
  -- that it exists and is up to date.
  pub policy_create-observe :
      (mg : Object) (w : W) {details : ExternalCreation}
      → StoresCreated api (λ r. r.id) Kept
      → (PasswordPolicy.create api (mg, w)).0 ≡ ok details
      → (PasswordPolicy.observe api (PasswordPolicy.create api (mg, w)).1).0 ≡ ok settled
  unfolding PasswordPolicy.create PasswordPolicy.observe
  policy_create-observe mg w stores h =
      object_create_spec-observe password_policy_kind PasswordPolicy.observer api
        PasswordPolicy.new_policy _ (λ r. r.id) Kept (λ _. pure no_details) mg w new_policy_current
        (λ r cr w. (refl, refl, refl)) stores h

  -- For password policies: if after an update without error a GET of the id returns the complexity
  -- that was sent, then after a successful `Update` of an object whose external name is a UUID
  -- `Observe` reports that it exists and is up to date.
  pub policy_update-observe :
      (mg : Object) (cr : PasswordPolicy) (w : W)
      → as_password_policy mg ≡ some cr
      → is_valid_uuid cr.external_name ≡ true
      → StoresUpdated api (λ r. r.id) Kept
      → (PasswordPolicy.update api (mg, w)).0 ≡ ok tt
      → (PasswordPolicy.observe api (PasswordPolicy.update api (mg, w)).1).0 ≡ ok settled
  unfolding PasswordPolicy.update PasswordPolicy.observe
  policy_update-observe mg cr w found named stores h =
      object_update_named-observe password_policy_kind PasswordPolicy.observer api
        PasswordPolicy.updated_policy _ (λ r. r.id) Kept mg cr w updated_policy_current
        updated_policy-id found named stores h

  -- For password policies: if a GET of a deleted id fails with 400 or 404, then after a successful
  -- `Delete` of any object, whatever its external name, `Observe` reports it absent.
  pub policy_delete-observe :
      (mg : Object) (w : W)
      → Forgets api (λ r. r.id)
      → (PasswordPolicy.delete api (mg, w)).0 ≡ ok tt
      → (PasswordPolicy.observe api (PasswordPolicy.delete api (mg, w)).1).0 ≡ ok absent
  unfolding PasswordPolicy.delete PasswordPolicy.observe
  policy_delete-observe mg w forgets h =
      object_delete-observe password_policy_kind PasswordPolicy.observer api
        PasswordPolicy.policy_by_id (λ r. r.id) _ mg w forgets (λ name. refl) h
