-- ===== src/Iam/Runs/PasswordPolicy.antt =====
-- Any sequence of calls of the controller `internal/controller/passwordpolicy/passwordpolicy.go`.
use provider_dip.Base.{some, ℕ, ◌≤◌, ◌≡◌, refl, ap, sym, ◌∙◌}
use provider_dip.Go.{pure, ok-injective}
use provider_dip.Managed.{no_details}
use provider_dip.Apis.Object.{Object, PasswordPolicy}
use provider_dip.Apis.Kinds.{as_password_policy, password_policy_kind}
use provider_dip.Iam.Remote
use provider_dip.Iam.PasswordPolicy
use provider_dip.Iam.Converge.PasswordPolicy.{
  Kept, new_policy_current, updated_policy_current, updated_policy-id,
}
use provider_dip.Controller.{RemoteApi, from_spec, from_named, update_external, delete_external}
use provider_dip.Controller.Lifecycle.{
  GivesUuid, StoresCreated, StoresUpdated, from_spec-IsCurrent, from_named-IsCurrent,
}
use provider_dip.Controller.Session.{Session, Stays, IsNamed}
use provider_dip.Controller.Session.Invariant.{handlers_Session-Stays}
use provider_dip.Controller.Session.Tame.{update_external-Tame, delete_external-Tame}
use provider_dip.Controller.Reconcile.{Reconciled, Run}
use provider_dip.Controller.Reconcile.Phases.{
  Phase, Moves, IsIn, Converges, Reconciled-Moves, Run-bound,
}
use provider_dip.Controller.Reconcile.Converge.{OnlyReads, handlers_Converges}

module _ {W : Type 0}
    (api : RemoteApi W Remote.PasswordPolicy Remote.PasswordPolicy Remote.PasswordPolicy) where
  pub password_policy_Converges :
      StoresCreated api (λ r. r.id) Kept
      → StoresUpdated api (λ r. r.id) Kept
      → OnlyReads api
      → Converges (PasswordPolicy.external api)
  unfolding PasswordPolicy.observe PasswordPolicy.create PasswordPolicy.update PasswordPolicy.delete
  password_policy_Converges =
      handlers_Converges password_policy_kind PasswordPolicy.observer api
        (from_spec PasswordPolicy.new_policy) "cannot create password policy" (λ r. r.id) Kept
        (λ _. pure no_details) (from_named PasswordPolicy.updated_policy)
        "cannot update password policy" (λ r. r.id) Kept (PasswordPolicy.delete api)
        (from_spec-IsCurrent PasswordPolicy.observer PasswordPolicy.new_policy Kept
          new_policy_current)
        (λ r cr w. (refl, refl, refl))
        (from_named-IsCurrent PasswordPolicy.observer PasswordPolicy.updated_policy Kept
          updated_policy_current)
        (λ cr w body e.
          ap (λ (r : Remote.PasswordPolicy). r.id) (sym (ok-injective e))
          ∙ updated_policy-id cr.external_name cr.for_provider)

  -- For password policies: if DIP gives what it creates a UUID, a GET of the id of what was created or
  -- updated returns the fields that `isUpToDate` compares as they were sent, and a GET changes
  -- nothing, then a reconciliation whose calls return no error is a move of the abstract machine:
  -- it creates what is absent, updates what is not up to date and leaves alone what is, and ends up
  -- to date.
  pub password_policy_Reconciled-Moves :
      (s t : Object × W) {n : ℕ}
      → StoresCreated api (λ r. r.id) Kept
      → StoresUpdated api (λ r. r.id) Kept
      → OnlyReads api
      → Reconciled (PasswordPolicy.external api) s t n
      → (p : Phase) × (q : Phase) × IsIn (PasswordPolicy.external api) s p
        × IsIn (PasswordPolicy.external api) t q
        × Moves p q n
  password_policy_Reconciled-Moves s t stores keeps reads =
      Reconciled-Moves (PasswordPolicy.external api) (password_policy_Converges stores keeps reads)
        s t

  -- For password policies: if DIP gives what it creates a UUID, a GET of the id of what was
  -- created or updated returns the fields that `isUpToDate` compares as they were sent, and a GET
  -- changes nothing, then in any run of reconciliations whose calls return no error, with failing
  -- observations in between, `Create` and `Update` are called at most once in all.
  pub password_policy_Run-bound :
      (s t : Object × W) {n : ℕ}
      → StoresCreated api (λ r. r.id) Kept
      → StoresUpdated api (λ r. r.id) Kept
      → OnlyReads api
      → Run (PasswordPolicy.external api) s t n
      → n ≤ 1
  password_policy_Run-bound s t stores keeps reads =
      Run-bound (PasswordPolicy.external api) (password_policy_Converges stores keeps reads) s t

  -- For password policies: if DIP gives what it creates a UUID, no sequence of calls, whatever their outcomes
  -- and whatever changes in DIP and in the cluster in between, changes the spec, the namespace or
  -- the provider configuration of a resource whose external name is empty or a UUID, and its
  -- external name stays one of these.
  pub password_policy_Session-Stays :
      (s : Object × W) (cr : PasswordPolicy) {t : Object × W}
      → GivesUuid api (λ r. r.id)
      → as_password_policy s.0 ≡ some cr
      → IsNamed cr
      → Session (PasswordPolicy.external api) s t
      → Stays password_policy_kind cr t.0
  unfolding PasswordPolicy.observe PasswordPolicy.create PasswordPolicy.update PasswordPolicy.delete
  password_policy_Session-Stays s cr stores found named =
      handlers_Session-Stays password_policy_kind PasswordPolicy.observer api
        (from_spec PasswordPolicy.new_policy) "cannot create password policy" (λ r. r.id)
        (λ _. pure no_details)
        (update_external (from_named PasswordPolicy.updated_policy) api.update
          "cannot update password policy")
        (delete_external PasswordPolicy.policy_by_id api.delete "cannot delete password policy")
        stores (λ cr w. refl) (λ r cr w. ((refl, refl, refl), refl))
        (update_external-Tame (from_named PasswordPolicy.updated_policy) api.update
          "cannot update password policy" (λ cr w. refl))
        (delete_external-Tame {P = _} PasswordPolicy.policy_by_id api.delete _) s cr found named
