-- ===== src/Iam/Runs/Organization.antt =====
-- Any sequence of calls of the controller `internal/controller/organization/organization.go`.
use provider_dip.Base.{some, ℕ, ◌≤◌, ◌≡◌, refl, ap, sym}
use provider_dip.Go.{pure, ok-injective}
use provider_dip.Managed.{no_details}
use provider_dip.Apis.Object.{Object, Organization}
use provider_dip.Apis.Kinds.{as_organization, organization_kind}
use provider_dip.Iam.Remote
use provider_dip.Iam.Organization
use provider_dip.Iam.Converge.Organization.{Kept, new_org_current, updated_org_current}
use provider_dip.Controller.{RemoteApi, from_spec, from_named, update_external, delete_external}
use provider_dip.Controller.Lifecycle.{
  GivesUuid, StoresCreated, StoresUpdated, from_spec-IsCurrent, from_named-IsCurrent,
}
use provider_dip.Controller.Session.{Session, Stays, IsNamed}
use provider_dip.Controller.Session.Invariant.{handlers_Session-Stays}
use provider_dip.Controller.Session.Tame.{update_external-Tame, delete_external-Tame}
use provider_dip.Controller.Reconcile.{Reconciled, Run}
use provider_dip.Controller.Reconcile.Phases.{
  Phase, Moves, IsIn, Converges, Reconciled-Moves, Run-bound,
}
use provider_dip.Controller.Reconcile.Converge.{OnlyReads, handlers_Converges}

module _ {W : Type 0}
    (api : RemoteApi W Remote.Organization Remote.Organization Remote.Organization) where
  pub organization_Converges :
      StoresCreated api (λ r. r.id) Kept
      → StoresUpdated api (λ r. r.id) Kept
      → OnlyReads api
      → Converges (Organization.external api)
  unfolding Organization.observe Organization.create Organization.update Organization.delete
  organization_Converges =
      handlers_Converges organization_kind Organization.observer api
        (from_spec Organization.new_org) "cannot create organization" (λ r. r.id) Kept
        (λ _. pure no_details) (from_named Organization.updated_org) "cannot update organization"
        (λ r. r.id) Kept (Organization.delete api)
        (from_spec-IsCurrent Organization.observer Organization.new_org Kept new_org_current)
        (λ r cr w. (refl, refl, refl))
        (from_named-IsCurrent Organization.observer Organization.updated_org Kept
          updated_org_current)
        (λ cr w body e. ap (λ (r : Remote.Organization). r.id) (sym (ok-injective e)))

  -- For organizations: if DIP gives what it creates a UUID, a GET of the id of what was created or
  -- updated returns the fields that `isUpToDate` compares as they were sent, and a GET changes
  -- nothing, then a reconciliation whose calls return no error is a move of the abstract machine:
  -- it creates what is absent, updates what is not up to date and leaves alone what is, and ends up
  -- to date.
  pub organization_Reconciled-Moves :
      (s t : Object × W) {n : ℕ}
      → StoresCreated api (λ r. r.id) Kept
      → StoresUpdated api (λ r. r.id) Kept
      → OnlyReads api
      → Reconciled (Organization.external api) s t n
      → (p : Phase) × (q : Phase) × IsIn (Organization.external api) s p
        × IsIn (Organization.external api) t q
        × Moves p q n
  organization_Reconciled-Moves s t stores keeps reads =
      Reconciled-Moves (Organization.external api) (organization_Converges stores keeps reads) s t

  -- For organizations: if DIP gives what it creates a UUID, a GET of the id of what was created or
  -- updated returns the fields that `isUpToDate` compares as they were sent, and a GET changes
  -- nothing, then in any run of reconciliations whose calls return no error, with failing
  -- observations in between, `Create` and `Update` are called at most once in all.
  pub organization_Run-bound :
      (s t : Object × W) {n : ℕ}
      → StoresCreated api (λ r. r.id) Kept
      → StoresUpdated api (λ r. r.id) Kept
      → OnlyReads api
      → Run (Organization.external api) s t n
      → n ≤ 1
  organization_Run-bound s t stores keeps reads =
      Run-bound (Organization.external api) (organization_Converges stores keeps reads) s t

  -- For organizations: if DIP gives what it creates a UUID, no sequence of calls, whatever their outcomes
  -- and whatever changes in DIP and in the cluster in between, changes the spec, the namespace or
  -- the provider configuration of a resource whose external name is empty or a UUID, and its
  -- external name stays one of these.
  pub organization_Session-Stays :
      (s : Object × W) (cr : Organization) {t : Object × W}
      → GivesUuid api (λ r. r.id)
      → as_organization s.0 ≡ some cr
      → IsNamed cr
      → Session (Organization.external api) s t
      → Stays organization_kind cr t.0
  unfolding Organization.observe Organization.create Organization.update Organization.delete
  organization_Session-Stays s cr stores found named =
      handlers_Session-Stays organization_kind Organization.observer api
        (from_spec Organization.new_org) "cannot create organization" (λ r. r.id)
        (λ _. pure no_details)
        (update_external (from_named Organization.updated_org) api.update
          "cannot update organization")
        (delete_external Organization.org_by_id api.delete "cannot delete organization") stores
        (λ cr w. refl) (λ r cr w. ((refl, refl, refl), refl))
        (update_external-Tame (from_named Organization.updated_org) api.update
          "cannot update organization" (λ cr w. refl))
        (delete_external-Tame {P = _} Organization.org_by_id api.delete _) s cr found named
