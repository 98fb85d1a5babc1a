-- ===== src/Iam/Runs/Group.antt =====
-- Any sequence of calls of the controller `internal/controller/group/group.go`.
use provider_dip.Base.{some, ℕ, ◌≤◌, ◌≡◌, refl, ap, sym}
use provider_dip.Go.{Error, ok, fail, pure, ok-injective}
use provider_dip.Managed.{no_details}
use provider_dip.Apis.Object.{Object, Group}
use provider_dip.Apis.Kinds.{as_group, group_kind}
use provider_dip.Iam.Remote
use provider_dip.Iam.Group
use provider_dip.Iam.Converge.Group.{Kept, new_group_current, updated_group_current}
use provider_dip.Controller.{RemoteApi, from_spec, from_named, update_external, delete_external}
use provider_dip.Controller.Lifecycle.{
  GivesUuid, StoresCreated, StoresUpdated, from_spec-IsCurrent, from_named-IsCurrent,
}
use provider_dip.Controller.Session.{Session, Stays, IsNamed}
use provider_dip.Controller.Session.Invariant.{handlers_Session-Stays}
use provider_dip.Controller.Session.Tame.{update_external-Tame, delete_external-Tame}
use provider_dip.Controller.Reconcile.Reaches.{Available, handlers_reach}
use provider_dip.Base.{◌⊎◌}
use provider_dip.Controller.Lifecycle.{settled}
use provider_dip.Controller.Reconcile.{Reconciled, Run}
use provider_dip.Controller.Reconcile.Phases.{
  Phase, Moves, IsIn, Converges, Reconciled-Moves, Run-bound,
}
use provider_dip.Controller.Reconcile.Converge.{OnlyReads, handlers_Converges}

module _ {W : Type 0} (api : RemoteApi W Remote.Group Remote.Group Remote.Group) where
  pub group_Converges :
      StoresCreated api (λ r. r.id) Kept
      → StoresUpdated api (λ r. r.id) Kept
      → OnlyReads api
      → Converges (Group.external api)
  unfolding Group.observe Group.create Group.update Group.delete
  group_Converges =
      handlers_Converges group_kind Group.observer api (from_spec Group.new_group)
        "cannot create group" (λ r. r.id) Kept (λ _. pure no_details)
        (from_named Group.updated_group) "cannot update group" (λ r. r.id) Kept (Group.delete api)
        (from_spec-IsCurrent Group.observer Group.new_group Kept new_group_current)
        (λ r cr w. (refl, refl, refl))
        (from_named-IsCurrent Group.observer Group.updated_group Kept updated_group_current)
        (λ cr w body e. ap (λ (r : Remote.Group). r.id) (sym (ok-injective e)))

  -- For groups: if DIP gives what it creates a UUID, a GET of the id of what was created or
  -- updated returns the fields that `isUpToDate` compares as they were sent, and a GET changes
  -- nothing, then a reconciliation whose calls return no error is a move of the abstract machine:
  -- it creates what is absent, updates what is not up to date and leaves alone what is, and ends up
  -- to date.
  pub group_Reconciled-Moves :
      (s t : Object × W) {n : ℕ}
      → StoresCreated api (λ r. r.id) Kept
      → StoresUpdated api (λ r. r.id) Kept
      → OnlyReads api
      → Reconciled (Group.external api) s t n
      → (p : Phase) × (q : Phase) × IsIn (Group.external api) s p
        × IsIn (Group.external api) t q
        × Moves p q n
  group_Reconciled-Moves s t stores keeps reads =
      Reconciled-Moves (Group.external api) (group_Converges stores keeps reads) s t

  -- For groups: if DIP gives what it creates a UUID, a GET of the id of what was created or
  -- updated returns the fields that `isUpToDate` compares as they were sent, and a GET changes
  -- nothing, then in any run of reconciliations whose calls return no error, with failing
  -- observations in between, `Create` and `Update` are called at most once in all.
  pub group_Run-bound :
      (s t : Object × W) {n : ℕ}
      → StoresCreated api (λ r. r.id) Kept
      → StoresUpdated api (λ r. r.id) Kept
      → OnlyReads api
      → Run (Group.external api) s t n
      → n ≤ 1
  group_Run-bound s t stores keeps reads =
      Run-bound (Group.external api) (group_Converges stores keeps reads) s t

  -- For groups: if DIP gives what it creates a UUID, no sequence of calls, whatever their outcomes
  -- and whatever changes in DIP and in the cluster in between, changes the spec, the namespace or
  -- the provider configuration of a resource whose external name is empty or a UUID, and its
  -- external name stays one of these.
  pub group_Session-Stays :
      (s : Object × W) (cr : Group) {t : Object × W}
      → GivesUuid api (λ r. r.id)
      → as_group s.0 ≡ some cr
      → IsNamed cr
      → Session (Group.external api) s t
      → Stays group_kind cr t.0
  unfolding Group.observe Group.create Group.update Group.delete
  group_Session-Stays s cr stores found named =
      handlers_Session-Stays group_kind Group.observer api (from_spec Group.new_group)
        "cannot create group" (λ r. r.id) (λ _. pure no_details)
        (update_external (from_named Group.updated_group) api.update "cannot update group")
        (delete_external Group.group_by_id api.delete "cannot delete group") stores (λ cr w. refl)
        (λ r cr w. ((refl, refl, refl), refl))
        (update_external-Tame (from_named Group.updated_group) api.update "cannot update group"
          (λ cr w. refl))
        (delete_external-Tame {P = _} Group.group_by_id api.delete _) s cr found named

  -- For groups: if DIP gives what it creates a UUID, a GET of the id of what was created or
  -- updated returns the fields that `isUpToDate` compares as they were sent, and a GET changes
  -- nothing, and if DIP moreover carries out every creation and every update that it is asked for,
  -- then every resource either fails to be observed or can be reconciled, after which it is
  -- observed to exist and to be up to date.
  pub group_reaches :
      StoresCreated api (λ r. r.id) Kept
      → StoresUpdated api (λ r. r.id) Kept
      → OnlyReads api
      → Available api
      → (s : Object × W)
      → ((e : Error) × ((Group.observe api s).0 ≡ fail e))
        ⊎ ((t : Object × W) × (n : ℕ) × Reconciled (Group.external api) s t n
            × ((Group.observe api t).0 ≡ ok settled))
  unfolding Group.observe Group.create Group.update Group.delete
  group_reaches stores keeps reads up =
      handlers_reach group_kind Group.observer api (from_spec Group.new_group) "cannot create group"
        (λ r. r.id) (λ _. pure no_details) (from_named Group.updated_group) "cannot update group"
        (Group.delete api) up (λ s. (_, refl)) (λ r s. (_, refl)) (λ s. (_, refl))
        (group_Converges stores keeps reads)
