-- ===== src/Mdm/Runs/Application.antt =====
-- Any sequence of calls of the controller `internal/controller/mdm/application/application.go`.
use provider_dip.Base.{some, ℕ, ◌≤◌, ◌≡◌, refl, ap, sym}
use provider_dip.Go.{pure, ok-injective}
use provider_dip.Managed.{no_details, deleting}
use provider_dip.Apis.Object.{Object, MdmApplication}
use provider_dip.Apis.MdmKinds.{as_mdm_application, mdm_application_kind}
use provider_dip.Mdm.Remote
use provider_dip.Mdm.Application
use provider_dip.Mdm.Converge.Application.{Kept, new_app_current, updated_app_current}
use provider_dip.Controller.{RemoteApi, from_spec, from_named, update_external, set_conditions}
use provider_dip.Controller.Lifecycle.{
  GivesUuid, StoresCreated, StoresUpdated, from_spec-IsCurrent, from_named-IsCurrent,
}
use provider_dip.Controller.Session.{Session, Stays, IsNamed}
use provider_dip.Controller.Session.Invariant.{handlers_Session-Stays}
use provider_dip.Controller.Session.Tame.{update_external-Tame, deleting-Tame}
use provider_dip.Controller.Reconcile.{Reconciled, Run}
use provider_dip.Controller.Reconcile.Phases.{
  Phase, Moves, IsIn, Converges, Reconciled-Moves, Run-bound,
}
use provider_dip.Controller.Reconcile.Converge.{OnlyReads, handlers_Converges}

module _ {W : Type 0}
    (api : RemoteApi W Remote.Application Remote.Application Remote.Application) where
  pub mdm_application_Converges :
      StoresCreated api (λ r. r.id) Kept
      → StoresUpdated api (λ r. r.id) Kept
      → OnlyReads api
      → Converges (Application.external api)
  unfolding Application.observe Application.create Application.update Application.delete
  mdm_application_Converges =
      handlers_Converges mdm_application_kind Application.observer api
        (from_spec Application.new_app) "cannot create MDM application" (λ r. r.id) Kept
        (λ _. pure no_details) (from_named Application.updated_app) "cannot update MDM application"
        (λ r. r.id) Kept (Application.delete api)
        (from_spec-IsCurrent Application.observer Application.new_app Kept new_app_current)
        (λ r cr w. (refl, refl, refl))
        (from_named-IsCurrent Application.observer Application.updated_app Kept updated_app_current)
        (λ cr w body e. ap (λ (r : Remote.Application). r.id) (sym (ok-injective e)))

  -- For MDM applications: if DIP gives what it creates a UUID, a GET of the id of what was created or
  -- updated returns the fields that `isUpToDate` compares as they were sent, and a GET changes
  -- nothing, then a reconciliation whose calls return no error is a move of the abstract machine:
  -- it creates what is absent, updates what is not up to date and leaves alone what is, and ends up
  -- to date.
  pub mdm_application_Reconciled-Moves :
      (s t : Object × W) {n : ℕ}
      → StoresCreated api (λ r. r.id) Kept
      → StoresUpdated api (λ r. r.id) Kept
      → OnlyReads api
      → Reconciled (Application.external api) s t n
      → (p : Phase) × (q : Phase) × IsIn (Application.external api) s p
        × IsIn (Application.external api) t q
        × Moves p q n
  mdm_application_Reconciled-Moves s t stores keeps reads =
      Reconciled-Moves (Application.external api) (mdm_application_Converges stores keeps reads) s t

  -- For MDM applications: if DIP gives what it creates a UUID, a GET of the id of what was created
  -- or updated returns the fields that `isUpToDate` compares as they were sent, and a GET changes
  -- nothing, then in any run of reconciliations whose calls return no error, with failing
  -- observations in between, `Create` and `Update` are called at most once in all.
  pub mdm_application_Run-bound :
      (s t : Object × W) {n : ℕ}
      → StoresCreated api (λ r. r.id) Kept
      → StoresUpdated api (λ r. r.id) Kept
      → OnlyReads api
      → Run (Application.external api) s t n
      → n ≤ 1
  mdm_application_Run-bound s t stores keeps reads =
      Run-bound (Application.external api) (mdm_application_Converges stores keeps reads) s t

  -- For MDM applications: if DIP gives what it creates a UUID, no sequence of calls, whatever their outcomes
  -- and whatever changes in DIP and in the cluster in between, changes the spec, the namespace or
  -- the provider configuration of a resource whose external name is empty or a UUID, and its
  -- external name stays one of these.
  pub mdm_application_Session-Stays :
      (s : Object × W) (cr : MdmApplication) {t : Object × W}
      → GivesUuid api (λ r. r.id)
      → as_mdm_application s.0 ≡ some cr
      → IsNamed cr
      → Session (Application.external api) s t
      → Stays mdm_application_kind cr t.0
  unfolding Application.observe Application.create Application.update Application.delete
  mdm_application_Session-Stays s cr stores found named =
      handlers_Session-Stays mdm_application_kind Application.observer api
        (from_spec Application.new_app) "cannot create MDM application" (λ r. r.id)
        (λ _. pure no_details)
        (update_external (from_named Application.updated_app) api.update
          "cannot update MDM application")
        (set_conditions deleting) stores (λ cr w. refl) (λ r cr w. ((refl, refl, refl), refl))
        (update_external-Tame (from_named Application.updated_app) api.update
          "cannot update MDM application" (λ cr w. refl))
        deleting-Tame s cr found named
