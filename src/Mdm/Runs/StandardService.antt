-- ===== src/Mdm/Runs/StandardService.antt =====
-- Any sequence of calls of the controller `internal/controller/mdm/standardservice/standardservice.go`.
use provider_dip.Base.{some, ℕ, ◌≤◌, ◌≡◌, refl, ap, sym}
use provider_dip.Go.{pure, ok-injective}
use provider_dip.Managed.{no_details}
use provider_dip.Apis.Object.{Object, MdmStandardService}
use provider_dip.Apis.MdmKinds.{as_mdm_standard_service, mdm_standard_service_kind}
use provider_dip.Mdm.Remote
use provider_dip.Mdm.StandardService
use provider_dip.Mdm.Converge.StandardService.{Kept, new_service_current, updated_service_current}
use provider_dip.Controller.{RemoteApi, from_spec, from_named, update_external, delete_external}
use provider_dip.Controller.Lifecycle.{
  GivesUuid, StoresCreated, StoresUpdated, from_spec-IsCurrent, from_named-IsCurrent,
}
use provider_dip.Controller.Session.{Session, Stays, IsNamed}
use provider_dip.Controller.Session.Invariant.{handlers_Session-Stays}
use provider_dip.Controller.Session.Tame.{update_external-Tame, delete_external-Tame}
use provider_dip.Controller.Reconcile.{Reconciled, Run}
use provider_dip.Controller.Reconcile.Phases.{
  Phase, Moves, IsIn, Converges, Reconciled-Moves, Run-bound,
}
use provider_dip.Controller.Reconcile.Converge.{OnlyReads, handlers_Converges}

module _ {W : Type 0}
    (api : RemoteApi W Remote.StandardService Remote.StandardService Remote.StandardService) where
  pub mdm_standard_service_Converges :
      StoresCreated api (λ r. r.id) Kept
      → StoresUpdated api (λ r. r.id) Kept
      → OnlyReads api
      → Converges (StandardService.external api)
  unfolding StandardService.observe StandardService.create StandardService.update
      StandardService.delete
  mdm_standard_service_Converges =
      handlers_Converges mdm_standard_service_kind StandardService.observer api
        (from_spec StandardService.new_service) "cannot create MDM standard service" (λ r. r.id)
        Kept (λ _. pure no_details) (from_named StandardService.updated_service)
        "cannot update MDM standard service" (λ r. r.id) Kept (StandardService.delete api)
        (from_spec-IsCurrent StandardService.observer StandardService.new_service Kept
          new_service_current)
        (λ r cr w. (refl, refl, refl))
        (from_named-IsCurrent StandardService.observer StandardService.updated_service Kept
          updated_service_current)
        (λ cr w body e. ap (λ (r : Remote.StandardService). r.id) (sym (ok-injective e)))

  -- For standard services: if DIP gives what it creates a UUID, a GET of the id of what was created or
  -- updated returns the fields that `isUpToDate` compares as they were sent, and a GET changes
  -- nothing, then a reconciliation whose calls return no error is a move of the abstract machine:
  -- it creates what is absent, updates what is not up to date and leaves alone what is, and ends up
  -- to date.
  pub mdm_standard_service_Reconciled-Moves :
      (s t : Object × W) {n : ℕ}
      → StoresCreated api (λ r. r.id) Kept
      → StoresUpdated api (λ r. r.id) Kept
      → OnlyReads api
      → Reconciled (StandardService.external api) s t n
      → (p : Phase) × (q : Phase) × IsIn (StandardService.external api) s p
        × IsIn (StandardService.external api) t q
        × Moves p q n
  mdm_standard_service_Reconciled-Moves s t stores keeps reads =
      Reconciled-Moves (StandardService.external api)
        (mdm_standard_service_Converges stores keeps reads) s t

  -- For standard services: if DIP gives what it creates a UUID, a GET of the id of what was
  -- created or updated returns the fields that `isUpToDate` compares as they were sent, and a GET
  -- changes nothing, then in any run of reconciliations whose calls return no error, with failing
  -- observations in between, `Create` and `Update` are called at most once in all.
  pub mdm_standard_service_Run-bound :
      (s t : Object × W) {n : ℕ}
      → StoresCreated api (λ r. r.id) Kept
      → StoresUpdated api (λ r. r.id) Kept
      → OnlyReads api
      → Run (StandardService.external api) s t n
      → n ≤ 1
  mdm_standard_service_Run-bound s t stores keeps reads =
      Run-bound (StandardService.external api) (mdm_standard_service_Converges stores keeps reads) s
        t

  -- For standard services: if DIP gives what it creates a UUID, no sequence of calls, whatever their outcomes
  -- and whatever changes in DIP and in the cluster in between, changes the spec, the namespace or
  -- the provider configuration of a resource whose external name is empty or a UUID, and its
  -- external name stays one of these.
  pub mdm_standard_service_Session-Stays :
      (s : Object × W) (cr : MdmStandardService) {t : Object × W}
      → GivesUuid api (λ r. r.id)
      → as_mdm_standard_service s.0 ≡ some cr
      → IsNamed cr
      → Session (StandardService.external api) s t
      → Stays mdm_standard_service_kind cr t.0
  unfolding StandardService.observe StandardService.create StandardService.update
      StandardService.delete
  mdm_standard_service_Session-Stays s cr stores found named =
      handlers_Session-Stays mdm_standard_service_kind StandardService.observer api
        (from_spec StandardService.new_service) "cannot create MDM standard service" (λ r. r.id)
        (λ _. pure no_details)
        (update_external (from_named StandardService.updated_service) api.update
          "cannot update MDM standard service")
        (delete_external StandardService.service_by_id api.delete
          "cannot delete MDM standard service")
        stores (λ cr w. refl) (λ r cr w. ((refl, refl, refl), refl))
        (update_external-Tame (from_named StandardService.updated_service) api.update
          "cannot update MDM standard service" (λ cr w. refl))
        (delete_external-Tame {P = _} StandardService.service_by_id api.delete _) s cr found named
