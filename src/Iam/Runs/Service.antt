-- ===== src/Iam/Runs/Service.antt =====
-- Any sequence of calls of the controller `internal/controller/service/service.go`.
use provider_dip.Base.{some, ℕ, ◌≤◌, ◌≡◌, refl, ap, sym}
use provider_dip.Go.{pure, ok-injective, ◌>>◌}
use provider_dip.Apis.Object.{Object, Service}
use provider_dip.Apis.Kinds.{as_service, service_kind}
use provider_dip.Iam.Remote
use provider_dip.Iam.Service
use provider_dip.Iam.Converge.Service.{Kept, new_service_current, updated_service_current}
use provider_dip.Controller.{
  RemoteApi, from_spec, from_named, update_external, delete_external, modify,
}
use provider_dip.Controller.Lifecycle.{
  GivesUuid, StoresCreated, StoresUpdated, from_spec-IsCurrent, from_named-IsCurrent,
}
use provider_dip.Controller.Session.{Session, Stays, IsNamed}
use provider_dip.Controller.Session.Invariant.{handlers_Session-Stays}
use provider_dip.Controller.Session.Tame.{update_external-Tame, delete_external-Tame}
use provider_dip.Controller.Reconcile.{Reconciled, Run}
use provider_dip.Controller.Reconcile.Phases.{
  Phase, Moves, IsIn, Converges, Reconciled-Moves, Run-bound,
}
use provider_dip.Controller.Reconcile.Converge.{OnlyReads, handlers_Converges}

module _ {W : Type 0} (api : RemoteApi W Remote.Service Remote.Service Remote.Service) where
  pub service_Converges :
      StoresCreated api (λ r. r.id) Kept
      → StoresUpdated api (λ r. r.id) Kept
      → OnlyReads api
      → Converges (Service.external api)
  unfolding Service.observe Service.create Service.update Service.delete
  service_Converges =
      handlers_Converges service_kind Service.observer api (from_spec Service.new_service)
        "cannot create service" (λ r. r.id) Kept
        (λ created.
          modify (λ cr. record cr { at_provider = Service.record_created created cr.at_provider })
          >> pure (record { connection_details = Service.connection_details created }))
        (from_named Service.updated_service) "cannot update service" (λ r. r.id) Kept
        (Service.delete api)
        (from_spec-IsCurrent Service.observer Service.new_service Kept new_service_current)
        (λ r cr w. (refl, refl, refl))
        (from_named-IsCurrent Service.observer Service.updated_service Kept updated_service_current)
        (λ cr w body e. ap (λ (r : Remote.Service). r.id) (sym (ok-injective e)))

  -- For services: if DIP gives what it creates a UUID, a GET of the id of what was created or
  -- updated returns the fields that `isUpToDate` compares as they were sent, and a GET changes
  -- nothing, then a reconciliation whose calls return no error is a move of the abstract machine:
  -- it creates what is absent, updates what is not up to date and leaves alone what is, and ends up
  -- to date.
  pub service_Reconciled-Moves :
      (s t : Object × W) {n : ℕ}
      → StoresCreated api (λ r. r.id) Kept
      → StoresUpdated api (λ r. r.id) Kept
      → OnlyReads api
      → Reconciled (Service.external api) s t n
      → (p : Phase) × (q : Phase) × IsIn (Service.external api) s p
        × IsIn (Service.external api) t q
        × Moves p q n
  service_Reconciled-Moves s t stores keeps reads =
      Reconciled-Moves (Service.external api) (service_Converges stores keeps reads) s t

  -- For services: if DIP gives what it creates a UUID, a GET of the id of what was created or
  -- updated returns the fields that `isUpToDate` compares as they were sent, and a GET changes
  -- nothing, then in any run of reconciliations whose calls return no error, with failing
  -- observations in between, `Create` and `Update` are called at most once in all.
  pub service_Run-bound :
      (s t : Object × W) {n : ℕ}
      → StoresCreated api (λ r. r.id) Kept
      → StoresUpdated api (λ r. r.id) Kept
      → OnlyReads api
      → Run (Service.external api) s t n
      → n ≤ 1
  service_Run-bound s t stores keeps reads =
      Run-bound (Service.external api) (service_Converges stores keeps reads) s t

  -- For services: if DIP gives what it creates a UUID, no sequence of calls, whatever their outcomes
  -- and whatever changes in DIP and in the cluster in between, changes the spec, the namespace or
  -- the provider configuration of a resource whose external name is empty or a UUID, and its
  -- external name stays one of these.
  pub service_Session-Stays :
      (s : Object × W) (cr : Service) {t : Object × W}
      → GivesUuid api (λ r. r.id)
      → as_service s.0 ≡ some cr
      → IsNamed cr
      → Session (Service.external api) s t
      → Stays service_kind cr t.0
  unfolding Service.observe Service.create Service.update Service.delete
  service_Session-Stays s cr stores found named =
      handlers_Session-Stays service_kind Service.observer api (from_spec Service.new_service)
        "cannot create service" (λ r. r.id)
        (λ created.
          modify (λ cr. record cr { at_provider = Service.record_created created cr.at_provider })
          >> pure (record { connection_details = Service.connection_details created }))
        (update_external (from_named Service.updated_service) api.update "cannot update service")
        (delete_external Service.service_by_id api.delete "cannot delete service") stores
        (λ cr w. refl) (λ r cr w. ((refl, refl, refl), refl))
        (update_external-Tame (from_named Service.updated_service) api.update
          "cannot update service" (λ cr w. refl))
        (delete_external-Tame {P = _} Service.service_by_id api.delete _) s cr found named
