-- ===== src/Mdm/Runs/DeviceType.antt =====
-- Any sequence of calls of the controller `internal/controller/mdm/devicetype/devicetype.go`.
use provider_dip.Base.{some, ℕ, ◌≤◌, ◌≡◌, refl, ap, sym}
use provider_dip.Go.{pure, ok-injective}
use provider_dip.Managed.{no_details}
use provider_dip.Apis.Object.{Object, MdmDeviceType}
use provider_dip.Apis.MdmKinds.{as_mdm_device_type, mdm_device_type_kind}
use provider_dip.Mdm.Remote
use provider_dip.Mdm.DeviceType
use provider_dip.Mdm.Converge.DeviceType.{Kept, new_type_current, updated_type_current}
use provider_dip.Controller.{RemoteApi, from_spec, from_named, update_external, delete_external}
use provider_dip.Controller.Lifecycle.{
  GivesUuid, StoresCreated, StoresUpdated, from_spec-IsCurrent, from_named-IsCurrent,
}
use provider_dip.Controller.Session.{Session, Stays, IsNamed}
use provider_dip.Controller.Session.Invariant.{handlers_Session-Stays}
use provider_dip.Controller.Session.Tame.{update_external-Tame, delete_external-Tame}
use provider_dip.Controller.Reconcile.{Reconciled, Run}
use provider_dip.Controller.Reconcile.Phases.{
  Phase, Moves, IsIn, Converges, Reconciled-Moves, Run-bound,
}
use provider_dip.Controller.Reconcile.Converge.{OnlyReads, handlers_Converges}

module _ {W : Type 0}
    (api : RemoteApi W Remote.DeviceType Remote.DeviceType Remote.DeviceType) where
  pub mdm_device_type_Converges :
      StoresCreated api (λ r. r.id) Kept
      → StoresUpdated api (λ r. r.id) Kept
      → OnlyReads api
      → Converges (DeviceType.external api)
  unfolding DeviceType.observe DeviceType.create DeviceType.update DeviceType.delete
  mdm_device_type_Converges =
      handlers_Converges mdm_device_type_kind DeviceType.observer api
        (from_spec DeviceType.new_type) "cannot create MDM device type" (λ r. r.id) Kept
        (λ _. pure no_details) (from_named DeviceType.updated_type) "cannot update MDM device type"
        (λ r. r.id) Kept (DeviceType.delete api)
        (from_spec-IsCurrent DeviceType.observer DeviceType.new_type Kept new_type_current)
        (λ r cr w. (refl, refl, refl))
        (from_named-IsCurrent DeviceType.observer DeviceType.updated_type Kept updated_type_current)
        (λ cr w body e. ap (λ (r : Remote.DeviceType). r.id) (sym (ok-injective e)))

  -- For device types: if DIP gives what it creates a UUID, a GET of the id of what was created or
  -- updated returns the fields that `isUpToDate` compares as they were sent, and a GET changes
  -- nothing, then a reconciliation whose calls return no error is a move of the abstract machine:
  -- it creates what is absent, updates what is not up to date and leaves alone what is, and ends up
  -- to date.
  pub mdm_device_type_Reconciled-Moves :
      (s t : Object × W) {n : ℕ}
      → StoresCreated api (λ r. r.id) Kept
      → StoresUpdated api (λ r. r.id) Kept
      → OnlyReads api
      → Reconciled (DeviceType.external api) s t n
      → (p : Phase) × (q : Phase) × IsIn (DeviceType.external api) s p
        × IsIn (DeviceType.external api) t q
        × Moves p q n
  mdm_device_type_Reconciled-Moves s t stores keeps reads =
      Reconciled-Moves (DeviceType.external api) (mdm_device_type_Converges stores keeps reads) s t

  -- For device types: if DIP gives what it creates a UUID, a GET of the id of what was created or
  -- updated returns the fields that `isUpToDate` compares as they were sent, and a GET changes
  -- nothing, then in any run of reconciliations whose calls return no error, with failing
  -- observations in between, `Create` and `Update` are called at most once in all.
  pub mdm_device_type_Run-bound :
      (s t : Object × W) {n : ℕ}
      → StoresCreated api (λ r. r.id) Kept
      → StoresUpdated api (λ r. r.id) Kept
      → OnlyReads api
      → Run (DeviceType.external api) s t n
      → n ≤ 1
  mdm_device_type_Run-bound s t stores keeps reads =
      Run-bound (DeviceType.external api) (mdm_device_type_Converges stores keeps reads) s t

  -- For device types: if DIP gives what it creates a UUID, no sequence of calls, whatever their outcomes
  -- and whatever changes in DIP and in the cluster in between, changes the spec, the namespace or
  -- the provider configuration of a resource whose external name is empty or a UUID, and its
  -- external name stays one of these.
  pub mdm_device_type_Session-Stays :
      (s : Object × W) (cr : MdmDeviceType) {t : Object × W}
      → GivesUuid api (λ r. r.id)
      → as_mdm_device_type s.0 ≡ some cr
      → IsNamed cr
      → Session (DeviceType.external api) s t
      → Stays mdm_device_type_kind cr t.0
  unfolding DeviceType.observe DeviceType.create DeviceType.update DeviceType.delete
  mdm_device_type_Session-Stays s cr stores found named =
      handlers_Session-Stays mdm_device_type_kind DeviceType.observer api
        (from_spec DeviceType.new_type) "cannot create MDM device type" (λ r. r.id)
        (λ _. pure no_details)
        (update_external (from_named DeviceType.updated_type) api.update
          "cannot update MDM device type")
        (delete_external DeviceType.by_id api.delete "cannot delete MDM device type") stores
        (λ cr w. refl) (λ r cr w. ((refl, refl, refl), refl))
        (update_external-Tame (from_named DeviceType.updated_type) api.update
          "cannot update MDM device type" (λ cr w. refl))
        (delete_external-Tame {P = _} DeviceType.by_id api.delete _) s cr found named
