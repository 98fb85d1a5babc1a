-- ===== src/Mdm/Converge/DeviceType.antt =====
-- `internal/controller/mdm/devicetype/devicetype.go`.
use provider_dip.Base.{
  Text, true, some, [], ◌≡◌, refl, arith, differs-given, text_Comparable, text_eq_refl,
}
use provider_dip.Go.{ok, pure}
use provider_dip.Managed.{ExternalCreation, no_details}
use provider_dip.Util.{is_valid_uuid}
use provider_dip.Apis.Mdm
use provider_dip.Apis.Object.{Object, MdmDeviceType}
use provider_dip.Apis.MdmKinds.{as_mdm_device_type, mdm_device_type_kind}
use provider_dip.Mdm.Remote
use provider_dip.Mdm.DeviceType
use provider_dip.Controller.{RemoteApi, absent}
use provider_dip.Controller.Lifecycle.{StoresCreated, StoresUpdated, settled}
use provider_dip.Controller.Deletion.{Forgets}
use provider_dip.Controller.Objects.{
  object_create_spec-observe, object_update_named-observe, object_delete-observe,
}

-- What DIP keeps of a request, as far as `isUpToDate` looks at it.
abbrev pub Kept : Remote.DeviceType → Remote.DeviceType → Type 0
Kept sent dt = (dt.name ≡ sent.name) × (dt.description ≡ sent.description) × (dt.ctn ≡ sent.ctn)

pub new_type_current :
    (fp : Mdm.DeviceTypeParameters) (dt : Remote.DeviceType)
    → Kept (DeviceType.new_type fp) dt
    → DeviceType.is_up_to_date fp dt ≡ true
unfolding DeviceType.is_up_to_date DeviceType.new_type
new_type_current fp dt kept =
    ground (arith, text_eq_refl fp.name, differs-given fp.description [], text_eq_refl fp.ctn)

pub updated_type_current :
    (name : Text) (fp : Mdm.DeviceTypeParameters) (dt : Remote.DeviceType)
    → Kept (DeviceType.updated_type name fp) dt
    → DeviceType.is_up_to_date fp dt ≡ true
unfolding DeviceType.is_up_to_date DeviceType.updated_type
updated_type_current name fp dt kept =
    ground (arith, text_eq_refl fp.name, differs-given fp.description [], text_eq_refl fp.ctn)

module _ {W : Type 0}
    (api : RemoteApi W Remote.DeviceType Remote.DeviceType Remote.DeviceType) where
  -- For MDM device types: if MDM gives what it creates a UUID, and a GET of it then returns the
  -- name, description and CTN that were sent, then after a successful `Create` of any object
  -- `Observe` reports that it exists and is up to date.
  pub mdm_device_type_create-observe :
      (mg : Object) (w : W) {details : ExternalCreation}
      → StoresCreated api (λ r. r.id) Kept
      → (DeviceType.create api (mg, w)).0 ≡ ok details
      → (DeviceType.observe api (DeviceType.create api (mg, w)).1).0 ≡ ok settled
  unfolding DeviceType.create DeviceType.observe
  mdm_device_type_create-observe mg w stores h =
      object_create_spec-observe mdm_device_type_kind DeviceType.observer api DeviceType.new_type _
        (λ r. r.id) Kept (λ _. pure no_details) mg w new_type_current (λ r cr w. (refl, refl, refl))
        stores h

  -- For MDM device types: if after an update without error a GET of the id returns the name,
  -- description and CTN that were sent, then after a successful `Update` of an object whose
  -- external name is a UUID `Observe` reports that it exists and is up to date.
  pub mdm_device_type_update-observe :
      (mg : Object) (cr : MdmDeviceType) (w : W)
      → as_mdm_device_type mg ≡ some cr
      → is_valid_uuid cr.external_name ≡ true
      → StoresUpdated api (λ r. r.id) Kept
      → (DeviceType.update api (mg, w)).0 ≡ ok tt
      → (DeviceType.observe api (DeviceType.update api (mg, w)).1).0 ≡ ok settled
  unfolding DeviceType.update DeviceType.observe
  mdm_device_type_update-observe mg cr w found named stores h =
      object_update_named-observe mdm_device_type_kind DeviceType.observer api
        DeviceType.updated_type _ (λ r. r.id) Kept mg cr w updated_type_current (λ name fp. refl)
        found named stores h

  -- For MDM device types: if a GET of a deleted id fails with 400 or 404, then after a successful
  -- `Delete` of any object, whatever its external name, `Observe` reports it absent.
  pub mdm_device_type_delete-observe :
      (mg : Object) (w : W)
      → Forgets api (λ r. r.id)
      → (DeviceType.delete api (mg, w)).0 ≡ ok tt
      → (DeviceType.observe api (DeviceType.delete api (mg, w)).1).0 ≡ ok absent
  unfolding DeviceType.delete DeviceType.observe
  mdm_device_type_delete-observe mg w forgets h =
      object_delete-observe mdm_device_type_kind DeviceType.observer api DeviceType.by_id
        (λ r. r.id) _ mg w forgets (λ name. refl) h
