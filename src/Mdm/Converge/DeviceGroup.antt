-- ===== src/Mdm/Converge/DeviceGroup.antt =====
-- `internal/controller/mdm/devicegroup/devicegroup.go`.
use provider_dip.Base.{
  Text, true, some, [], ◌≡◌, refl, arith, differs-given, text_Comparable, text_eq_refl,
}
use provider_dip.Go.{ok, pure}
use provider_dip.Managed.{ExternalCreation, no_details}
use provider_dip.Util.{is_valid_uuid}
use provider_dip.Apis.Mdm
use provider_dip.Apis.Object.{Object, MdmDeviceGroup}
use provider_dip.Apis.MdmKinds.{as_mdm_device_group, mdm_device_group_kind}
use provider_dip.Mdm.Remote
use provider_dip.Mdm.DeviceGroup
use provider_dip.Controller.{RemoteApi, absent}
use provider_dip.Controller.Lifecycle.{StoresCreated, StoresUpdated, settled}
use provider_dip.Controller.Deletion.{Forgets}
use provider_dip.Controller.Objects.{
  object_create_spec-observe, object_update_named-observe, object_delete-observe,
}

-- What DIP keeps of a request, as far as `isUpToDate` looks at it.
abbrev pub Kept : Remote.DeviceGroup → Remote.DeviceGroup → Type 0
Kept sent dg = (dg.name ≡ sent.name) × (dg.description ≡ sent.description)

pub new_group_current :
    (fp : Mdm.DeviceGroupParameters) (dg : Remote.DeviceGroup)
    → Kept (DeviceGroup.new_group fp) dg
    → DeviceGroup.is_up_to_date fp dg ≡ true
unfolding DeviceGroup.is_up_to_date DeviceGroup.new_group
new_group_current fp dg kept = ground (arith, text_eq_refl fp.name, differs-given fp.description [])

pub updated_group_current :
    (name : Text) (fp : Mdm.DeviceGroupParameters) (dg : Remote.DeviceGroup)
    → Kept (DeviceGroup.updated_group name fp) dg
    → DeviceGroup.is_up_to_date fp dg ≡ true
unfolding DeviceGroup.is_up_to_date DeviceGroup.updated_group
updated_group_current name fp dg kept =
    ground (arith, text_eq_refl fp.name, differs-given fp.description [])

module _ {W : Type 0}
    (api : RemoteApi W Remote.DeviceGroup Remote.DeviceGroup Remote.DeviceGroup) where
  -- For MDM device groups: if MDM gives what it creates a UUID, and a GET of it then returns the
  -- name and description that were sent, then after a successful `Create` of any object `Observe`
  -- reports that it exists and is up to date.
  pub mdm_device_group_create-observe :
      (mg : Object) (w : W) {details : ExternalCreation}
      → StoresCreated api (λ r. r.id) Kept
      → (DeviceGroup.create api (mg, w)).0 ≡ ok details
      → (DeviceGroup.observe api (DeviceGroup.create api (mg, w)).1).0 ≡ ok settled
  unfolding DeviceGroup.create DeviceGroup.observe
  mdm_device_group_create-observe mg w stores h =
      object_create_spec-observe mdm_device_group_kind DeviceGroup.observer api
        DeviceGroup.new_group _ (λ r. r.id) Kept (λ _. pure no_details) mg w new_group_current
        (λ r cr w. (refl, refl, refl)) stores h

  -- For MDM device groups: if after an update without error a GET of the id returns the name and
  -- description that were sent, then after a successful `Update` of an object whose external name
  -- is a UUID `Observe` reports that it exists and is up to date.
  pub mdm_device_group_update-observe :
      (mg : Object) (cr : MdmDeviceGroup) (w : W)
      → as_mdm_device_group mg ≡ some cr
      → is_valid_uuid cr.external_name ≡ true
      → StoresUpdated api (λ r. r.id) Kept
      → (DeviceGroup.update api (mg, w)).0 ≡ ok tt
      → (DeviceGroup.observe api (DeviceGroup.update api (mg, w)).1).0 ≡ ok settled
  unfolding DeviceGroup.update DeviceGroup.observe
  mdm_device_group_update-observe mg cr w found named stores h =
      object_update_named-observe mdm_device_group_kind DeviceGroup.observer api
        DeviceGroup.updated_group _ (λ r. r.id) Kept mg cr w updated_group_current (λ name fp. refl)
        found named stores h

  -- For MDM device groups: if a GET of a deleted id fails with 400 or 404, then after a successful
  -- `Delete` of any object, whatever its external name, `Observe` reports it absent.
  pub mdm_device_group_delete-observe :
      (mg : Object) (w : W)
      → Forgets api (λ r. r.id)
      → (DeviceGroup.delete api (mg, w)).0 ≡ ok tt
      → (DeviceGroup.observe api (DeviceGroup.delete api (mg, w)).1).0 ≡ ok absent
  unfolding DeviceGroup.delete DeviceGroup.observe
  mdm_device_group_delete-observe mg w forgets h =
      object_delete-observe mdm_device_group_kind DeviceGroup.observer api DeviceGroup.by_id
        (λ r. r.id) _ mg w forgets (λ name. refl) h
