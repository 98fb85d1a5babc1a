-- ===== src/Mdm/DeviceType.antt =====
-- `internal/controller/mdm/devicetype/devicetype.go`.
use provider_dip.Base.{
  Text, Bool, true, false, none, some, [], given, differs, ◌!=◌, text_Comparable, codes,
  if◌then◌else◌,
}
use provider_dip.Go.{M, pure, ◌>>=◌}
use provider_dip.Managed.{ExternalObservation, ExternalCreation, no_details}
use provider_dip.Apis.Mdm
use provider_dip.Apis.Object.{Object}
use provider_dip.Apis.MdmKinds.{mdm_device_type_kind}
use provider_dip.Mdm.Remote
use provider_dip.Controller.{RemoteApi, Observer, asserted, from_spec, from_named, observe_external}
use provider_dip.Controller.{create_external, update_external, delete_external}
use provider_dip.Controller.Session.{ExternalClient}
use provider_dip.Controller.Connect.{Environment, connect_mdm}
use provider_dip.Dip.Client.{Client}

unfoldable pub is_up_to_date : Mdm.DeviceTypeParameters → Remote.DeviceType → Bool
is_up_to_date fp dt =
    if fp.name != dt.name
    then false
    else if differs fp.description dt.description
    then false
    else if fp.ctn != dt.ctn
    then false
    else true

unfoldable pub record_status :
    Remote.DeviceType → Mdm.DeviceTypeObservation → Mdm.DeviceTypeObservation
record_status dt status = record status { id = some dt.id }

abbrev pub observer : Observer Mdm.DeviceTypeParameters Mdm.DeviceTypeObservation Remote.DeviceType
observer = record {
  message = "cannot get MDM device type";
  record_status = record_status;
  is_up_to_date = is_up_to_date;
}

-- What `Create` and `Update` send.
unfoldable pub new_type : Mdm.DeviceTypeParameters → Remote.DeviceType
new_type fp = record {
  id = [];
  resource_type = codes "DeviceType";
  name = fp.name;
  description = given fp.description [];
  ctn = fp.ctn;
  device_group_id = given fp.device_group_id [];
  default_group_guid = fp.default_group_guid;
  custom_type_attributes = fp.custom_type_attributes;
}

unfoldable pub updated_type : Text → Mdm.DeviceTypeParameters → Remote.DeviceType
updated_type external_name fp = record {
  id = external_name;
  resource_type = codes "DeviceType";
  name = fp.name;
  description = given fp.description [];
  ctn = fp.ctn;
  device_group_id = given fp.device_group_id [];
  default_group_guid = fp.default_group_guid;
  custom_type_attributes = fp.custom_type_attributes;
}

abbrev pub by_id : Text → Remote.DeviceType
by_id external_name = record {
  id = external_name;
  resource_type = [];
  name = [];
  description = [];
  ctn = [];
  device_group_id = [];
  default_group_guid = none;
  custom_type_attributes = none;
}

module _ {W : Type 0}
    (api : RemoteApi W Remote.DeviceType Remote.DeviceType Remote.DeviceType) where
  unfoldable pub observe : M (Object × W) ExternalObservation
  unfolding is_up_to_date record_status
  observe = asserted mdm_device_type_kind (observe_external observer api.get)

  unfoldable pub create : M (Object × W) ExternalCreation
  unfolding new_type
  create = asserted mdm_device_type_kind (do
    created ←
        create_external (from_spec new_type) api.create "cannot create MDM device type" (λ r. r.id)
    pure no_details)

  unfoldable pub update : M (Object × W) (Unit {0})
  unfolding updated_type
  update =
      asserted mdm_device_type_kind
        (update_external (from_named updated_type) api.update "cannot update MDM device type")

  unfoldable pub delete : M (Object × W) (Unit {0})
  delete =
      asserted mdm_device_type_kind
        (delete_external by_id api.delete "cannot delete MDM device type")

  -- `external`, whose calls are these.
  abbrev pub external : ExternalClient W
  external = record { observe = observe; create = create; update = update; delete = delete }

unfoldable pub connect :
    {W Iam Mdm Provisioning : Type 0}
    → Environment W Iam Mdm Provisioning
    → M (Object × W) (Client Iam Mdm Provisioning)
unfolding connect_mdm
connect env = connect_mdm mdm_device_type_kind env
