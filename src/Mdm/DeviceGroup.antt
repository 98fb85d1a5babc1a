-- ===== src/Mdm/DeviceGroup.antt =====
-- `internal/controller/mdm/devicegroup/devicegroup.go`.
use provider_dip.Base.{
  Text, Bool, true, false, none, some, [], given, differs, ◌!=◌, text_Comparable, codes,
  if◌then◌else◌,
}
use provider_dip.Go.{M, pure, ◌>>=◌}
use provider_dip.Managed.{ExternalObservation, ExternalCreation, no_details}
use provider_dip.Apis.Mdm
use provider_dip.Apis.Object.{Object}
use provider_dip.Apis.MdmKinds.{mdm_device_group_kind}
use provider_dip.Mdm.Remote
use provider_dip.Controller.{RemoteApi, Observer, asserted, from_spec, from_named, observe_external}
use provider_dip.Controller.{create_external, update_external, delete_external}
use provider_dip.Controller.Session.{ExternalClient}
use provider_dip.Controller.Connect.{Environment, connect_mdm}
use provider_dip.Dip.Client.{Client}

unfoldable pub is_up_to_date : Mdm.DeviceGroupParameters → Remote.DeviceGroup → Bool
is_up_to_date fp dg =
    if fp.name != dg.name
    then false
    else if differs fp.description dg.description
    then false
    else true

unfoldable pub record_status :
    Remote.DeviceGroup → Mdm.DeviceGroupObservation → Mdm.DeviceGroupObservation
record_status dg status = record status { id = some dg.id }

abbrev pub observer :
    Observer Mdm.DeviceGroupParameters Mdm.DeviceGroupObservation Remote.DeviceGroup
observer = record {
  message = "cannot get MDM device group";
  record_status = record_status;
  is_up_to_date = is_up_to_date;
}

-- What `Create` and `Update` send.
unfoldable pub new_group : Mdm.DeviceGroupParameters → Remote.DeviceGroup
new_group fp = record {
  id = [];
  resource_type = codes "DeviceGroup";
  name = fp.name;
  description = given fp.description [];
  application_id = given fp.application_id [];
  default_group_guid = fp.default_group_guid;
}

unfoldable pub updated_group : Text → Mdm.DeviceGroupParameters → Remote.DeviceGroup
updated_group external_name fp = record {
  id = external_name;
  resource_type = codes "DeviceGroup";
  name = fp.name;
  description = given fp.description [];
  application_id = given fp.application_id [];
  default_group_guid = fp.default_group_guid;
}

abbrev pub by_id : Text → Remote.DeviceGroup
by_id external_name = record {
  id = external_name;
  resource_type = [];
  name = [];
  description = [];
  application_id = [];
  default_group_guid = none;
}

module _ {W : Type 0}
    (api : RemoteApi W Remote.DeviceGroup Remote.DeviceGroup Remote.DeviceGroup) where
  unfoldable pub observe : M (Object × W) ExternalObservation
  unfolding is_up_to_date record_status
  observe = asserted mdm_device_group_kind (observe_external observer api.get)

  unfoldable pub create : M (Object × W) ExternalCreation
  unfolding new_group
  create = asserted mdm_device_group_kind (do
    created ←
        create_external (from_spec new_group) api.create "cannot create MDM device group"
          (λ r. r.id)
    pure no_details)

  unfoldable pub update : M (Object × W) (Unit {0})
  unfolding updated_group
  update =
      asserted mdm_device_group_kind
        (update_external (from_named updated_group) api.update "cannot update MDM device group")

  unfoldable pub delete : M (Object × W) (Unit {0})
  delete =
      asserted mdm_device_group_kind
        (delete_external by_id api.delete "cannot delete MDM device group")

  -- `external`, whose calls are these.
  abbrev pub external : ExternalClient W
  external = record { observe = observe; create = create; update = update; delete = delete }

unfoldable pub connect :
    {W Iam Mdm Provisioning : Type 0}
    → Environment W Iam Mdm Provisioning
    → M (Object × W) (Client Iam Mdm Provisioning)
unfolding connect_mdm
connect env = connect_mdm mdm_device_group_kind env
