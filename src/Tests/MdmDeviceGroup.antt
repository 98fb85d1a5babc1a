-- ===== src/Tests/MdmDeviceGroup.antt =====
-- The handlers of `internal/controller/mdm/devicegroup/devicegroup.go`, run.
use provider_dip.Base.{Text, Option, none, some, [], ◌≡◌, refl, codes}
use provider_dip.Go.{ok}
use provider_dip.Managed.{Managed, no_details}
use provider_dip.Apis.Mdm
use provider_dip.Apis.Object.{mdm_device_group}
use provider_dip.Mdm.Remote
use provider_dip.Mdm.DeviceGroup
use provider_dip.Mdm.Converge.DeviceGroup.{Kept}
use provider_dip.Controller.{RemoteApi, absent, asserted, create_external, checked, dereference}
use provider_dip.Controller.Lifecycle.{StoresCreated}
use provider_dip.Controller.{observe_external, observe_name, absent}
use provider_dip.Controller.Reconcile.Converge.{OnlyReads}
use provider_dip.Controller.Lifecycle.{StoresCreated, StoresUpdated}
use provider_dip.Apis.Object.{Object}
use provider_dip.Tests.Fake.{service-OnlyReads, service-StoresCreated}
use provider_dip.Tests.Fake
use provider_dip.Tests.Fake.{fresh, service-StoresCreated, service-StoresUpdated, service-Forgets}

abbrev fp : Mdm.DeviceGroupParameters
fp = record {
  name = codes "name";
  description = some (codes "first");
  application_id = none;
  default_group_guid = none;
}

abbrev cr : Text → Managed Mdm.DeviceGroupParameters Mdm.DeviceGroupObservation
cr external_name = record {
  external_name = external_name;
  namespace = codes "team";
  provider_config_ref = none;
  for_provider = fp;
  at_provider = record { id = none };
  ready = none;
}

abbrev make : Remote.DeviceGroup → Remote.DeviceGroup
make = λ body. record body { id = fresh }

abbrev change : Remote.DeviceGroup → Remote.DeviceGroup
change = λ body. body

abbrev remote :
    RemoteApi (Option Remote.DeviceGroup) Remote.DeviceGroup Remote.DeviceGroup Remote.DeviceGroup
remote = Fake.service (λ r. r.id) (λ r. r.id) make change

stores : StoresCreated remote (λ r. r.id) Kept
stores =
    service-StoresCreated (λ r. r.id) (λ r. r.id) make change Kept (λ body. refl)
      (λ body. (refl, refl))

keeps : StoresUpdated remote (λ r. r.id) Kept
keeps =
    service-StoresUpdated (λ r. r.id) (λ r. r.id) make change Kept (λ body. refl)
      (λ body. (refl, refl))

abbrev begin : Object × Option Remote.DeviceGroup
begin = (mdm_device_group (cr []), none)

seen : (DeviceGroup.observe remote begin).0 ≡ ok absent
unfolding DeviceGroup.observe asserted observe_external observe_name
seen = refl

made : (DeviceGroup.create remote (DeviceGroup.observe remote begin).1).0 ≡ ok no_details
unfolding DeviceGroup.observe observe_external observe_name DeviceGroup.create asserted
    create_external checked dereference DeviceGroup.new_group
made = refl

reads : OnlyReads remote
reads = service-OnlyReads (λ r. r.id) (λ r. r.id) make change
