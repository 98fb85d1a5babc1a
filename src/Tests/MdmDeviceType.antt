-- ===== src/Tests/MdmDeviceType.antt =====
-- The handlers of `internal/controller/mdm/devicetype/devicetype.go`, run.
use provider_dip.Base.{Text, Option, none, some, ◌≡◌, refl, codes}
use provider_dip.Go.{ok}
use provider_dip.Managed.{Managed}
use provider_dip.Apis.Mdm
use provider_dip.Apis.Object.{mdm_device_type}
use provider_dip.Mdm.Remote
use provider_dip.Mdm.DeviceType
use provider_dip.Mdm.Converge.DeviceType.{Kept}
use provider_dip.Controller.{RemoteApi, asserted, checked}
use provider_dip.Controller.Lifecycle.{StoresUpdated}
use provider_dip.Mdm.Runs.DeviceType.{mdm_device_type_Reconciled-Moves}
use provider_dip.Controller.{observe_external, observe_name, absent}
use provider_dip.Controller.Reconcile.{creates}
use provider_dip.Controller.Reconcile.Phases.{Phase, Moves, IsIn}
use provider_dip.Controller.Reconcile.Converge.{OnlyReads}
use provider_dip.Controller.Lifecycle.{StoresCreated, StoresUpdated}
use provider_dip.Apis.Object.{Object}
use provider_dip.Tests.Fake.{service-OnlyReads, service-StoresCreated}
use provider_dip.Base.{[]}
use provider_dip.Managed.{no_details}
use provider_dip.Controller.{create_external, dereference}
use provider_dip.Tests.Fake
use provider_dip.Tests.Fake.{fresh, service-StoresCreated, service-StoresUpdated, service-Forgets}

abbrev fp : Mdm.DeviceTypeParameters
fp = record {
  name = codes "name";
  description = some (codes "first");
  ctn = codes "ctn";
  device_group_id = none;
  default_group_guid = none;
  custom_type_attributes = none;
}

abbrev cr : Text → Managed Mdm.DeviceTypeParameters Mdm.DeviceTypeObservation
cr external_name = record {
  external_name = external_name;
  namespace = codes "team";
  provider_config_ref = none;
  for_provider = fp;
  at_provider = record { id = none };
  ready = none;
}

abbrev make : Remote.DeviceType → Remote.DeviceType
make = λ body. record body { id = fresh }

abbrev change : Remote.DeviceType → Remote.DeviceType
change = λ body. body

abbrev remote :
    RemoteApi (Option Remote.DeviceType) Remote.DeviceType Remote.DeviceType Remote.DeviceType
remote = Fake.service (λ r. r.id) (λ r. r.id) make change

keeps : StoresUpdated remote (λ r. r.id) Kept
keeps =
    service-StoresUpdated (λ r. r.id) (λ r. r.id) make change Kept (λ body. refl)
      (λ body. (refl, refl, refl))

stores : StoresCreated remote (λ r. r.id) Kept
stores =
    service-StoresCreated (λ r. r.id) (λ r. r.id) make change Kept (λ body. refl)
      (λ body. (refl, refl, refl))

abbrev begin : Object × Option Remote.DeviceType
begin = (mdm_device_type (cr []), none)

seen : (DeviceType.observe remote begin).0 ≡ ok absent
unfolding DeviceType.observe asserted observe_external observe_name
seen = refl

made : (DeviceType.create remote (DeviceType.observe remote begin).1).0 ≡ ok no_details
unfolding DeviceType.observe observe_external observe_name DeviceType.create asserted
    create_external checked dereference DeviceType.new_type
made = refl

reads : OnlyReads remote
reads = service-OnlyReads (λ r. r.id) (λ r. r.id) make change

mdm_device_type_Reconciled-Moves_example :
    (p : Phase) × (q : Phase) × IsIn (DeviceType.external remote) begin p
    × IsIn
        (DeviceType.external remote)
        (DeviceType.create remote (DeviceType.observe remote begin).1).1
        q
    × Moves p q 1
mdm_device_type_Reconciled-Moves_example =
    mdm_device_type_Reconciled-Moves remote begin _ stores keeps reads
      (creates no_details seen made refl)
