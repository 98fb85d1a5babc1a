-- ===== src/Apis/ProvisioningKinds.antt =====
-- The kind of the organization configurations: the type assertion with its error message.
use provider_dip.Base.{Option, none, some, ◌≡◌, refl, arith}
use provider_dip.Apis.Provisioning.{OrgConfigurationParameters, OrgConfigurationObservation}
use provider_dip.Apis.Object.{Object, Kind, OrgConfiguration, org_configuration}

abbrev pub as_org_configuration : Object → Option OrgConfiguration
as_org_configuration (org_configuration cr) = some cr
as_org_configuration other = none

pub object-as_org_configuration :
    (mg : Object) (cr : OrgConfiguration)
    → as_org_configuration mg ≡ some cr
    → org_configuration cr ≡ mg
object-as_org_configuration (org_configuration c) cr h = ground arith
object-as_org_configuration other cr h = cc

abbrev pub org_configuration_kind : Kind OrgConfigurationParameters OrgConfigurationObservation
org_configuration_kind = record {
  assert = as_org_configuration;
  object = org_configuration;
  mismatch = "managed resource is not an OrgConfiguration";
  assert-object = λ cr. refl;
  object-assert = object-as_org_configuration;
}
