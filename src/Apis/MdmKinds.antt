-- ===== src/Apis/MdmKinds.antt =====
-- The kinds of the MDM resources: the type assertion of each with its error message (the constants
-- `errNot…` of the controllers).
use provider_dip.Base.{Option, none, some, ◌≡◌, refl, arith}
use provider_dip.Apis.Mdm
use provider_dip.Apis.Object.{
  Object, Kind, MdmApplication, MdmProposition, MdmDeviceGroup, MdmDeviceType, mdm_application,
  mdm_proposition, mdm_device_group, mdm_device_type, MdmAuthenticationMethod, MdmStandardService,
  mdm_authentication_method, mdm_standard_service,
}

abbrev pub as_mdm_application : Object → Option MdmApplication
as_mdm_application (mdm_application cr) = some cr
as_mdm_application other = none

pub object-as_mdm_application :
    (mg : Object) (cr : MdmApplication) → as_mdm_application mg ≡ some cr → mdm_application cr ≡ mg
object-as_mdm_application (mdm_application c) cr h = ground arith
object-as_mdm_application other cr h = cc

abbrev pub mdm_application_kind : Kind Mdm.ApplicationParameters Mdm.ApplicationObservation
mdm_application_kind = record {
  assert = as_mdm_application;
  object = mdm_application;
  mismatch = "managed resource is not an MDM Application";
  assert-object = λ cr. refl;
  object-assert = object-as_mdm_application;
}

abbrev pub as_mdm_proposition : Object → Option MdmProposition
as_mdm_proposition (mdm_proposition cr) = some cr
as_mdm_proposition other = none

pub object-as_mdm_proposition :
    (mg : Object) (cr : MdmProposition) → as_mdm_proposition mg ≡ some cr → mdm_proposition cr ≡ mg
object-as_mdm_proposition (mdm_proposition c) cr h = ground arith
object-as_mdm_proposition other cr h = cc

abbrev pub mdm_proposition_kind : Kind Mdm.PropositionParameters Mdm.PropositionObservation
mdm_proposition_kind = record {
  assert = as_mdm_proposition;
  object = mdm_proposition;
  mismatch = "managed resource is not an MDM Proposition";
  assert-object = λ cr. refl;
  object-assert = object-as_mdm_proposition;
}

abbrev pub as_mdm_device_group : Object → Option MdmDeviceGroup
as_mdm_device_group (mdm_device_group cr) = some cr
as_mdm_device_group other = none

pub object-as_mdm_device_group :
    (mg : Object) (cr : MdmDeviceGroup)
    → as_mdm_device_group mg ≡ some cr
    → mdm_device_group cr ≡ mg
object-as_mdm_device_group (mdm_device_group c) cr h = ground arith
object-as_mdm_device_group other cr h = cc

abbrev pub mdm_device_group_kind : Kind Mdm.DeviceGroupParameters Mdm.DeviceGroupObservation
mdm_device_group_kind = record {
  assert = as_mdm_device_group;
  object = mdm_device_group;
  mismatch = "managed resource is not an MDM DeviceGroup";
  assert-object = λ cr. refl;
  object-assert = object-as_mdm_device_group;
}

abbrev pub as_mdm_device_type : Object → Option MdmDeviceType
as_mdm_device_type (mdm_device_type cr) = some cr
as_mdm_device_type other = none

pub object-as_mdm_device_type :
    (mg : Object) (cr : MdmDeviceType) → as_mdm_device_type mg ≡ some cr → mdm_device_type cr ≡ mg
object-as_mdm_device_type (mdm_device_type c) cr h = ground arith
object-as_mdm_device_type other cr h = cc

abbrev pub mdm_device_type_kind : Kind Mdm.DeviceTypeParameters Mdm.DeviceTypeObservation
mdm_device_type_kind = record {
  assert = as_mdm_device_type;
  object = mdm_device_type;
  mismatch = "managed resource is not an MDM DeviceType";
  assert-object = λ cr. refl;
  object-assert = object-as_mdm_device_type;
}

abbrev pub as_mdm_authentication_method : Object → Option MdmAuthenticationMethod
as_mdm_authentication_method (mdm_authentication_method cr) = some cr
as_mdm_authentication_method other = none

pub object-as_mdm_authentication_method :
    (mg : Object) (cr : MdmAuthenticationMethod)
    → as_mdm_authentication_method mg ≡ some cr
    → mdm_authentication_method cr ≡ mg
object-as_mdm_authentication_method (mdm_authentication_method c) cr h = ground arith
object-as_mdm_authentication_method other cr h = cc

abbrev pub mdm_authentication_method_kind :
    Kind Mdm.AuthenticationMethodParameters Mdm.AuthenticationMethodObservation
mdm_authentication_method_kind = record {
  assert = as_mdm_authentication_method;
  object = mdm_authentication_method;
  mismatch = "managed resource is not an MDM AuthenticationMethod";
  assert-object = λ cr. refl;
  object-assert = object-as_mdm_authentication_method;
}

abbrev pub as_mdm_standard_service : Object → Option MdmStandardService
as_mdm_standard_service (mdm_standard_service cr) = some cr
as_mdm_standard_service other = none

pub object-as_mdm_standard_service :
    (mg : Object) (cr : MdmStandardService)
    → as_mdm_standard_service mg ≡ some cr
    → mdm_standard_service cr ≡ mg
object-as_mdm_standard_service (mdm_standard_service c) cr h = ground arith
object-as_mdm_standard_service other cr h = cc

abbrev pub mdm_standard_service_kind :
    Kind Mdm.StandardServiceParameters Mdm.StandardServiceObservation
mdm_standard_service_kind = record {
  assert = as_mdm_standard_service;
  object = mdm_standard_service;
  mismatch = "managed resource is not an MDM StandardService";
  assert-object = λ cr. refl;
  object-assert = object-as_mdm_standard_service;
}
