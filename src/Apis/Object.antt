-- ===== src/Apis/Object.antt =====
-- `resource.Managed`: any managed resource, and what a type assertion `mg.(*v1alpha1.Group)` is.
use provider_dip.Base.{String, Option, some, ◌≡◌}
use provider_dip.Managed.{Managed}
use provider_dip.Apis.Mdm
use provider_dip.Apis.Provisioning.{OrgConfigurationParameters, OrgConfigurationObservation}
use provider_dip.Apis.Iam.{
  OrganizationParameters, OrganizationObservation, GroupParameters, GroupObservation,
  RoleParameters, RoleObservation, PropositionParameters, PropositionObservation,
  ApplicationParameters, ApplicationObservation, ClientParameters, ClientObservation,
  ServiceParameters, ServiceObservation, UserParameters, UserObservation, EmailTemplateParameters,
  EmailTemplateObservation, PasswordPolicyParameters, PasswordPolicyObservation,
}

abbrev pub Organization : Type 0
Organization = Managed OrganizationParameters OrganizationObservation

abbrev pub Group : Type 0
Group = Managed GroupParameters GroupObservation

abbrev pub Role : Type 0
Role = Managed RoleParameters RoleObservation

abbrev pub Proposition : Type 0
Proposition = Managed PropositionParameters PropositionObservation

abbrev pub Application : Type 0
Application = Managed ApplicationParameters ApplicationObservation

abbrev pub Client : Type 0
Client = Managed ClientParameters ClientObservation

abbrev pub Service : Type 0
Service = Managed ServiceParameters ServiceObservation

abbrev pub User : Type 0
User = Managed UserParameters UserObservation

abbrev pub EmailTemplate : Type 0
EmailTemplate = Managed EmailTemplateParameters EmailTemplateObservation

abbrev pub PasswordPolicy : Type 0
PasswordPolicy = Managed PasswordPolicyParameters PasswordPolicyObservation

abbrev pub MdmApplication : Type 0
MdmApplication = Managed Mdm.ApplicationParameters Mdm.ApplicationObservation

abbrev pub MdmProposition : Type 0
MdmProposition = Managed Mdm.PropositionParameters Mdm.PropositionObservation

abbrev pub MdmDeviceGroup : Type 0
MdmDeviceGroup = Managed Mdm.DeviceGroupParameters Mdm.DeviceGroupObservation

abbrev pub MdmDeviceType : Type 0
MdmDeviceType = Managed Mdm.DeviceTypeParameters Mdm.DeviceTypeObservation

abbrev pub MdmAuthenticationMethod : Type 0
MdmAuthenticationMethod =
    Managed Mdm.AuthenticationMethodParameters Mdm.AuthenticationMethodObservation

abbrev pub MdmStandardService : Type 0
MdmStandardService = Managed Mdm.StandardServiceParameters Mdm.StandardServiceObservation

abbrev pub OrgConfiguration : Type 0
OrgConfiguration = Managed OrgConfigurationParameters OrgConfigurationObservation

pub data Object : Type 0 where
  organization : Organization → Object
  group : Group → Object
  role : Role → Object
  proposition : Proposition → Object
  application : Application → Object
  client : Client → Object
  service : Service → Object
  user : User → Object
  email_template : EmailTemplate → Object
  password_policy : PasswordPolicy → Object
  mdm_application : MdmApplication → Object
  mdm_proposition : MdmProposition → Object
  mdm_device_group : MdmDeviceGroup → Object
  mdm_device_type : MdmDeviceType → Object
  mdm_authentication_method : MdmAuthenticationMethod → Object
  mdm_standard_service : MdmStandardService → Object
  org_configuration : OrgConfiguration → Object

-- A kind: the assertion, its inverse, and the message for an object of another kind.
pub record Kind (P S : Type 0) : Type 0 where
  pub assert : Object → Option (Managed P S)
  pub object : Managed P S → Object
  pub mismatch : String
  pub assert-object : (cr : Managed P S) → assert (object cr) ≡ some cr
  pub object-assert : (mg : Object) (cr : Managed P S) → assert mg ≡ some cr → object cr ≡ mg
