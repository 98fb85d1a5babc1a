-- ===== src/Apis/Kinds.antt =====
-- The kinds of the IAM resources: the type assertion of each with its error message (the constants
-- `errNot…` of the controllers).
use provider_dip.Base.{Option, none, some, ◌≡◌, refl, arith}
use provider_dip.Apis.Iam.{
  OrganizationParameters, OrganizationObservation, GroupParameters, GroupObservation,
  RoleParameters, RoleObservation, PropositionParameters, PropositionObservation,
  ApplicationParameters, ApplicationObservation, ClientParameters, ClientObservation,
  ServiceParameters, ServiceObservation, UserParameters, UserObservation, EmailTemplateParameters,
  EmailTemplateObservation, PasswordPolicyParameters, PasswordPolicyObservation,
}
use provider_dip.Apis.Object.{
  Object, Kind, Organization, Group, Role, Proposition, Application, Client, Service, User,
  EmailTemplate, PasswordPolicy,
}
use provider_dip.Apis.Object.{
  organization, group, role, proposition, application, client, service, user, email_template,
  password_policy,
}

abbrev pub as_organization : Object → Option Organization
as_organization (organization cr) = some cr
as_organization other = none

pub object-as_organization :
    (mg : Object) (cr : Organization) → as_organization mg ≡ some cr → organization cr ≡ mg
object-as_organization (organization c) cr h = ground arith
object-as_organization other cr h = cc

abbrev pub organization_kind : Kind OrganizationParameters OrganizationObservation
organization_kind = record {
  assert = as_organization;
  object = organization;
  mismatch = "managed resource is not an Organization";
  assert-object = λ cr. refl;
  object-assert = object-as_organization;
}

abbrev pub as_group : Object → Option Group
as_group (group cr) = some cr
as_group other = none

pub object-as_group : (mg : Object) (cr : Group) → as_group mg ≡ some cr → group cr ≡ mg
object-as_group (group c) cr h = ground arith
object-as_group other cr h = cc

abbrev pub group_kind : Kind GroupParameters GroupObservation
group_kind = record {
  assert = as_group;
  object = group;
  mismatch = "managed resource is not a Group";
  assert-object = λ cr. refl;
  object-assert = object-as_group;
}

abbrev pub as_role : Object → Option Role
as_role (role cr) = some cr
as_role other = none

pub object-as_role : (mg : Object) (cr : Role) → as_role mg ≡ some cr → role cr ≡ mg
object-as_role (role c) cr h = ground arith
object-as_role other cr h = cc

abbrev pub role_kind : Kind RoleParameters RoleObservation
role_kind = record {
  assert = as_role;
  object = role;
  mismatch = "managed resource is not a Role";
  assert-object = λ cr. refl;
  object-assert = object-as_role;
}

abbrev pub as_proposition : Object → Option Proposition
as_proposition (proposition cr) = some cr
as_proposition other = none

pub object-as_proposition :
    (mg : Object) (cr : Proposition) → as_proposition mg ≡ some cr → proposition cr ≡ mg
object-as_proposition (proposition c) cr h = ground arith
object-as_proposition other cr h = cc

abbrev pub proposition_kind : Kind PropositionParameters PropositionObservation
proposition_kind = record {
  assert = as_proposition;
  object = proposition;
  mismatch = "managed resource is not a Proposition";
  assert-object = λ cr. refl;
  object-assert = object-as_proposition;
}

abbrev pub as_application : Object → Option Application
as_application (application cr) = some cr
as_application other = none

pub object-as_application :
    (mg : Object) (cr : Application) → as_application mg ≡ some cr → application cr ≡ mg
object-as_application (application c) cr h = ground arith
object-as_application other cr h = cc

abbrev pub application_kind : Kind ApplicationParameters ApplicationObservation
application_kind = record {
  assert = as_application;
  object = application;
  mismatch = "managed resource is not an Application";
  assert-object = λ cr. refl;
  object-assert = object-as_application;
}

abbrev pub as_client : Object → Option Client
as_client (client cr) = some cr
as_client other = none

pub object-as_client : (mg : Object) (cr : Client) → as_client mg ≡ some cr → client cr ≡ mg
object-as_client (client c) cr h = ground arith
object-as_client other cr h = cc

abbrev pub client_kind : Kind ClientParameters ClientObservation
client_kind = record {
  assert = as_client;
  object = client;
  mismatch = "managed resource is not a Client";
  assert-object = λ cr. refl;
  object-assert = object-as_client;
}

abbrev pub as_service : Object → Option Service
as_service (service cr) = some cr
as_service other = none

pub object-as_service : (mg : Object) (cr : Service) → as_service mg ≡ some cr → service cr ≡ mg
object-as_service (service c) cr h = ground arith
object-as_service other cr h = cc

abbrev pub service_kind : Kind ServiceParameters ServiceObservation
service_kind = record {
  assert = as_service;
  object = service;
  mismatch = "managed resource is not a Service";
  assert-object = λ cr. refl;
  object-assert = object-as_service;
}

abbrev pub as_user : Object → Option User
as_user (user cr) = some cr
as_user other = none

pub object-as_user : (mg : Object) (cr : User) → as_user mg ≡ some cr → user cr ≡ mg
object-as_user (user c) cr h = ground arith
object-as_user other cr h = cc

abbrev pub user_kind : Kind UserParameters UserObservation
user_kind = record {
  assert = as_user;
  object = user;
  mismatch = "managed resource is not an User";
  assert-object = λ cr. refl;
  object-assert = object-as_user;
}

abbrev pub as_email_template : Object → Option EmailTemplate
as_email_template (email_template cr) = some cr
as_email_template other = none

pub object-as_email_template :
    (mg : Object) (cr : EmailTemplate) → as_email_template mg ≡ some cr → email_template cr ≡ mg
object-as_email_template (email_template c) cr h = ground arith
object-as_email_template other cr h = cc

abbrev pub email_template_kind : Kind EmailTemplateParameters EmailTemplateObservation
email_template_kind = record {
  assert = as_email_template;
  object = email_template;
  mismatch = "managed resource is not an EmailTemplate";
  assert-object = λ cr. refl;
  object-assert = object-as_email_template;
}

abbrev pub as_password_policy : Object → Option PasswordPolicy
as_password_policy (password_policy cr) = some cr
as_password_policy other = none

pub object-as_password_policy :
    (mg : Object) (cr : PasswordPolicy) → as_password_policy mg ≡ some cr → password_policy cr ≡ mg
object-as_password_policy (password_policy c) cr h = ground arith
object-as_password_policy other cr h = cc

abbrev pub password_policy_kind : Kind PasswordPolicyParameters PasswordPolicyObservation
password_policy_kind = record {
  assert = as_password_policy;
  object = password_policy;
  mismatch = "managed resource is not a PasswordPolicy";
  assert-object = λ cr. refl;
  object-assert = object-as_password_policy;
}
