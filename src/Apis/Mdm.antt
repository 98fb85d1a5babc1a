-- ===== src/Apis/Mdm.antt =====
-- The desired and the observed state of the MDM resources: `apis/mdm/v1alpha1/*_types.go`. The
-- fields `…Ref` and `…Selector` are left out: the handlers never read them.
use provider_dip.Base.{Text, Option, List, Bool, ℤ}
use provider_dip.Kube.{SecretKeySelector}

pub record ApplicationParameters : Type 0 where
  pub name : Text
  pub description : Option Text
  pub proposition_id : Option Text
  pub global_reference_id : Text
  pub application_guid : Option Text
  pub default_group_guid : Option Text

pub record ApplicationObservation : Type 0 where
  pub id : Option Text

pub record PropositionParameters : Type 0 where
  pub name : Text
  pub description : Option Text
  pub organization_id : Text
  pub proposition_guid : Option Text
  pub global_reference_id : Text
  pub status : Option Text

pub record PropositionObservation : Type 0 where
  pub id : Option Text

pub record DeviceGroupParameters : Type 0 where
  pub name : Text
  pub description : Option Text
  pub application_id : Option Text
  pub default_group_guid : Option Text

pub record DeviceGroupObservation : Type 0 where
  pub id : Option Text

pub record DeviceTypeParameters : Type 0 where
  pub name : Text
  pub description : Option Text
  pub ctn : Text
  pub device_group_id : Option Text
  pub default_group_guid : Option Text
  pub custom_type_attributes : Option Text

pub record DeviceTypeObservation : Type 0 where
  pub id : Option Text

pub record AuthenticationMethodParameters : Type 0 where
  pub name : Text
  pub description : Option Text
  pub login_name : Text
  pub password_secret_ref : SecretKeySelector
  pub client_id : Text
  pub client_secret_ref : SecretKeySelector
  pub auth_url : Option Text
  pub auth_method : Option Text
  pub api_version : Option Text
  pub organization_id : Option Text

pub record AuthenticationMethodObservation : Type 0 where
  pub id : Option Text

pub record ServiceUrl : Type 0 where
  pub url : Text
  pub sort_order : Option ℤ
  pub authentication_method_id : Option Text

pub record StandardServiceParameters : Type 0 where
  pub name : Text
  pub description : Option Text
  pub trusted : Option Bool
  pub tags : List Text
  pub service_urls : List ServiceUrl
  pub organization_id : Option Text

pub record StandardServiceObservation : Type 0 where
  pub id : Option Text
