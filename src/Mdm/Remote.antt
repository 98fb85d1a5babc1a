-- ===== src/Mdm/Remote.antt =====
-- The structs of go-dip-api's package `mdm`, with the fields that the controllers read or write. A
-- `Reference` and an `Identifier` are their texts. Raw JSON that is nil is `none`.
use provider_dip.Base.{Text, Option, List, Bool, ℤ}

pub record Application : Type 0 where
  pub id : Text
  pub resource_type : Text
  pub name : Text
  pub description : Text
  pub proposition_id : Text
  pub global_reference_id : Text
  pub application_guid : Option Text
  pub default_group_guid : Option Text

pub record Proposition : Type 0 where
  pub id : Text
  pub resource_type : Text
  pub name : Text
  pub description : Text
  pub organization_id : Text
  pub proposition_guid : Option Text
  pub global_reference_id : Text
  pub status : Text

pub record DeviceGroup : Type 0 where
  pub id : Text
  pub resource_type : Text
  pub name : Text
  pub description : Text
  pub application_id : Text
  pub default_group_guid : Option Text

pub record DeviceType : Type 0 where
  pub id : Text
  pub resource_type : Text
  pub name : Text
  pub description : Text
  pub ctn : Text
  pub device_group_id : Text
  pub default_group_guid : Option Text
  pub custom_type_attributes : Option Text

pub record AuthenticationMethod : Type 0 where
  pub id : Text
  pub resource_type : Text
  pub name : Text
  pub description : Text
  pub login_name : Text
  pub password : Text
  pub client_id : Text
  pub client_secret : Text
  pub auth_url : Text
  pub auth_method : Text
  pub api_version : Text
  pub organization_guid : Option Text

pub record ServiceUrl : Type 0 where
  pub url : Text
  pub sort_order : ℤ
  pub authentication_method_id : Option Text

pub record StandardService : Type 0 where
  pub id : Text
  pub resource_type : Text
  pub name : Text
  pub description : Text
  pub trusted : Bool
  pub tags : List Text
  pub service_urls : List ServiceUrl
  pub organization_guid : Option Text
