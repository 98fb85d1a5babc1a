-- ===== src/Provisioning/Remote.antt =====
-- The structs of go-dip-api's package `provisioning`, with the fields that the controller reads or
-- writes.
use provider_dip.Base.{Text, Option, ℤ}

pub record ServiceAccount : Type 0 where
  pub service_account_id : Text
  pub service_account_key : Text

pub record BootstrapSignatureConfig : Type 0 where
  pub type : Text
  pub padding : Text
  pub salt_length : Text

pub record BootstrapSignature : Type 0 where
  pub public_key : Text
  pub algorithm : Text
  pub config : BootstrapSignatureConfig

pub record Meta : Type 0 where
  pub version_id : ℤ

pub record OrgConfiguration : Type 0 where
  pub id : Text
  pub resource_type : Text
  pub organization_guid : Text
  pub service_account : ServiceAccount
  pub bootstrap_signature : BootstrapSignature
  pub meta : Option Meta
