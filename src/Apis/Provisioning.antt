-- ===== src/Apis/Provisioning.antt =====
-- The desired and the observed state of an organization configuration:
-- `apis/provisioning/v1alpha1/orgconfiguration_types.go`.
use provider_dip.Base.{Text, Option, ℤ}
use provider_dip.Kube.{SecretKeySelector}

pub record BootstrapSignatureConfig : Type 0 where
  pub type : Option Text
  pub padding : Option Text
  pub salt_length : Option Text

pub record BootstrapSignature : Type 0 where
  pub public_key_secret_ref : SecretKeySelector
  pub algorithm : Text
  pub config : Option BootstrapSignatureConfig

pub record ServiceAccount : Type 0 where
  pub service_account_id : Text
  pub service_account_key_secret_ref : SecretKeySelector

pub record OrgConfigurationParameters : Type 0 where
  pub organization_id : Text
  pub service_account : ServiceAccount
  pub bootstrap_signature : BootstrapSignature

pub record OrgConfigurationObservation : Type 0 where
  pub id : Option Text
  pub version_id : Option ℤ
