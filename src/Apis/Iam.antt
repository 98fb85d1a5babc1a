-- ===== src/Apis/Iam.antt =====
-- The desired and the observed state of the IAM resources: `apis/iam/v1alpha1/*_types.go`. A slice
-- that may be nil is an `Option`. The fields `…Ref` and `…Selector` are left out: the handlers never
-- read them, the generated resolvers do.
use provider_dip.Base.{Text, Option, List, Bool, ℤ}
use provider_dip.Kube.{SecretKeySelector}

pub record OrganizationParameters : Type 0 where
  pub name : Text
  pub display_name : Option Text
  pub description : Option Text
  pub parent_org_id : Option Text
  pub type : Option Text
  pub external_id : Option Text

pub record OrganizationObservation : Type 0 where
  pub id : Option Text
  pub active : Option Bool

pub record GroupParameters : Type 0 where
  pub name : Text
  pub description : Option Text
  pub managing_organization_id : Option Text

pub record GroupObservation : Type 0 where
  pub id : Option Text

pub record RoleParameters : Type 0 where
  pub name : Text
  pub description : Option Text
  pub managing_organization_id : Option Text
  pub permissions : Option (List Text)

pub record RoleObservation : Type 0 where
  pub id : Option Text

pub record PropositionParameters : Type 0 where
  pub name : Text
  pub description : Option Text
  pub organization_id : Option Text
  pub global_reference_id : Text

pub record PropositionObservation : Type 0 where
  pub id : Option Text

pub record ApplicationParameters : Type 0 where
  pub name : Text
  pub description : Option Text
  pub proposition_id : Option Text
  pub global_reference_id : Text

pub record ApplicationObservation : Type 0 where
  pub id : Option Text

pub record ClientParameters : Type 0 where
  pub name : Text
  pub type : Text
  pub client_id : Text
  pub password_secret_ref : SecretKeySelector
  pub description : Text
  pub application_id : Option Text
  pub global_reference_id : Text
  pub redirection_uris : Option (List Text)
  pub response_types : Option (List Text)
  pub scopes : Option (List Text)
  pub default_scopes : Option (List Text)
  pub consent_implied : Option Bool
  pub access_token_lifetime : Option ℤ
  pub refresh_token_lifetime : Option ℤ
  pub id_token_lifetime : Option ℤ

pub record ClientObservation : Type 0 where
  pub id : Option Text
  pub client_id : Option Text
  pub disabled : Option Bool

pub record ServiceParameters : Type 0 where
  pub name : Text
  pub description : Option Text
  pub application_id : Option Text
  pub private_key_secret_ref : Option SecretKeySelector
  pub scopes : Option (List Text)
  pub default_scopes : Option (List Text)
  pub access_token_lifetime : Option ℤ
  pub refresh_token_lifetime : Option ℤ
  pub token_endpoint_auth_method : Option Text

pub record ServiceObservation : Type 0 where
  pub id : Option Text
  pub service_id : Option Text
  pub organization_id : Option Text
  pub expires_on : Option Text

pub record UserParameters : Type 0 where
  pub login_id : Text
  pub email : Text
  pub first_name : Option Text
  pub last_name : Option Text
  pub organization_id : Option Text
  pub preferred_language : Option Text
  pub preferred_communication_channel : Option Text
  pub is_age_validated : Option Bool
  pub password_secret_ref : Option SecretKeySelector

pub record UserObservation : Type 0 where
  pub id : Option Text
  pub account_status : Option Text
  pub email_verified : Option Bool

pub record EmailTemplateParameters : Type 0 where
  pub type : Text
  pub managing_organization_id : Option Text
  pub format : Option Text
  pub locale : Option Text
  pub subject : Option Text
  pub from : Option Text
  pub message : Option Text
  pub link : Option Text

pub record EmailTemplateObservation : Type 0 where
  pub id : Option Text

pub record ChallengePolicyParameters : Type 0 where
  pub default_questions : Option (List Text)
  pub min_answer_length : Option ℤ
  pub max_incorrect_attempts : Option ℤ

pub record PasswordPolicyParameters : Type 0 where
  pub managing_organization_id : Option Text
  pub expiry_period_in_days : Option ℤ
  pub history_count : Option ℤ
  pub min_length : Option ℤ
  pub max_length : Option ℤ
  pub min_lowercase : Option ℤ
  pub min_uppercase : Option ℤ
  pub min_numeric : Option ℤ
  pub min_special_chars : Option ℤ
  pub challenges_enabled : Option Bool
  pub challenge_policy : Option ChallengePolicyParameters

pub record PasswordPolicyObservation : Type 0 where
  pub id : Option Text
