-- ===== src/Iam/Remote.antt =====
-- The structs of go-dip-api's package `iam`, with the fields that the controllers read or write. A
-- struct literal leaves the others at their zero values, and so do the records here.
use provider_dip.Base.{Text, List, Bool, Option, ℤ}

pub record Organization : Type 0 where
  pub id : Text
  pub name : Text
  pub description : Text
  pub display_name : Text
  -- `Parent.Value`
  pub parent : Text
  pub type : Text
  pub external_id : Text
  pub active : Bool

pub record Group : Type 0 where
  pub id : Text
  pub name : Text
  pub description : Text
  pub managing_organization : Text

pub record Role : Type 0 where
  pub id : Text
  pub name : Text
  pub description : Text

-- The arguments of `CreateRole`.
pub record RoleRequest : Type 0 where
  pub name : Text
  pub description : Text
  pub managing_organization : Text

pub record Proposition : Type 0 where
  pub id : Text
  pub name : Text
  pub description : Text
  pub organization_id : Text
  pub global_reference_id : Text

pub record Application : Type 0 where
  pub id : Text
  pub name : Text
  pub description : Text
  pub proposition_id : Text
  pub global_reference_id : Text

pub record ApplicationClient : Type 0 where
  pub id : Text
  pub name : Text
  pub type : Text
  pub client_id : Text
  pub password : Text
  pub description : Text
  pub application_id : Text
  pub global_reference_id : Text
  pub redirection_uris : Option (List Text)
  pub response_types : Option (List Text)
  pub scopes : Option (List Text)
  pub default_scopes : Option (List Text)
  pub consent_implied : Bool
  pub access_token_lifetime : ℤ
  pub refresh_token_lifetime : ℤ
  pub id_token_lifetime : ℤ
  pub disabled : Bool

pub record Service : Type 0 where
  pub id : Text
  pub name : Text
  pub description : Text
  pub application_id : Text
  pub scopes : Option (List Text)
  pub default_scopes : Option (List Text)
  pub access_token_lifetime : ℤ
  pub service_id : Text
  pub private_key : Text
  pub organization_id : Text
  pub expires_on : Text

-- `Name.Given` and `Name.Family`, and `AccountStatus`.
pub record User : Type 0 where
  pub id : Text
  pub login_id : Text
  pub email_address : Text
  pub given_name : Text
  pub family_name : Text
  pub disabled : Bool
  pub email_verified : Bool

pub record TelecomEntry : Type 0 where
  pub system : Text
  pub value : Text

pub record Person : Type 0 where
  pub id : Text
  pub resource_type : Text
  pub login_id : Text
  pub telecom : List TelecomEntry
  pub given_name : Text
  pub family_name : Text
  pub managing_organization : Text
  pub preferred_language : Text
  pub preferred_communication_channel : Text
  pub is_age_validated : Text

pub record EmailTemplate : Type 0 where
  pub id : Text
  pub type : Text
  pub managing_organization : Text
  pub format : Text
  pub locale : Text
  pub subject : Text
  pub from : Text
  pub message : Text
  pub link : Text

pub record Complexity : Type 0 where
  pub min_length : ℤ
  pub max_length : ℤ
  pub min_lower_case : ℤ
  pub min_upper_case : ℤ
  pub min_numerics : ℤ
  pub min_special_chars : ℤ

pub record ChallengePolicy : Type 0 where
  pub default_questions : Option (List Text)
  pub max_incorrect_attempts : ℤ

pub record PasswordPolicy : Type 0 where
  pub id : Text
  pub managing_organization : Text
  pub expiry_period_in_days : ℤ
  pub history_count : ℤ
  pub complexity : Complexity
  pub challenges_enabled : Bool
  pub challenge_policy : Option ChallengePolicy
