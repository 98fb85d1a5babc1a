-- ===== src/Dip/Config.antt =====
-- `Config` and `ConfigFromSecret` of `internal/clients/dip/client.go`. `encoding/json` enters as
-- the decoder `unmarshal` of a text into a `map[string]string`.
pub mod Fields
use provider_dip.Base.{
  List, [], Text, Option, none, some, String, codes, lookup, text_Comparable, given,
}
use provider_dip.Base.{is_empty, if◌then◌else◌, inl, inr}
use provider_dip.Go.{Error, new, wrap, Outcome, ok, fail, Attempt}
use provider_dip.Dip.Key.{format_private_key}

pub record Config : Type 0 where
  pub region : Text
  pub environment : Text
  pub service_id : Text
  pub service_private_key : Text
  pub token_audience : Text

abbrev pub Credentials : Type 0
Credentials = List (Text × Text)

-- `creds[k]`, which is "" where the key is missing.
abbrev pub entry : String → Credentials → Text
entry k creds = given (lookup (codes k) creds) []

-- `if v, ok := creds[k]; ok && v != "" { x = v }`.
abbrev pub overriding : Option Text → Text → Text
overriding none old = old
overriding (some v) old = if is_empty v then old else v

-- The configuration before its fields are checked.
unfoldable pub merge : Text → Text → Credentials → Config
merge spec_region spec_env creds = record {
  region = overriding (lookup (codes "region") creds) spec_region;
  environment = overriding (lookup (codes "environment") creds) spec_env;
  service_id = entry "service_id" creds;
  service_private_key = format_private_key (entry "service_private_key" creds);
  token_audience = entry "token_audience" creds;
}

unfoldable pub validate : Config → Outcome Config
validate cfg =
    if is_empty cfg.region
    then fail (new "region is required: set in ProviderConfig spec or credentials secret")
    else if is_empty cfg.environment
    then fail (new "environment is required: set in ProviderConfig spec or credentials secret")
    else if is_empty cfg.service_id
    then fail (new "service_id is required in credentials secret")
    else if is_empty cfg.service_private_key
    then fail (new "service_private_key is required in credentials secret")
    else ok cfg

module _ (unmarshal : Text → Attempt Credentials) where
  unfoldable pub config_from_secret : Text → Text → Text → Outcome Config
  unfolding merge validate
  config_from_secret spec_region spec_env secret_data = elim (unmarshal secret_data) [
    | inl e ↦ fail (wrap e "failed to unmarshal credentials")
    | inr creds ↦ validate (merge spec_region spec_env creds)
  ]
