-- ===== src/Controller/Secrets.antt =====
-- What the controllers read from Kubernetes secrets: `getSecretValue`, which
-- `internal/controller/mdm/authenticationmethod/authenticationmethod.go` and
-- `internal/controller/provisioning/orgconfiguration/orgconfiguration.go` share, and the start of
-- their `Create` and `Update`, which read two secrets before they build a request.
pub mod Read
pub mod Errors
use provider_dip.Base.{Text, String, Option, none, some, [], ◌∷◌, is_empty, if◌then◌else◌, lookup}
use provider_dip.Base.{text_Comparable}
use provider_dip.Go.{M, pure, throw, errorf, rewrap, call, lift_outcome, wrapping, ◌>>=◌}
use provider_dip.Managed.{Managed}
use provider_dip.Kube.{KubeApi, SecretKeySelector, SecretData, NamespacedName}
use provider_dip.Apis.Object.{Object}
use provider_dip.Controller.{Handler, resource, on_world}

-- The secret's name, in the namespace of the resource unless the reference has one.
abbrev pub secret_name : SecretKeySelector → Text → NamespacedName
secret_name ref namespace = record {
  name = ref.name;
  namespace = if is_empty ref.namespace then namespace else ref.namespace;
}

abbrev pub read_key : {S : Type 0} → NamespacedName → Text → Option Text → M S Text
read_key nn key none =
    throw (errorf "secret %s/%s does not have key %s" (nn.namespace ∷ nn.name ∷ key ∷ []))
read_key nn key (some value) = pure value

-- Without a default key: an empty key is refused, after the secret was read.
unfoldable pub read_required_key : {S : Type 0} → NamespacedName → Text → SecretData → M S Text
read_required_key nn key secret =
    if is_empty key
    then throw (errorf "secret key is required" [])
    else read_key nn key (lookup key secret)

module _ {W : Type 0} (kube : KubeApi W Object) (namespace : Text) where
  unfoldable pub get_secret_value : SecretKeySelector → M W Text
  unfolding read_required_key
  get_secret_value ref = do
    found ← call (kube.get_secret (secret_name ref namespace))
    secret ← wrapping "cannot get secret" found
    read_required_key (secret_name ref namespace) ref.key secret

  -- Two secrets, each with the message of its error, and then the request.
  unfoldable pub two_secrets_request :
      {P S Body : Type 0}
      → (P → SecretKeySelector)
      → String
      → (P → SecretKeySelector)
      → String
      → (Managed P S → Text → Text → Body)
      → Handler P S W Body
  unfolding get_secret_value
  two_secrets_request first first_message second second_message build = do
    cr ← resource
    read_first ← on_world (get_secret_value (first cr.for_provider))
    first_value ← lift_outcome (rewrap first_message read_first)
    read_second ← on_world (get_secret_value (second cr.for_provider))
    second_value ← lift_outcome (rewrap second_message read_second)
    pure (build cr first_value second_value)
