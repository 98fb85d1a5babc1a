-- ===== src/Kube.antt =====
-- The Kubernetes side of the provider: names, secrets, `ProviderConfig`
-- (`apis/v1alpha1/types.go`), and the calls of the Kubernetes client and of crossplane-runtime that
-- the controllers make, as the record `KubeApi` over a world `W`.
use provider_dip.Base.{Text, List, Option}
use provider_dip.Go.{Error, Attempt}

-- `types.NamespacedName`.
pub record NamespacedName : Type 0 where
  pub name : Text
  pub namespace : Text

-- `xpv1.SecretKeySelector`.
pub record SecretKeySelector : Type 0 where
  pub name : Text
  pub namespace : Text
  pub key : Text

-- `corev1.Secret`, its data.
abbrev pub SecretData : Type 0
SecretData = List (Text × Text)

pub record ProviderCredentials : Type 0 where
  pub source : Text
  pub secret_ref : Option SecretKeySelector

pub record ProviderConfigSpec : Type 0 where
  pub region : Text
  pub environment : Text
  pub credentials : ProviderCredentials

-- `Object` is the type of the managed resources.
pub record KubeApi (W Object : Type 0) : Type 0 where
  -- `usage.Track`.
  pub track : Object → W → Option Error × W
  -- `kube.Get` of a ProviderConfig and of a Secret.
  pub get_provider_config : NamespacedName → W → Attempt ProviderConfigSpec × W
  pub get_secret : NamespacedName → W → Attempt SecretData × W
  -- `resource.CommonCredentialExtractor`.
  pub extract : Text → Option SecretKeySelector → W → Attempt Text × W
