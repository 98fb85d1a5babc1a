-- ===== src/Dip/Config/Fields.antt =====
-- Which configurations `ConfigFromSecret` accepts, and where their fields come from.
use provider_dip.Base.{
  ℕ, sym, ◌∙◌, ◌++◌, subst, [], ◌∷◌, Text, some, ◌≡◌, ◌≢◌, refl, ap, codes, lookup, text_Comparable,
  arith,
}
use provider_dip.Base.{false, ◌↔◌, inl, inr, is_empty, ◌⊎◌}
use provider_dip.Go.{Error, wrap, ok, fail, Attempt}
use provider_dip.Dip.Key.{format_private_key}
use provider_dip.Dip.Key.Layout.{format_private_key-cases, format_private_key_idem}
use provider_dip.Dip.Config.{
  Config, Credentials, entry, overriding, merge, validate, config_from_secret,
}

-- Every field that the client needs is there.
pub record IsValid (cfg : Config) : Type 0 where
  pub region : cfg.region ≢ []
  pub environment : cfg.environment ≢ []
  pub service_id : cfg.service_id ≢ []
  pub service_private_key : cfg.service_private_key ≢ []

is_empty-nil : (s : Text) → is_empty s ≡ false → s ≢ []
is_empty-nil [] h = cc
is_empty-nil (c ∷ s) h = λ e. cc

pub is_empty-ne : (s : Text) → s ≢ [] → is_empty s ≡ false
is_empty-ne [] h = absurd (h refl)
is_empty-ne (c ∷ s) h = refl

validate_ok :
    (cfg : Config) {c : Config}
    → validate cfg ≡ ok c
    → (is_empty cfg.region ≡ false)
      × (is_empty cfg.environment ≡ false)
      × (is_empty cfg.service_id ≡ false)
      × (is_empty cfg.service_private_key ≡ false)
      × (c ≡ cfg)
unfolding validate
validate_ok cfg h = ground arith

validate-IsValid : (cfg : Config) {c : Config} → validate cfg ≡ ok c → IsValid c × (c ≡ cfg)
validate-IsValid cfg h =
    let (r, e, i, k, same) = validate_ok cfg h in
    (
      rw same (record {
        region = is_empty-nil cfg.region r;
        environment = is_empty-nil cfg.environment e;
        service_id = is_empty-nil cfg.service_id i;
        service_private_key = is_empty-nil cfg.service_private_key k;
      }),
      same,
    )

IsValid-validate : (cfg : Config) → IsValid cfg → validate cfg ≡ ok cfg
unfolding validate
IsValid-validate cfg v = rw (
  is_empty-ne cfg.region v.region,
  is_empty-ne cfg.environment v.environment,
  is_empty-ne cfg.service_id v.service_id,
  is_empty-ne cfg.service_private_key v.service_private_key,
)

-- Formatting a key that is there leaves one.
format_private_key-ne-nil : (key : Text) → key ≢ [] → format_private_key key ≢ []
format_private_key-ne-nil key h = elim (format_private_key-cases key) [
  | inl same ↦ rw same h
  | inr laid ↦ rw laid.output (header_first laid.header _ _)
]
  where
    header_first : (s : Text) (c : ℕ) (t : Text) → s ++ c ∷ t ≢ []
    header_first [] c t = λ e. cc
    header_first (d ∷ s) c t = λ e. cc

Attempt-cases : {A : Type 0} (t : Attempt A) → ((e : Error) × (t ≡ inl e)) ⊎ ((a : A) × (t ≡ inr a))
Attempt-cases (inl e) = inl (e, refl)
Attempt-cases (inr a) = inr (a, refl)

module _ (unmarshal : Text → Attempt Credentials) (spec_region spec_env secret_data : Text) where
  decoded :
      {creds : Credentials}
      → unmarshal secret_data ≡ inr creds
      → config_from_secret unmarshal spec_region spec_env secret_data
        ≡ validate (merge spec_region spec_env creds)
  unfolding config_from_secret validate
  decoded e = rw (e, config_from_secret)

  undecoded :
      {e : Error}
      → unmarshal secret_data ≡ inl e
      → config_from_secret unmarshal spec_region spec_env secret_data
        ≡ fail (wrap e "failed to unmarshal credentials")
  unfolding config_from_secret
  undecoded e = rw (e, config_from_secret)

  abbrev pub Accepted : Config → Type 0
  Accepted cfg =
      (creds : Credentials) × (unmarshal secret_data ≡ inr creds)
      × (cfg ≡ merge spec_region spec_env creds)
      × IsValid cfg

  accepted :
      (cfg : Config)
      → config_from_secret unmarshal spec_region spec_env secret_data ≡ ok cfg
      → Accepted cfg
  accepted cfg h = elim (Attempt-cases (unmarshal secret_data)) [
    | inl (e, bad) ↦ cc (sym (undecoded bad) ∙ h)
    | inr (creds, good) ↦
        let (v, same) =
          validate-IsValid (merge spec_region spec_env creds) (sym (decoded good) ∙ h) in
        (creds, good, same, v)
  ]

  -- The secret is accepted with the result `cfg` exactly when it decodes to credentials whose merge
  -- with the spec is `cfg`, and region, environment, service id and private key of `cfg` are not
  -- empty.
  pub config_from_secret_ok_iff :
      (cfg : Config)
      → (config_from_secret unmarshal spec_region spec_env secret_data ≡ ok cfg) ↔ Accepted cfg
  config_from_secret_ok_iff cfg = (
    accepted cfg,
    λ (creds, good, same, v).
        decoded good
        ∙ IsValid-validate (merge spec_region spec_env creds) (subst IsValid same v)
        ∙ ap ok (sym same),
  )

  -- The private key of an accepted secret is in its final layout: formatting it again changes
  -- nothing.
  pub config_from_secret-formatted :
      {cfg : Config}
      → config_from_secret unmarshal spec_region spec_env secret_data ≡ ok cfg
      → format_private_key cfg.service_private_key ≡ cfg.service_private_key
  unfolding merge
  config_from_secret-formatted {cfg} h =
      let (creds, _, same, _) = accepted cfg h in
      rw same (format_private_key_idem (entry "service_private_key" creds))

  -- A secret with a service id and a private key is accepted, if region and environment come out
  -- non-empty from the secret or the spec, whatever the form of the key.
  pub config_from_secret_complete :
      (creds : Credentials) (id key : Text)
      → unmarshal secret_data ≡ inr creds
      → lookup (codes "service_id") creds ≡ some id
      → id ≢ []
      → lookup (codes "service_private_key") creds ≡ some key
      → key ≢ []
      → overriding (lookup (codes "region") creds) spec_region ≢ []
      → overriding (lookup (codes "environment") creds) spec_env ≢ []
      → config_from_secret unmarshal spec_region spec_env secret_data
        ≡ ok (record {
          region = overriding (lookup (codes "region") creds) spec_region;
          environment = overriding (lookup (codes "environment") creds) spec_env;
          service_id = id;
          service_private_key = format_private_key key;
          token_audience = entry "token_audience" creds;
        })
  unfolding merge
  config_from_secret_complete creds id key good has_id id_there has_key key_there region env =
      decoded good
      ∙ IsValid-validate (merge spec_region spec_env creds) (record {
        region = region;
        environment = env;
        service_id = rw has_id id_there;
        service_private_key = rw has_key (format_private_key-ne-nil key key_there);
      })
      ∙ rw (has_id, has_key)

-- Region and environment of the secret win: where the secret has both, the spec is not looked at.
pub config_from_secret-override :
    (unmarshal : Text → Attempt Credentials) (r e r' e' secret_data : Text) (creds : Credentials)
    (region env : Text)
    → unmarshal secret_data ≡ inr creds
    → lookup (codes "region") creds ≡ some region
    → region ≢ []
    → lookup (codes "environment") creds ≡ some env
    → env ≢ []
    → config_from_secret unmarshal r e secret_data ≡ config_from_secret unmarshal r' e' secret_data
unfolding merge
config_from_secret-override unmarshal r e r' e' secret creds region env good has_r r_there has_e
      e_there =
    decoded unmarshal r e secret good ∙ same ∙ sym (decoded unmarshal r' e' secret good)
  where
    same : validate (merge r e creds) ≡ validate (merge r' e' creds)
    same = rw (has_r, has_e, is_empty-ne region r_there, is_empty-ne env e_there)
