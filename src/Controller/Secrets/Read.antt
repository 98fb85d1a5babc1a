-- ===== src/Controller/Secrets/Read.antt =====
-- What a successful read of the secrets means.
use provider_dip.Base.{
  [], ◌∷◌, ◌≢◌, refl, if◌then◌else◌, Text, String, Option, false, none, some, inr, ◌≡◌, ◌↔◌, ap,
  sym, ◌∙◌, subst, lookup, is_empty, arith, true, text_Comparable,
}
use provider_dip.Go.{ok, ok-injective, rewrap_then, wrapping, wrapping_then, continue, pure}
use provider_dip.Managed.{Managed}
use provider_dip.Kube.{KubeApi, SecretKeySelector, SecretData, NamespacedName}
use provider_dip.Apis.Object.{Object}
use provider_dip.Controller.{Handler, Observer}
use provider_dip.Controller.Frame.{ReadsOnly}
use provider_dip.Controller.Lifecycle.{IsCurrent}
use provider_dip.Controller.Secrets.{
  secret_name, read_key, read_required_key, get_secret_value, two_secrets_request,
}

-- What is used is what is given, or the default where that is empty.
abbrev pub DefaultsTo : Text → Text → Text → Type 0
DefaultsTo given default used = (given ≡ [] → used ≡ default) × (given ≢ [] → used ≡ given)

-- The secret that a reference names: in the namespace of the reference or, where it gives none, in
-- that of the resource.
abbrev pub Names : SecretKeySelector → Text → NamespacedName → Type 0
Names ref namespace nn = (nn.name ≡ ref.name) × DefaultsTo ref.namespace namespace nn.namespace

pub fallback-DefaultsTo :
    (given default : Text) → DefaultsTo given default (if is_empty given then default else given)
fallback-DefaultsTo [] default = (λ _. refl, λ h. absurd (h refl))
fallback-DefaultsTo (c ∷ cs) default = (λ h. cc, λ _. refl)

pub DefaultsTo-fallback :
    (given default used : Text)
    → DefaultsTo given default used
    → used ≡ (if is_empty given then default else given)
DefaultsTo-fallback [] default used (empty, there) = empty refl
DefaultsTo-fallback (c ∷ cs) default used (empty, there) = there (λ h. cc)

pub secret_name-Names :
    (ref : SecretKeySelector) (namespace : Text) → Names ref namespace (secret_name ref namespace)
secret_name-Names ref namespace = (refl, fallback-DefaultsTo ref.namespace namespace)

pub Names-secret_name :
    (ref : SecretKeySelector) (namespace : Text) (nn : NamespacedName)
    → Names ref namespace nn
    → nn ≡ secret_name ref namespace
Names-secret_name ref namespace nn (name, falls) =
    let same = DefaultsTo-fallback ref.namespace namespace nn.namespace falls in
    λ i. record { name = name i; namespace = same i }

-- The test of the key.
keyed_iff : (key : Text) → (is_empty key ≡ false) ↔ (key ≢ [])
keyed_iff [] = (λ h. cc, λ h. absurd (h refl))
keyed_iff (c ∷ cs) = (λ _ e. cc, λ _. refl)

module _ {W : Type 0} where
  pub read_key_ok_iff :
      (nn : NamespacedName) (key : Text) (found : Option Text) (w : W) (value : Text)
      → ((read_key nn key found w).0 ≡ ok value) ↔ (found ≡ some value)
  read_key_ok_iff nn key none w value = (λ h. cc, λ h. cc)
  read_key_ok_iff nn key (some v) w value = (λ h. ap some (ok-injective h), λ h. cc)

  read_required_key_ok_iff :
      (nn : NamespacedName) (key : Text) (secret : SecretData) (w : W) (value : Text)
      → ((read_required_key nn key secret w).0 ≡ ok value)
        ↔ ((is_empty key ≡ false) × (lookup key secret ≡ some value))
  unfolding read_required_key
  read_required_key_ok_iff nn key secret w value = (
    λ h. (ground arith, (read_key_ok_iff nn key (lookup key secret) w value).0 (ground arith)),
    λ (h0, h1). ground (arith, h0, (read_key_ok_iff nn key (lookup key secret) w value).1 h1),
  )

module _ {W : Type 0} (kube : KubeApi W Object) (namespace : Text) where
  get_secret_value_ok :
      (ref : SecretKeySelector) (w : W) (value : Text)
      → ((get_secret_value kube namespace ref w).0 ≡ ok value) ↔ (
          (secret : SecretData) × ((kube.get_secret (secret_name ref namespace) w).0 ≡ inr secret)
          × (is_empty ref.key ≡ false)
          × (lookup ref.key secret ≡ some value))
  unfolding get_secret_value
  get_secret_value_ok ref w value =
      let nn = secret_name ref namespace in
      let reply = kube.get_secret nn w in
      (
        λ h.
            let (secret, found, after) =
              wrapping_then "cannot get secret" reply.0 reply.1 (read_required_key nn ref.key) h in
            let (keyed, has) =
              (read_required_key_ok_iff nn ref.key secret reply.1 value).0
                (ap (λ q. q.0) (sym after) ∙ h) in
            (secret, found, keyed, has),
        λ (secret, found, keyed, has).
            ap
              (λ t.
                (continue (wrapping "cannot get secret" t reply.1)
                  (read_required_key nn ref.key)).0)
              found
            ∙ (read_required_key_ok_iff nn ref.key secret reply.1 value).1 (keyed, has),
      )

  -- A value is read exactly when a secret is found under the name that the reference gives, in the
  -- namespace of the reference or, where that is empty, of the resource, and the key of the
  -- reference is not empty and one of the secret's keys, with that value.
  pub get_secret_value_ok_iff :
      (ref : SecretKeySelector) (w : W) (value : Text)
      → ((get_secret_value kube namespace ref w).0 ≡ ok value) ↔ (
          (nn : NamespacedName) × (secret : SecretData) × Names ref namespace nn
          × ((kube.get_secret nn w).0 ≡ inr secret)
          × (ref.key ≢ [])
          × (lookup ref.key secret ≡ some value))
  get_secret_value_ok_iff ref w value =
      let (there, back) = get_secret_value_ok ref w value in
      (
        λ h.
            let (secret, found, keyed, has) = there h in
            (
              secret_name ref namespace,
              secret,
              secret_name-Names ref namespace,
              found,
              (keyed_iff ref.key).0 keyed,
              has,
            ),
        λ (nn, secret, names, found, keyed, has).
            let same = Names-secret_name ref namespace nn names in
            back (
              secret,
              subst (λ q. (kube.get_secret q w).0 ≡ inr secret) same found,
              (keyed_iff ref.key).1 keyed,
              has,
            ),
      )

  module _ {P S Body : Type 0} (first : P → SecretKeySelector) (first_message : String)
      (second : P → SecretKeySelector) (second_message : String)
      (build : Managed P S → Text → Text → Body) where
    abbrev request : Handler P S W Body
    request = two_secrets_request kube namespace first first_message second second_message build

    -- A request that was built carries the values of both secrets, the second read after the first.
    pub two_secrets_request-ok :
        (cr : Managed P S) (w : W) {body : Body}
        → (request (cr, w)).0 ≡ ok body
        → let one = get_secret_value kube namespace (first cr.for_provider) w in
          let two = get_secret_value kube namespace (second cr.for_provider) one.1 in
          (a : Text) × (b : Text) × (one.0 ≡ ok a) × (two.0 ≡ ok b) × (body ≡ build cr a b)
    unfolding two_secrets_request
    two_secrets_request-ok cr w h =
        let one = get_secret_value kube namespace (first cr.for_provider) w in
        let two = get_secret_value kube namespace (second cr.for_provider) one.1 in
        let (a, read_a, after_a) = rewrap_then first_message one.0 (cr, one.1) _ h in
        let (b, read_b, after_b) =
          rewrap_then second_message two.0 (cr, two.1) (λ b. pure (build cr a b))
            (ap (λ q. q.0) (sym after_a) ∙ h) in
        (a, b, read_a, read_b, ok-injective (sym h ∙ ap (λ q. q.0) after_a ∙ ap (λ q. q.0) after_b))

    pub two_secrets_request-ReadsOnly : ReadsOnly request
    unfolding two_secrets_request
    two_secrets_request-ReadsOnly cr w = ground arith

    -- Such a request is current if what it builds is, whatever the secrets hold.
    pub two_secrets_request-IsCurrent :
        {R : Type 0} (o : Observer P S R) (Kept : Body → R → Type 0)
        → ((cr : Managed P S) (a b : Text) (v : R)
            → Kept (build cr a b) v
            → o.is_up_to_date cr.for_provider v ≡ true)
        → IsCurrent o request Kept
    two_secrets_request-IsCurrent o Kept current = record {
      reads_only = two_secrets_request-ReadsOnly;
      current = λ cr w body v e kept.
          let (a, b, _, _, same) = two_secrets_request-ok cr w e in
          current cr a b v (subst (λ q. Kept q v) same kept);
    }
