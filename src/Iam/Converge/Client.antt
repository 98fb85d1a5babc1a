-- ===== src/Iam/Converge/Client.antt =====
-- `internal/controller/client/client.go`.
use provider_dip.Base.{
  codes, Text, true, some, ◌≡◌, refl, ◌↔◌, arith, text_Comparable, text_eq_iff, sym, ap, subst,
  lookup, ◌∙◌, inr,
}
use provider_dip.Go.{
  Outcome, ok, fail, panic, ok-injective, lift_outcome, rewrap, pure, wrapping, rewrap_then,
  wrapping_then, continue,
}
use provider_dip.Managed.{Managed, ExternalCreation, no_details}
use provider_dip.Kube.{KubeApi, SecretKeySelector, SecretData, NamespacedName}
use provider_dip.Util.{is_valid_uuid}
use provider_dip.Apis.Iam.{ClientParameters, ClientObservation}
use provider_dip.Apis.Object.{Object}
use provider_dip.Apis.Kinds.{as_client, client_kind}
use provider_dip.Iam.Remote
use provider_dip.Iam.Client
use provider_dip.Controller.{RemoteApi, absent}
use provider_dip.Controller.Lifecycle.{StoresCreated, StoresUpdated, IsCurrent, settled}
use provider_dip.Controller.Frame.{ReadsOnly}
use provider_dip.Controller.Secrets.{secret_name, read_key}
use provider_dip.Controller.Secrets.Read.{
  read_key_ok_iff, DefaultsTo, Names, fallback-DefaultsTo, DefaultsTo-fallback, secret_name-Names,
  Names-secret_name,
}
use provider_dip.Controller.Deletion.{Forgets}
use provider_dip.Controller.Objects.{
  object_create-observe, object_update_named-observe, object_delete-observe,
}

-- What DIP keeps of a request, as far as `isUpToDate` looks at it.
abbrev pub Kept : Remote.ApplicationClient → Remote.ApplicationClient → Type 0
Kept sent client = (client.name ≡ sent.name) × (client.description ≡ sent.description)

-- The spec agrees with what DIP holds exactly when the names and the descriptions are equal.
pub client-is_up_to_date_iff :
    (fp : ClientParameters) (client : Remote.ApplicationClient)
    → (Client.is_up_to_date fp client ≡ true)
      ↔ ((fp.name ≡ client.name) × (fp.description ≡ client.description))
unfolding Client.is_up_to_date
client-is_up_to_date_iff fp client = (
  λ h. (
    (text_eq_iff fp.name client.name).0 (ground arith),
    (text_eq_iff fp.description client.description).0 (ground arith),
  ),
  λ (h0, h1). ground (
    arith,
    (text_eq_iff fp.name client.name).1 h0,
    (text_eq_iff fp.description client.description).1 h1,
  ),
)

new_client_current :
    (fp : ClientParameters) (password : Text) (client : Remote.ApplicationClient)
    → Kept (Client.new_client fp password) client
    → Client.is_up_to_date fp client ≡ true
unfolding Client.new_client Client.apply_optional_fields
new_client_current fp password client (name, description) =
    (client-is_up_to_date_iff fp client).1 (sym name, sym description)

pub updated_client_current :
    (name : Text) (fp : ClientParameters) (client : Remote.ApplicationClient)
    → Kept (Client.updated_client name fp) client
    → Client.is_up_to_date fp client ≡ true
unfolding Client.updated_client Client.apply_optional_fields
updated_client_current name fp client (named, description) =
    (client-is_up_to_date_iff fp client).1 (sym named, sym description)

pub updated_client-id :
    (name : Text) (fp : ClientParameters) → (Client.updated_client name fp).id ≡ name
unfolding Client.updated_client Client.apply_optional_fields
updated_client-id name fp = refl

module _ {W : Type 0} (kube : KubeApi W Object) (namespace : Text)
    (api : RemoteApi W Remote.ApplicationClient Remote.ApplicationClient
      Remote.ApplicationClient) where
  get_password_ok :
      (ref : SecretKeySelector) (w : W) (password : Text)
      → ((Client.get_password kube namespace api ref w).0 ≡ ok password) ↔ (
          (secret : SecretData) × ((kube.get_secret (secret_name ref namespace) w).0 ≡ inr secret)
          × (lookup (Client.password_key ref) secret ≡ some password))
  unfolding Client.get_password
  get_password_ok ref w password =
      let nn = secret_name ref namespace in
      let key = Client.password_key ref in
      let reply = kube.get_secret nn w in
      (
        λ h.
            let (secret, found, after) =
              wrapping_then "cannot get secret" reply.0 reply.1
                (λ s. read_key nn key (lookup key s)) h in
            (
              secret,
              found,
              (read_key_ok_iff nn key (lookup key secret) reply.1 password).0
                  (ap (λ q. q.0) (sym after) ∙ h),
            ),
        λ (secret, found, has).
            ap
              (λ t.
                (continue (wrapping "cannot get secret" t reply.1)
                  (λ s. read_key nn key (lookup key s))).0)
              found
            ∙ (read_key_ok_iff nn key (lookup key secret) reply.1 password).1 has,
      )

  -- A password is read exactly when a secret is found under the name that the reference gives, in the
  -- namespace of the reference or, where that is empty, of the resource, and holds the password
  -- under the key of the reference or, where that is empty, under "password".
  pub get_password_ok_iff :
      (ref : SecretKeySelector) (w : W) (password : Text)
      → ((Client.get_password kube namespace api ref w).0 ≡ ok password) ↔ (
          (nn : NamespacedName) × (key : Text) × (secret : SecretData) × Names ref namespace nn
          × DefaultsTo ref.key (codes "password") key
          × ((kube.get_secret nn w).0 ≡ inr secret)
          × (lookup key secret ≡ some password))
  get_password_ok_iff ref w password =
      let (there, back) = get_password_ok ref w password in
      (
        λ h.
            let (secret, found, has) = there h in
            (
              secret_name ref namespace,
              Client.password_key ref,
              secret,
              secret_name-Names ref namespace,
              fallback-DefaultsTo ref.key (codes "password"),
              found,
              has,
            ),
        λ (nn, key, secret, names, falls, found, has).
            let same = Names-secret_name ref namespace nn names in
            let same_key = DefaultsTo-fallback ref.key (codes "password") key falls in
            back (
              secret,
              subst (λ q. (kube.get_secret q w).0 ≡ inr secret) same found,
              subst (λ k. lookup k secret ≡ some password) same_key has,
            ),
      )

  client_request-ok :
      (cr : Managed ClientParameters ClientObservation) (w : W) {body : Remote.ApplicationClient}
      → (Client.client_request kube namespace api (cr, w)).0 ≡ ok body
      → (password : Text) × ((Client.get_password kube namespace api
            cr.for_provider.password_secret_ref w).0
          ≡ ok password)
        × (body ≡ Client.new_client cr.for_provider password)
  unfolding Client.client_request
  client_request-ok cr w h =
      let asked = Client.get_password kube namespace api cr.for_provider.password_secret_ref w in
      let (password, read, after) =
        rewrap_then "cannot get password from secret" asked.0 (cr, asked.1)
          (λ p. pure (Client.new_client cr.for_provider p)) h in
      (password, read, ok-injective (sym h ∙ ap (λ q. q.0) after))

  request_reads :
      (o : Outcome Text) (cr : Managed ClientParameters ClientObservation) (w : W)
      → (continue {S = Managed ClientParameters ClientObservation × W}
          (lift_outcome (rewrap "cannot get password from secret" o) (cr, w))
          (λ p. pure (Client.new_client cr.for_provider p))).1.0
        ≡ cr
  request_reads (ok p) cr w = refl
  request_reads (fail e) cr w = refl
  request_reads panic cr w = refl

  pub client_request-ReadsOnly : ReadsOnly (Client.client_request kube namespace api)
  unfolding Client.client_request
  client_request-ReadsOnly cr w =
      let asked = Client.get_password kube namespace api cr.for_provider.password_secret_ref w in
      request_reads asked.0 cr asked.1

  pub client_request-IsCurrent :
      IsCurrent Client.observer (Client.client_request kube namespace api) Kept
  client_request-IsCurrent = record {
    reads_only = client_request-ReadsOnly;
    current = λ cr w body v e kept.
        let (password, _, same) = client_request-ok cr w e in
        new_client_current cr.for_provider password v (subst (λ b. Kept b v) same kept);
  }

  -- For clients: if DIP gives what it creates a UUID, and a GET of it then returns the name and
  -- description that were sent, then after a successful `Create` of any object, whatever password
  -- the secret of the cluster holds, `Observe` reports that it exists and is up to date.
  pub client_create-observe :
      (mg : Object) (w : W) {details : ExternalCreation}
      → StoresCreated api (λ r. r.id) Kept
      → (Client.create kube namespace api (mg, w)).0 ≡ ok details
      → (Client.observe kube namespace api (Client.create kube namespace api (mg, w)).1).0
        ≡ ok settled
  unfolding Client.create Client.observe
  client_create-observe mg w stores h =
      object_create-observe client_kind Client.observer api
        (Client.client_request kube namespace api) _ (λ r. r.id) Kept (λ _. pure no_details) mg w
        stores client_request-IsCurrent (λ r cr w. (refl, refl, refl)) h

  -- For clients: if after an update without error a GET of the id returns the name and description
  -- that were sent, then after a successful `Update` of an object whose external name is a UUID
  -- `Observe` reports that it exists and is up to date.
  pub client_update-observe :
      (mg : Object) (cr : Managed ClientParameters ClientObservation) (w : W)
      → as_client mg ≡ some cr
      → is_valid_uuid cr.external_name ≡ true
      → StoresUpdated api (λ r. r.id) Kept
      → (Client.update kube namespace api (mg, w)).0 ≡ ok tt
      → (Client.observe kube namespace api (Client.update kube namespace api (mg, w)).1).0
        ≡ ok settled
  unfolding Client.update Client.observe
  client_update-observe mg cr w found named stores h =
      object_update_named-observe client_kind Client.observer api Client.updated_client _
        (λ r. r.id) Kept mg cr w updated_client_current updated_client-id found named stores h

  -- For clients: if a GET of a deleted id fails with 400 or 404, then after a successful `Delete`
  -- of any object, whatever its external name, `Observe` reports it absent.
  pub client_delete-observe :
      (mg : Object) (w : W)
      → Forgets api (λ r. r.id)
      → (Client.delete kube namespace api (mg, w)).0 ≡ ok tt
      → (Client.observe kube namespace api (Client.delete kube namespace api (mg, w)).1).0
        ≡ ok absent
  unfolding Client.delete Client.observe
  client_delete-observe mg w forgets h =
      object_delete-observe client_kind Client.observer api Client.client_by_id (λ r. r.id) _ mg w
        forgets (λ name. refl) h
