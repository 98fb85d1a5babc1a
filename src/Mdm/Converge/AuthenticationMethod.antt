-- ===== src/Mdm/Converge/AuthenticationMethod.antt =====
-- `internal/controller/mdm/authenticationmethod/authenticationmethod.go`.
use provider_dip.Base.{
  Text, true, some, [], ◌≡◌, refl, ap, arith, differs-given, text_Comparable, text_eq_refl,
}
use provider_dip.Go.{Error, ok, fail, pure}
use provider_dip.Managed.{ExternalCreation, no_details, creating}
use provider_dip.Kube.{KubeApi}
use provider_dip.Util.{is_valid_uuid}
use provider_dip.Apis.Mdm
use provider_dip.Apis.Object.{Object, MdmAuthenticationMethod, mdm_authentication_method}
use provider_dip.Apis.MdmKinds.{as_mdm_authentication_method, mdm_authentication_method_kind}
use provider_dip.Mdm.Remote
use provider_dip.Mdm.AuthenticationMethod
use provider_dip.Controller.{RemoteApi, absent}
use provider_dip.Controller.Lifecycle.{StoresCreated, StoresUpdated, IsCurrent, settled}
use provider_dip.Controller.Deletion.{Forgets}
use provider_dip.Controller.Secrets.Errors.{Unreadable, two_secrets_create_fails}
use provider_dip.Controller.Secrets.Read.{two_secrets_request-ok, two_secrets_request-IsCurrent}
use provider_dip.Controller.Objects.{
  object_create-observe, object_update-observe, object_delete-observe,
}

-- What DIP keeps of a request, as far as `isUpToDate` looks at it.
abbrev pub Kept : Remote.AuthenticationMethod → Remote.AuthenticationMethod → Type 0
Kept sent am =
    (am.name ≡ sent.name)
    × (am.description ≡ sent.description)
    × (am.login_name ≡ sent.login_name)
    × (am.client_id ≡ sent.client_id)

new_method_current :
    (fp : Mdm.AuthenticationMethodParameters) (a b : Text) (am : Remote.AuthenticationMethod)
    → Kept (AuthenticationMethod.new_method fp a b) am
    → AuthenticationMethod.is_up_to_date fp am ≡ true
unfolding AuthenticationMethod.is_up_to_date AuthenticationMethod.new_method
new_method_current fp a b am kept = ground (
  arith,
  text_eq_refl fp.name,
  differs-given fp.description [],
  text_eq_refl fp.login_name,
  text_eq_refl fp.client_id,
)

updated_method_current :
    (name : Text) (fp : Mdm.AuthenticationMethodParameters) (a b : Text)
    (am : Remote.AuthenticationMethod)
    → Kept (AuthenticationMethod.updated_method name fp a b) am
    → AuthenticationMethod.is_up_to_date fp am ≡ true
unfolding AuthenticationMethod.is_up_to_date AuthenticationMethod.updated_method
updated_method_current name fp a b am kept = ground (
  arith,
  text_eq_refl fp.name,
  differs-given fp.description [],
  text_eq_refl fp.login_name,
  text_eq_refl fp.client_id,
)

module _ {W : Type 0} (kube : KubeApi W Object) (namespace : Text)
    (api : RemoteApi W Remote.AuthenticationMethod Remote.AuthenticationMethod
      Remote.AuthenticationMethod) where
  pub new_request-IsCurrent :
      IsCurrent AuthenticationMethod.observer
        (AuthenticationMethod.new_request kube namespace api)
        Kept
  unfolding AuthenticationMethod.new_request
  new_request-IsCurrent =
      two_secrets_request-IsCurrent kube namespace (λ fp. fp.password_secret_ref)
        "cannot get password from secret" (λ fp. fp.client_secret_ref)
        "cannot get client secret from secret"
        (λ cr a b. AuthenticationMethod.new_method cr.for_provider a b)
        AuthenticationMethod.observer Kept (λ cr a b v. new_method_current cr.for_provider a b v)

  pub updated_request-IsCurrent :
      IsCurrent AuthenticationMethod.observer
        (AuthenticationMethod.updated_request kube namespace api)
        Kept
  unfolding AuthenticationMethod.updated_request
  updated_request-IsCurrent =
      two_secrets_request-IsCurrent kube namespace (λ fp. fp.password_secret_ref)
        "cannot get password from secret" (λ fp. fp.client_secret_ref)
        "cannot get client secret from secret"
        (λ cr a b. AuthenticationMethod.updated_method cr.external_name cr.for_provider a b)
        AuthenticationMethod.observer Kept
        (λ cr a b v. updated_method_current cr.external_name cr.for_provider a b v)

  -- The update is addressed to the external name, whatever the secrets hold.
  pub updated_request-id :
      (cr : MdmAuthenticationMethod) (w : W) (body : Remote.AuthenticationMethod)
      → (AuthenticationMethod.updated_request kube namespace api (cr, w)).0 ≡ ok body
      → body.id ≡ cr.external_name
  unfolding AuthenticationMethod.updated_request AuthenticationMethod.updated_method
  updated_request-id cr w body h =
      let (a, b, _, _, same) =
        two_secrets_request-ok kube namespace (λ fp. fp.password_secret_ref)
          "cannot get password from secret" (λ fp. fp.client_secret_ref)
          "cannot get client secret from secret"
          (λ cr a b. AuthenticationMethod.updated_method cr.external_name cr.for_provider a b) cr w
          h in
      ap (λ (r : Remote.AuthenticationMethod). r.id) same

  -- For authentication methods: if DIP gives what it creates a UUID, and a GET of it then returns
  -- the name, description, login name and client id that were sent, then after a successful
  -- `Create` of any object, whatever the two secrets hold, `Observe` reports that it exists and is
  -- up to date.
  pub mdm_authentication_method_create-observe :
      (mg : Object) (w : W) {details : ExternalCreation}
      → StoresCreated api (λ r. r.id) Kept
      → (AuthenticationMethod.create kube namespace api (mg, w)).0 ≡ ok details
      → (AuthenticationMethod.observe kube namespace api
          (AuthenticationMethod.create kube namespace api (mg, w)).1).0
        ≡ ok settled
  unfolding AuthenticationMethod.create AuthenticationMethod.observe
  mdm_authentication_method_create-observe mg w stores h =
      object_create-observe mdm_authentication_method_kind AuthenticationMethod.observer api
        (AuthenticationMethod.new_request kube namespace api) _ (λ r. r.id) Kept
        (λ _. pure no_details) mg w stores new_request-IsCurrent (λ r cr w. (refl, refl, refl)) h

  -- For authentication methods: if after an update without error a GET of the id returns the
  -- name, description, login name and client id that were sent, then after a successful
  -- `Update` of an object whose external name is a UUID, whatever the two secrets hold, `Observe`
  -- reports that it exists and is up to date.
  pub mdm_authentication_method_update-observe :
      (mg : Object) (cr : MdmAuthenticationMethod) (w : W)
      → as_mdm_authentication_method mg ≡ some cr
      → is_valid_uuid cr.external_name ≡ true
      → StoresUpdated api (λ r. r.id) Kept
      → (AuthenticationMethod.update kube namespace api (mg, w)).0 ≡ ok tt
      → (AuthenticationMethod.observe kube namespace api
          (AuthenticationMethod.update kube namespace api (mg, w)).1).0
        ≡ ok settled
  unfolding AuthenticationMethod.update AuthenticationMethod.observe
  mdm_authentication_method_update-observe mg cr w found named keeps h =
      object_update-observe mdm_authentication_method_kind AuthenticationMethod.observer api
        (AuthenticationMethod.updated_request kube namespace api) _ (λ r. r.id) Kept mg cr w found
        keeps updated_request-IsCurrent (updated_request-id cr w) named h

  -- For authentication methods: if a GET of a deleted id fails with 400 or 404, then after a
  -- successful `Delete` of any object, whatever its external name, `Observe` reports it absent.
  pub mdm_authentication_method_delete-observe :
      (mg : Object) (w : W)
      → Forgets api (λ r. r.id)
      → (AuthenticationMethod.delete kube namespace api (mg, w)).0 ≡ ok tt
      → (AuthenticationMethod.observe kube namespace api
          (AuthenticationMethod.delete kube namespace api (mg, w)).1).0
        ≡ ok absent
  unfolding AuthenticationMethod.delete AuthenticationMethod.observe
  mdm_authentication_method_delete-observe mg w forgets h =
      object_delete-observe mdm_authentication_method_kind AuthenticationMethod.observer api
        AuthenticationMethod.method_by_id (λ r. r.id) _ mg w forgets (λ name. refl) h

  -- If the password cannot be read, or the client secret after it, `Create` of an authentication
  -- method returns that error, wrapped with a message that says which of the two it was; the resource
  -- is marked as being created, its external name stays, and DIP is not called.
  pub mdm_authentication_method_create_fails :
      (cr : MdmAuthenticationMethod) (w : W) (err : Error) (end : W)
      → Unreadable kube namespace cr.for_provider.password_secret_ref
          "cannot get password from secret" cr.for_provider.client_secret_ref
          "cannot get client secret from secret" w err end
      → AuthenticationMethod.create kube namespace api (mdm_authentication_method cr, w)
        ≡ (fail err, (mdm_authentication_method (record cr { ready = some creating }), end))
  unfolding AuthenticationMethod.create AuthenticationMethod.new_request
  mdm_authentication_method_create_fails cr w err end unreadable =
      two_secrets_create_fails kube namespace (λ fp. fp.password_secret_ref)
        "cannot get password from secret" (λ fp. fp.client_secret_ref)
        "cannot get client secret from secret"
        (λ cr a b. AuthenticationMethod.new_method cr.for_provider a b)
        mdm_authentication_method_kind api.create "cannot create MDM authentication method"
        (λ r. r.id) (λ _. pure no_details) cr w err end unreadable
