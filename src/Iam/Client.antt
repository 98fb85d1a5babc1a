-- ===== src/Iam/Client.antt =====
-- `internal/controller/client/client.go`.
-- `kube` and `namespace` are the fields of `external` that `Connect` sets.
use provider_dip.Base.{Text, List, Bool, true, false, Option, none, some, [], given, ◌!=◌}
use provider_dip.Base.{text_Comparable, int_Comparable, pos, codes, is_empty, if◌then◌else◌, lookup}
use provider_dip.Go.{M, pure, rewrap, call, lift_outcome, wrapping, ◌>>=◌}
use provider_dip.Managed.{ExternalObservation, ExternalCreation, no_details}
use provider_dip.Kube.{KubeApi, SecretKeySelector}
use provider_dip.Apis.Iam.{ClientParameters, ClientObservation}
use provider_dip.Apis.Object.{Object}
use provider_dip.Apis.Kinds.{client_kind}
use provider_dip.Iam.Remote
use provider_dip.Controller.{RemoteApi, Observer, asserted, from_named, observe_external}
use provider_dip.Controller.{create_external, update_external, delete_external, Handler, resource}
use provider_dip.Controller.{on_world}
use provider_dip.Controller.Secrets.{secret_name, read_key}
use provider_dip.Controller.Session.{ExternalClient}
use provider_dip.Controller.Connect.{Environment, Connected, connect_with_namespace}

unfoldable pub is_up_to_date : ClientParameters → Remote.ApplicationClient → Bool
is_up_to_date fp client =
    if fp.name != client.name
    then false
    else if fp.description != client.description
    then false
    else true

unfoldable pub record_status : Remote.ApplicationClient → ClientObservation → ClientObservation
record_status client status = record status {
  id = some client.id;
  client_id = some client.client_id;
  disabled = some client.disabled;
}

abbrev pub observer : Observer ClientParameters ClientObservation Remote.ApplicationClient
observer = record {
  message = "cannot get client";
  record_status = record_status;
  is_up_to_date = is_up_to_date;
}

-- `if fp.Xs != nil { c.Xs = fp.Xs }`, for a slice.
abbrev given_slice : Option (List Text) → Option (List Text) → Option (List Text)
given_slice none old = old
given_slice (some xs) old = some xs

-- `applyOptionalFields`.
unfoldable pub apply_optional_fields :
    Remote.ApplicationClient → ClientParameters → Remote.ApplicationClient
apply_optional_fields app_client fp = record app_client {
  application_id = given fp.application_id app_client.application_id;
  redirection_uris = given_slice fp.redirection_uris app_client.redirection_uris;
  response_types = given_slice fp.response_types app_client.response_types;
  scopes = given_slice fp.scopes app_client.scopes;
  default_scopes = given_slice fp.default_scopes app_client.default_scopes;
  consent_implied = given fp.consent_implied app_client.consent_implied;
  access_token_lifetime = given fp.access_token_lifetime app_client.access_token_lifetime;
  refresh_token_lifetime = given fp.refresh_token_lifetime app_client.refresh_token_lifetime;
  id_token_lifetime = given fp.id_token_lifetime app_client.id_token_lifetime;
}

-- What `Create` and `Update` send.
unfoldable pub new_client : ClientParameters → Text → Remote.ApplicationClient
unfolding apply_optional_fields
new_client fp password =
    let base : Remote.ApplicationClient = record {
      id = [];
      name = fp.name;
      type = fp.type;
      client_id = fp.client_id;
      password = password;
      description = fp.description;
      application_id = [];
      global_reference_id = fp.global_reference_id;
      redirection_uris = none;
      response_types = none;
      scopes = none;
      default_scopes = none;
      consent_implied = false;
      access_token_lifetime = pos 0;
      refresh_token_lifetime = pos 0;
      id_token_lifetime = pos 0;
      disabled = false;
    } in
    apply_optional_fields base fp

unfoldable pub updated_client : Text → ClientParameters → Remote.ApplicationClient
unfolding apply_optional_fields
updated_client external_name fp =
    let base : Remote.ApplicationClient = record {
      id = external_name;
      name = fp.name;
      type = [];
      client_id = [];
      password = [];
      description = fp.description;
      application_id = [];
      global_reference_id = fp.global_reference_id;
      redirection_uris = none;
      response_types = none;
      scopes = none;
      default_scopes = none;
      consent_implied = false;
      access_token_lifetime = pos 0;
      refresh_token_lifetime = pos 0;
      id_token_lifetime = pos 0;
      disabled = false;
    } in
    apply_optional_fields base fp

abbrev pub client_by_id : Text → Remote.ApplicationClient
client_by_id external_name = record {
  id = external_name;
  name = [];
  type = [];
  client_id = [];
  password = [];
  description = [];
  application_id = [];
  global_reference_id = [];
  redirection_uris = none;
  response_types = none;
  scopes = none;
  default_scopes = none;
  consent_implied = false;
  access_token_lifetime = pos 0;
  refresh_token_lifetime = pos 0;
  id_token_lifetime = pos 0;
  disabled = false;
}

abbrev pub password_key : SecretKeySelector → Text
password_key ref = if is_empty ref.key then codes "password" else ref.key

module _ {W : Type 0} (kube : KubeApi W Object) (namespace : Text)
    (api : RemoteApi W Remote.ApplicationClient Remote.ApplicationClient
      Remote.ApplicationClient) where
  unfoldable pub get_password : SecretKeySelector → M W Text
  get_password ref = do
    found ← call (kube.get_secret (secret_name ref namespace))
    secret ← wrapping "cannot get secret" found
    read_key (secret_name ref namespace) (password_key ref) (lookup (password_key ref) secret)

  -- The password is read first, and then the request is built.
  unfoldable pub client_request :
      Handler ClientParameters ClientObservation W Remote.ApplicationClient
  unfolding get_password new_client
  client_request = do
    cr ← resource
    read ← on_world (get_password cr.for_provider.password_secret_ref)
    password ← lift_outcome (rewrap "cannot get password from secret" read)
    pure (new_client cr.for_provider password)

  unfoldable pub observe : M (Object × W) ExternalObservation
  unfolding is_up_to_date record_status
  observe = asserted client_kind (observe_external observer api.get)

  unfoldable pub create : M (Object × W) ExternalCreation
  unfolding client_request
  create = asserted client_kind (do
    created ← create_external client_request api.create "cannot create client" (λ r. r.id)
    pure no_details)

  unfoldable pub update : M (Object × W) (Unit {0})
  unfolding updated_client
  update =
      asserted client_kind
        (update_external (from_named updated_client) api.update "cannot update client")

  unfoldable pub delete : M (Object × W) (Unit {0})
  delete = asserted client_kind (delete_external client_by_id api.delete "cannot delete client")

  -- `external`, whose calls are these.
  abbrev pub external : ExternalClient W
  external = record { observe = observe; create = create; update = update; delete = delete }

unfoldable pub connect :
    {W Iam Mdm Provisioning : Type 0}
    → Environment W Iam Mdm Provisioning
    → M (Object × W) (Connected Iam Mdm Provisioning)
unfolding connect_with_namespace
connect env = connect_with_namespace client_kind env
