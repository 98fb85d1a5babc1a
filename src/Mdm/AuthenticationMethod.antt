-- ===== src/Mdm/AuthenticationMethod.antt =====
-- `internal/controller/mdm/authenticationmethod/authenticationmethod.go`.
-- `kube` and `namespace` are the fields of `external` that `Connect` sets.
use provider_dip.Base.{
  Text, Bool, true, false, none, some, [], given, differs, ◌!=◌, text_Comparable, codes,
  if◌then◌else◌,
}
use provider_dip.Go.{M, pure, ◌>>=◌}
use provider_dip.Managed.{ExternalObservation, ExternalCreation, no_details}
use provider_dip.Kube.{KubeApi}
use provider_dip.Apis.Mdm
use provider_dip.Apis.Object.{Object}
use provider_dip.Apis.MdmKinds.{mdm_authentication_method_kind}
use provider_dip.Mdm.Remote
use provider_dip.Controller.{RemoteApi, Observer, Handler, asserted, observe_external}
use provider_dip.Controller.{create_external, update_external, delete_external}
use provider_dip.Controller.Secrets.{two_secrets_request}
use provider_dip.Controller.Session.{ExternalClient}
use provider_dip.Controller.Connect.{Environment, Connected, connect_mdm_with_namespace}

unfoldable pub is_up_to_date :
    Mdm.AuthenticationMethodParameters → Remote.AuthenticationMethod → Bool
is_up_to_date fp am =
    if fp.name != am.name
    then false
    else if differs fp.description am.description
    then false
    else if fp.login_name != am.login_name
    then false
    else if fp.client_id != am.client_id
    then false
    else true

unfoldable pub record_status :
    Remote.AuthenticationMethod
    → Mdm.AuthenticationMethodObservation
    → Mdm.AuthenticationMethodObservation
record_status am status = record status { id = some am.id }

abbrev pub observer :
    Observer Mdm.AuthenticationMethodParameters Mdm.AuthenticationMethodObservation
      Remote.AuthenticationMethod
observer = record {
  message = "cannot get MDM authentication method";
  record_status = record_status;
  is_up_to_date = is_up_to_date;
}

-- What `Create` and `Update` send.
unfoldable pub new_method :
    Mdm.AuthenticationMethodParameters → Text → Text → Remote.AuthenticationMethod
new_method fp password client_secret = record {
  id = [];
  resource_type = codes "AuthenticationMethod";
  name = fp.name;
  description = given fp.description [];
  login_name = fp.login_name;
  password = password;
  client_id = fp.client_id;
  client_secret = client_secret;
  auth_url = given fp.auth_url [];
  auth_method = given fp.auth_method [];
  api_version = given fp.api_version [];
  organization_guid = fp.organization_id;
}

unfoldable pub updated_method :
    Text → Mdm.AuthenticationMethodParameters → Text → Text → Remote.AuthenticationMethod
updated_method external_name fp password client_secret = record {
  id = external_name;
  resource_type = codes "AuthenticationMethod";
  name = fp.name;
  description = given fp.description [];
  login_name = fp.login_name;
  password = password;
  client_id = fp.client_id;
  client_secret = client_secret;
  auth_url = given fp.auth_url [];
  auth_method = given fp.auth_method [];
  api_version = given fp.api_version [];
  organization_guid = fp.organization_id;
}

abbrev pub method_by_id : Text → Remote.AuthenticationMethod
method_by_id external_name = record {
  id = external_name;
  resource_type = [];
  name = [];
  description = [];
  login_name = [];
  password = [];
  client_id = [];
  client_secret = [];
  auth_url = [];
  auth_method = [];
  api_version = [];
  organization_guid = none;
}

module _ {W : Type 0} (kube : KubeApi W Object) (namespace : Text)
    (api : RemoteApi W Remote.AuthenticationMethod Remote.AuthenticationMethod
      Remote.AuthenticationMethod) where
  -- The password, then the client secret, then the request.
  unfoldable pub new_request :
      Handler Mdm.AuthenticationMethodParameters Mdm.AuthenticationMethodObservation W
        Remote.AuthenticationMethod
  unfolding two_secrets_request new_method
  new_request =
      two_secrets_request kube namespace (λ fp. fp.password_secret_ref)
        "cannot get password from secret" (λ fp. fp.client_secret_ref)
        "cannot get client secret from secret"
        (λ cr password client_secret. new_method cr.for_provider password client_secret)

  unfoldable pub updated_request :
      Handler Mdm.AuthenticationMethodParameters Mdm.AuthenticationMethodObservation W
        Remote.AuthenticationMethod
  unfolding two_secrets_request updated_method
  updated_request =
      two_secrets_request kube namespace (λ fp. fp.password_secret_ref)
        "cannot get password from secret" (λ fp. fp.client_secret_ref)
        "cannot get client secret from secret"
        (λ cr password client_secret.
          updated_method cr.external_name cr.for_provider password client_secret)

  unfoldable pub observe : M (Object × W) ExternalObservation
  unfolding is_up_to_date record_status
  observe = asserted mdm_authentication_method_kind (observe_external observer api.get)

  unfoldable pub create : M (Object × W) ExternalCreation
  unfolding new_request
  create = asserted mdm_authentication_method_kind (do
    created ←
        create_external new_request api.create "cannot create MDM authentication method" (λ r. r.id)
    pure no_details)

  unfoldable pub update : M (Object × W) (Unit {0})
  unfolding updated_request
  update =
      asserted mdm_authentication_method_kind
        (update_external updated_request api.update "cannot update MDM authentication method")

  unfoldable pub delete : M (Object × W) (Unit {0})
  delete =
      asserted mdm_authentication_method_kind
        (delete_external method_by_id api.delete "cannot delete MDM authentication method")

  -- `external`, whose calls are these.
  abbrev pub external : ExternalClient W
  external = record { observe = observe; create = create; update = update; delete = delete }

unfoldable pub connect :
    {W Iam Mdm Provisioning : Type 0}
    → Environment W Iam Mdm Provisioning
    → M (Object × W) (Connected Iam Mdm Provisioning)
unfolding connect_mdm_with_namespace
connect env = connect_mdm_with_namespace mdm_authentication_method_kind env
