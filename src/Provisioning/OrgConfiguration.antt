-- ===== src/Provisioning/OrgConfiguration.antt =====
-- `internal/controller/provisioning/orgconfiguration/orgconfiguration.go`.
-- `kube` and `namespace` are the fields of `external` that `Connect` sets.
use provider_dip.Base.{
  Text, Option, Bool, true, false, none, some, [], given, ◌!=◌, text_Comparable, codes,
  if◌then◌else◌,
}
use provider_dip.Go.{M, pure, ◌>>=◌}
use provider_dip.Managed.{ExternalObservation, ExternalCreation, no_details}
use provider_dip.Kube.{KubeApi}
use provider_dip.Apis.Provisioning
use provider_dip.Apis.Object.{Object}
use provider_dip.Apis.ProvisioningKinds.{org_configuration_kind}
use provider_dip.Provisioning.Remote
use provider_dip.Controller.{RemoteApi, Observer, Handler, asserted, observe_external}
use provider_dip.Controller.{create_external, update_external, delete_external}
use provider_dip.Controller.Secrets.{two_secrets_request}
use provider_dip.Controller.Session.{ExternalClient}
use provider_dip.Controller.Connect.{Environment, Connected, connect_provisioning}

unfoldable pub is_up_to_date :
    Provisioning.OrgConfigurationParameters → Remote.OrgConfiguration → Bool
is_up_to_date fp org_config =
    if fp.organization_id != org_config.organization_guid
    then false
    else if fp.service_account.service_account_id != org_config.service_account.service_account_id
    then false
    else if fp.bootstrap_signature.algorithm != org_config.bootstrap_signature.algorithm
    then false
    else true

abbrev record_version :
    Option Remote.Meta
    → Provisioning.OrgConfigurationObservation
    → Provisioning.OrgConfigurationObservation
record_version none status = status
record_version (some meta) status = record status { version_id = some meta.version_id }

unfoldable pub record_status :
    Remote.OrgConfiguration
    → Provisioning.OrgConfigurationObservation
    → Provisioning.OrgConfigurationObservation
record_status org_config status =
    record_version org_config.meta (record status { id = some org_config.id })

abbrev pub observer :
    Observer Provisioning.OrgConfigurationParameters Provisioning.OrgConfigurationObservation
      Remote.OrgConfiguration
observer = record {
  message = "cannot get organization configuration";
  record_status = record_status;
  is_up_to_date = is_up_to_date;
}

-- The optional part of the signature; where it is not given, its fields are empty.
unfoldable pub signature_config :
    Option Provisioning.BootstrapSignatureConfig → Remote.BootstrapSignatureConfig
signature_config none = record { type = []; padding = []; salt_length = [] }
signature_config (some config) = record {
  type = given config.type [];
  padding = given config.padding [];
  salt_length = given config.salt_length [];
}

-- What `Create` and `Update` send.
unfoldable pub new_config :
    Provisioning.OrgConfigurationParameters → Text → Text → Remote.OrgConfiguration
unfolding signature_config
new_config fp service_account_key public_key = record {
  id = [];
  resource_type = codes "OrgConfiguration";
  organization_guid = fp.organization_id;
  service_account = record {
    service_account_id = fp.service_account.service_account_id;
    service_account_key = service_account_key;
  };
  bootstrap_signature = record {
    public_key = public_key;
    algorithm = fp.bootstrap_signature.algorithm;
    config = signature_config fp.bootstrap_signature.config;
  };
  meta = none;
}

unfoldable pub updated_config :
    Text → Provisioning.OrgConfigurationParameters → Text → Text → Remote.OrgConfiguration
unfolding signature_config
updated_config external_name fp service_account_key public_key = record {
  id = external_name;
  resource_type = codes "OrgConfiguration";
  organization_guid = fp.organization_id;
  service_account = record {
    service_account_id = fp.service_account.service_account_id;
    service_account_key = service_account_key;
  };
  bootstrap_signature = record {
    public_key = public_key;
    algorithm = fp.bootstrap_signature.algorithm;
    config = signature_config fp.bootstrap_signature.config;
  };
  meta = none;
}

abbrev pub config_by_id : Text → Remote.OrgConfiguration
config_by_id external_name = record {
  id = external_name;
  resource_type = [];
  organization_guid = [];
  service_account = record { service_account_id = []; service_account_key = [] };
  bootstrap_signature = record {
    public_key = [];
    algorithm = [];
    config = record { type = []; padding = []; salt_length = [] };
  };
  meta = none;
}

module _ {W : Type 0} (kube : KubeApi W Object) (namespace : Text)
    (api : RemoteApi W Remote.OrgConfiguration Remote.OrgConfiguration
      Remote.OrgConfiguration) where
  -- The service account key, then the public key, then the request.
  unfoldable pub new_request :
      Handler Provisioning.OrgConfigurationParameters Provisioning.OrgConfigurationObservation W
        Remote.OrgConfiguration
  unfolding two_secrets_request new_config
  new_request =
      two_secrets_request kube namespace (λ fp. fp.service_account.service_account_key_secret_ref)
        "cannot get secret" (λ fp. fp.bootstrap_signature.public_key_secret_ref) "cannot get secret"
        (λ cr service_account_key public_key.
          new_config cr.for_provider service_account_key public_key)

  unfoldable pub updated_request :
      Handler Provisioning.OrgConfigurationParameters Provisioning.OrgConfigurationObservation W
        Remote.OrgConfiguration
  unfolding two_secrets_request updated_config
  updated_request =
      two_secrets_request kube namespace (λ fp. fp.service_account.service_account_key_secret_ref)
        "cannot get secret" (λ fp. fp.bootstrap_signature.public_key_secret_ref) "cannot get secret"
        (λ cr service_account_key public_key.
          updated_config cr.external_name cr.for_provider service_account_key public_key)

  unfoldable pub observe : M (Object × W) ExternalObservation
  unfolding is_up_to_date record_status
  observe = asserted org_configuration_kind (observe_external observer api.get)

  unfoldable pub create : M (Object × W) ExternalCreation
  unfolding new_request
  create = asserted org_configuration_kind (do
    created ←
        create_external new_request api.create "cannot create organization configuration"
          (λ r. r.id)
    pure no_details)

  unfoldable pub update : M (Object × W) (Unit {0})
  unfolding updated_request
  update =
      asserted org_configuration_kind
        (update_external updated_request api.update "cannot update organization configuration")

  unfoldable pub delete : M (Object × W) (Unit {0})
  delete =
      asserted org_configuration_kind
        (delete_external config_by_id api.delete "cannot delete organization configuration")

  -- `external`, whose calls are these.
  abbrev pub external : ExternalClient W
  external = record { observe = observe; create = create; update = update; delete = delete }

unfoldable pub connect :
    {W Iam Mdm Provisioning : Type 0}
    → Environment W Iam Mdm Provisioning
    → M (Object × W) (Connected Iam Mdm Provisioning)
unfolding connect_provisioning
connect env = connect_provisioning org_configuration_kind env
