-- ===== src/Tests/Clients.antt =====
-- `internal/clients/dip/client.go` and `Connect`, run.
use provider_dip.Base.{
  ℕ, Text, none, some, [], ◌∷◌, ◌≡◌, ◌≢◌, ◌↔◌, refl, codes, inl, inr, lookup, text_eq,
  text_Comparable, ◌+◌,
}
use provider_dip.Go.{Error, foreign, Attempt, ok}
use provider_dip.Kube.{KubeApi}
use provider_dip.Managed.{Managed}
use provider_dip.Apis.Iam.{GroupParameters, GroupObservation}
use provider_dip.Apis.Object.{Object, MdmApplication, mdm_application}
use provider_dip.Apis.MdmKinds.{mdm_application_kind}
use provider_dip.Tests.MdmApplication.{cr as application}
use provider_dip.Apis.Kinds.{group_kind}
use provider_dip.Dip.Key.{format_private_key}
use provider_dip.Dip.Config.{Config, Credentials, config_from_secret, overriding, entry}
use provider_dip.Dip.Config.Fields.{
  IsValid, Accepted, config_from_secret_ok_iff, config_from_secret_complete,
}
use provider_dip.Dip.Client.{DipApi, Client, new_client}
use provider_dip.Dip.Client.Availability.{connect_config, new_client_available}
use provider_dip.Controller.Connect.{connect_mdm, Environment, connect_resource}
use provider_dip.Controller.Connect.Chain.{Connection, connect_resource-Connection}
use provider_dip.Tests.Group.{cr}

abbrev creds : Credentials
creds =
    (codes "service_id", codes "svc")
    ∷ (codes "service_private_key", codes "-----BEGIN KEY-----\n")
    ∷ (codes "region", codes "us-east")
    ∷ (codes "environment", codes "prod")
    ∷ []

-- A decoder that takes every text for the same credentials.
abbrev unmarshal : Text → Attempt Credentials
unmarshal text = inr creds

abbrev secret : Text
secret = codes "{}"

abbrev cfg : Config
cfg = record {
  region = codes "us-east";
  environment = codes "prod";
  service_id = codes "svc";
  service_private_key = codes "-----BEGIN KEY-----\n";
  token_audience = [];
}

accepted : config_from_secret unmarshal (codes "eu-west") [] secret ≡ ok cfg
unfolding config_from_secret format_private_key text_eq
accepted = refl

config_from_secret_ok_iff_example :
    (config_from_secret unmarshal (codes "eu-west") [] secret ≡ ok cfg)
    ↔ Accepted unmarshal (codes "eu-west") [] secret cfg
config_from_secret_ok_iff_example =
    config_from_secret_ok_iff unmarshal (codes "eu-west") [] secret cfg

has_id : lookup (codes "service_id") creds ≡ some (codes "svc")
unfolding text_eq
has_id = refl

has_key : lookup (codes "service_private_key") creds ≡ some (codes "-----BEGIN KEY-----\n")
unfolding text_eq
has_key = refl

has_region : lookup (codes "region") creds ≡ some (codes "us-east")
unfolding text_eq
has_region = refl

has_environment : lookup (codes "environment") creds ≡ some (codes "prod")
unfolding text_eq
has_environment = refl

region_there : overriding (lookup (codes "region") creds) (codes "eu-west") ≢ []
unfolding text_eq
region_there = λ e. cc

environment_there : overriding (lookup (codes "environment") creds) [] ≢ []
unfolding text_eq
environment_there = λ e. cc

config_from_secret_complete_example :
    config_from_secret unmarshal (codes "eu-west") [] secret
    ≡ ok (record {
      region = overriding (lookup (codes "region") creds) (codes "eu-west");
      environment = overriding (lookup (codes "environment") creds) [];
      service_id = codes "svc";
      service_private_key = format_private_key (codes "-----BEGIN KEY-----\n");
      token_audience = entry "token_audience" creds;
    })
config_from_secret_complete_example =
    config_from_secret_complete unmarshal (codes "eu-west") [] secret creds (codes "svc")
      (codes "-----BEGIN KEY-----\n") refl has_id (λ e. cc) has_key (λ e. cc) region_there
      environment_there

-- A platform without MDM; the world counts the calls.
abbrev dip : DipApi ℕ (Unit {0}) (Unit {0}) (Unit {0})
dip = record {
  new_iam = λ config calls. (inr tt, calls + 1);
  service_login = λ iam identity calls. (none, calls + 1);
  new_mdm = λ iam config calls. (inl (foreign (codes "no MDM")), calls + 1);
  new_provisioning = λ iam config calls. (inr tt, calls + 1);
}

cfg-IsValid : IsValid cfg
cfg-IsValid = record {
  region = λ e. cc;
  environment = λ e. cc;
  service_id = λ e. cc;
  service_private_key = λ e. cc;
}

new_client_available_example :
    (client : Client (Unit {0}) (Unit {0}) (Unit {0})) × (new_client dip cfg 0 ≡ (ok client, 4))
    × (client.iam ≡ tt)
    × ((client.mdm ≡ none) ↔ ((e : Error) × ((dip.new_mdm tt (connect_config cfg) 2).0 ≡ inl e)))
    × ((client.provisioning ≡ none)
        ↔ ((e : Error) × ((dip.new_provisioning tt (connect_config cfg) 3).0 ≡ inl e)))
new_client_available_example = new_client_available dip cfg tt 0 1 2 cfg-IsValid refl refl

abbrev cluster : KubeApi ℕ Object
cluster = record {
  track = λ mg calls. (none, calls + 1);
  get_provider_config = λ nn calls. (
    inr (record {
      region = codes "eu-west";
      environment = [];
      credentials = record { source = codes "Secret"; secret_ref = none };
    }),
    calls + 1,
  );
  get_secret = λ nn calls. (inl (foreign (codes "404")), calls);
  extract = λ source ref calls. (inr secret, calls + 1);
}

abbrev pub env : Environment ℕ (Unit {0}) (Unit {0}) (Unit {0})
env = record { kube = cluster; dip = dip; unmarshal = unmarshal }

abbrev resource : Managed GroupParameters GroupObservation
resource = record (cr []) { provider_config_ref = some (codes "default") }

abbrev pub client : Client (Unit {0}) (Unit {0}) (Unit {0})
client = record { iam = tt; mdm = none; provisioning = some tt }

connected : (connect_resource group_kind env (resource, 0)).0 ≡ ok client
unfolding connect_resource config_from_secret format_private_key text_eq new_client
connected = refl

connect_resource-Connection_example :
    Connection group_kind env resource 0 client (connect_resource group_kind env (resource, 0)).1.1
    × ((connect_resource group_kind env (resource, 0)).1.0 ≡ resource)
connect_resource-Connection_example =
    connect_resource-Connection group_kind env resource 0 {client = client} connected

-- A platform with MDM.
abbrev dip_mdm : DipApi ℕ (Unit {0}) (Unit {0}) (Unit {0})
dip_mdm = record dip { new_mdm = λ iam config calls. (inr tt, calls + 1) }

abbrev env_mdm : Environment ℕ (Unit {0}) (Unit {0}) (Unit {0})
env_mdm = record { kube = cluster; dip = dip_mdm; unmarshal = unmarshal }

abbrev client_mdm : Client (Unit {0}) (Unit {0}) (Unit {0})
client_mdm = record { iam = tt; mdm = some tt; provisioning = some tt }

abbrev mdm_resource : MdmApplication
mdm_resource = record (application []) { provider_config_ref = some (codes "default") }

connected_mdm :
    (connect_mdm mdm_application_kind env_mdm (mdm_application mdm_resource, 0)).0 ≡ ok client_mdm
unfolding connect_mdm config_from_secret format_private_key text_eq new_client
connected_mdm = refl
