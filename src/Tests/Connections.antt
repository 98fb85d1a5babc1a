-- ===== src/Tests/Connections.antt =====
-- `Connect` of the controllers that need a service and keep the namespace, run.
use provider_dip.Base.{some, [], ◌≡◌, refl, codes, text_eq}
use provider_dip.Go.{ok}
use provider_dip.Apis.Object.{OrgConfiguration, org_configuration}
use provider_dip.Apis.ProvisioningKinds.{org_configuration_kind}
use provider_dip.Dip.Key.{format_private_key}
use provider_dip.Dip.Config.{config_from_secret}
use provider_dip.Dip.Client.{new_client}
use provider_dip.Controller.Connect.{Connected, connect_resource, connect_provisioning}
use provider_dip.Controller.Connect.Chain.{Connection}
use provider_dip.Controller.Connect.Services.{connect_provisioning-Connection}
use provider_dip.Tests.Clients.{env, client}
use provider_dip.Tests.OrgConfiguration.{cr}

abbrev org_config : OrgConfiguration
org_config = record (cr []) { provider_config_ref = some (codes "default") }

abbrev connected : Connected (Unit {0}) (Unit {0}) (Unit {0})
connected = record { client = client; namespace = codes "team" }

provisioned :
    (connect_provisioning org_configuration_kind env (org_configuration org_config, 0)).0
    ≡ ok connected
unfolding connect_provisioning config_from_secret format_private_key text_eq new_client
provisioned = refl

connect_provisioning-Connection_example :
    Connection org_configuration_kind env org_config 0 client
      (connect_resource org_configuration_kind env (org_config, 0)).1.1
    × (connected.namespace ≡ codes "team")
    × ((provisioning : Unit {0}) × (client.provisioning ≡ some provisioning))
connect_provisioning-Connection_example =
    connect_provisioning-Connection org_configuration_kind env org_config 0 {c = connected}
      provisioned
