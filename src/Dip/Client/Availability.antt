-- ===== src/Dip/Client/Availability.antt =====
-- `NewClient` of `internal/clients/dip/client.go`, given the answers of go-dip-api.
use provider_dip.Base.{Text, none, ◌≡◌, refl, ◌↔◌, inl, inr}
use provider_dip.Base.{◌∙◌}
use provider_dip.Go.{Error, ok, Attempt}
use provider_dip.Dip.Config.{Config, Credentials, config_from_secret}
use provider_dip.Dip.Config.Fields.{IsValid, is_empty-ne, config_from_secret_ok_iff}
use provider_dip.Dip.Client.{DipApi, IamConfig, ConnectConfig, ServiceIdentity, Client, available}
use provider_dip.Dip.Client.{connect_services, new_client}

abbrev pub iam_config : Config → IamConfig
iam_config cfg = record {
  region = cfg.region;
  environment = cfg.environment;
  token_audience = cfg.token_audience;
}

abbrev pub connect_config : Config → ConnectConfig
connect_config cfg = record { region = cfg.region; environment = cfg.environment }

abbrev pub identity : Config → ServiceIdentity
identity cfg = record { service_id = cfg.service_id; private_key = cfg.service_private_key }

available-none : {A : Type 0} (t : Attempt A) → (available t ≡ none) ↔ ((e : Error) × (t ≡ inl e))
available-none (inl e) = (λ _. (e, refl), λ _. refl)
available-none (inr a) = (λ h. cc, λ (e, h). cc)

module _ {W Iam Mdm Provisioning : Type 0} (api : DipApi W Iam Mdm Provisioning) where
  new_client-IsValid :
      (cfg : Config) (w : W) → IsValid cfg → new_client api cfg w ≡ connect_services api cfg w
  unfolding new_client
  new_client-IsValid cfg w v = rw (
    is_empty-ne cfg.region v.region,
    is_empty-ne cfg.environment v.environment,
    is_empty-ne cfg.service_id v.service_id,
    is_empty-ne cfg.service_private_key v.service_private_key,
  )

  -- A configuration that `config_from_secret` accepted passes all checks of `new_client`: what
  -- `new_client` does with it is to connect the services.
  pub new_client-config_from_secret :
      (unmarshal : Text → Attempt Credentials) (spec_region spec_env secret : Text) (cfg : Config)
      (w : W)
      → config_from_secret unmarshal spec_region spec_env secret ≡ ok cfg
      → new_client api cfg w ≡ connect_services api cfg w
  new_client-config_from_secret unmarshal spec_region spec_env secret cfg w h =
      let (_, _, _, v) =
        (config_from_secret_ok_iff unmarshal spec_region spec_env secret cfg).0 h in
      new_client-IsValid cfg w v

  -- With a valid configuration, an IAM client and an accepted login, `new_client` succeeds whatever
  -- MDM and provisioning answer, with the IAM client. The MDM client is nil exactly when its
  -- constructor failed, and so is the provisioning client.
  pub new_client_available :
      (cfg : Config) (iam_client : Iam) (w w1 w2 : W)
      → IsValid cfg
      → api.new_iam (iam_config cfg) w ≡ (inr iam_client, w1)
      → api.service_login iam_client (identity cfg) w1 ≡ (none, w2)
      → let mdm = api.new_mdm iam_client (connect_config cfg) w2 in
        let provisioning = api.new_provisioning iam_client (connect_config cfg) mdm.1 in
        (client : Client Iam Mdm Provisioning) × (new_client api cfg w
          ≡ (ok client, provisioning.1))
        × (client.iam ≡ iam_client)
        × ((client.mdm ≡ none) ↔ ((e : Error) × (mdm.0 ≡ inl e)))
        × ((client.provisioning ≡ none) ↔ ((e : Error) × (provisioning.0 ≡ inl e)))
  unfolding connect_services
  new_client_available cfg iam_client w w1 w2 v made login =
      let mdm = api.new_mdm iam_client (connect_config cfg) w2 in
      let provisioning = api.new_provisioning iam_client (connect_config cfg) mdm.1 in
      (
        record { iam = iam_client; mdm = available mdm.0; provisioning = available provisioning.0 },
        new_client-IsValid cfg w v ∙ rw (made, login),
        refl,
        available-none mdm.0,
        available-none provisioning.0,
      )
