-- ===== src/Dip/Client.antt =====
-- `Client` and `NewClient` of `internal/clients/dip/client.go`. The constructors and the login of
-- go-dip-api enter as the record `DipApi`: they act on a world `W` and return an error or a value.
pub mod Availability
use provider_dip.Base.{Text, Option, none, some, is_empty, if◌then◌else◌, inl, inr, ◌⊎◌}
use provider_dip.Go.{
  Error, new, wrap, M, pure, throw, ◌>>=◌, ◌>>◌, Attempt, wrapping, ok, wrapf, call,
}
use provider_dip.Go.{Outcome, continue}
use provider_dip.Base.{[], ◌∷◌}
use provider_dip.Dip.Config.{Config}

-- `iam.Config`, and `mdm.Config` and `provisioning.Config`.
pub record IamConfig : Type 0 where
  pub region : Text
  pub environment : Text
  pub token_audience : Text

pub record ConnectConfig : Type 0 where
  pub region : Text
  pub environment : Text

-- `iam.Service`, as the login takes it.
pub record ServiceIdentity : Type 0 where
  pub service_id : Text
  pub private_key : Text

-- The parts of go-dip-api that `NewClient` calls.
pub record DipApi (W Iam Mdm Provisioning : Type 0) : Type 0 where
  pub new_iam : IamConfig → W → Attempt Iam × W
  pub service_login : Iam → ServiceIdentity → W → Option Error × W
  pub new_mdm : Iam → ConnectConfig → W → Attempt Mdm × W
  pub new_provisioning : Iam → ConnectConfig → W → Attempt Provisioning × W

pub record Client (Iam Mdm Provisioning : Type 0) : Type 0 where
  pub iam : Iam
  pub mdm : Option Mdm
  pub provisioning : Option Provisioning

-- `if err != nil { client = nil }`.
abbrev pub available {ℓ} : {A : Type ℓ} → Attempt A → Option A
available (inl e) = none
available (inr a) = some a

-- The error of a refused login names the service identity.
abbrev login_failure : {W : Type 0} → Text → Option Error → M W (Unit {0})
login_failure id none = pure tt
login_failure id (some e) = throw (wrapf e "failed to authenticate service identity '%s'" (id ∷ []))

module _ {W Iam Mdm Provisioning : Type 0} (api : DipApi W Iam Mdm Provisioning) where
  -- What follows the checks of the required fields.
  unfoldable pub connect_services : Config → M W (Client Iam Mdm Provisioning)
  connect_services cfg = do
    made ← call (
        api.new_iam (record {
          region = cfg.region;
          environment = cfg.environment;
          token_audience = cfg.token_audience;
        }))
    iam_client ← wrapping "failed to create IAM client" made
    refused ← call (
        api.service_login iam_client
          (record { service_id = cfg.service_id; private_key = cfg.service_private_key }))
    login_failure cfg.service_id refused
    mdm_client ←
        call
          (api.new_mdm iam_client (record { region = cfg.region; environment = cfg.environment }))
    provisioning_client ← call (
        api.new_provisioning iam_client
          (record { region = cfg.region; environment = cfg.environment }))
    pure (record {
      iam = iam_client;
      mdm = available mdm_client;
      provisioning = available provisioning_client;
    })

  unfoldable pub new_client : Config → M W (Client Iam Mdm Provisioning)
  unfolding connect_services
  new_client cfg =
      if is_empty cfg.region
      then throw (new "region is required")
      else if is_empty cfg.environment
      then throw (new "environment is required")
      else if is_empty cfg.service_id
      then throw (new "service_id is required")
      else if is_empty cfg.service_private_key
      then throw (new "service_private_key is required")
      else connect_services cfg
