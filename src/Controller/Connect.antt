-- ===== src/Controller/Connect.antt =====
-- `connector.Connect` of the controllers: from a managed resource to an authenticated DIP client.
-- All IAM controllers have the same text; the client controller also keeps the Kubernetes client
-- and the namespace. The MDM and the provisioning controllers check that their service is there.
pub mod Chain
pub mod Services
use provider_dip.Base.{Text, List, String, Option, none, some, inl, inr}
use provider_dip.Go.{
  Error, new, wrap, Outcome, ok, fail, panic, M, pure, throw, nil_dereference, continue,
}
use provider_dip.Go.{◌>>=◌, ◌>>◌, Attempt, wrapping, check, rewrap, lift_outcome}
use provider_dip.Kube.{KubeApi, ProviderConfigSpec, NamespacedName}
use provider_dip.Managed.{Managed}
use provider_dip.Dip.Config.{Credentials, Config, config_from_secret}
use provider_dip.Dip.Client.{Client, DipApi, new_client}
use provider_dip.Apis.Object.{Object, Kind}
use provider_dip.Controller.{Handler, resource, remote, on_world, asserted}

-- What the connectors depend on.
pub record Environment (W Iam Mdm Provisioning : Type 0) : Type 0 where
  pub kube : KubeApi W Object
  pub dip : DipApi W Iam Mdm Provisioning
  pub unmarshal : Text → Attempt Credentials

-- `external` of the controllers that read secrets.
pub record Connected (Iam Mdm Provisioning : Type 0) : Type 0 where
  pub client : Client Iam Mdm Provisioning
  pub namespace : Text

module _ {P S W : Type 0} where
  -- `ref.Name`, on the pointer that `GetProviderConfigReference` returns.
  unfoldable pub reference_name : Managed P S → Handler P S W Text
  reference_name cr = elim cr.provider_config_ref [ none ↦ nil_dereference | some name ↦ pure name ]

module _ {P S W Iam Mdm Provisioning : Type 0} (kind : Kind P S)
    (env : Environment W Iam Mdm Provisioning) where
  unfoldable pub connect_resource : Handler P S W (Client Iam Mdm Provisioning)
  unfolding reference_name
  connect_resource = do
    cr ← resource
    untracked ← remote (env.kube.track (kind.object cr))
    check "cannot track ProviderConfig usage" untracked
    name ← reference_name cr
    found ← remote (env.kube.get_provider_config (record { name = name; namespace = cr.namespace }))
    pc ← wrapping "cannot get ProviderConfig" found
    extracted ← remote (env.kube.extract pc.credentials.source pc.credentials.secret_ref)
    secret_data ← wrapping "cannot get credentials" extracted
    cfg ← lift_outcome (
        rewrap "cannot get credentials"
          (config_from_secret env.unmarshal pc.region pc.environment secret_data))
    made ← on_world (new_client env.dip cfg)
    lift_outcome (rewrap "cannot create DIP client" made)

  unfoldable pub connect : M (Object × W) (Client Iam Mdm Provisioning)
  unfolding connect_resource asserted
  connect = asserted kind connect_resource

  -- The client controller's, which ends in `&external{client, kube, namespace}`.
  unfoldable pub connect_with_namespace : M (Object × W) (Connected Iam Mdm Provisioning)
  unfolding connect_resource asserted
  connect_with_namespace = asserted kind (do
    client ← connect_resource
    cr ← resource
    pure (record { client = client; namespace = cr.namespace }))

  -- The MDM controllers', which refuse a client without MDM.
  unfoldable pub require_mdm :
      Option Mdm → Client Iam Mdm Provisioning → Handler P S W (Client Iam Mdm Provisioning)
  require_mdm none client = throw (new "MDM is not available for the configured region/environment")
  require_mdm (some mdm) client = pure client

  unfoldable pub connect_mdm : M (Object × W) (Client Iam Mdm Provisioning)
  unfolding connect_resource asserted require_mdm
  connect_mdm = asserted kind (do client ← connect_resource; require_mdm client.mdm client)

  -- That of the authentication methods, which also keeps the Kubernetes client and the namespace.
  unfoldable pub connect_mdm_with_namespace : M (Object × W) (Connected Iam Mdm Provisioning)
  unfolding connect_resource asserted require_mdm
  connect_mdm_with_namespace = asserted kind (do
    made ← connect_resource
    client ← require_mdm made.mdm made
    cr ← resource
    pure (record { client = client; namespace = cr.namespace }))

  -- The provisioning controller's, which refuses a client without provisioning.
  unfoldable pub require_provisioning :
      Option Provisioning
      → Client Iam Mdm Provisioning
      → Handler P S W (Client Iam Mdm Provisioning)
  require_provisioning none client =
      throw (new "provisioning is not available for the configured region/environment")
  require_provisioning (some provisioning) client = pure client

  unfoldable pub connect_provisioning : M (Object × W) (Connected Iam Mdm Provisioning)
  unfolding connect_resource asserted require_provisioning
  connect_provisioning = asserted kind (do
    made ← connect_resource
    client ← require_provisioning made.provisioning made
    cr ← resource
    pure (record { client = client; namespace = cr.namespace }))
