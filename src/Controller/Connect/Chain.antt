-- ===== src/Controller/Connect/Chain.antt =====
-- What a successful `Connect` went through.
use provider_dip.Base.{Text, Option, none, some, ◌≡◌, refl, ap, sym, ◌∙◌, inr}
use provider_dip.Go.{
  ok, panic, continue, Attempt, rewrap, check_then, wrapping_then, rewrap_then, rewrap-ok,
}
use provider_dip.Kube.{ProviderConfigSpec}
use provider_dip.Managed.{Managed}
use provider_dip.Dip.Config.{Config, config_from_secret}
use provider_dip.Dip.Config.Fields.{IsValid, config_from_secret_ok_iff}
use provider_dip.Dip.Client.{Client, new_client, connect_services}
use provider_dip.Dip.Client.Availability.{new_client-config_from_secret}
use provider_dip.Controller.{Handler}
use provider_dip.Controller.Objects.{asserted-object}
use provider_dip.Base.{subst}
use provider_dip.Go.{continue-ok, ok-injective, ◌>>=◌}
use provider_dip.Apis.Object.{Kind}
use provider_dip.Controller.Connect.{
  Environment, reference_name, connect_resource, require_mdm, connect_mdm,
}

reference_then :
    {P S W B : Type 0} (cr : Managed P S) (s : Managed P S × W) (f : Text → Handler P S W B) {b : B}
    → (continue (reference_name cr s) f).0 ≡ ok b
    → (name : Text) × (cr.provider_config_ref ≡ some name)
      × (continue (reference_name cr s) f ≡ f name s)
unfolding reference_name
reference_then cr s f h = go cr.provider_config_ref refl
  where
    go :
        (o : Option Text)
        → cr.provider_config_ref ≡ o
        → (name : Text) × (cr.provider_config_ref ≡ some name)
          × (continue (reference_name cr s) f ≡ f name s)
    go none e = cc (
        sym (
          ap (λ q. q.0)
            (let p : continue (reference_name cr s) f ≡ (panic, s) = rw (e, reference_name) in p))
        ∙ h)
    go (some name) e = (name, e, rw (e, reference_name))

module _ {P S W Iam Mdm Provisioning : Type 0} (kind : Kind P S)
    (env : Environment W Iam Mdm Provisioning) where
  abbrev config_of : Managed P S → W → Text → Attempt ProviderConfigSpec × W
  config_of cr w name =
      env.kube.get_provider_config (record { name = name; namespace = cr.namespace })
        (env.kube.track (kind.object cr) w).1

  abbrev secret_of : ProviderConfigSpec → W → Attempt Text × W
  secret_of pc = env.kube.extract pc.credentials.source pc.credentials.secret_ref

  -- The steps of a `Connect` that returned `client` and the world `end`: the usage was tracked, the
  -- ProviderConfig that the resource names was found in the resource's own namespace, its
  -- credentials were read and gave a valid configuration, and the services were connected with it.
  pub record Connection (cr : Managed P S) (w : W) (client : Client Iam Mdm Provisioning) (end : W)
      : Type 0 where
    pub name : Text
    pub pc : ProviderConfigSpec
    pub secret_data : Text
    pub cfg : Config
    pub tracked : (env.kube.track (kind.object cr) w).0 ≡ none
    pub referenced : cr.provider_config_ref ≡ some name
    pub found : (config_of cr w name).0 ≡ inr pc
    pub extracted : (secret_of pc (config_of cr w name).1).0 ≡ inr secret_data
    pub configured : config_from_secret env.unmarshal pc.region pc.environment secret_data ≡ ok cfg
    pub valid : IsValid cfg
    pub connected :
        connect_services env.dip cfg (secret_of pc (config_of cr w name).1).1 ≡ (ok client, end)

  -- The steps up to the construction of the client, and what is left to do then.
  record Prepared (cr : Managed P S) (w : W) : Type 0 where
    name : Text
    pc : ProviderConfigSpec
    secret_data : Text
    cfg : Config
    tracked : (env.kube.track (kind.object cr) w).0 ≡ none
    referenced : cr.provider_config_ref ≡ some name
    found : (config_of cr w name).0 ≡ inr pc
    extracted : (secret_of pc (config_of cr w name).1).0 ≡ inr secret_data
    configured : config_from_secret env.unmarshal pc.region pc.environment secret_data ≡ ok cfg
    left :
        let made = new_client env.dip cfg (secret_of pc (config_of cr w name).1).1 in
        connect_resource kind env (cr, w) ≡ (rewrap "cannot create DIP client" made.0, (cr, made.1))

  prepare :
      (cr : Managed P S) (w : W) {client : Client Iam Mdm Provisioning}
      → (connect_resource kind env (cr, w)).0 ≡ ok client
      → Prepared cr w
  unfolding connect_resource
  prepare cr w {client} h =
      let (tracked, p1) = check_then _ (env.kube.track (kind.object cr) w).0 _ _ h in
      let (name, referenced, p2) = reference_then cr _ _ (ap (λ q. q.0) (sym p1) ∙ h) in
      let (pc, found, p3) =
        wrapping_then _ (config_of cr w name).0 _ _ (ap (λ q. q.0) (sym (p1 ∙ p2)) ∙ h) in
      let (secret_data, extracted, p4) =
        wrapping_then _ (secret_of pc (config_of cr w name).1).0 _ _
          (ap (λ q. q.0) (sym (p1 ∙ p2 ∙ p3)) ∙ h) in
      let (cfg, configured, p5) =
        rewrap_then _ (config_from_secret env.unmarshal pc.region pc.environment secret_data) _ _
          (ap (λ q. q.0) (sym (p1 ∙ p2 ∙ p3 ∙ p4)) ∙ h) in
      record {
        name = name;
        pc = pc;
        secret_data = secret_data;
        cfg = cfg;
        tracked = tracked;
        referenced = referenced;
        found = found;
        extracted = extracted;
        configured = configured;
        left = p1 ∙ p2 ∙ p3 ∙ p4 ∙ p5;
      }

  complete :
      (cr : Managed P S) (w : W) {client : Client Iam Mdm Provisioning}
      → Prepared cr w
      → (connect_resource kind env (cr, w)).0 ≡ ok client
      → Connection cr w client (connect_resource kind env (cr, w)).1.1
        × ((connect_resource kind env (cr, w)).1.0 ≡ cr)
  complete cr w {client} p h =
      let w3 = (secret_of p.pc (config_of cr w p.name).1).1 in
      let made = rewrap-ok _ (new_client env.dip p.cfg w3).0 (ap (λ q. q.0) (sym p.left) ∙ h) in
      let (_, _, _, valid) =
        (config_from_secret_ok_iff env.unmarshal p.pc.region p.pc.environment p.secret_data p.cfg).0
          p.configured in
      (
        record {
          name = p.name;
          pc = p.pc;
          secret_data = p.secret_data;
          cfg = p.cfg;
          tracked = p.tracked;
          referenced = p.referenced;
          found = p.found;
          extracted = p.extracted;
          configured = p.configured;
          valid = valid;
          connected =
              sym (
                new_client-config_from_secret env.dip env.unmarshal p.pc.region p.pc.environment
                  p.secret_data p.cfg w3 p.configured)
              ∙ (λ i. (made i, sym (ap (λ q. q.1.1) p.left) i));
        },
        ap (λ q. q.1.0) p.left,
      )

  -- A `Connect` that returns a client went through all its steps, and left the resource as it was:
  -- the usage was tracked, the ProviderConfig that the resource names was found in the resource's own
  -- namespace, its credentials were read and gave a valid configuration, and the services were
  -- connected with it.
  pub connect_resource-Connection :
      (cr : Managed P S) (w : W) {client : Client Iam Mdm Provisioning}
      → (connect_resource kind env (cr, w)).0 ≡ ok client
      → Connection cr w client (connect_resource kind env (cr, w)).1.1
        × ((connect_resource kind env (cr, w)).1.0 ≡ cr)
  connect_resource-Connection cr w h = complete cr w (prepare cr w h) h

  require_mdm_ok :
      (o : Option Mdm) (client : Client Iam Mdm Provisioning) (s : Managed P S × W)
      {c : Client Iam Mdm Provisioning}
      → (require_mdm kind env o client s).0 ≡ ok c
      → (client ≡ c) × ((mdm : Mdm) × (o ≡ some mdm))
  unfolding require_mdm
  require_mdm_ok none client s h = cc
  require_mdm_ok (some mdm) client s h = (ok-injective h, (mdm, refl))

  -- A `Connect` of an MDM resource that returns a client went through the same steps, and the client
  -- has MDM.
  pub connect_mdm-Connection :
      (cr : Managed P S) (w : W) {client : Client Iam Mdm Provisioning}
      → (connect_mdm kind env (kind.object cr, w)).0 ≡ ok client
      → Connection cr w client (connect_resource kind env (cr, w)).1.1
        × ((mdm : Mdm) × (client.mdm ≡ some mdm))
  unfolding connect_mdm
  connect_mdm-Connection cr w {client} h =
      let resourced = connect_resource kind env (cr, w) in
      let opened : (continue resourced (λ c. require_mdm kind env c.mdm c)).0 ≡ ok client =
        ap (λ q. q.0)
          (sym (
            asserted-object kind (connect_resource kind env >>= λ c. require_mdm kind env c.mdm c)
              cr w))
        ∙ h in
      let (found, made, after) = continue-ok resourced (λ c. require_mdm kind env c.mdm c) opened in
      let (same, (mdm, there)) =
        require_mdm_ok found.mdm found resourced.1 (ap (λ q. q.0) (sym after) ∙ opened) in
      (
        subst (λ c. Connection cr w c resourced.1.1) same (connect_resource-Connection cr w made).0,
        (mdm, ap (λ c. c.mdm) (sym same) ∙ there),
      )
