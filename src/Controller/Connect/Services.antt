-- ===== src/Controller/Connect/Services.antt =====
-- What a successful `Connect` of the controllers went through that need a service and keep the
-- namespace of the resource: authentication methods (MDM) and organization configurations
-- (provisioning).
use provider_dip.Base.{Option, none, some, ◌≡◌, refl, ap, sym, ◌∙◌, subst}
use provider_dip.Go.{ok, pure, continue-ok, ok-injective, ◌>>=◌}
use provider_dip.Managed.{Managed}
use provider_dip.Dip.Client.{Client}
use provider_dip.Apis.Object.{Kind}
use provider_dip.Controller.{Handler, resource, asserted}
use provider_dip.Controller.Objects.{asserted-object}
use provider_dip.Controller.Connect.{
  Environment, Connected, connect_resource, require_mdm, require_provisioning,
  connect_mdm_with_namespace, connect_provisioning,
}
use provider_dip.Controller.Connect.Chain.{Connection, connect_resource-Connection}

module _ {P S W Iam Mdm Provisioning : Type 0} (kind : Kind P S)
    (env : Environment W Iam Mdm Provisioning) where
  -- A step that lets a client pass or fails.
  abbrev Guards :
      (Client Iam Mdm Provisioning → Handler P S W (Client Iam Mdm Provisioning))
      → (Client Iam Mdm Provisioning → Type 0)
      → Type 0
  Guards guard Ready =
      (client : Client Iam Mdm Provisioning) (s : Managed P S × W) (c : Client Iam Mdm Provisioning)
      → (guard client s).0 ≡ ok c
      → (client ≡ c) × ((guard client s).1 ≡ s) × Ready c

  guarded-Connection :
      (guard : Client Iam Mdm Provisioning → Handler P S W (Client Iam Mdm Provisioning))
      (Ready : Client Iam Mdm Provisioning → Type 0) (cr : Managed P S) (w : W)
      {c : Connected Iam Mdm Provisioning}
      → Guards guard Ready
      → let connect = asserted {A = Connected Iam Mdm Provisioning} kind (do
        made ← connect_resource kind env
        client ← guard made
        cr ← resource
        pure (record { client = client; namespace = cr.namespace })) in
        (connect (kind.object cr, w)).0 ≡ ok c
        → Connection kind env cr w c.client (connect_resource kind env (cr, w)).1.1
          × (c.namespace ≡ cr.namespace)
          × Ready c.client
  guarded-Connection guard Ready cr w {c} guards h =
      let finish : Client Iam Mdm Provisioning → Handler P S W (Connected Iam Mdm Provisioning) =
        λ client. resource >>= λ cr. pure (record { client = client; namespace = cr.namespace }) in
      let body : Handler P S W (Connected Iam Mdm Provisioning) =
        connect_resource kind env >>= λ made. guard made >>= finish in
      let resourced = connect_resource kind env (cr, w) in
      let opened = ap (λ q. q.0) (sym (asserted-object kind body cr w)) ∙ h in
      let (made, e, after) = continue-ok resourced (λ m. guard m >>= finish) opened in
      let (client, passed, after') =
        continue-ok (guard made resourced.1) finish (ap (λ q. q.0) (sym after) ∙ opened) in
      let (same, kept, ready) = guards made resourced.1 client passed in
      let (connection, held) = connect_resource-Connection kind env cr w e in
      let result : record { client = client; namespace = (guard made resourced.1).1.0.namespace }
          ≡ c =
        ok-injective (ap (λ q. q.0) (sym (after ∙ after')) ∙ opened) in
      let clients : client ≡ c.client =
        ap (λ (x : Connected Iam Mdm Provisioning). x.client) result in
      (
        subst (λ x. Connection kind env cr w x resourced.1.1) (same ∙ clients) connection,
        ap (λ (x : Connected Iam Mdm Provisioning). x.namespace) (sym result)
            ∙ ap (λ s. s.0.namespace) kept
            ∙ ap (λ (x : Managed P S). x.namespace) held,
        subst Ready clients ready,
      )

  provisioning_there :
      (o : Option Provisioning) (client : Client Iam Mdm Provisioning) (s : Managed P S × W)
      {c : Client Iam Mdm Provisioning}
      → (require_provisioning kind env o client s).0 ≡ ok c
      → (client ≡ c)
        × ((require_provisioning kind env o client s).1 ≡ s)
        × ((provisioning : Provisioning) × (o ≡ some provisioning))
  unfolding require_provisioning
  provisioning_there none client s h = cc
  provisioning_there (some provisioning) client s h = (ok-injective h, refl, (provisioning, refl))

  mdm_there :
      (o : Option Mdm) (client : Client Iam Mdm Provisioning) (s : Managed P S × W)
      {c : Client Iam Mdm Provisioning}
      → (require_mdm kind env o client s).0 ≡ ok c
      → (client ≡ c) × ((require_mdm kind env o client s).1 ≡ s) × ((mdm : Mdm) × (o ≡ some mdm))
  unfolding require_mdm
  mdm_there none client s h = cc
  mdm_there (some mdm) client s h = (ok-injective h, refl, (mdm, refl))

  -- A `Connect` of an organization configuration that returns went through all the steps of the
  -- other controllers, the client has provisioning, and the namespace in which secrets are looked up
  -- is that of the resource.
  pub connect_provisioning-Connection :
      (cr : Managed P S) (w : W) {c : Connected Iam Mdm Provisioning}
      → (connect_provisioning kind env (kind.object cr, w)).0 ≡ ok c
      → Connection kind env cr w c.client (connect_resource kind env (cr, w)).1.1
        × (c.namespace ≡ cr.namespace)
        × ((provisioning : Provisioning) × (c.client.provisioning ≡ some provisioning))
  unfolding connect_provisioning
  connect_provisioning-Connection cr w h =
      guarded-Connection (λ made. require_provisioning kind env made.provisioning made)
        (λ c. (provisioning : Provisioning) × (c.provisioning ≡ some provisioning)) cr w
        (λ client s c e.
          let (same, kept, (provisioning, there)) =
            provisioning_there client.provisioning client s e in
          (same, kept, (provisioning, ap (λ x. x.provisioning) (sym same) ∙ there)))
        h

  -- A `Connect` of an authentication method that returns went through all the steps of the other
  -- controllers, the client has MDM, and the namespace in which secrets are looked up is that of the
  -- resource.
  pub connect_mdm_with_namespace-Connection :
      (cr : Managed P S) (w : W) {c : Connected Iam Mdm Provisioning}
      → (connect_mdm_with_namespace kind env (kind.object cr, w)).0 ≡ ok c
      → Connection kind env cr w c.client (connect_resource kind env (cr, w)).1.1
        × (c.namespace ≡ cr.namespace)
        × ((mdm : Mdm) × (c.client.mdm ≡ some mdm))
  unfolding connect_mdm_with_namespace
  connect_mdm_with_namespace-Connection cr w h =
      guarded-Connection (λ made. require_mdm kind env made.mdm made)
        (λ c. (mdm : Mdm) × (c.mdm ≡ some mdm)) cr w
        (λ client s c e.
          let (same, kept, (mdm, there)) = mdm_there client.mdm client s e in
          (same, kept, (mdm, ap (λ x. x.mdm) (sym same) ∙ there)))
        h
