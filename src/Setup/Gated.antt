-- ===== src/Setup/Gated.antt =====
-- `internal/controller/register.go`.
use provider_dip.Base.{List, [], ◌∷◌}
use provider_dip.Go.{M, pure, ◌>>◌}
use provider_dip.Setup.{Manager, Options, setup_config}
use provider_dip.Setup.Kinds.{
  setup_organization, setup_group, setup_role, setup_proposition, setup_application, setup_client,
  setup_service, setup_user, setup_email_template, setup_password_policy, setup_mdm_proposition,
  setup_mdm_application, setup_mdm_standard_service, setup_mdm_device_group, setup_mdm_device_type,
  setup_mdm_authentication_method, setup_org_configuration,
}

-- The loop, which returns the first error.
unfoldable pub run_setups : {W : Type 0} → List (M W (Unit {0})) → M W (Unit {0})
run_setups [] = pure tt
run_setups (setup ∷ rest) = setup >> run_setups rest

module _ {W : Type 0} (mgr : Manager W) (o : Options) where
  unfoldable pub setups : List (M W (Unit {0}))
  unfolding setup_config setup_organization setup_group setup_role setup_proposition
      setup_application setup_client setup_service setup_user setup_email_template
      setup_password_policy setup_mdm_proposition setup_mdm_application setup_mdm_standard_service
      setup_mdm_device_group setup_mdm_device_type setup_mdm_authentication_method
      setup_org_configuration
  setups =
      setup_config mgr o
      ∷ setup_organization mgr o
      ∷ setup_group mgr o
      ∷ setup_role mgr o
      ∷ setup_proposition mgr o
      ∷ setup_application mgr o
      ∷ setup_client mgr o
      ∷ setup_service mgr o
      ∷ setup_user mgr o
      ∷ setup_email_template mgr o
      ∷ setup_password_policy mgr o
      ∷ setup_mdm_proposition mgr o
      ∷ setup_mdm_application mgr o
      ∷ setup_mdm_standard_service mgr o
      ∷ setup_mdm_device_group mgr o
      ∷ setup_mdm_device_type mgr o
      ∷ setup_mdm_authentication_method mgr o
      ∷ setup_org_configuration mgr o
      ∷ []

  unfoldable pub setup_gated : M W (Unit {0})
  unfolding run_setups setups
  setup_gated = run_setups setups
