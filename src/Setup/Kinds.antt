-- ===== src/Setup/Kinds.antt =====
-- `Setup` of each managed kind: `internal/controller/<kind>/<kind>.go`.
use provider_dip.Go.{M}
use provider_dip.Setup
use provider_dip.Setup.{Manager, Options, setup_managed}

module _ {W : Type 0} (mgr : Manager W) (o : Options) where
  unfoldable pub setup_organization : M W (Unit {0})
  unfolding setup_managed
  setup_organization = setup_managed mgr o Setup.organization

  unfoldable pub setup_group : M W (Unit {0})
  unfolding setup_managed
  setup_group = setup_managed mgr o Setup.group

  unfoldable pub setup_role : M W (Unit {0})
  unfolding setup_managed
  setup_role = setup_managed mgr o Setup.role

  unfoldable pub setup_proposition : M W (Unit {0})
  unfolding setup_managed
  setup_proposition = setup_managed mgr o Setup.proposition

  unfoldable pub setup_application : M W (Unit {0})
  unfolding setup_managed
  setup_application = setup_managed mgr o Setup.application

  unfoldable pub setup_client : M W (Unit {0})
  unfolding setup_managed
  setup_client = setup_managed mgr o Setup.client

  unfoldable pub setup_service : M W (Unit {0})
  unfolding setup_managed
  setup_service = setup_managed mgr o Setup.service

  unfoldable pub setup_user : M W (Unit {0})
  unfolding setup_managed
  setup_user = setup_managed mgr o Setup.user

  unfoldable pub setup_email_template : M W (Unit {0})
  unfolding setup_managed
  setup_email_template = setup_managed mgr o Setup.email_template

  unfoldable pub setup_password_policy : M W (Unit {0})
  unfolding setup_managed
  setup_password_policy = setup_managed mgr o Setup.password_policy

  unfoldable pub setup_mdm_proposition : M W (Unit {0})
  unfolding setup_managed
  setup_mdm_proposition = setup_managed mgr o Setup.mdm_proposition

  unfoldable pub setup_mdm_application : M W (Unit {0})
  unfolding setup_managed
  setup_mdm_application = setup_managed mgr o Setup.mdm_application

  unfoldable pub setup_mdm_standard_service : M W (Unit {0})
  unfolding setup_managed
  setup_mdm_standard_service = setup_managed mgr o Setup.mdm_standard_service

  unfoldable pub setup_mdm_device_group : M W (Unit {0})
  unfolding setup_managed
  setup_mdm_device_group = setup_managed mgr o Setup.mdm_device_group

  unfoldable pub setup_mdm_device_type : M W (Unit {0})
  unfolding setup_managed
  setup_mdm_device_type = setup_managed mgr o Setup.mdm_device_type

  unfoldable pub setup_mdm_authentication_method : M W (Unit {0})
  unfolding setup_managed
  setup_mdm_authentication_method = setup_managed mgr o Setup.mdm_authentication_method

  unfoldable pub setup_org_configuration : M W (Unit {0})
  unfolding setup_managed
  setup_org_configuration = setup_managed mgr o Setup.org_configuration
