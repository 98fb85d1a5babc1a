-- ===== src/Tests/Provider.antt =====
-- `main`, run with libraries that count their calls.
use provider_dip.Base.{ℕ, ◌+◌, true, false, none, ◌≡◌, refl, codes, pos, inr}
use provider_dip.Go.{ok}
use provider_dip.Setup.{setup_managed, setup_config}
use provider_dip.Setup.Gated.{setup_gated, run_setups, setups}
use provider_dip.Setup.Kinds.{
  setup_organization, setup_group, setup_role, setup_proposition, setup_application, setup_client,
  setup_service, setup_user, setup_email_template, setup_password_policy, setup_mdm_proposition,
  setup_mdm_application, setup_mdm_standard_service, setup_mdm_device_group, setup_mdm_device_type,
  setup_mdm_authentication_method, setup_org_configuration,
}
use provider_dip.Provider.{Flags, Libraries, main, prepare, run, set_up, connect_change_logs}
use provider_dip.Provider.Start.{Started, main-Started}

abbrev flags : Flags
flags = record {
  debug = false;
  leader_election = false;
  sync_interval = pos 3600000000000;
  poll_interval = pos 60000000000;
  poll_state_metric_interval = pos 5000000000;
  max_reconcile_rate = pos 10;
  enable_management_policies = true;
  enable_change_logs = true;
  changelogs_socket_path = codes "/var/run/changelogs/changelogs.sock";
}

abbrev lib : Libraries ℕ (Unit {0}) (Unit {0}) (Unit {0})
lib = record {
  set_logger = λ debug calls. (tt, calls + 1);
  get_config = λ calls. (inr tt, calls + 1);
  new_manager = λ rest rate o calls. (inr tt, calls + 1);
  add_to_scheme = λ mgr calls. (none, calls + 1);
  add_definitions_to_scheme = λ mgr calls. (none, calls + 1);
  register_metrics = λ calls. (tt, calls + 1);
  new_global = λ rate. codes "global";
  for_controller_runtime = λ rate. codes "options";
  new_grpc_client = λ target calls. (inr tt, calls + 1);
  setup_definitions_gate = λ mgr calls. (none, calls + 1);
  manager = λ mgr. record {
    managed_name = λ kind. codes "managed/";
    provider_config_name = λ kind. codes "config/";
    complete = λ b calls. (none, calls + 1);
  };
  start = λ mgr calls. (none, calls + 1);
}

-- 8 calls before the controllers, 18 controllers, and the start.
ran : main lib flags 0 ≡ (ok tt, 27)
unfolding main prepare run set_up connect_change_logs setup_gated run_setups setups setup_managed
    setup_config setup_organization setup_group setup_role setup_proposition setup_application
    setup_client setup_service setup_user setup_email_template setup_password_policy
    setup_mdm_proposition setup_mdm_application setup_mdm_standard_service setup_mdm_device_group
    setup_mdm_device_type setup_mdm_authentication_method setup_org_configuration
ran = refl

main-Started_example : Started lib flags 0 27
main-Started_example = main-Started lib flags 0 27 ran
