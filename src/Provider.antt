-- ===== src/Provider.antt =====
-- `cmd/provider/main.go`: from the flags to the running manager.
pub mod Start
use provider_dip.Base.{
  Text, Option, Bool, true, false, ℤ, pos, none, some, inl, inr, String, if◌then◌else◌, codes, ◌++◌,
  [], ◌∷◌,
}
use provider_dip.Go.{
  Error, Attempt, M, pure, call, check, wrapping, throw, wrapf, rewrap, ◌>>=◌, ◌>>◌,
}
use provider_dip.Setup
use provider_dip.Setup.Gated.{setup_gated}

-- The flags, parsed; durations in nanoseconds.
pub record Flags : Type 0 where
  pub debug : Bool
  pub leader_election : Bool
  pub sync_interval : ℤ
  pub poll_interval : ℤ
  pub poll_state_metric_interval : ℤ
  pub max_reconcile_rate : ℤ
  pub enable_management_policies : Bool
  pub enable_change_logs : Bool
  pub changelogs_socket_path : Text

-- `ctrl.Options`.
pub record ManagerOptions : Type 0 where
  pub sync_period : ℤ
  pub leader_election : Bool
  pub leader_election_id : String
  pub lease_duration : ℤ
  pub renew_deadline : ℤ

-- The libraries that `main` calls. `Rest` is a REST configuration, `Mgr` a manager and `Conn` a gRPC
-- connection.
pub record Libraries (W Rest Mgr Conn : Type 0) : Type 0 where
  pub set_logger : Bool → W → Unit {0} × W
  pub get_config : W → Attempt Rest × W
  -- with the REST configuration limited to the rate
  pub new_manager : Rest → ℤ → ManagerOptions → W → Attempt Mgr × W
  pub add_to_scheme : Mgr → W → Option Error × W
  pub add_definitions_to_scheme : Mgr → W → Option Error × W
  pub register_metrics : W → Unit {0} × W
  pub new_global : ℤ → Text
  pub for_controller_runtime : ℤ → Text
  pub new_grpc_client : Text → W → Attempt Conn × W
  pub setup_definitions_gate : Mgr → W → Option Error × W
  pub manager : Mgr → Setup.Manager W
  pub start : Mgr → W → Option Error × W

abbrev pub manager_options : Flags → ManagerOptions
manager_options flags = record {
  sync_period = flags.sync_interval;
  leader_election = flags.leader_election;
  leader_election_id = "crossplane-leader-election-provider-template";
  lease_duration = pos 60000000000;
  renew_deadline = pos 50000000000;
}

module _ {W Rest Mgr Conn : Type 0} (lib : Libraries W Rest Mgr Conn) (flags : Flags) where
  -- `o`: what the setups read of it.
  abbrev pub options : Setup.Options
  options = record {
    poll_interval = flags.poll_interval;
    beta_management_policies = flags.enable_management_policies;
    rate_limiter = lib.new_global flags.max_reconcile_rate;
    for_controller_runtime = lib.for_controller_runtime flags.max_reconcile_rate;
  }

  -- The change logs: a connection is made, and put into the options.
  unfoldable pub connect_change_logs : Bool → M W (Unit {0})
  connect_change_logs false = pure tt
  connect_change_logs true = do
    made ← call (lib.new_grpc_client (codes "unix://" ++ flags.changelogs_socket_path))
    elim made [
      | inl e ↦ throw (
          wrapf e "failed to create change logs client connection at %s"
            (flags.changelogs_socket_path ∷ []))
      | inr conn ↦ pure tt
    ]

  unfoldable pub set_up : Mgr → M W (Unit {0})
  set_up mgr w =
      let (outcome, after) = setup_gated (lib.manager mgr) options w in
      (rewrap "Cannot setup Template controllers" outcome, after)

  -- The start of `main`, up to the options; a call under `kingpin.FatalIfError` that fails ends the
  -- program with that message.
  unfoldable pub prepare : M W Mgr
  unfolding connect_change_logs
  prepare = do
    call (lib.set_logger flags.debug)
    found ← call lib.get_config
    cfg ← wrapping "Cannot get API server rest config" found
    made ← call (lib.new_manager cfg flags.max_reconcile_rate (manager_options flags))
    mgr ← wrapping "Cannot create controller manager" made
    added ← call (lib.add_to_scheme mgr)
    check "Cannot add Template APIs to scheme" added
    defined ← call (lib.add_definitions_to_scheme mgr)
    check "Cannot add CustomResourceDefinition to scheme" defined
    call lib.register_metrics
    connect_change_logs flags.enable_change_logs
    pure mgr

  -- The rest of it.
  unfoldable pub run : Mgr → M W (Unit {0})
  unfolding set_up
  run mgr = do
    gated ← call (lib.setup_definitions_gate mgr)
    check "Cannot setup CRD gate controller" gated
    set_up mgr
    started ← call (lib.start mgr)
    check "Cannot start controller manager" started

  unfoldable pub main : M W (Unit {0})
  unfolding prepare run
  main = do mgr ← prepare; run mgr
