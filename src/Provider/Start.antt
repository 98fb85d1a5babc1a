-- ===== src/Provider/Start.antt =====
-- What a start of the provider went through.
use provider_dip.Base.{inr, pos, String, Option, none, some, ◌≡◌, refl, ap, sym, ◌∙◌}
use provider_dip.Go.{
  Error, ok, M, call, check, continue-ok, check_then, rewrap-ok, wrapping_then, ok-injective, pure,
  ◌>>=◌, ◌>>◌,
}
use provider_dip.Setup
use provider_dip.Setup.Gated.{setup_gated}
use provider_dip.Setup.Order.{Accepts, registrations, setup_gated_ok_iff}
use provider_dip.Provider.{
  connect_change_logs, manager_options, Libraries, Flags, options, set_up, prepare, run, main,
}

module _ {W Rest Mgr Conn : Type 0} (lib : Libraries W Rest Mgr Conn) (flags : Flags) where
  -- The REST configuration, after the logger is set, and the manager made with it: limited to the
  -- maximal rate, with the sync interval and the leader election of the flags.
  pub record Made (w : W) (mgr : Mgr) : Type 0 where
    pub rest : Rest
    pub configured : (lib.get_config (lib.set_logger flags.debug w).1).0 ≡ inr rest
    pub made :
        (lib.new_manager rest flags.max_reconcile_rate
          (record {
            sync_period = flags.sync_interval;
            leader_election = flags.leader_election;
            leader_election_id = "crossplane-leader-election-provider-template";
            lease_duration = pos 60000000000;
            renew_deadline = pos 50000000000;
          })
          (lib.get_config (lib.set_logger flags.debug w).1).1).0
        ≡ inr mgr

  -- What the flags ask of every controller.
  abbrev pub asked : Setup.Options
  asked = record {
    poll_interval = flags.poll_interval;
    beta_management_policies = flags.enable_management_policies;
    rate_limiter = lib.new_global flags.max_reconcile_rate;
    for_controller_runtime = lib.for_controller_runtime flags.max_reconcile_rate;
  }

  -- The manager that was made took every controller, with what the flags ask, and was then started,
  -- which is the last that was done.
  pub record Started (w end : W) : Type 0 where
    pub mgr : Mgr
    pub made : Made w mgr
    pub before : W
    pub after : W
    pub accepted : Accepts (lib.manager mgr) (registrations (lib.manager mgr) asked) before after
    pub started : lib.start mgr after ≡ (none, end)

  abbrev Runs : Mgr → W → Type 0
  Runs mgr end =
      (before : W) × (after : W) × Accepts (lib.manager mgr) (registrations (lib.manager mgr) asked)
        before after
      × (lib.start mgr after ≡ (none, end))

  check-passes :
      (message : String) (o : Option Error) (w end : W)
      → check message o w ≡ (ok tt, end)
      → (o ≡ none) × (w ≡ end)
  check-passes message none w end h = (refl, ap (λ q. q.1) h)
  check-passes message (some e) w end h = cc (ap (λ q. q.0) h)

  run-Runs : (mgr : Mgr) (w end : W) → run lib flags mgr w ≡ (ok tt, end) → Runs mgr end
  unfolding run set_up
  run-Runs mgr w end h =
      let gated = lib.setup_definitions_gate mgr w in
      let finish : M W (Unit {0}) =
        call (lib.start mgr) >>= check "Cannot start controller manager" in
      let (_, p) =
        check_then "Cannot setup CRD gate controller" gated.0 gated.1
          (λ _. set_up lib flags mgr >> finish) (ap (λ q. q.0) h) in
      let opened = sym p ∙ h in
      let (_, e, p') =
        continue-ok (set_up lib flags mgr gated.1) (λ _. finish) (ap (λ q. q.0) opened) in
      let ready = rewrap-ok "Cannot setup Template controllers" _ e in
      let after = (setup_gated (lib.manager mgr) (options lib flags) gated.1).1 in
      let passed =
        check-passes "Cannot start controller manager" (lib.start mgr after).0
          (lib.start mgr after).1 end (sym p' ∙ opened) in
      (
        gated.1,
        after,
        (setup_gated_ok_iff (lib.manager mgr) (options lib flags) gated.1 after).0
            (λ i. (ready i, after)),
        λ i. (passed.0 i, passed.1 i),
      )

  prepare-Made : (w : W) (mgr : Mgr) → (prepare lib flags w).0 ≡ ok mgr → Made w mgr
  unfolding prepare
  prepare-Made w mgr h =
      let config = lib.get_config (lib.set_logger flags.debug w).1 in
      let (rest, configured, p) =
        wrapping_then "Cannot get API server rest config" config.0 config.1 _ h in
      let manager =
        lib.new_manager rest flags.max_reconcile_rate (manager_options flags) config.1 in
      let (mgr', made, p') =
        wrapping_then "Cannot create controller manager" manager.0 manager.1 _
          (ap (λ q. q.0) (sym p) ∙ h) in
      let added = lib.add_to_scheme mgr' manager.1 in
      let (_, q) =
        check_then "Cannot add Template APIs to scheme" added.0 added.1 _
          (ap (λ x. x.0) (sym p') ∙ ap (λ x. x.0) (sym p) ∙ h) in
      let defined = lib.add_definitions_to_scheme mgr' added.1 in
      let (_, q') =
        check_then "Cannot add CustomResourceDefinition to scheme" defined.0 defined.1 _
          (ap (λ x. x.0) (sym q) ∙ ap (λ x. x.0) (sym p') ∙ ap (λ x. x.0) (sym p) ∙ h) in
      let registered = lib.register_metrics defined.1 in
      let logs = connect_change_logs lib flags flags.enable_change_logs registered.1 in
      let done =
        ap (λ x. x.0) (sym q')
        ∙ ap (λ x. x.0) (sym q)
        ∙ ap (λ x. x.0) (sym p')
        ∙ ap (λ x. x.0) (sym p)
        ∙ h in
      let (_, _, q'') = continue-ok logs (λ _. pure mgr') done in
      let same : mgr' ≡ mgr = ok-injective (ap (λ x. x.0) (sym q'') ∙ done) in
      record { rest = rest; configured = configured; made = made ∙ ap inr same }

  -- If `main` returns without error, the manager that it made - with the REST configuration, the
  -- maximal rate, the sync interval and the leader election of the flags - took every controller,
  -- with the poll interval, the management policies and the rate that the flags ask for, before it
  -- was started, which is the last that `main` did.
  pub main-Started : (w end : W) → main lib flags w ≡ (ok tt, end) → Started w end
  unfolding main
  main-Started w end h =
      let (mgr, e, p) = continue-ok (prepare lib flags w) (run lib flags) (ap (λ q. q.0) h) in
      let (before, after, accepted, started) =
        run-Runs mgr (prepare lib flags w).1 end (sym p ∙ h) in
      record {
        mgr = mgr;
        made = prepare-Made w mgr e;
        before = before;
        after = after;
        accepted = accepted;
        started = started;
      }
