-- ===== src/Setup/Order.antt =====
-- What `SetupGated` registers, in which order, and what it does when a registration is refused.
use provider_dip.Base.{
  List, [], ◌∷◌, ◌++◌, none, some, map, ◌≡◌, ◌↔◌, refl, ap, sym, ◌∙◌, inl, inr, Option-cases,
}
use provider_dip.Go.{Error, Outcome, ok, fail, M, call, ◌>>=◌}
use provider_dip.Setup
use provider_dip.Setup.{
  Resource, Manager, Options, Builder, returned, managed_builder, setup_managed, config_builder,
  setup_config,
}
use provider_dip.Setup.Kinds.{
  setup_organization, setup_group, setup_role, setup_proposition, setup_application, setup_client,
  setup_service, setup_user, setup_email_template, setup_password_policy, setup_mdm_proposition,
  setup_mdm_application, setup_mdm_standard_service, setup_mdm_device_group, setup_mdm_device_type,
  setup_mdm_authentication_method, setup_org_configuration,
}
use provider_dip.Setup.Gated.{run_setups, setups, setup_gated}

-- The managed kinds, in the order in which they are registered.
abbrev pub kinds : List Resource
kinds =
    Setup.organization ∷ Setup.group ∷ Setup.role ∷ Setup.proposition ∷ Setup.application
    ∷ Setup.client ∷ Setup.service ∷ Setup.user ∷ Setup.email_template ∷ Setup.password_policy
    ∷ Setup.mdm_proposition ∷ Setup.mdm_application ∷ Setup.mdm_standard_service
    ∷ Setup.mdm_device_group ∷ Setup.mdm_device_type ∷ Setup.mdm_authentication_method
    ∷ Setup.org_configuration ∷ []

module _ {W : Type 0} (mgr : Manager W) where
  -- The manager takes these controllers, one after the other, and ends in the world `end`.
  abbrev pub Accepts : List Builder → W → W → Type 0
  Accepts [] w end = w ≡ end
  Accepts (b ∷ bs) w end = ((mgr.complete b w).0 ≡ none) × Accepts bs (mgr.complete b w).1 end

  -- It takes those before `b` and refuses `b`.
  pub record Refuses (bs : List Builder) (w : W) (e : Error) (end : W) : Type 0 where
    pub before : List Builder
    pub refused : Builder
    pub after : List Builder
    pub world : W
    pub split : bs ≡ before ++ refused ∷ after
    pub accepted : Accepts before w world
    pub refusal : mgr.complete refused world ≡ (some e, end)

  abbrev complete_one : Builder → M W (Unit {0})
  complete_one b = do err ← call (mgr.complete b); returned err

  abbrev complete_all : List Builder → M W (Unit {0})
  complete_all bs = run_setups (map complete_one bs)

  complete_first_ok :
      (b : Builder) (bs : List Builder) (w : W)
      → (mgr.complete b w).0 ≡ none
      → complete_all (b ∷ bs) w ≡ complete_all bs (mgr.complete b w).1
  unfolding run_setups
  complete_first_ok b bs w h = rw h

  complete_first_fails :
      (b : Builder) (bs : List Builder) (w : W) (e : Error)
      → (mgr.complete b w).0 ≡ some e
      → complete_all (b ∷ bs) w ≡ (fail e, (mgr.complete b w).1)
  unfolding run_setups
  complete_first_fails b bs w e h = rw h

  all-Accepts :
      (bs : List Builder) (w end : W) → (complete_all bs w ≡ (ok tt, end)) ↔ Accepts bs w end
  unfolding run_setups
  all-Accepts [] w end = (λ h. ap (λ q. q.1) h, λ h i. (ok tt, h i))
  all-Accepts (b ∷ bs) w end = elim (Option-cases (mgr.complete b w).0) [
    | inl taken ↦ (
      λ h. (taken, (all-Accepts bs _ end).0 (sym (complete_first_ok b bs w taken) ∙ h)),
      λ (_, rest). complete_first_ok b bs w taken ∙ (all-Accepts bs _ end).1 rest,
    )
    | inr (e, refused) ↦ (
      λ h. cc (ap (λ q. q.0) (sym (complete_first_fails b bs w e refused) ∙ h)),
      λ (taken, _). cc (sym taken ∙ refused),
    )
  ]

  fail-injective :
      (e e' : Error) (a b : Outcome (Unit {0})) → a ≡ fail e → b ≡ fail e' → a ≡ b → e ≡ e'
  fail-injective e e' a b ha hb h = cc

  all-Refuses :
      (bs : List Builder) (w : W) (e : Error) (end : W)
      → complete_all bs w ≡ (fail e, end)
      → Refuses bs w e end
  unfolding run_setups
  all-Refuses [] w e end h = cc (ap (λ q. q.0) h)
  all-Refuses (b ∷ bs) w e end h = elim (Option-cases (mgr.complete b w).0) [
    | inl taken ↦
        let rest =
          all-Refuses bs (mgr.complete b w).1 e end (sym (complete_first_ok b bs w taken) ∙ h) in
        record {
          before = b ∷ rest.before;
          refused = rest.refused;
          after = rest.after;
          world = rest.world;
          split = ap (λ l. b ∷ l) rest.split;
          accepted = (taken, rest.accepted);
          refusal = rest.refusal;
        }
    | inr (e', refused) ↦
        let same = sym (complete_first_fails b bs w e' refused) ∙ h in
        record {
          before = [];
          refused = b;
          after = bs;
          world = w;
          split = refl;
          accepted = refl;
          refusal = λ i. (
            (refused ∙ ap some (fail-injective e' e _ _ refl refl (ap (λ q. q.0) same))) i,
            ap (λ q. q.1) same i,
          );
        }
  ]

  stops :
      (before : List Builder) (b : Builder) (after : List Builder) (w world : W) (e : Error)
      (end : W)
      → Accepts before w world
      → mgr.complete b world ≡ (some e, end)
      → complete_all (before ++ b ∷ after) w ≡ (fail e, end)
  stops [] b after w world e end accepted refusal =
      let refused = ap (λ q. mgr.complete b q) accepted ∙ refusal in
      complete_first_fails b after w e (ap (λ q. q.0) refused) ∙ ap (λ q. (fail e, q.1)) refused
  stops (b' ∷ before) b after w world e end (taken, accepted) refusal =
      complete_first_ok b' (before ++ b ∷ after) w taken
      ∙ stops before b after (mgr.complete b' w).1 world e end accepted refusal

  module _ (o : Options) where
    abbrev pub registrations : List Builder
    registrations = config_builder mgr o ∷ map (managed_builder mgr o) kinds

    setup_gated-complete_all : (w : W) → setup_gated mgr o w ≡ complete_all registrations w
    unfolding setup_gated setups run_setups setup_config setup_managed setup_organization
        setup_group setup_role setup_proposition setup_application setup_client setup_service
        setup_user setup_email_template setup_password_policy setup_mdm_proposition
        setup_mdm_application setup_mdm_standard_service setup_mdm_device_group
        setup_mdm_device_type setup_mdm_authentication_method setup_org_configuration
    setup_gated-complete_all w = refl

    -- `SetupGated` succeeds exactly when the manager takes every controller, in this order: that of
    -- the ProviderConfigs, then those of the managed kinds.
    pub setup_gated_ok_iff :
        (w end : W) → (setup_gated mgr o w ≡ (ok tt, end)) ↔ Accepts registrations w end
    setup_gated_ok_iff w end =
        let same = setup_gated-complete_all w in
        let (there, back) = all-Accepts registrations w end in
        (λ h. there (sym same ∙ h), λ h. same ∙ back h)

    -- `SetupGated` fails exactly when the manager takes the controllers before one and refuses that
    -- one; the error is returned as it is, and those after it are not registered.
    pub setup_gated_fails_iff :
        (w : W) (e : Error) (end : W)
        → (setup_gated mgr o w ≡ (fail e, end)) ↔ Refuses registrations w e end
    setup_gated_fails_iff w e end =
        let same = setup_gated-complete_all w in
        (
          λ h. all-Refuses registrations w e end (sym same ∙ h),
          λ h.
              same
              ∙ ap (λ bs. complete_all bs w) h.split
              ∙ stops h.before h.refused h.after w h.world e end h.accepted h.refusal,
        )
