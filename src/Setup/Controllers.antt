-- ===== src/Setup/Controllers.antt =====
-- The controllers that `SetupGated` registers, and their options.
use provider_dip.Base.{
  ℕ, Text, ◌||◌, Bool-cases, suc, here, there, In-map, List, Bool, true, false, [], ◌∷◌, ◌++◌, ◌≡◌,
  ◌≢◌, refl, ap, sym, ◌∙◌, In, if◌then◌else◌, nat_Comparable, ◌==◌, inl, inr,
}
use provider_dip.Setup
use provider_dip.Setup.{
  Resource, Manager, Options, Builder, Reconciler, ReconcilerOption, managed, initializers,
  external_connector, logger, poll_interval, recorder, management_policies, reconciler_options,
  managed_builder, config_builder,
}
use provider_dip.Setup.Order.{kinds, registrations}

-- The resources, numbered.
abbrev pub number : Resource → ℕ
number Setup.provider_config = 0
number Setup.provider_config_usage = 1
number Setup.organization = 2
number Setup.group = 3
number Setup.role = 4
number Setup.proposition = 5
number Setup.application = 6
number Setup.client = 7
number Setup.service = 8
number Setup.user = 9
number Setup.email_template = 10
number Setup.password_policy = 11
number Setup.mdm_proposition = 12
number Setup.mdm_application = 13
number Setup.mdm_standard_service = 14
number Setup.mdm_device_group = 15
number Setup.mdm_device_type = 16
number Setup.mdm_authentication_method = 17
number Setup.org_configuration = 18

-- How many of the controllers reconcile a resource.
abbrev pub reconcilers_of : Resource → List Builder → ℕ
reconcilers_of r [] = 0
reconcilers_of r (b ∷ bs) =
    let rest = reconcilers_of r bs in if number b.for_type == number r then suc rest else rest

module _ {W : Type 0} (mgr : Manager W) (o : Options) where
  -- Every resource has exactly one controller, but for the usages of ProviderConfigs, which are only
  -- watched.
  pub reconcilers_of-registrations :
      (r : Resource) → r ≢ Setup.provider_config_usage → reconcilers_of r (registrations mgr o) ≡ 1
  unfolding managed_builder config_builder
  reconcilers_of-registrations Setup.provider_config_usage h = absurd (h refl)
  reconcilers_of-registrations Setup.provider_config h = refl
  reconcilers_of-registrations Setup.organization h = refl
  reconcilers_of-registrations Setup.group h = refl
  reconcilers_of-registrations Setup.role h = refl
  reconcilers_of-registrations Setup.proposition h = refl
  reconcilers_of-registrations Setup.application h = refl
  reconcilers_of-registrations Setup.client h = refl
  reconcilers_of-registrations Setup.service h = refl
  reconcilers_of-registrations Setup.user h = refl
  reconcilers_of-registrations Setup.email_template h = refl
  reconcilers_of-registrations Setup.password_policy h = refl
  reconcilers_of-registrations Setup.mdm_proposition h = refl
  reconcilers_of-registrations Setup.mdm_application h = refl
  reconcilers_of-registrations Setup.mdm_standard_service h = refl
  reconcilers_of-registrations Setup.mdm_device_group h = refl
  reconcilers_of-registrations Setup.mdm_device_type h = refl
  reconcilers_of-registrations Setup.mdm_authentication_method h = refl
  reconcilers_of-registrations Setup.org_configuration h = refl

abbrev is_management_policies : ReconcilerOption → Bool
is_management_policies Setup.management_policies = true
is_management_policies other = false

abbrev pub has_management_policies : List ReconcilerOption → Bool
has_management_policies [] = false
has_management_policies (option ∷ options) =
    is_management_policies option || has_management_policies options

module _ {W : Type 0} (mgr : Manager W) (o : Options) where
  options_policies :
      (kind : Resource) (name : Text)
      → has_management_policies (reconciler_options kind name o) ≡ o.beta_management_policies
  unfolding reconciler_options
  options_policies kind name = elim (Bool-cases o.beta_management_policies) [
    | inl h ↦ rw h
    | inr h ↦ rw h
  ]

  options_first :
      (kind : Resource) (name : Text)
      → (rest : List ReconcilerOption) × (reconciler_options kind name o
          ≡ external_connector kind ∷ rest)
  unfolding reconciler_options
  options_first kind name = elim (Bool-cases o.beta_management_policies) [
    | inl h ↦ (
      logger name
          ∷ poll_interval o.poll_interval
          ∷ recorder name
          ∷ management_policies
          ∷ initializers []
          ∷ [],
      rw h,
    )
    | inr h ↦
        (logger name ∷ poll_interval o.poll_interval ∷ recorder name ∷ initializers [] ∷ [], rw h)
  ]

  managed-injective :
      {k kind : Resource} {options options' : List ReconcilerOption}
      → managed k options ≡ managed kind options'
      → (k ≡ kind) × (options ≡ options')
  managed-injective h = (cc, cc)

  options_last :
      (kind : Resource) (name : Text)
      → (before : List ReconcilerOption) × (reconciler_options kind name o
          ≡ before ++ initializers [] ∷ [])
  unfolding reconciler_options
  options_last kind name = (_, refl)

  -- What a reconciler of a managed kind is made with: the connector of the kind that its controller
  -- is for, the management policies exactly when their feature is enabled, and, last, that no
  -- initializer runs, so that none sets an external name before DIP does.
  pub registrations-options :
      (b : Builder) (kind : Resource) (options : List ReconcilerOption)
      → In b (registrations mgr o)
      → b.reconciler ≡ managed kind options
      → (kind ≡ b.for_type)
        × ((rest : List ReconcilerOption) × (options ≡ external_connector kind ∷ rest))
        × (has_management_policies options ≡ o.beta_management_policies)
        × ((before : List ReconcilerOption) × (options ≡ before ++ initializers [] ∷ []))
  unfolding managed_builder config_builder
  registrations-options b kind options (here e) h =
      cc (sym h ∙ ap (λ (x : Builder). x.reconciler) e)
  registrations-options b kind options (there m) h =
      let (k, _, e) = In-map (managed_builder mgr o) kinds m in
      let (same_kind, same) = managed-injective (sym (ap (λ (x : Builder). x.reconciler) e) ∙ h) in
      let (rest, first) = options_first k (mgr.managed_name k) in
      let (before, last) = options_last k (mgr.managed_name k) in
      (
        sym same_kind ∙ sym (ap (λ (x : Builder). x.for_type) e),
        (rest, sym same ∙ first ∙ ap (λ c. external_connector c ∷ rest) same_kind),
        ap has_management_policies (sym same) ∙ options_policies k (mgr.managed_name k),
        (before, sym same ∙ last),
      )
