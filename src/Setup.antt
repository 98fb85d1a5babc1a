-- ===== src/Setup.antt =====
-- The `Setup` functions of the controllers, which register a controller with the manager
-- (`internal/controller/<kind>/<kind>.go`, `internal/controller/config/config.go`), and the loop
-- over them (`internal/controller/register.go`).
pub mod Kinds
pub mod Gated
pub mod Order
pub mod Controllers
use provider_dip.Base.{
  Text, List, Option, Bool, true, false, none, some, [], ◌∷◌, ◌++◌, if◌then◌else◌, ℤ,
}
use provider_dip.Go.{Error, M, pure, throw, call, ◌>>=◌}

-- The types of objects that controllers reconcile or watch.
pub data Resource : Type 0 where
  provider_config provider_config_usage : Resource
  organization group role proposition application client service user : Resource
  email_template password_policy mdm_proposition mdm_application mdm_standard_service : Resource
  mdm_device_group mdm_device_type mdm_authentication_method org_configuration : Resource

-- `controller.Options`: what the setups read of it.
pub record Options : Type 0 where
  pub poll_interval : ℤ
  -- `o.Features.Enabled(feature.EnableBetaManagementPolicies)`
  pub beta_management_policies : Bool
  pub rate_limiter : Text
  -- `o.ForControllerRuntime()`
  pub for_controller_runtime : Text

-- The options of a managed reconciler. The connector is the kind's own; the logger and the recorder
-- carry the controller's name.
pub data ReconcilerOption : Type 0 where
  external_connector : Resource → ReconcilerOption
  logger : Text → ReconcilerOption
  poll_interval : ℤ → ReconcilerOption
  recorder : Text → ReconcilerOption
  management_policies : ReconcilerOption
  initializers : List Text → ReconcilerOption

pub data Reconciler : Type 0 where
  managed : Resource → List ReconcilerOption → Reconciler
  provider_config_usage_counter : Resource → Resource → List ReconcilerOption → Reconciler

-- What `Complete` is called on, with the rate limiter in front of the reconciler.
pub record Builder : Type 0 where
  pub name : Text
  pub only_desired_state_changes : Bool
  pub for_type : Resource
  pub also_watches : List Resource
  pub reconciler : Reconciler
  pub rate_limiter : Text
  pub options : Text

-- The manager: the names that crossplane-runtime makes of kinds, and controller-runtime's
-- `Complete`.
pub record Manager (W : Type 0) : Type 0 where
  pub managed_name : Resource → Text
  pub provider_config_name : Resource → Text
  pub complete : Builder → W → Option Error × W

abbrev pub returned : {S : Type 0} → Option Error → M S (Unit {0})
returned none = pure tt
returned (some e) = throw e

-- `opts`, with the management policies if their feature is enabled, and the initializers last.
unfoldable pub reconciler_options : Resource → Text → Options → List ReconcilerOption
reconciler_options kind name o =
    let opts =
      external_connector kind ∷ logger name ∷ poll_interval o.poll_interval ∷ recorder name ∷ [] in
    let opts = if o.beta_management_policies then opts ++ management_policies ∷ [] else opts in
    opts ++ initializers [] ∷ []

module _ {W : Type 0} (mgr : Manager W) (o : Options) where
  unfoldable pub managed_builder : Resource → Builder
  unfolding reconciler_options
  managed_builder kind = record {
    name = mgr.managed_name kind;
    only_desired_state_changes = true;
    for_type = kind;
    also_watches = [];
    reconciler = managed kind (reconciler_options kind (mgr.managed_name kind) o);
    rate_limiter = o.rate_limiter;
    options = o.for_controller_runtime;
  }

  -- `Setup`, the same in every controller of a managed resource but for the kind.
  unfoldable pub setup_managed : Resource → M W (Unit {0})
  unfolding managed_builder
  setup_managed kind = do err ← call (mgr.complete (managed_builder kind)); returned err

  unfoldable pub config_builder : Builder
  config_builder =
      let name = mgr.provider_config_name provider_config in
      record {
        name = name;
        only_desired_state_changes = false;
        for_type = provider_config;
        also_watches = provider_config_usage ∷ [];
        reconciler =
            provider_config_usage_counter provider_config provider_config_usage
              (logger name ∷ recorder name ∷ []);
        rate_limiter = o.rate_limiter;
        options = o.for_controller_runtime;
      }

  -- `config.Setup`.
  unfoldable pub setup_config : M W (Unit {0})
  unfolding config_builder
  setup_config = do err ← call (mgr.complete config_builder); returned err
