-- ===== src/Provisioning/Converge/OrgConfiguration.antt =====
-- `internal/controller/provisioning/orgconfiguration/orgconfiguration.go`.
use provider_dip.Base.{Text, true, some, ◌≡◌, refl, ap, arith, text_Comparable, text_eq_refl}
use provider_dip.Go.{ok, pure}
use provider_dip.Managed.{ExternalCreation, no_details}
use provider_dip.Kube.{KubeApi}
use provider_dip.Util.{is_valid_uuid}
use provider_dip.Apis.Provisioning
use provider_dip.Apis.Object.{Object, OrgConfiguration}
use provider_dip.Apis.ProvisioningKinds.{as_org_configuration, org_configuration_kind}
use provider_dip.Provisioning.Remote
use provider_dip.Provisioning.OrgConfiguration
use provider_dip.Controller.{RemoteApi, absent}
use provider_dip.Controller.Lifecycle.{StoresCreated, StoresUpdated, IsCurrent, settled}
use provider_dip.Controller.Deletion.{Forgets}
use provider_dip.Controller.Secrets.Read.{two_secrets_request-ok, two_secrets_request-IsCurrent}
use provider_dip.Controller.Objects.{
  object_create-observe, object_update-observe, object_delete-observe,
}

-- What DIP keeps of a request, as far as `isUpToDate` looks at it.
abbrev pub Kept : Remote.OrgConfiguration → Remote.OrgConfiguration → Type 0
Kept sent config =
    (config.organization_guid ≡ sent.organization_guid)
    × (config.service_account.service_account_id ≡ sent.service_account.service_account_id)
    × (config.bootstrap_signature.algorithm ≡ sent.bootstrap_signature.algorithm)

new_config_current :
    (fp : Provisioning.OrgConfigurationParameters) (a b : Text) (config : Remote.OrgConfiguration)
    → Kept (OrgConfiguration.new_config fp a b) config
    → OrgConfiguration.is_up_to_date fp config ≡ true
unfolding OrgConfiguration.is_up_to_date OrgConfiguration.new_config
new_config_current fp a b config kept = ground (
  arith,
  text_eq_refl fp.organization_id,
  text_eq_refl fp.service_account.service_account_id,
  text_eq_refl fp.bootstrap_signature.algorithm,
)

updated_config_current :
    (name : Text) (fp : Provisioning.OrgConfigurationParameters) (a b : Text)
    (config : Remote.OrgConfiguration)
    → Kept (OrgConfiguration.updated_config name fp a b) config
    → OrgConfiguration.is_up_to_date fp config ≡ true
unfolding OrgConfiguration.is_up_to_date OrgConfiguration.updated_config
updated_config_current name fp a b config kept = ground (
  arith,
  text_eq_refl fp.organization_id,
  text_eq_refl fp.service_account.service_account_id,
  text_eq_refl fp.bootstrap_signature.algorithm,
)

module _ {W : Type 0} (kube : KubeApi W Object) (namespace : Text)
    (api : RemoteApi W Remote.OrgConfiguration Remote.OrgConfiguration
      Remote.OrgConfiguration) where
  pub new_request-IsCurrent :
      IsCurrent OrgConfiguration.observer (OrgConfiguration.new_request kube namespace api) Kept
  unfolding OrgConfiguration.new_request
  new_request-IsCurrent =
      two_secrets_request-IsCurrent kube namespace
        (λ fp. fp.service_account.service_account_key_secret_ref) "cannot get secret"
        (λ fp. fp.bootstrap_signature.public_key_secret_ref) "cannot get secret"
        (λ cr a b. OrgConfiguration.new_config cr.for_provider a b) OrgConfiguration.observer Kept
        (λ cr a b v. new_config_current cr.for_provider a b v)

  pub updated_request-IsCurrent :
      IsCurrent OrgConfiguration.observer (OrgConfiguration.updated_request kube namespace api) Kept
  unfolding OrgConfiguration.updated_request
  updated_request-IsCurrent =
      two_secrets_request-IsCurrent kube namespace
        (λ fp. fp.service_account.service_account_key_secret_ref) "cannot get secret"
        (λ fp. fp.bootstrap_signature.public_key_secret_ref) "cannot get secret"
        (λ cr a b. OrgConfiguration.updated_config cr.external_name cr.for_provider a b)
        OrgConfiguration.observer Kept
        (λ cr a b v. updated_config_current cr.external_name cr.for_provider a b v)

  -- The update is addressed to the external name, whatever the secrets hold.
  pub updated_request-id :
      (cr : OrgConfiguration) (w : W) (body : Remote.OrgConfiguration)
      → (OrgConfiguration.updated_request kube namespace api (cr, w)).0 ≡ ok body
      → body.id ≡ cr.external_name
  unfolding OrgConfiguration.updated_request OrgConfiguration.updated_config
  updated_request-id cr w body h =
      let (a, b, _, _, same) =
        two_secrets_request-ok kube namespace
          (λ fp. fp.service_account.service_account_key_secret_ref) "cannot get secret"
          (λ fp. fp.bootstrap_signature.public_key_secret_ref) "cannot get secret"
          (λ cr a b. OrgConfiguration.updated_config cr.external_name cr.for_provider a b) cr w h in
      ap (λ (r : Remote.OrgConfiguration). r.id) same

  -- For organization configurations: if DIP gives what it creates a UUID, and a GET of it then returns
  -- the organization, service account id and algorithm that were sent, then after a successful
  -- `Create` of any object, whatever the two secrets hold, `Observe` reports that it exists and is
  -- up to date.
  pub org_configuration_create-observe :
      (mg : Object) (w : W) {details : ExternalCreation}
      → StoresCreated api (λ r. r.id) Kept
      → (OrgConfiguration.create kube namespace api (mg, w)).0 ≡ ok details
      → (OrgConfiguration.observe kube namespace api
          (OrgConfiguration.create kube namespace api (mg, w)).1).0
        ≡ ok settled
  unfolding OrgConfiguration.create OrgConfiguration.observe
  org_configuration_create-observe mg w stores h =
      object_create-observe org_configuration_kind OrgConfiguration.observer api
        (OrgConfiguration.new_request kube namespace api) _ (λ r. r.id) Kept (λ _. pure no_details)
        mg w stores new_request-IsCurrent (λ r cr w. (refl, refl, refl)) h

  -- For organization configurations: if after an update without error a GET of the id returns the
  -- organization, service account id and algorithm that were sent, then after a successful
  -- `Update` of an object whose external name is a UUID, whatever the two secrets hold, `Observe`
  -- reports that it exists and is up to date.
  pub org_configuration_update-observe :
      (mg : Object) (cr : OrgConfiguration) (w : W)
      → as_org_configuration mg ≡ some cr
      → is_valid_uuid cr.external_name ≡ true
      → StoresUpdated api (λ r. r.id) Kept
      → (OrgConfiguration.update kube namespace api (mg, w)).0 ≡ ok tt
      → (OrgConfiguration.observe kube namespace api
          (OrgConfiguration.update kube namespace api (mg, w)).1).0
        ≡ ok settled
  unfolding OrgConfiguration.update OrgConfiguration.observe
  org_configuration_update-observe mg cr w found named keeps h =
      object_update-observe org_configuration_kind OrgConfiguration.observer api
        (OrgConfiguration.updated_request kube namespace api) _ (λ r. r.id) Kept mg cr w found keeps
        updated_request-IsCurrent (updated_request-id cr w) named h

  -- For organization configurations: if a GET of a deleted id fails with 400 or 404, then after a
  -- successful `Delete` of any object, whatever its external name, `Observe` reports it absent.
  pub org_configuration_delete-observe :
      (mg : Object) (w : W)
      → Forgets api (λ r. r.id)
      → (OrgConfiguration.delete kube namespace api (mg, w)).0 ≡ ok tt
      → (OrgConfiguration.observe kube namespace api
          (OrgConfiguration.delete kube namespace api (mg, w)).1).0
        ≡ ok absent
  unfolding OrgConfiguration.delete OrgConfiguration.observe
  org_configuration_delete-observe mg w forgets h =
      object_delete-observe org_configuration_kind OrgConfiguration.observer api
        OrgConfiguration.config_by_id (λ r. r.id) _ mg w forgets (λ name. refl) h
