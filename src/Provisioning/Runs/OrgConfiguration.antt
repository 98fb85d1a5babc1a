-- ===== src/Provisioning/Runs/OrgConfiguration.antt =====
-- Any sequence of calls of the controller `internal/controller/provisioning/orgconfiguration/orgconfiguration.go`.
use provider_dip.Base.{Text, some, ℕ, ◌≤◌, ◌≡◌, refl}
use provider_dip.Go.{pure}
use provider_dip.Managed.{no_details}
use provider_dip.Kube.{KubeApi}
use provider_dip.Apis.Object.{Object, OrgConfiguration}
use provider_dip.Apis.ProvisioningKinds.{as_org_configuration, org_configuration_kind}
use provider_dip.Provisioning.Remote
use provider_dip.Provisioning.OrgConfiguration
use provider_dip.Provisioning.Converge.OrgConfiguration.{
  Kept, new_request-IsCurrent, updated_request-IsCurrent, updated_request-id,
}
use provider_dip.Controller.{RemoteApi, update_external, delete_external}
use provider_dip.Controller.Lifecycle.{GivesUuid, StoresCreated, StoresUpdated}
use provider_dip.Controller.Session.{Session, Stays, IsNamed}
use provider_dip.Controller.Session.Invariant.{handlers_Session-Stays}
use provider_dip.Controller.Session.Tame.{update_external-Tame, delete_external-Tame}
use provider_dip.Controller.Reconcile.{Reconciled, Run}
use provider_dip.Controller.Reconcile.Phases.{
  Phase, Moves, IsIn, Converges, Reconciled-Moves, Run-bound,
}
use provider_dip.Controller.Reconcile.Converge.{OnlyReads, handlers_Converges}

module _ {W : Type 0} (kube : KubeApi W Object) (namespace : Text)
    (api : RemoteApi W Remote.OrgConfiguration Remote.OrgConfiguration
      Remote.OrgConfiguration) where
  pub org_configuration_Converges :
      StoresCreated api (λ r. r.id) Kept
      → StoresUpdated api (λ r. r.id) Kept
      → OnlyReads api
      → Converges (OrgConfiguration.external kube namespace api)
  unfolding OrgConfiguration.observe OrgConfiguration.create OrgConfiguration.update
      OrgConfiguration.delete
  org_configuration_Converges =
      handlers_Converges org_configuration_kind OrgConfiguration.observer api
        (OrgConfiguration.new_request kube namespace api) "cannot create organization configuration"
        (λ r. r.id) Kept (λ _. pure no_details)
        (OrgConfiguration.updated_request kube namespace api)
        "cannot update organization configuration" (λ r. r.id) Kept
        (OrgConfiguration.delete kube namespace api) (new_request-IsCurrent kube namespace api)
        (λ r cr w. (refl, refl, refl)) (updated_request-IsCurrent kube namespace api)
        (updated_request-id kube namespace api)

  -- For organization configurations: if DIP gives what it creates a UUID, a GET of the id of what was created or
  -- updated returns the fields that `isUpToDate` compares as they were sent, and a GET changes
  -- nothing, then a reconciliation whose calls return no error, whatever the secrets of the cluster
  -- hold, is a move of the abstract machine: it creates what is absent, updates what is not up to
  -- date and leaves alone what is, and ends up to date.
  pub org_configuration_Reconciled-Moves :
      (s t : Object × W) {n : ℕ}
      → StoresCreated api (λ r. r.id) Kept
      → StoresUpdated api (λ r. r.id) Kept
      → OnlyReads api
      → Reconciled (OrgConfiguration.external kube namespace api) s t n
      → (p : Phase) × (q : Phase) × IsIn (OrgConfiguration.external kube namespace api) s p
        × IsIn (OrgConfiguration.external kube namespace api) t q
        × Moves p q n
  org_configuration_Reconciled-Moves s t stores keeps reads =
      Reconciled-Moves (OrgConfiguration.external kube namespace api)
        (org_configuration_Converges stores keeps reads) s t

  -- For organization configurations: if DIP gives what it creates a UUID, a GET of the id of what
  -- was created or updated returns the fields that `isUpToDate` compares as they were sent, and a
  -- GET changes nothing, then in any run of reconciliations whose calls return no error, with
  -- failing observations in between, `Create` and `Update` are called at most once in all.
  pub org_configuration_Run-bound :
      (s t : Object × W) {n : ℕ}
      → StoresCreated api (λ r. r.id) Kept
      → StoresUpdated api (λ r. r.id) Kept
      → OnlyReads api
      → Run (OrgConfiguration.external kube namespace api) s t n
      → n ≤ 1
  org_configuration_Run-bound s t stores keeps reads =
      Run-bound (OrgConfiguration.external kube namespace api)
        (org_configuration_Converges stores keeps reads) s t

  -- For organization configurations: if DIP gives what it creates a UUID, no sequence of calls, whatever their outcomes
  -- and whatever changes in DIP and in the cluster in between, changes the spec, the namespace or
  -- the provider configuration of a resource whose external name is empty or a UUID, and its
  -- external name stays one of these.
  pub org_configuration_Session-Stays :
      (s : Object × W) (cr : OrgConfiguration) {t : Object × W}
      → GivesUuid api (λ r. r.id)
      → as_org_configuration s.0 ≡ some cr
      → IsNamed cr
      → Session (OrgConfiguration.external kube namespace api) s t
      → Stays org_configuration_kind cr t.0
  unfolding OrgConfiguration.observe OrgConfiguration.create OrgConfiguration.update
      OrgConfiguration.delete
  org_configuration_Session-Stays s cr stores found named =
      handlers_Session-Stays org_configuration_kind OrgConfiguration.observer api
        (OrgConfiguration.new_request kube namespace api) "cannot create organization configuration"
        (λ r. r.id) (λ _. pure no_details)
        (update_external (OrgConfiguration.updated_request kube namespace api) api.update
          "cannot update organization configuration")
        (delete_external OrgConfiguration.config_by_id api.delete
          "cannot delete organization configuration")
        stores (new_request-IsCurrent kube namespace api).reads_only
        (λ r cr w. ((refl, refl, refl), refl))
        (update_external-Tame (OrgConfiguration.updated_request kube namespace api) api.update
          "cannot update organization configuration"
          (updated_request-IsCurrent kube namespace api).reads_only)
        (delete_external-Tame {P = _} OrgConfiguration.config_by_id api.delete _) s cr found named
