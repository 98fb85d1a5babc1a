-- ===== src/Mdm/Runs/AuthenticationMethod.antt =====
-- Any sequence of calls of the controller `internal/controller/mdm/authenticationmethod/authenticationmethod.go`.
use provider_dip.Base.{Text, some, ℕ, ◌≤◌, ◌≡◌, refl}
use provider_dip.Go.{pure}
use provider_dip.Managed.{no_details}
use provider_dip.Kube.{KubeApi}
use provider_dip.Apis.Object.{Object, MdmAuthenticationMethod}
use provider_dip.Apis.MdmKinds.{as_mdm_authentication_method, mdm_authentication_method_kind}
use provider_dip.Mdm.Remote
use provider_dip.Mdm.AuthenticationMethod
use provider_dip.Mdm.Converge.AuthenticationMethod.{
  Kept, new_request-IsCurrent, updated_request-IsCurrent, updated_request-id,
}
use provider_dip.Controller.{RemoteApi, update_external, delete_external}
use provider_dip.Controller.Lifecycle.{GivesUuid, StoresCreated, StoresUpdated}
use provider_dip.Controller.Session.{Session, Stays, IsNamed}
use provider_dip.Controller.Session.Invariant.{handlers_Session-Stays}
use provider_dip.Controller.Session.Tame.{update_external-Tame, delete_external-Tame}
use provider_dip.Controller.Reconcile.{Reconciled, Run}
use provider_dip.Controller.Reconcile.Phases.{
  Phase, Moves, IsIn, Converges, Reconciled-Moves, Run-bound,
}
use provider_dip.Controller.Reconcile.Converge.{OnlyReads, handlers_Converges}

module _ {W : Type 0} (kube : KubeApi W Object) (namespace : Text)
    (api : RemoteApi W Remote.AuthenticationMethod Remote.AuthenticationMethod
      Remote.AuthenticationMethod) where
  pub mdm_authentication_method_Converges :
      StoresCreated api (λ r. r.id) Kept
      → StoresUpdated api (λ r. r.id) Kept
      → OnlyReads api
      → Converges (AuthenticationMethod.external kube namespace api)
  unfolding AuthenticationMethod.observe AuthenticationMethod.create AuthenticationMethod.update
      AuthenticationMethod.delete
  mdm_authentication_method_Converges =
      handlers_Converges mdm_authentication_method_kind AuthenticationMethod.observer api
        (AuthenticationMethod.new_request kube namespace api)
        "cannot create MDM authentication method" (λ r. r.id) Kept (λ _. pure no_details)
        (AuthenticationMethod.updated_request kube namespace api)
        "cannot update MDM authentication method" (λ r. r.id) Kept
        (AuthenticationMethod.delete kube namespace api) (new_request-IsCurrent kube namespace api)
        (λ r cr w. (refl, refl, refl)) (updated_request-IsCurrent kube namespace api)
        (updated_request-id kube namespace api)

  -- For authentication methods: if DIP gives what it creates a UUID, a GET of the id of what was created or
  -- updated returns the fields that `isUpToDate` compares as they were sent, and a GET changes
  -- nothing, then a reconciliation whose calls return no error, whatever the secrets of the cluster
  -- hold, is a move of the abstract machine: it creates what is absent, updates what is not up to
  -- date and leaves alone what is, and ends up to date.
  pub mdm_authentication_method_Reconciled-Moves :
      (s t : Object × W) {n : ℕ}
      → StoresCreated api (λ r. r.id) Kept
      → StoresUpdated api (λ r. r.id) Kept
      → OnlyReads api
      → Reconciled (AuthenticationMethod.external kube namespace api) s t n
      → (p : Phase) × (q : Phase) × IsIn (AuthenticationMethod.external kube namespace api) s p
        × IsIn (AuthenticationMethod.external kube namespace api) t q
        × Moves p q n
  mdm_authentication_method_Reconciled-Moves s t stores keeps reads =
      Reconciled-Moves (AuthenticationMethod.external kube namespace api)
        (mdm_authentication_method_Converges stores keeps reads) s t

  -- For authentication methods: if DIP gives what it creates a UUID, a GET of the id of what was
  -- created or updated returns the fields that `isUpToDate` compares as they were sent, and a GET
  -- changes nothing, then in any run of reconciliations whose calls return no error, with failing
  -- observations in between, `Create` and `Update` are called at most once in all.
  pub mdm_authentication_method_Run-bound :
      (s t : Object × W) {n : ℕ}
      → StoresCreated api (λ r. r.id) Kept
      → StoresUpdated api (λ r. r.id) Kept
      → OnlyReads api
      → Run (AuthenticationMethod.external kube namespace api) s t n
      → n ≤ 1
  mdm_authentication_method_Run-bound s t stores keeps reads =
      Run-bound (AuthenticationMethod.external kube namespace api)
        (mdm_authentication_method_Converges stores keeps reads) s t

  -- For authentication methods: if DIP gives what it creates a UUID, no sequence of calls, whatever their outcomes
  -- and whatever changes in DIP and in the cluster in between, changes the spec, the namespace or
  -- the provider configuration of a resource whose external name is empty or a UUID, and its
  -- external name stays one of these.
  pub mdm_authentication_method_Session-Stays :
      (s : Object × W) (cr : MdmAuthenticationMethod) {t : Object × W}
      → GivesUuid api (λ r. r.id)
      → as_mdm_authentication_method s.0 ≡ some cr
      → IsNamed cr
      → Session (AuthenticationMethod.external kube namespace api) s t
      → Stays mdm_authentication_method_kind cr t.0
  unfolding AuthenticationMethod.observe AuthenticationMethod.create AuthenticationMethod.update
      AuthenticationMethod.delete
  mdm_authentication_method_Session-Stays s cr stores found named =
      handlers_Session-Stays mdm_authentication_method_kind AuthenticationMethod.observer api
        (AuthenticationMethod.new_request kube namespace api)
        "cannot create MDM authentication method" (λ r. r.id) (λ _. pure no_details)
        (update_external (AuthenticationMethod.updated_request kube namespace api) api.update
          "cannot update MDM authentication method")
        (delete_external AuthenticationMethod.method_by_id api.delete
          "cannot delete MDM authentication method")
        stores (new_request-IsCurrent kube namespace api).reads_only
        (λ r cr w. ((refl, refl, refl), refl))
        (update_external-Tame (AuthenticationMethod.updated_request kube namespace api) api.update
          "cannot update MDM authentication method"
          (updated_request-IsCurrent kube namespace api).reads_only)
        (delete_external-Tame {P = _} AuthenticationMethod.method_by_id api.delete _) s cr found
        named
