-- ===== src/Iam/Runs/Client.antt =====
-- Any sequence of calls of the controller `internal/controller/client/client.go`.
use provider_dip.Base.{Text, some, ℕ, ◌≤◌, ◌≡◌, refl, ap, sym, ◌∙◌}
use provider_dip.Go.{pure, ok-injective}
use provider_dip.Managed.{no_details}
use provider_dip.Kube.{KubeApi}
use provider_dip.Apis.Object.{Object, Client}
use provider_dip.Apis.Kinds.{as_client, client_kind}
use provider_dip.Iam.Remote
use provider_dip.Iam.Client
use provider_dip.Iam.Converge.Client.{
  Kept, client_request-IsCurrent, updated_client_current, updated_client-id,
}
use provider_dip.Controller.{RemoteApi, from_named, update_external, delete_external}
use provider_dip.Controller.Lifecycle.{
  GivesUuid, StoresCreated, StoresUpdated, from_named-IsCurrent,
}
use provider_dip.Controller.Session.{Session, Stays, IsNamed}
use provider_dip.Controller.Session.Invariant.{handlers_Session-Stays}
use provider_dip.Controller.Session.Tame.{update_external-Tame, delete_external-Tame}
use provider_dip.Controller.Reconcile.{Reconciled, Run}
use provider_dip.Controller.Reconcile.Phases.{
  Phase, Moves, IsIn, Converges, Reconciled-Moves, Run-bound,
}
use provider_dip.Controller.Reconcile.Converge.{OnlyReads, handlers_Converges}

module _ {W : Type 0} (kube : KubeApi W Object) (namespace : Text)
    (api : RemoteApi W Remote.ApplicationClient Remote.ApplicationClient
      Remote.ApplicationClient) where
  pub client_Converges :
      StoresCreated api (λ r. r.id) Kept
      → StoresUpdated api (λ r. r.id) Kept
      → OnlyReads api
      → Converges (Client.external kube namespace api)
  unfolding Client.observe Client.create Client.update Client.delete
  client_Converges =
      handlers_Converges client_kind Client.observer api (Client.client_request kube namespace api)
        "cannot create client" (λ r. r.id) Kept (λ _. pure no_details)
        (from_named Client.updated_client) "cannot update client" (λ r. r.id) Kept
        (Client.delete kube namespace api) (client_request-IsCurrent kube namespace api)
        (λ r cr w. (refl, refl, refl))
        (from_named-IsCurrent Client.observer Client.updated_client Kept updated_client_current)
        (λ cr w body e.
          ap (λ (r : Remote.ApplicationClient). r.id) (sym (ok-injective e))
          ∙ updated_client-id cr.external_name cr.for_provider)

  -- For clients: if DIP gives what it creates a UUID, a GET of the id of what was created or
  -- updated returns the fields that `isUpToDate` compares as they were sent, and a GET changes
  -- nothing, then a reconciliation whose calls return no error, whatever the secrets of the cluster
  -- hold, is a move of the abstract machine: it creates what is absent, updates what is not up to
  -- date and leaves alone what is, and ends up to date.
  pub client_Reconciled-Moves :
      (s t : Object × W) {n : ℕ}
      → StoresCreated api (λ r. r.id) Kept
      → StoresUpdated api (λ r. r.id) Kept
      → OnlyReads api
      → Reconciled (Client.external kube namespace api) s t n
      → (p : Phase) × (q : Phase) × IsIn (Client.external kube namespace api) s p
        × IsIn (Client.external kube namespace api) t q
        × Moves p q n
  client_Reconciled-Moves s t stores keeps reads =
      Reconciled-Moves (Client.external kube namespace api) (client_Converges stores keeps reads) s
        t

  -- For clients: if DIP gives what it creates a UUID, a GET of the id of what was created or
  -- updated returns the fields that `isUpToDate` compares as they were sent, and a GET changes
  -- nothing, then in any run of reconciliations whose calls return no error, with failing
  -- observations in between, `Create` and `Update` are called at most once in all.
  pub client_Run-bound :
      (s t : Object × W) {n : ℕ}
      → StoresCreated api (λ r. r.id) Kept
      → StoresUpdated api (λ r. r.id) Kept
      → OnlyReads api
      → Run (Client.external kube namespace api) s t n
      → n ≤ 1
  client_Run-bound s t stores keeps reads =
      Run-bound (Client.external kube namespace api) (client_Converges stores keeps reads) s t

  -- For clients: if DIP gives what it creates a UUID, no sequence of calls, whatever their outcomes
  -- and whatever changes in DIP and in the cluster in between, changes the spec, the namespace or
  -- the provider configuration of a resource whose external name is empty or a UUID, and its
  -- external name stays one of these.
  pub client_Session-Stays :
      (s : Object × W) (cr : Client) {t : Object × W}
      → GivesUuid api (λ r. r.id)
      → as_client s.0 ≡ some cr
      → IsNamed cr
      → Session (Client.external kube namespace api) s t
      → Stays client_kind cr t.0
  unfolding Client.observe Client.create Client.update Client.delete
  client_Session-Stays s cr stores found named =
      handlers_Session-Stays client_kind Client.observer api
        (Client.client_request kube namespace api) "cannot create client" (λ r. r.id)
        (λ _. pure no_details)
        (update_external (from_named Client.updated_client) api.update "cannot update client")
        (delete_external Client.client_by_id api.delete "cannot delete client") stores
        (client_request-IsCurrent kube namespace api).reads_only
        (λ r cr w. ((refl, refl, refl), refl))
        (update_external-Tame (from_named Client.updated_client) api.update "cannot update client"
          (λ cr w. refl))
        (delete_external-Tame {P = _} Client.client_by_id api.delete _) s cr found named
