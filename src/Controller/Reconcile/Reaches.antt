-- ===== src/Controller/Reconcile/Reaches.antt =====
-- Reconciliations with a service that is available.
use provider_dip.Base.{Text, String, ℕ, none, some, ◌≡◌, ◌⊎◌, ap, ◌∙◌}
use provider_dip.Go.{Error, Outcome, ok, fail, panic, continue, ok-injective, ◌>>=◌}
use provider_dip.Managed.{Managed, ExternalObservation, ExternalCreation, creating}
use provider_dip.Apis.Object.{Object, Kind}
use provider_dip.Controller.{
  RemoteApi, Handler, Observer, asserted, absent, observe_external, create_external,
  update_external,
}
use provider_dip.Controller.Lifecycle.{settled}
use provider_dip.Controller.Objects.{asserted-ok, asserted-object}
use provider_dip.Controller.Session.{ExternalClient}
use provider_dip.Controller.Reconcile.{drifted, Reconciled}
use provider_dip.Controller.Reconcile.Phases.{Converges, reconcile_reaches}

-- A service that carries out what it is asked.
pub record Available {W New Old R : Type 0} (api : RemoteApi W New Old R) : Type 0 where
  pub creates :
      (body : New) (w : W)
      → ((api.create body w).0.error ≡ none) × ((r : R) × ((api.create body w).0.value ≡ some r))
  pub updates : (body : Old) (w : W) → (api.update body w).0.error ≡ none

-- A part of a handler that always gives a value.
abbrev pub Gives : {S A : Type 0} → (S → Outcome A × S) → Type 0
Gives {S} {A} m = (s : S) → (a : A) × ((m s).0 ≡ ok a)

continue_value :
    {T A B : Type 0} (q : Outcome A × T) (f : A → T → Outcome B × T) {a : A}
    → q.0 ≡ ok a
    → continue q f ≡ f a q.1
continue_value (ok a, t) f h = ap (λ x. f x t) (ok-injective h)
continue_value (fail e, t) f h = cc
continue_value (panic, t) f h = cc

module _ {P S W New Old R : Type 0} (api : RemoteApi W New Old R) (up : Available api) where
  create_external-Gives :
      (request : Handler P S W New) (message : String) (id : R → Text)
      → Gives request
      → Gives (create_external request api.create message id)
  unfolding create_external
  create_external-Gives request message id builds (cr, w) =
      let asked = request (record cr { ready = some creating }, w) in
      let (body, e) = builds (record cr { ready = some creating }, w) in
      let (no_error, (r, value)) = up.creates body asked.1.1 in
      (r, ap (λ q. q.0) (continue_value asked _ e) ∙ rw (no_error, value))

  update_external-Gives :
      (request : Handler P S W Old) (message : String)
      → Gives request
      → (s : Managed P S × W) → (update_external request api.update message s).0 ≡ ok tt
  unfolding update_external
  update_external-Gives request message builds (cr, w) =
      let asked = request (cr, w) in
      let (body, e) = builds (cr, w) in
      let no_error = up.updates body asked.1.1 in
      ap (λ q. q.0) (continue_value asked _ e) ∙ rw no_error

module _ {P S W New Old R : Type 0} (kind : Kind P S) (o : Observer P S R)
    (api : RemoteApi W New Old R) where
  abbrev observe : Object × W → Outcome ExternalObservation × (Object × W)
  observe = asserted kind (observe_external o api.get)

  -- After an observation that did not fail, a handler that always gives a value does so.
  object_Gives :
      {A : Type 0} (body : Handler P S W A) (s : Object × W) (seen : ExternalObservation)
      → Gives body
      → (observe s).0 ≡ ok seen
      → (a : A) × ((asserted kind body (observe s).1).0 ≡ ok a)
  object_Gives body (mg, w) seen gives h =
      let (cr, e, same, _) = asserted-ok kind (observe_external o api.get) mg w h in
      let after = (observe_external o api.get (cr, w)).1 in
      let (a, given) = gives after in
      (
        a,
        ap (λ q. (asserted kind body q.1).0) same
            ∙ ap (λ q. q.0) (asserted-object kind body after.0 after.1)
            ∙ given,
      )

  -- With a service that carries out what it is asked, and requests that can always be built, every
  -- resource whose observation does not fail can be reconciled, and is then up to date.
  pub handlers_reach :
      (request : Handler P S W New) (message : String) (id : R → Text)
      (finish : R → Handler P S W ExternalCreation) (old_request : Handler P S W Old)
      (update_message : String) (delete : Object × W → Outcome (Unit {0}) × (Object × W))
      → Available api
      → Gives request
      → ((r : R) → Gives (finish r))
      → Gives old_request
      → let c : ExternalClient W = record {
        observe = observe;
        create = asserted kind (create_external request api.create message id >>= finish);
        update = asserted kind (update_external old_request api.update update_message);
        delete = delete;
      } in
        Converges c
        → (s : Object × W)
        → ((e : Error) × ((c.observe s).0 ≡ fail e))
          ⊎ ((t : Object × W) × (n : ℕ) × Reconciled c s t n × ((c.observe t).0 ≡ ok settled))
  handlers_reach request message id finish old_request update_message delete up builds finishes
        old_builds laws s =
      reconcile_reaches _ laws
        (λ s missing.
          object_Gives (create_external request api.create message id >>= finish) s absent
            (λ q.
              let (r, made) = create_external-Gives api up request message id builds q in
              let created = create_external request api.create message id q in
              let (a, finished) = finishes r created.1 in
              (a, ap (λ x. x.0) (continue_value created finish made) ∙ finished))
            missing)
        (λ s stale.
          let (_, done) =
            object_Gives (update_external old_request api.update update_message) s drifted
              (λ q. (tt, update_external-Gives api up old_request update_message old_builds q))
              stale in
          done)
        s
