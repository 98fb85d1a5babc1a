-- ===== src/Controller/Reconcile/Converge.antt =====
-- The laws of `Converges` for the handlers of the controllers.
use provider_dip.Base.{
  Text, String, ◌≡◌, ◌⊎◌, inl, inr, refl, ap, sym, ◌∙◌, subst, arith, Option-cases,
}
use provider_dip.Go.{Error, new, ok, fail, M, ◌>>=◌}
use provider_dip.Managed.{Managed, ExternalObservation, ExternalCreation}
use provider_dip.Util.{is_valid_uuid}
use provider_dip.Apis.Object.{Object, Kind}
use provider_dip.Controller.{
  RemoteApi, Reply, Handler, Observer, asserted, absent, observe_external, create_external,
  update_external,
}
use provider_dip.Controller.Frame.{observe-Keeps}
use provider_dip.Controller.Observe.{observe-Exists_iff}
use provider_dip.Controller.Lifecycle.{StoresCreated, StoresUpdated, IsCurrent, settled}
use provider_dip.Controller.Objects.{
  asserted_found, asserted_other, asserted-ok, asserted-object, Finishes, object_create-observe,
  object_update-observe,
}
use provider_dip.Controller.Session.{ExternalClient}
use provider_dip.Controller.Reconcile.{drifted}
use provider_dip.Controller.Reconcile.Phases.{Converges}

-- The documented behaviour of a GET: it changes nothing.
pub record OnlyReads {W New Old R : Type 0} (api : RemoteApi W New Old R) : Type 0 where
  pub same : (name : Text) (w : W) → (api.get name w).1 ≡ w

module _ {P S R W : Type 0} (o : Observer P S R) (get : Text → W → Reply R × W) where
  -- The external name and the spec decide what an observation reports.
  observe_agrees :
      (cr cr' : Managed P S) (w : W)
      → cr'.external_name ≡ cr.external_name
      → cr'.for_provider ≡ cr.for_provider
      → (observe_external o get (cr', w)).0 ≡ (observe_external o get (cr, w)).0
  unfolding observe_external
  observe_agrees cr cr' w name spec = ground (arith, name, spec)

  observe_world :
      ((name : Text) (w : W) → (get name w).1 ≡ w)
      → (cr : Managed P S) (w : W) → (observe_external o get (cr, w)).1.1 ≡ w
  unfolding observe_external
  observe_world same cr w = ground (arith, same cr.external_name w)

  observe_reports :
      (cr : Managed P S) (w : W)
      → let seen = (observe_external o get (cr, w)).0 in
        (seen ≡ ok absent)
        ⊎ (seen ≡ ok drifted)
        ⊎ (seen ≡ ok settled)
        ⊎ ((e : Error) × (seen ≡ fail e))
  unfolding observe_external
  observe_reports cr w = ground arith

module _ {P S New Old R W : Type 0} (kind : Kind P S) (o : Observer P S R)
    (api : RemoteApi W New Old R) where
  abbrev observe : M (Object × W) ExternalObservation
  observe = asserted kind (observe_external o api.get)

  pub object_reports :
      (mg : Object) (w : W)
      → let seen = (observe (mg, w)).0 in
        (seen ≡ ok absent)
        ⊎ (seen ≡ ok drifted)
        ⊎ (seen ≡ ok settled)
        ⊎ ((e : Error) × (seen ≡ fail e))
  object_reports mg w = elim (Option-cases (kind.assert mg)) [
    | inl other ↦ inr (
        inr (
          inr (
            new kind.mismatch,
            ap (λ q. q.0) (asserted_other kind (observe_external o api.get) mg w other),
          )))
    | inr (cr, found) ↦
        subst
          (λ seen.
            (seen ≡ ok absent)
            ⊎ (seen ≡ ok drifted)
            ⊎ (seen ≡ ok settled)
            ⊎ ((e : Error) × (seen ≡ fail e)))
          (sym (ap (λ q. q.0) (asserted_found kind (observe_external o api.get) mg cr w found)))
          (observe_reports o api.get cr w)
  ]

  pub object_stable :
      (mg : Object) (w : W) → OnlyReads api → (observe (observe (mg, w)).1).0 ≡ (observe (mg, w)).0
  object_stable mg w reads = elim (Option-cases (kind.assert mg)) [
    | inl other ↦
        ap (λ q. (observe q.1).0) (asserted_other kind (observe_external o api.get) mg w other)
    | inr (cr, found) ↦
        let seen = observe_external o api.get (cr, w) in
        let same = asserted_found kind (observe_external o api.get) mg cr w found in
        let ((spec, _, _), name) = observe-Keeps o api.get cr w in
        ap (λ q. (observe q.1).0) same
        ∙ ap (λ q. q.0) (asserted-object kind (observe_external o api.get) seen.1.0 seen.1.1)
        ∙ ap (λ v. (observe_external o api.get (seen.1.0, v)).0)
            (observe_world o api.get reads.same cr w)
        ∙ observe_agrees o api.get cr seen.1.0 w name spec
        ∙ sym (ap (λ q. q.0) same)
  ]

  -- An `Update` that a drifted observation asked for.
  object_updated :
      (request : Handler P S W Old) (message : String) (id : Old → Text) (Kept : Old → R → Type 0)
      (mg : Object) (w : W)
      → StoresUpdated api id Kept
      → IsCurrent o request Kept
      → ((cr : Managed P S) (w : W) (body : Old)
          → (request (cr, w)).0 ≡ ok body
          → id body ≡ cr.external_name)
      → (observe (mg, w)).0 ≡ ok drifted
      → let update = asserted kind (update_external request api.update message) in
        (update (observe (mg, w)).1).0 ≡ ok tt
        → (observe (update (observe (mg, w)).1).1).0 ≡ ok settled
  object_updated request message id Kept mg w service requests addressed drift h =
      let (cr, e, same, _) = asserted-ok kind (observe_external o api.get) mg w drift in
      let seen = observe_external o api.get (cr, w) in
      let ((spec, _, _), name) = observe-Keeps o api.get cr w in
      let (named, _) = (observe-Exists_iff o api.get cr w).0 (drifted, e, refl) in
      let update = asserted kind (update_external request api.update message) in
      let at = ap (λ q. q.1) same in
      subst (λ (s : Object × W). (observe (update s).1).0 ≡ ok settled) (sym at)
        (object_update-observe kind o api request message id Kept (kind.object seen.1.0) seen.1.0
          seen.1.1 (kind.assert-object seen.1.0) service requests (addressed seen.1.0 seen.1.1)
          (ap is_valid_uuid name ∙ named) (ap (λ s. (update s).0) (sym at) ∙ h))

  -- The handlers of the controllers that update: for every service that keeps what it is sent and
  -- whose GET only reads, the laws hold.
  pub handlers_Converges :
      (request : Handler P S W New) (message : String) (id : R → Text) (Kept : New → R → Type 0)
      (finish : R → Handler P S W ExternalCreation) (old_request : Handler P S W Old)
      (update_message : String) (old_id : Old → Text) (Kept' : Old → R → Type 0)
      (delete : M (Object × W) (Unit {0}))
      → IsCurrent o request Kept
      → Finishes finish
      → IsCurrent o old_request Kept'
      → ((cr : Managed P S) (w : W) (body : Old)
          → (old_request (cr, w)).0 ≡ ok body
          → old_id body ≡ cr.external_name)
      → StoresCreated api id Kept
      → StoresUpdated api old_id Kept'
      → OnlyReads api
      → let c : ExternalClient W = record {
        observe = observe;
        create = asserted kind (create_external request api.create message id >>= finish);
        update = asserted kind (update_external old_request api.update update_message);
        delete = delete;
      } in
        Converges c
  handlers_Converges request message id Kept finish old_request update_message old_id Kept' delete
        requests finishes old_requests addressed stores keeps reads =
      record {
        reports = λ (mg, w). object_reports mg w;
        stable = λ (mg, w). object_stable mg w reads;
        created = λ (mg, w) details h.
            object_create-observe kind o api request message id Kept finish mg w stores requests
              finishes h;
        updated = λ (mg, w) drift h.
            object_updated old_request update_message old_id Kept' mg w keeps old_requests addressed
              drift h;
      }
