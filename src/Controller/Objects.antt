-- ===== src/Controller/Objects.antt =====
-- The handlers as the reconciler calls them, on any managed resource.
use provider_dip.Base.{Text, String, true, none, some, ◌≡◌, ap, sym, ◌∙◌, subst}
use provider_dip.Base.{Option-cases, inl, inr}
use provider_dip.Go.{new, ok, fail, M, continue-ok, ok-injective, ◌>>=◌}
use provider_dip.Controller.{set_conditions}
use provider_dip.Controller.Observe.{observe_marked}
use provider_dip.Managed.{deleting, Managed, ExternalObservation}
use provider_dip.Util.{is_valid_uuid}
use provider_dip.Apis.Object.{Object, Kind}
use provider_dip.Controller.{RemoteApi, Handler, Observer, reobject, asserting, asserted, absent}
use provider_dip.Controller.{
  observe_external, create_external, update_external, delete_external, from_spec, from_named,
}
use provider_dip.Controller.Lifecycle.{
  Holds, StoresCreated, StoresUpdated, IsCurrent, IsSettled, settled,
}
use provider_dip.Controller.Lifecycle.{
  IsSettled-observe, create_external-IsSettled, update_external-IsSettled,
}
use provider_dip.Controller.Lifecycle.{from_spec-IsCurrent, from_named-IsCurrent}
use provider_dip.Controller.Deletion.{Forgets, delete-observe}

module _ {P S W A : Type 0} (kind : Kind P S) (body : Handler P S W A) where
  pub asserted-object :
      (cr : Managed P S) (w : W)
      → asserted kind body (kind.object cr, w) ≡ reobject kind (body (cr, w))
  unfolding asserted
  asserted-object cr w = ap (asserting kind body (kind.object cr) w) (kind.assert-object cr)

  -- A handler refuses an object of another kind with the kind's message, and touches nothing.
  pub asserted_other :
      (mg : Object) (w : W)
      → kind.assert mg ≡ none
      → asserted kind body (mg, w) ≡ (fail (new kind.mismatch), (mg, w))
  unfolding asserted
  asserted_other mg w h = rw h

  -- A handler that returned a value was given an object of its kind.
  pub asserted-ok :
      (mg : Object) (w : W) {a : A}
      → (asserted kind body (mg, w)).0 ≡ ok a
      → (cr : Managed P S) × ((body (cr, w)).0 ≡ ok a)
        × (asserted kind body (mg, w) ≡ reobject kind (body (cr, w)))
        × (kind.assert mg ≡ some cr)
  unfolding asserted
  asserted-ok mg w h = elim (Option-cases (kind.assert mg)) [
    | inl other ↦ cc (sym (ap (λ q. q.0) (asserted_other mg w other)) ∙ h)
    | inr (cr, found) ↦
        let same = ap (asserting kind body mg w) found in
        (cr, ap (λ q. q.0) (sym same) ∙ h, same, found)
  ]

  pub asserted_found :
      (mg : Object) (cr : Managed P S) (w : W)
      → kind.assert mg ≡ some cr
      → asserted kind body (mg, w) ≡ reobject kind (body (cr, w))
  unfolding asserted
  asserted_found mg cr w found = ap (asserting kind body mg w) found

-- The end of a `Create`, behind the common part: it keeps the external name, the spec and the world.
abbrev pub Finishes : {P S W R A : Type 0} → (R → Handler P S W A) → Type 0
Finishes {P} {S} {W} {R} finish =
    (r : R) (cr : Managed P S) (w : W)
    → ((finish r (cr, w)).1.0.external_name ≡ cr.external_name)
      × ((finish r (cr, w)).1.0.for_provider ≡ cr.for_provider)
      × ((finish r (cr, w)).1.1 ≡ w)

module _ {P S W New Old R : Type 0} (kind : Kind P S) (o : Observer P S R)
    (api : RemoteApi W New Old R) where
  abbrev observe : M (Object × W) ExternalObservation
  observe = asserted kind (observe_external o api.get)

  settled_object :
      (cr : Managed P S) (w : W)
      → IsSettled o api cr w
      → (observe (kind.object cr, w)).0 ≡ ok settled
  settled_object cr w h =
      ap (λ q. q.0) (asserted-object kind (observe_external o api.get) cr w)
      ∙ IsSettled-observe o api cr w h

  IsSettled-moved :
      (cr cr' : Managed P S) (w w' : W)
      → cr'.external_name ≡ cr.external_name
      → cr'.for_provider ≡ cr.for_provider
      → w' ≡ w
      → IsSettled o api cr w
      → IsSettled o api cr' w'
  IsSettled-moved cr cr' w w' name spec world (named, (r, holds, current)) = (
    subst (λ n. is_valid_uuid n ≡ true) (sym name) named,
    (
      r,
      subst (λ (q : Text × W). Holds api q.0 q.1 r) (λ i. (sym name i, sym world i)) holds,
      subst (λ p. o.is_up_to_date p r ≡ true) (sym spec) current,
    ),
  )

  pub object_create-observe :
      {A : Type 0} (request : Handler P S W New) (message : String) (id : R → Text)
      (Kept : New → R → Type 0) (finish : R → Handler P S W A) (mg : Object) (w : W) {a : A}
      → StoresCreated api id Kept
      → IsCurrent o request Kept
      → Finishes finish
      → let create = asserted kind (create_external request api.create message id >>= finish) in
        (create (mg, w)).0 ≡ ok a → (observe (create (mg, w)).1).0 ≡ ok settled
  object_create-observe request message id Kept finish mg w service requests finishes h =
      let created = create_external request api.create message id in
      let (cr, e, same, _) = asserted-ok kind (created >>= finish) mg w h in
      let (r, made, after) = continue-ok (created (cr, w)) finish e in
      let (named, (r', holds, current)) =
        create_external-IsSettled o api request message id Kept cr w r service requests made in
      let (name, spec, world) = finishes r (created (cr, w)).1.0 (created (cr, w)).1.1 in
      let end = (finish r (created (cr, w)).1).1 in
      subst (λ (s : Object × W). (observe s).0 ≡ ok settled)
        (sym (ap (λ q. (reobject kind q).1) after) ∙ sym (ap (λ q. q.1) same))
        (settled_object end.0 end.1 (
          IsSettled-moved (created (cr, w)).1.0 end.0 (created (cr, w)).1.1 end.1 name spec world
            (named, (r', holds, current))))

  pub object_update-observe :
      (request : Handler P S W Old) (message : String) (id : Old → Text) (Kept : Old → R → Type 0)
      (mg : Object) (cr : Managed P S) (w : W)
      → kind.assert mg ≡ some cr
      → StoresUpdated api id Kept
      → IsCurrent o request Kept
      → ((body : Old) → (request (cr, w)).0 ≡ ok body → id body ≡ cr.external_name)
      → is_valid_uuid cr.external_name ≡ true
      → let update = asserted kind (update_external request api.update message) in
        (update (mg, w)).0 ≡ ok tt → (observe (update (mg, w)).1).0 ≡ ok settled
  object_update-observe request message id Kept mg cr w found service requests addressed named h =
      let updated = update_external request api.update message in
      let same = asserted_found kind updated mg cr w found in
      let made = ap (λ q. q.0) (sym same) ∙ h in
      subst (λ (s : Object × W). (observe s).0 ≡ ok settled) (sym (ap (λ q. q.1) same))
        (settled_object (updated (cr, w)).1.0 (updated (cr, w)).1.1 (
          update_external-IsSettled o api request message id Kept cr w service requests addressed
            named made))

  pub object_delete-observe :
      (by_id : Text → Old) (id : Old → Text) (message : String) (mg : Object) (w : W)
      → Forgets api id
      → ((name : Text) → id (by_id name) ≡ name)
      → let delete = asserted kind (delete_external by_id api.delete message) in
        (delete (mg, w)).0 ≡ ok tt → (observe (delete (mg, w)).1).0 ≡ ok absent
  object_delete-observe by_id id message mg w service addressed h =
      let deleted = delete_external by_id api.delete message in
      let (cr, e, same, _) = asserted-ok kind deleted mg w h in
      subst (λ (s : Object × W). (observe s).0 ≡ ok absent) (sym (ap (λ q. q.1) same))
        (ap (λ q. q.0)
            (asserted-object kind (observe_external o api.get) (deleted (cr, w)).1.0
              (deleted (cr, w)).1.1)
          ∙ delete-observe o api by_id id message cr w service addressed e)

  -- A `Delete` that only marks the resource does not change the outcome of `Observe`.
  pub object_marked-observe :
      (mg : Object) (w : W)
      → (observe (asserted {W = W} kind (set_conditions deleting) (mg, w)).1).0
        ≡ (observe (mg, w)).0
  object_marked-observe mg w = elim (Option-cases (kind.assert mg)) [
    | inl other ↦
        ap (λ q. (observe q.1).0) (asserted_other kind (set_conditions deleting) mg w other)
    | inr (cr, found) ↦
        ap (λ q. (observe q.1).0) (asserted_found kind (set_conditions deleting) mg cr w found)
        ∙ ap (λ q. q.0)
            (asserted-object kind (observe_external o api.get) (record cr { ready = some deleting })
              w)
        ∙ observe_marked o api.get cr w deleting
        ∙ sym (ap (λ q. q.0) (asserted_found kind (observe_external o api.get) mg cr w found))
  ]

  -- The same for the requests that the controllers build from the spec.
  pub object_create_spec-observe :
      {A : Type 0} (build : P → New) (message : String) (id : R → Text) (Kept : New → R → Type 0)
      (finish : R → Handler P S W A) (mg : Object) (w : W) {a : A}
      → ((fp : P) (v : R) → Kept (build fp) v → o.is_up_to_date fp v ≡ true)
      → Finishes finish
      → StoresCreated api id Kept
      → let create =
          asserted kind (create_external (from_spec build) api.create message id >>= finish) in
        (create (mg, w)).0 ≡ ok a → (observe (create (mg, w)).1).0 ≡ ok settled
  object_create_spec-observe build message id Kept finish mg w current finishes service h =
      object_create-observe (from_spec build) message id Kept finish mg w service
        (from_spec-IsCurrent o build Kept current) finishes h

  pub object_update_named-observe :
      (build : Text → P → Old) (message : String) (id : Old → Text) (Kept : Old → R → Type 0)
      (mg : Object) (cr : Managed P S) (w : W)
      → ((name : Text) (fp : P) (v : R) → Kept (build name fp) v → o.is_up_to_date fp v ≡ true)
      → ((name : Text) (fp : P) → id (build name fp) ≡ name)
      → kind.assert mg ≡ some cr
      → is_valid_uuid cr.external_name ≡ true
      → StoresUpdated api id Kept
      → let update = asserted kind (update_external (from_named build) api.update message) in
        (update (mg, w)).0 ≡ ok tt → (observe (update (mg, w)).1).0 ≡ ok settled
  object_update_named-observe build message id Kept mg cr w current addressed found named service
        h =
      object_update-observe (from_named build) message id Kept mg cr w found service
        (from_named-IsCurrent o build Kept current)
        (λ body e. ap id (sym (ok-injective e)) ∙ addressed cr.external_name cr.for_provider) named
        h
