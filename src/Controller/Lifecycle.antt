-- ===== src/Controller/Lifecycle.antt =====
-- `Observe` after `Create` and `Update`, and what is asked of the remote service for it.
use provider_dip.Base.{Text, String, true, none, some, ◌≡◌, refl, ap, sym, ◌∙◌}
use provider_dip.Base.{arith, subst}
use provider_dip.Go.{ok, continue-ok, ok-injective}
use provider_dip.Managed.{Managed, creating, ExternalObservation}
use provider_dip.Util.{is_valid_uuid}
use provider_dip.Controller.{RemoteApi, Handler, Observer, observe_external, create_external}
use provider_dip.Controller.{update_external, from_spec, from_named}
use provider_dip.Controller.Observe.{observe_present}
use provider_dip.Controller.Frame.{
  ReadsOnly, AfterCreate, create_external-AfterCreate, update_external-same,
}

abbrev pub Holds : {W New Old R : Type 0} → RemoteApi W New Old R → Text → W → R → Type 0
Holds api name w r = let reply = (api.get name w).0 in (reply.error ≡ none) × (reply.value ≡ some r)

-- The documented behaviour of a service: what it created gets a UUID, and a `GET` of that id then
-- returns a value that keeps what was sent. `Kept body v` says which fields `v` shares with `body`.
pub record StoresCreated {W New Old R : Type 0} (api : RemoteApi W New Old R) (id : R → Text)
    (Kept : New → R → Type 0) : Type 0 where
  pub created :
      (body : New) (w : W) (r : R)
      → (api.create body w).0.error ≡ none
      → (api.create body w).0.value ≡ some r
      → (is_valid_uuid (id r) ≡ true)
        × ((v : R) × Holds api (id r) (api.create body w).1 v × Kept body v)

-- The part of it that the controllers need for every sequence of calls.
pub record GivesUuid {W New Old R : Type 0} (api : RemoteApi W New Old R) (id : R → Text)
    : Type 0 where
  pub given :
      (body : New) (w : W) (r : R)
      → (api.create body w).0.error ≡ none
      → (api.create body w).0.value ≡ some r
      → is_valid_uuid (id r) ≡ true

pub StoresCreated-GivesUuid :
    {W New Old R : Type 0} (api : RemoteApi W New Old R) (id : R → Text) (Kept : New → R → Type 0)
    → StoresCreated api id Kept
    → GivesUuid api id
StoresCreated-GivesUuid api id Kept stores = record {
  given = λ body w r e h. (stores.created body w r e h).0;
}

-- After an update without error, a `GET` of the id in the request returns a value that keeps what
-- was sent.
pub record StoresUpdated {W New Old R : Type 0} (api : RemoteApi W New Old R) (id : Old → Text)
    (Kept : Old → R → Type 0) : Type 0 where
  pub updated :
      (body : Old) (w : W)
      → (api.update body w).0.error ≡ none
      → (v : R) × Holds api (id body) (api.update body w).1 v × Kept body v

-- The requests of a kind: they only read the resource, and a value that keeps what they send is up
-- to date.
pub record IsCurrent {P S R W New : Type 0} (o : Observer P S R) (request : Handler P S W New)
    (Kept : New → R → Type 0) : Type 0 where
  pub reads_only : ReadsOnly request
  pub current :
      (cr : Managed P S) (w : W) (body : New) (v : R)
      → (request (cr, w)).0 ≡ ok body
      → Kept body v
      → o.is_up_to_date cr.for_provider v ≡ true

abbrev pub settled : ExternalObservation
settled = record { resource_exists = true; resource_up_to_date = true }

module _ {P S W New Old R : Type 0} (o : Observer P S R) (api : RemoteApi W New Old R) where
  pub create_external-sent :
      (request : Handler P S W New) (message : String) (id : R → Text) (cr : Managed P S) (w : W)
      {r : R}
      → let result = create_external request api.create message id (cr, w) in
        result.0 ≡ ok r
        → let asked = request (record cr { ready = some creating }, w) in
          (body : New) × (asked.0 ≡ ok body)
          × ((api.create body asked.1.1).0.error ≡ none)
          × ((api.create body asked.1.1).0.value ≡ some r)
          × (result.1.1 ≡ (api.create body asked.1.1).1)
  unfolding create_external
  create_external-sent request message id cr w h =
      let asked = request (record cr { ready = some creating }, w) in
      let (body, e, _) = continue-ok asked _ h in
      (body, e, ground (arith, e), ground (arith, e), ground (arith, e))

  -- An observation of a resource that the service holds with what is up to date.
  observe_settled :
      (cr : Managed P S) (w : W) (r : R)
      → is_valid_uuid cr.external_name ≡ true
      → Holds api cr.external_name w r
      → o.is_up_to_date cr.for_provider r ≡ true
      → (observe_external o api.get (cr, w)).0 ≡ ok settled
  observe_settled cr w r named holds current =
      ap (λ q. q.0) (observe_present o api.get cr w r named holds) ∙ rw current

  -- The next observation will find the resource, up to date.
  abbrev pub IsSettled : Managed P S → W → Type 0
  IsSettled cr w =
      (is_valid_uuid cr.external_name ≡ true)
      × ((r : R) × Holds api cr.external_name w r × (o.is_up_to_date cr.for_provider r ≡ true))

  pub IsSettled-observe :
      (cr : Managed P S) (w : W)
      → IsSettled cr w
      → (observe_external o api.get (cr, w)).0 ≡ ok settled
  IsSettled-observe cr w (named, (r, holds, current)) = observe_settled cr w r named holds current

  -- A successful `Create` leaves a settled resource, for every service that keeps what it creates
  -- and every request that is current.
  pub create_external-IsSettled :
      (request : Handler P S W New) (message : String) (id : R → Text) (Kept : New → R → Type 0)
      (cr : Managed P S) (w : W) (r : R)
      → StoresCreated api id Kept
      → IsCurrent o request Kept
      → let result = create_external request api.create message id (cr, w) in
        result.0 ≡ ok r → IsSettled result.1.0 result.1.1
  create_external-IsSettled request message id Kept cr w r service requests h =
      let result = create_external request api.create message id (cr, w) in
      let (body, e, no_error, value, world) = create_external-sent request message id cr w h in
      let (named, (v, holds, kept)) = service.created body _ r no_error value in
      let after : result.1.0 ≡ record cr { external_name = id r; ready = some creating } =
        subst (λ q. AfterCreate id cr q result.1.0) h
          (create_external-AfterCreate request api.create message id cr w requests.reads_only) in
      subst (λ (s : Managed P S × W). IsSettled s.0 s.1) (λ i. (sym after i, sym world i))
        (named, (v, holds, requests.current (record cr { ready = some creating }) w body v e kept))

  update_external-sent :
      (request : Handler P S W Old) (message : String) (cr : Managed P S) (w : W)
      → let result = update_external request api.update message (cr, w) in
        result.0 ≡ ok tt
        → let asked = request (cr, w) in
          (body : Old) × (asked.0 ≡ ok body)
          × ((api.update body asked.1.1).0.error ≡ none)
          × (result.1.1 ≡ (api.update body asked.1.1).1)
  unfolding update_external
  update_external-sent request message cr w h =
      let (body, e, _) = continue-ok (request (cr, w)) _ h in
      (body, e, ground (arith, e), ground (arith, e))

  -- So does a successful `Update` of a resource with a UUID, for every service that keeps what it is
  -- sent and every current request for this resource.
  pub update_external-IsSettled :
      (request : Handler P S W Old) (message : String) (id : Old → Text) (Kept : Old → R → Type 0)
      (cr : Managed P S) (w : W)
      → StoresUpdated api id Kept
      → IsCurrent o request Kept
      → ((body : Old) → (request (cr, w)).0 ≡ ok body → id body ≡ cr.external_name)
      → is_valid_uuid cr.external_name ≡ true
      → let result = update_external request api.update message (cr, w) in
        result.0 ≡ ok tt → IsSettled result.1.0 result.1.1
  update_external-IsSettled request message id Kept cr w service requests addressed named h =
      let (body, e, no_error, world) = update_external-sent request message cr w h in
      let (v, holds, kept) = service.updated body _ no_error in
      let after = update_external-same request api.update message cr w requests.reads_only in
      subst (λ (s : Managed P S × W). IsSettled s.0 s.1) (λ i. (sym after i, sym world i))
        (
          named,
          (
            v,
            subst (λ n. Holds api n (api.update body (request (cr, w)).1.1).1 v) (addressed body e)
                holds,
            requests.current cr w body v e kept,
          ),
        )

-- The requests that are built from the spec are current if what they send is.
module _ {P S R W : Type 0} (o : Observer P S R) where
  pub from_spec-IsCurrent :
      {New : Type 0} (build : P → New) (Kept : New → R → Type 0)
      → ((fp : P) (v : R) → Kept (build fp) v → o.is_up_to_date fp v ≡ true)
      → IsCurrent {W = W} o (from_spec build) Kept
  from_spec-IsCurrent {New} build Kept h = record {
    reads_only = λ cr w. refl;
    current = λ cr w body v e kept.
        h cr.for_provider v (subst (λ (b : New). Kept b v) (sym (ok-injective e)) kept);
  }

  pub from_named-IsCurrent :
      {Old : Type 0} (build : Text → P → Old) (Kept : Old → R → Type 0)
      → ((name : Text) (fp : P) (v : R) → Kept (build name fp) v → o.is_up_to_date fp v ≡ true)
      → IsCurrent {W = W} o (from_named build) Kept
  from_named-IsCurrent {Old} build Kept h = record {
    reads_only = λ cr w. refl;
    current = λ cr w body v e kept.
        h cr.external_name cr.for_provider v
          (subst (λ (b : Old). Kept b v) (sym (ok-injective e)) kept);
  }
