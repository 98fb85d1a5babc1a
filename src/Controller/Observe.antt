-- ===== src/Controller/Observe.antt =====
-- What `Observe` reports, for every kind and every answer of the remote service.
use provider_dip.Base.{
  ℕ, Text, true, false, Option, none, some, [], ◌∷◌, ◌≡◌, ◌≢◌, refl, ◌↔◌, ◌∙◌, ap, arith,
}
use provider_dip.Base.{is_empty, inl, inr, ◌⊎◌, Bool-cases, nat_Comparable}
use provider_dip.Go.{Error, wrap, ok, fail, panic}
use provider_dip.Managed.{Ready, Managed, available, ExternalObservation}
use provider_dip.Util.{is_valid_uuid, is_not_found_or_invalid_id}
use provider_dip.Util.Uuid.{is_valid_uuid-ne-nil}
use provider_dip.Controller.{Reply, Observer, absent, is_gone, observe_value, observe_error}
use provider_dip.Controller.{observe_external}

is_gone_iff : (r : Option ℕ) → (is_gone r ≡ true) ↔ ((r ≡ some 400) ⊎ (r ≡ some 404))
unfolding is_gone is_not_found_or_invalid_id
is_gone_iff none = (λ h. cc, λ h. elim h [ inl e ↦ cc | inr e ↦ cc ])
is_gone_iff (some n) = ground arith

not_gone_iff : (r : Option ℕ) → (is_gone r ≡ false) ↔ ((r ≢ some 400) × (r ≢ some 404))
not_gone_iff r =
    let (there, back) = is_gone_iff r in
    (
      λ h. (λ e. cc (back (inl e), h), λ e. cc (back (inr e), h)),
      λ (no_400, no_404). elim (Bool-cases (is_gone r)) [
        | inl h ↦ elim (there h) [ inl e ↦ absurd (no_400 e) | inr e ↦ absurd (no_404 e) ]
        | inr h ↦ h
      ],
    )

pub not_empty : (s : Text) → s ≢ [] → is_empty s ≡ false
not_empty [] h = absurd (h refl)
not_empty (c ∷ s) h = refl

module _ {P S R W : Type 0} (o : Observer P S R) (get : Text → W → Reply R × W) where
  -- Without a UUID for its external name, the resource is reported absent, and neither the resource
  -- nor the world is touched: the remote service is not asked.
  pub observe_unnamed :
      (cr : Managed P S) (w : W)
      → is_valid_uuid cr.external_name ≡ false
      → observe_external o get (cr, w) ≡ (ok absent, (cr, w))
  unfolding observe_external
  observe_unnamed cr w h = elim (Bool-cases (is_empty cr.external_name)) [
    | inl empty ↦ rw empty
    | inr there ↦ rw (there, h)
  ]

  observe_named :
      (cr : Managed P S) (w : W)
      → is_valid_uuid cr.external_name ≡ true
      → let answer = get cr.external_name w in
        observe_external o get (cr, w) ≡ observe_error o answer.0.error answer.0 (cr, answer.1)
  unfolding observe_external
  observe_named cr w h = rw (not_empty cr.external_name (is_valid_uuid-ne-nil _ h), h)

  -- The service has the resource: it answers with a value and a nil error.
  abbrev pub Has : Managed P S → W → R → Type 0
  Has cr w r =
      let reply = (get cr.external_name w).0 in (reply.error ≡ none) × (reply.value ≡ some r)

  -- The resource that a successful observation leaves.
  abbrev pub observed : R → Managed P S → Managed P S
  observed r cr = record cr {
    at_provider = o.record_status r cr.at_provider;
    ready = some available;
  }

  -- If the external name is a UUID and the service has the resource, it is reported to exist, up to
  -- date or not as `is_up_to_date` says. Its status is recorded and it becomes available; nothing
  -- else of it changes.
  pub observe_present :
      (cr : Managed P S) (w : W) (r : R)
      → is_valid_uuid cr.external_name ≡ true
      → Has cr w r
      → observe_external o get (cr, w) ≡ (
        ok (record {
          resource_exists = true;
          resource_up_to_date = o.is_up_to_date cr.for_provider r;
        }),
        (observed r cr, (get cr.external_name w).1),
      )
  unfolding observe_error
  observe_present cr w r h (e, v) = observe_named cr w h ∙ rw (e, v, observe_error, observe_value)

  abbrev pub answer : Managed P S → W → Reply R
  answer cr w = (get cr.external_name w).0

  -- An answer with an error and status 400 or 404 counts as absence.
  pub observe_gone :
      (cr : Managed P S) (w : W) (e : Error)
      → is_valid_uuid cr.external_name ≡ true
      → (answer cr w).error ≡ some e
      → is_gone (answer cr w).response ≡ true
      → (observe_external o get (cr, w)).0 ≡ ok absent
  unfolding observe_error
  observe_gone cr w e h failed gone =
      ap (λ q. q.0) (observe_named cr w h) ∙ rw (failed, observe_error) (rw gone)

  abbrev pub Exists : Managed P S → W → Type 0
  Exists cr w =
      (seen : ExternalObservation) × ((observe_external o get (cr, w)).0 ≡ ok seen)
      × (seen.resource_exists ≡ true)

  Exists-Has :
      (cr : Managed P S) (w : W) (seen : ExternalObservation)
      → (observe_external o get (cr, w)).0 ≡ ok seen
      → seen.resource_exists ≡ true
      → (is_valid_uuid cr.external_name ≡ true) × ((r : R) × Has cr w r)
  unfolding observe_external
  Exists-Has cr w seen h e =
      let (named, r, no_error, value) = parts in (named, (r, (no_error, value)))
    where
      parts :
          (is_valid_uuid cr.external_name ≡ true)
          × (r : R) × ((answer cr w).error ≡ none)
          × ((answer cr w).value ≡ some r)
      parts = ground arith

  -- A resource is reported to exist exactly when its external name is a UUID and the service
  -- answers with a value and no error.
  pub observe-Exists_iff :
      (cr : Managed P S) (w : W)
      → Exists cr w ↔ ((is_valid_uuid cr.external_name ≡ true) × ((r : R) × Has cr w r))
  observe-Exists_iff cr w = (
    λ (seen, h, e). Exists-Has cr w seen h e,
    λ (h, (r, has)). (_, ap (λ x. x.0) (observe_present cr w r h has), refl),
  )

  observe_fails :
      (cr : Managed P S) (w : W) (failure : Error)
      → ((observe_external o get (cr, w)).0 ≡ fail failure) ↔ (
          (is_valid_uuid cr.external_name ≡ true)
          × ((e : Error) × ((answer cr w).error ≡ some e)
              × (is_gone (answer cr w).response ≡ false)
              × (failure ≡ wrap e o.message)))
  unfolding observe_external
  observe_fails cr w failure = ground (arith, is_valid_uuid-ne-nil cr.external_name)

  -- An observation fails exactly when the external name is a UUID and the service answers with an
  -- error whose response is not there or has a status that is neither 400 nor 404; the failure is
  -- that error, wrapped.
  pub observe_fails_iff :
      (cr : Managed P S) (w : W) (failure : Error)
      → ((observe_external o get (cr, w)).0 ≡ fail failure) ↔ (
          (is_valid_uuid cr.external_name ≡ true)
          × ((e : Error) × ((answer cr w).error ≡ some e)
              × ((answer cr w).response ≢ some 400)
              × ((answer cr w).response ≢ some 404)
              × (failure ≡ wrap e o.message)))
  observe_fails_iff cr w failure =
      let (there, back) = observe_fails cr w failure in
      let (kept, refused) = not_gone_iff (answer cr w).response in
      (
        λ h.
            let (named, (e, failed, live, same)) = there h in
            (named, (e, failed, (kept live).0, (kept live).1, same)),
        λ (named, (e, failed, no_400, no_404, same)).
            back (named, (e, failed, refused (no_400, no_404), same)),
      )

  pub observe_no_panic : (cr : Managed P S) (w : W) → (observe_external o get (cr, w)).0 ≢ panic
  unfolding observe_external
  observe_no_panic cr w = ground arith

  -- The Ready condition has no say in the outcome.
  pub observe_marked :
      (cr : Managed P S) (w : W) (r : Ready)
      → (observe_external o get (record cr { ready = some r }, w)).0
        ≡ (observe_external o get (cr, w)).0
  unfolding observe_external
  observe_marked cr w r = ground arith
