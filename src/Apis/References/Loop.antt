-- ===== src/Apis/References/Loop.antt =====
-- What the loop over the references of the service URLs does.
use provider_dip.Base.{
  Text, List, Option, [], ◌∷◌, map, ◌≡◌, ◌↔◌, ◌⊎◌, refl, ap, sym, ◌∙◌, inl, inr, ℤ,
}
use provider_dip.Go.{Error, Attempt, ok, fail, wrap}
use provider_dip.Setup
use provider_dip.Apis.References.{Request, Response, Resolver}
use provider_dip.Apis.References.Urls.{
  ReferringUrl, url_request, resolved_url, after_answer, resolve_urls,
}

Attempt-cases : {A : Type 0} (t : Attempt A) → ((e : Error) × (t ≡ inl e)) ⊎ ((a : A) × (t ≡ inr a))
Attempt-cases (inl e) = inl (e, refl)
Attempt-cases (inr a) = inr (a, refl)

-- What the resolver has no say in.
abbrev pub fixed : {Ref Sel : Type 0} → ReferringUrl Ref Sel → Text × Option ℤ × Option Sel
fixed u = (u.service_url.url, u.service_url.sort_order, u.selector)

module _ {W Ref Sel : Type 0} (r : Resolver W Ref Sel) (namespace : Text) where
  abbrev answer : ReferringUrl Ref Sel → W → Attempt (Response Ref) × W
  answer u w = r.resolve (url_request r namespace u) w

  first_fails :
      (u : ReferringUrl Ref Sel) (us : List (ReferringUrl Ref Sel)) (w : W) (e : Error)
      → (answer u w).0 ≡ inl e
      → resolve_urls r namespace (u ∷ us) w ≡ (
        fail (wrap e "mg.Spec.ForProvider.ServiceURLs[i3].AuthenticationMethodID"),
        (u ∷ us, (answer u w).1),
      )
  unfolding resolve_urls
  first_fails u us w e h =
      let later = resolve_urls r namespace us (answer u w).1 in
      ap (after_answer r namespace u us (answer u w).1 later) h

  first_resolved :
      (u : ReferringUrl Ref Sel) (us : List (ReferringUrl Ref Sel)) (w : W) (rsp : Response Ref)
      → (answer u w).0 ≡ inr rsp
      → let rest = resolve_urls r namespace us (answer u w).1 in
        resolve_urls r namespace (u ∷ us) w
        ≡ (rest.0, (resolved_url r namespace rsp u ∷ rest.1.0, rest.1.1))
  unfolding resolve_urls
  first_resolved u us w rsp h =
      let later = resolve_urls r namespace us (answer u w).1 in
      ap (after_answer r namespace u us (answer u w).1 later) h

  -- Resolving the references keeps the service URLs, their order, their sort orders and their
  -- selectors, on errors too.
  pub resolve_urls-fixed :
      (us : List (ReferringUrl Ref Sel)) (w : W)
      → map fixed (resolve_urls r namespace us w).1.0 ≡ map fixed us
  resolve_urls-fixed [] w = unfold resolve_urls in refl
  resolve_urls-fixed (u ∷ us) w = elim (Attempt-cases (answer u w).0) [
    | inl (e, h) ↦ ap (λ q. map fixed q.1.0) (first_fails u us w e h)
    | inr (rsp, h) ↦
        ap (λ q. map fixed q.1.0) (first_resolved u us w rsp h)
        ∙ ap (λ l. fixed u ∷ l) (resolve_urls-fixed us (answer u w).1)
  ]

  -- What the resolver is asked for a service URL: its current id, in the namespace of the resource,
  -- with its reference and its selector, among the authentication methods.
  abbrev pub asked : ReferringUrl Ref Sel → Request Ref Sel
  asked u = record {
    current_value = r.from_ptr_value u.service_url.authentication_method_id;
    namespace = namespace;
    reference = u.reference;
    selector = u.selector;
    to = Setup.mdm_authentication_method;
  }

  -- A service URL with the id and the reference that were found for it, and all else as it was.
  abbrev pub with_found : ReferringUrl Ref Sel → Response Ref → ReferringUrl Ref Sel
  with_found u rsp = record {
    service_url = record {
      url = u.service_url.url;
      sort_order = u.service_url.sort_order;
      authentication_method_id = r.to_ptr_value rsp.resolved_value;
    };
    reference = rsp.resolved_reference;
    selector = u.selector;
  }

  -- Every reference was resolved, in order, each after those before it.
  abbrev pub Resolves : List (ReferringUrl Ref Sel) → W → List (ReferringUrl Ref Sel) → W → Type 0
  Resolves [] w result end = ([] ≡ result) × (w ≡ end)
  Resolves (u ∷ us) w result end =
      (rsp : Response Ref) × (rest : List (ReferringUrl Ref Sel)) × ((r.resolve (asked u) w).0
        ≡ inr rsp)
      × Resolves us (r.resolve (asked u) w).1 rest end
      × (with_found u rsp ∷ rest ≡ result)

  -- The references of a standard service are resolved without error exactly when each is, one after
  -- the other, in the namespace of the resource and among the authentication methods, and then
  -- every service URL has the id and the reference that were found for its own, and all else of it
  -- is as it was.
  pub resolve_urls-Resolves :
      (us result : List (ReferringUrl Ref Sel)) (w end : W)
      → (resolve_urls r namespace us w ≡ (ok tt, (result, end))) ↔ Resolves us w result end
  resolve_urls-Resolves [] result w end =
      unfold resolve_urls in
      (λ h. (ap (λ q. q.1.0) h, ap (λ q. q.1.1) h), λ (e, e') i. (ok tt, (e i, e' i)))
  resolve_urls-Resolves (u ∷ us) result w end = elim (Attempt-cases (answer u w).0) [
    | inl (e, h) ↦ (
      λ done. cc (sym (ap (λ q. q.0) (first_fails u us w e h)) ∙ ap (λ q. q.0) done),
      λ (rsp, rest, found, _, _). cc (sym h ∙ found),
    )
    | inr (rsp, h) ↦
        let rest = resolve_urls r namespace us (answer u w).1 in
        let step = first_resolved u us w rsp h in
        (
          λ done.
              let all = sym step ∙ done in
              (
                rsp,
                rest.1.0,
                h,
                (resolve_urls-Resolves us rest.1.0 (answer u w).1 end).0
                    (λ i. ((all i).0, (rest.1.0, (all i).1.1))),
                ap (λ q. q.1.0) all,
              ),
          λ (rsp', tail, found, later, e).
              let same : rsp ≡ rsp' = cc (sym h ∙ found) in
              let all = (resolve_urls-Resolves us tail (answer u w).1 end).1 later in
              step
              ∙ (λ i. ((all i).0, (resolved_url r namespace (same i) u ∷ (all i).1.0, (all i).1.1)))
              ∙ ap (λ l. (ok tt, (l, end))) e,
        )
  ]
