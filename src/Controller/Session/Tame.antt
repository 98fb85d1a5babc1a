-- ===== src/Controller/Session/Tame.antt =====
-- What the handlers may do to a resource: they keep what its owner set, and a well-formed name.
use provider_dip.Base.{Text, String, true, some, ◌≡◌, refl, ap, sym, ◌∙◌, subst, inl, inr, is_empty}
use provider_dip.Go.{Outcome, ok, fail, panic, pure, continue, ◌>>=◌}
use provider_dip.Managed.{Managed, deleting}
use provider_dip.Util.{is_valid_uuid}
use provider_dip.Apis.Object.{Object, Kind}
use provider_dip.Controller.{
  RemoteApi, Reply, Handler, Observer, asserted, observe_external, create_external, update_external,
  delete_external, set_conditions,
}
use provider_dip.Controller.Frame.{
  ReadsOnly, Keeps, AfterCreate, observe-Keeps, create_external-AfterCreate, update_external-same,
  delete_external-deleting,
}
use provider_dip.Controller.Lifecycle.{GivesUuid, create_external-sent}
use provider_dip.Controller.Objects.{asserted_found}
use provider_dip.Controller.Session.{IsNamed, Stays}

-- What a handler may do to the resource.
abbrev pub Tame : {P S W A : Type 0} → Handler P S W A → Type 0
Tame {P} {S} {W} body =
    (cr : Managed P S) (w : W)
    → IsNamed cr
    → Keeps cr (body (cr, w)).1.0 × IsNamed (body (cr, w)).1.0

-- What the end of a `Create` may do to it.
abbrev pub Trims : {P S W R A : Type 0} → (R → Handler P S W A) → Type 0
Trims {P} {S} {W} {R} finish =
    (r : R) (cr : Managed P S) (w : W)
    → Keeps cr (finish r (cr, w)).1.0 × ((finish r (cr, w)).1.0.external_name ≡ cr.external_name)

module _ {P S W A : Type 0} (kind : Kind P S) (body : Handler P S W A) where
  pub asserted-Stays :
      (mg : Object) (cr : Managed P S) (w : W)
      → Tame body
      → kind.assert mg ≡ some cr
      → IsNamed cr
      → Stays kind cr (asserted kind body (mg, w)).1.0
  asserted-Stays mg cr w tame found there =
      let same = ap (λ q. q.1.0) (asserted_found kind body mg cr w found) in
      let (keeps, named) = tame cr w there in
      ((body (cr, w)).1.0, ap kind.assert same ∙ kind.assert-object _, keeps, named)

module _ {P S R W : Type 0} where
  pub observe_external-Tame :
      (o : Observer P S R) (get : Text → W → Reply R × W) → Tame (observe_external o get)
  observe_external-Tame o get cr w named =
      let (keeps, name) = observe-Keeps o get cr w in
      (
        keeps,
        elim named [ inl h ↦ inl (ap is_empty name ∙ h) | inr h ↦ inr (ap is_valid_uuid name ∙ h) ],
      )

  pub update_external-Tame :
      {Old : Type 0} (request : Handler P S W Old) (update : Old → W → Reply R × W)
      (message : String)
      → ReadsOnly request
      → Tame (update_external request update message)
  update_external-Tame request update message reads cr w named =
      subst (λ cr'. Keeps cr cr' × IsNamed cr')
        (sym (update_external-same request update message cr w reads)) ((refl, refl, refl), named)

  pub delete_external-Tame :
      {Old : Type 0} (by_id : Text → Old) (delete : Old → W → Reply R × W) (message : String)
      → Tame {P = P} (delete_external {S = S} by_id delete message)
  delete_external-Tame by_id delete message cr w named =
      subst (λ cr'. Keeps cr cr' × IsNamed cr')
        (sym (delete_external-deleting by_id delete message cr w)) ((refl, refl, refl), named)

module _ {P S W New Old R A : Type 0} (api : RemoteApi W New Old R) (o : Observer P S R) where
  finished :
      (id : R → Text) (finish : R → Handler P S W A) (cr : Managed P S)
      (q : Outcome R × (Managed P S × W))
      → Trims finish
      → AfterCreate id cr q.0 q.1.0
      → ((r : R) → q.0 ≡ ok r → is_valid_uuid (id r) ≡ true)
      → IsNamed cr
      → Keeps cr (continue q finish).1.0 × IsNamed (continue q finish).1.0
  finished id finish cr (ok r, (cr', w')) trims after named there =
      let ((spec, namespace, config), name) = trims r cr' w' in
      (
        (
          spec ∙ ap (λ c. c.for_provider) after,
          namespace ∙ ap (λ c. c.namespace) after,
          config ∙ ap (λ c. c.provider_config_ref) after,
        ),
        inr (ap is_valid_uuid (name ∙ ap (λ c. c.external_name) after) ∙ named r refl),
      )
  finished id finish cr (fail e, (cr', w')) trims after named there =
      subst (λ c. Keeps cr c × IsNamed c) (sym after) ((refl, refl, refl), there)
  finished id finish cr (panic, (cr', w')) trims after named there =
      subst (λ c. Keeps cr c × IsNamed c) (sym after) ((refl, refl, refl), there)

  pub create_external-Tame :
      (request : Handler P S W New) (message : String) (id : R → Text)
      (finish : R → Handler P S W A)
      → GivesUuid api id
      → ReadsOnly request
      → Trims finish
      → Tame (create_external request api.create message id >>= finish)
  create_external-Tame request message id finish gives reads trims cr w there =
      finished id finish cr (create_external request api.create message id (cr, w)) trims
        (create_external-AfterCreate request api.create message id cr w reads)
        (λ r h.
          let (body, _, no_error, value, _) =
            create_external-sent o api request message id cr w {r = r} h in
          gives.given body _ r no_error value)
        there

module _ {P S W : Type 0} where
  pub nothing-Tame : Tame {P = P} {S = S} {W = W} (pure tt)
  nothing-Tame cr w named = ((refl, refl, refl), named)

  pub deleting-Tame : Tame {P = P} {S = S} {W = W} (set_conditions deleting)
  deleting-Tame cr w named = ((refl, refl, refl), named)
