-- ===== src/Controller/Reconcile/Fixed.antt =====
-- Reconciliations of the resources that DIP cannot update: their `Update` calls nothing.
use provider_dip.Base.{ℕ, ◌≡◌, ap, sym, ◌∙◌, Option-cases, inl, inr}
use provider_dip.Go.{ok, pure, ok-injective}
use provider_dip.Managed.{ExternalObservation}
use provider_dip.Apis.Object.{Object, Kind}
use provider_dip.Controller.{asserted}
use provider_dip.Controller.Objects.{asserted_found, asserted_other}
use provider_dip.Controller.Session.{ExternalClient}
use provider_dip.Controller.Reconcile.{
  drifted, Reconciled, idle, creates, updates, Run, start, reconcile, gives_up,
}

module _ {P S W : Type 0} (kind : Kind P S) where
  -- An `Update` that calls nothing leaves the resource and the world.
  pub asserted_nothing : (s : Object × W) → (asserted {A = Unit {0}} kind (pure tt) s).1 ≡ s
  asserted_nothing (mg, w) = elim (Option-cases (kind.assert mg)) [
    | inl other ↦ ap (λ q. q.1) (asserted_other kind (pure tt) mg w other)
    | inr (cr, found) ↦
        ap (λ q. q.1) (asserted_found kind (pure tt) mg cr w found)
        ∙ ap (λ (x : Object). (x, w)) (kind.object-assert mg cr found)
  ]

module _ {W : Type 0} (c : ExternalClient W)
    (stable : (s : Object × W) → (c.observe (c.observe s).1).0 ≡ (c.observe s).0)
    (nothing : (s : Object × W) → (c.update s).1 ≡ s) where
  Reconciled-drifted :
      (s t : Object × W) {n : ℕ}
      → (c.observe s).0 ≡ ok drifted
      → Reconciled c s t n
      → (c.observe t).0 ≡ ok drifted
  Reconciled-drifted s t h (idle seen e) =
      cc (ap (λ (x : ExternalObservation). x.resource_up_to_date) (ok-injective (sym h ∙ seen)))
  Reconciled-drifted s t h (creates details seen made e) =
      cc (ap (λ (x : ExternalObservation). x.resource_exists) (ok-injective (sym h ∙ seen)))
  Reconciled-drifted s t h (updates seen made e) =
      ap (λ q. (c.observe q).0) (e ∙ nothing (c.observe s).1) ∙ stable s ∙ h

  -- What was not up to date never becomes so.
  pub Run-drifted :
      (s t : Object × W) {n : ℕ}
      → (c.observe s).0 ≡ ok drifted
      → Run c s t n
      → (c.observe t).0 ≡ ok drifted
  Run-drifted s t h start = h
  Run-drifted s t h (reconcile {t = r} run step) =
      Reconciled-drifted r t (Run-drifted s r h run) step
  Run-drifted s t h (gives_up {t = r} e run failed) = cc (sym (Run-drifted s r h run) ∙ failed)
