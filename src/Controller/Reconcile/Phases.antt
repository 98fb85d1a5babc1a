-- ===== src/Controller/Reconcile/Phases.antt =====
-- Reconciliations against an abstract machine with three phases, for every controller whose calls
-- keep the laws of `Converges`.
use provider_dip.Base.{ℕ, ◌≤◌, ◌≡◌, ◌⊎◌, inl, inr, refl, ap, sym, ◌∙◌, arith}
use provider_dip.Go.{Error, ok, fail, ok-injective}
use provider_dip.Managed.{ExternalObservation, ExternalCreation}
use provider_dip.Apis.Object.{Object}
use provider_dip.Controller.{absent}
use provider_dip.Controller.Lifecycle.{settled}
use provider_dip.Controller.Session.{ExternalClient}
use provider_dip.Controller.Reconcile.{
  drifted, Reconciled, idle, creates, updates, Run, start, reconcile, gives_up,
}

-- What an observation can report.
abbrev pub Reports : {W : Type 0} → ExternalClient W → Object × W → Type 0
Reports c s =
    ((c.observe s).0 ≡ ok absent)
    ⊎ ((c.observe s).0 ≡ ok drifted)
    ⊎ ((c.observe s).0 ≡ ok settled)
    ⊎ ((e : Error) × ((c.observe s).0 ≡ fail e))

-- The laws: an observation reports one of the three phases or an error; it does not change what the
-- next one reports; and after a `Create` or an `Update` that it asked for and that succeeded, the
-- resource is up to date.
pub record Converges {W : Type 0} (c : ExternalClient W) : Type 0 where
  pub reports : (s : Object × W) → Reports c s
  pub stable : (s : Object × W) → (c.observe (c.observe s).1).0 ≡ (c.observe s).0
  pub created :
      (s : Object × W) (details : ExternalCreation)
      → (c.create s).0 ≡ ok details
      → (c.observe (c.create s).1).0 ≡ ok settled
  pub updated :
      (s : Object × W)
      → (c.observe s).0 ≡ ok drifted
      → (c.update (c.observe s).1).0 ≡ ok tt
      → (c.observe (c.update (c.observe s).1).1).0 ≡ ok settled

-- The abstract machine: the phase of a resource, and the moves between the phases with the number of
-- changes that they make.
pub data Phase : Type 0 where
  missing stale current : Phase

pub data Moves : Phase → Phase → ℕ → Type 0 where
  stays : Moves current current 0
  makes : Moves missing current 1
  repairs : Moves stale current 1

abbrev pub report : Phase → ExternalObservation
report missing = absent
report stale = drifted
report current = settled

-- The phase that the next observation will report.
abbrev pub IsIn : {W : Type 0} → ExternalClient W → Object × W → Phase → Type 0
IsIn c s p = (c.observe s).0 ≡ ok (report p)

module _ {W : Type 0} (c : ExternalClient W) (laws : Converges c) where
  -- A reconciliation whose calls return no error ends with an observation that is up to date.
  pub Reconciled-settled :
      (s t : Object × W) {n : ℕ} → Reconciled c s t n → (c.observe t).0 ≡ ok settled
  Reconciled-settled s t (idle seen e) = ap (λ q. (c.observe q).0) e ∙ laws.stable s ∙ seen
  Reconciled-settled s t (creates details seen made e) =
      ap (λ q. (c.observe q).0) e ∙ laws.created (c.observe s).1 details made
  Reconciled-settled s t (updates seen made e) =
      ap (λ q. (c.observe q).0) e ∙ laws.updated s seen made

  -- Every reconciliation refines a move of the abstract machine.
  pub Reconciled-Moves :
      (s t : Object × W) {n : ℕ}
      → Reconciled c s t n
      → (p : Phase) × (q : Phase) × IsIn c s p × IsIn c t q × Moves p q n
  Reconciled-Moves s t (idle seen e) =
      (current, current, seen, Reconciled-settled s t (idle seen e), stays)
  Reconciled-Moves s t (creates details seen made e) =
      (missing, current, seen, Reconciled-settled s t (creates details seen made e), makes)
  Reconciled-Moves s t (updates seen made e) =
      (stale, current, seen, Reconciled-settled s t (updates seen made e), repairs)

  -- A settled resource is left alone.
  settled_idle :
      (s t : Object × W) {n : ℕ} → (c.observe s).0 ≡ ok settled → Reconciled c s t n → n ≡ 0
  settled_idle s t h (idle seen e) = refl
  settled_idle s t h (creates details seen made e) =
      cc (ap (λ (x : ExternalObservation). x.resource_exists) (ok-injective (sym h ∙ seen)))
  settled_idle s t h (updates seen made e) =
      cc (ap (λ (x : ExternalObservation). x.resource_up_to_date) (ok-injective (sym h ∙ seen)))

  Reconciled-once : (s t : Object × W) {n : ℕ} → Reconciled c s t n → (n ≡ 0) ⊎ (n ≡ 1)
  Reconciled-once s t (idle seen e) = inl refl
  Reconciled-once s t (creates details seen made e) = inr refl
  Reconciled-once s t (updates seen made e) = inr refl

  Run-once :
      (s t : Object × W) {n : ℕ}
      → Run c s t n
      → (n ≡ 0) ⊎ ((n ≡ 1) × ((c.observe t).0 ≡ ok settled))
  Run-once s t start = inl refl
  Run-once s t (reconcile {t = r} run step) = elim (Run-once s r run) [
    | inl none_before ↦ elim (Reconciled-once r t step) [
      | inl none_now ↦ inl (omega arith)
      | inr one_now ↦ inr (omega arith, Reconciled-settled r t step)
    ]
    | inr (one_before, there) ↦
        let none_now = settled_idle r t there step in inr (omega arith, Reconciled-settled r t step)
  ]
  Run-once s t (gives_up {t = r} e run failed) = elim (Run-once s r run) [
    | inl none_before ↦ inl none_before
    | inr (one_before, there) ↦ cc (sym there ∙ failed)
  ]

  -- However often a resource is reconciled, with failing observations in between, `Create` and
  -- `Update` are called at most once in all.
  pub Run-bound : (s t : Object × W) {n : ℕ} → Run c s t n → n ≤ 1
  Run-bound s t run = elim (Run-once s t run) [ inl h ↦ omega arith | inr (h, there) ↦ omega arith ]

  -- A reconciliation is possible, and settles the resource, unless the observation fails, if the
  -- calls that it asks for succeed.
  pub reconcile_reaches :
      ((s : Object × W)
        → (c.observe s).0 ≡ ok absent
        → (details : ExternalCreation) × ((c.create (c.observe s).1).0 ≡ ok details))
      → ((s : Object × W) → (c.observe s).0 ≡ ok drifted → (c.update (c.observe s).1).0 ≡ ok tt)
      → (s : Object × W)
      → ((e : Error) × ((c.observe s).0 ≡ fail e))
        ⊎ ((t : Object × W) × (n : ℕ) × Reconciled c s t n × ((c.observe t).0 ≡ ok settled))
  reconcile_reaches creating updating s = elim (laws.reports s) [
    | inl missing_there ↦
        let (details, made) = creating s missing_there in
        let step = creates details missing_there made refl in
        inr ((c.create (c.observe s).1).1, 1, step, Reconciled-settled s _ step)
    | inr (inl stale_there) ↦
        let step = updates stale_there (updating s stale_there) refl in
        inr ((c.update (c.observe s).1).1, 1, step, Reconciled-settled s _ step)
    | inr (inr (inl current_there)) ↦
        let step = idle current_there refl in
        inr ((c.observe s).1, 0, step, Reconciled-settled s _ step)
    | inr (inr (inr failed)) ↦ inl failed
  ]
