-- ===== src/Controller/Reconcile.antt =====
-- How a reconciler uses the calls of a controller: it observes, and then creates what is absent and
-- updates what is not up to date. The documented contract of `managed.ExternalClient`, as a relation
-- on the results of the calls.
pub mod Phases
pub mod Converge
pub mod Fixed
pub mod Reaches
use provider_dip.Base.{ℕ, ◌+◌, true, false, ◌≡◌}
use provider_dip.Go.{Error, Outcome, ok, fail}
use provider_dip.Managed.{ExternalObservation, ExternalCreation}
use provider_dip.Apis.Object.{Object}
use provider_dip.Controller.{absent}
use provider_dip.Controller.Lifecycle.{settled}
use provider_dip.Controller.Session.{ExternalClient}

abbrev pub drifted : ExternalObservation
drifted = record { resource_exists = true; resource_up_to_date = false }

-- A reconciliation whose calls returned no error, with the number of its calls of `Create` and
-- `Update`.
pub data Reconciled {W : Type 0} (c : ExternalClient W) (s : Object × W) (t : Object × W)
    : ℕ → Type 0 where
  idle : (c.observe s).0 ≡ ok settled → t ≡ (c.observe s).1 → Reconciled c s t 0
  creates :
      (details : ExternalCreation)
      → (c.observe s).0 ≡ ok absent
      → (c.create (c.observe s).1).0 ≡ ok details
      → t ≡ (c.create (c.observe s).1).1
      → Reconciled c s t 1
  updates :
      (c.observe s).0 ≡ ok drifted
      → (c.update (c.observe s).1).0 ≡ ok tt
      → t ≡ (c.update (c.observe s).1).1
      → Reconciled c s t 1

-- Any number of reconciliations. One whose observation fails ends there.
pub data Run {W : Type 0} (c : ExternalClient W) (s : Object × W) : (Object × W) → ℕ → Type 0 where
  start : Run c s s 0
  reconcile : {t u : Object × W} {m n : ℕ} → Run c s t m → Reconciled c t u n → Run c s u (m + n)
  gives_up :
      {t : Object × W} {m : ℕ} (e : Error)
      → Run c s t m
      → (c.observe t).0 ≡ fail e
      → Run c s (c.observe t).1 m
