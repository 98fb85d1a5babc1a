-- ===== src/Controller/Session.antt =====
-- `type external struct` of the controllers, as a `managed.ExternalClient`: the four calls that a
-- reconciler makes, in any order, with what else happens to DIP and the cluster in between.
pub mod Tame
pub mod Invariant
use provider_dip.Base.{Text, true, ◌≡◌, ◌⊎◌, is_empty, some}
use provider_dip.Go.{M}
use provider_dip.Managed.{Managed, ExternalObservation, ExternalCreation}
use provider_dip.Util.{is_valid_uuid}
use provider_dip.Apis.Object.{Object, Kind}
use provider_dip.Controller.Frame.{Keeps}

pub record ExternalClient (W : Type 0) : Type 0 where
  pub observe : M (Object × W) ExternalObservation
  pub create : M (Object × W) ExternalCreation
  pub update : M (Object × W) (Unit {0})
  pub delete : M (Object × W) (Unit {0})

-- One step: a call, with whatever outcome, or a change of the world by others.
pub data Call {W : Type 0} (c : ExternalClient W) (s : Object × W) (t : Object × W) : Type 0 where
  observed : t ≡ (c.observe s).1 → Call c s t
  created : t ≡ (c.create s).1 → Call c s t
  updated : t ≡ (c.update s).1 → Call c s t
  deleted : t ≡ (c.delete s).1 → Call c s t
  changed : t.0 ≡ s.0 → Call c s t

-- Any sequence of steps.
pub data Session {W : Type 0} (c : ExternalClient W) (s : Object × W) : Object × W → Type 0 where
  here : Session c s s
  next : {t u : Object × W} → Session c s t → Call c t u → Session c s u

-- The external name is empty or what DIP takes for an id.
abbrev pub IsNamed : {P S : Type 0} → Managed P S → Type 0
IsNamed cr = (is_empty cr.external_name ≡ true) ⊎ (is_valid_uuid cr.external_name ≡ true)

-- What becomes of a resource: an object of its kind with its spec, its namespace and its provider
-- configuration, whose external name is empty or a UUID.
abbrev pub Stays : {P S : Type 0} → Kind P S → Managed P S → Object → Type 0
Stays {P} {S} kind cr mg =
    (cr' : Managed P S) × (kind.assert mg ≡ some cr') × Keeps cr cr' × IsNamed cr'
