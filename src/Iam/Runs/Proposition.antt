-- ===== src/Iam/Runs/Proposition.antt =====
-- Any sequence of calls of the controller `internal/controller/proposition/proposition.go`.
use provider_dip.Base.{some, ℕ, ◌≡◌, refl}
use provider_dip.Go.{ok, pure}
use provider_dip.Managed.{no_details}
use provider_dip.Apis.Object.{Object, Proposition}
use provider_dip.Apis.Kinds.{as_proposition, proposition_kind}
use provider_dip.Iam.Remote
use provider_dip.Iam.Proposition
use provider_dip.Controller.{RemoteApi, from_spec, delete_external}
use provider_dip.Controller.Lifecycle.{GivesUuid}
use provider_dip.Controller.Session.{Session, Stays, IsNamed}
use provider_dip.Controller.Session.Invariant.{handlers_Session-Stays}
use provider_dip.Controller.Session.Tame.{nothing-Tame, delete_external-Tame}
use provider_dip.Controller.Reconcile.{drifted, Run}
use provider_dip.Controller.Reconcile.Converge.{OnlyReads, object_stable}
use provider_dip.Controller.Reconcile.Fixed.{asserted_nothing, Run-drifted}

module _ {W : Type 0}
    (api : RemoteApi W Remote.Proposition Remote.Proposition Remote.Proposition) where
  -- For propositions: if a GET changes nothing in DIP, then a resource that is observed not to be up to
  -- date is so after any run of reconciliations whose calls return no error: `Update` reports
  -- success, and repairs nothing.
  pub proposition_Run-drifted :
      (s t : Object × W) {n : ℕ}
      → OnlyReads api
      → (Proposition.observe api s).0 ≡ ok drifted
      → Run (Proposition.external api) s t n
      → (Proposition.observe api t).0 ≡ ok drifted
  unfolding Proposition.observe Proposition.update
  proposition_Run-drifted s t reads =
      Run-drifted (Proposition.external api)
        (λ (mg, w). object_stable proposition_kind Proposition.observer api mg w reads)
        (asserted_nothing proposition_kind) s t

  -- For propositions: if DIP gives what it creates a UUID, no sequence of calls, whatever their outcomes
  -- and whatever changes in DIP and in the cluster in between, changes the spec, the namespace or
  -- the provider configuration of a resource whose external name is empty or a UUID, and its
  -- external name stays one of these.
  pub proposition_Session-Stays :
      (s : Object × W) (cr : Proposition) {t : Object × W}
      → GivesUuid api (λ r. r.id)
      → as_proposition s.0 ≡ some cr
      → IsNamed cr
      → Session (Proposition.external api) s t
      → Stays proposition_kind cr t.0
  unfolding Proposition.observe Proposition.create Proposition.update Proposition.delete
  proposition_Session-Stays s cr stores found named =
      handlers_Session-Stays proposition_kind Proposition.observer api
        (from_spec Proposition.new_prop) "cannot create proposition" (λ r. r.id)
        (λ _. pure no_details) (pure tt)
        (delete_external Proposition.prop_by_id api.delete "cannot delete proposition") stores
        (λ cr w. refl) (λ r cr w. ((refl, refl, refl), refl)) nothing-Tame
        (delete_external-Tame {P = _} Proposition.prop_by_id api.delete _) s cr found named
