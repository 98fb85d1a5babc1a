-- ===== src/Iam/Runs/Application.antt =====
-- Any sequence of calls of the controller `internal/controller/application/application.go`.
use provider_dip.Base.{some, ℕ, ◌≡◌, refl}
use provider_dip.Go.{ok, pure}
use provider_dip.Managed.{no_details}
use provider_dip.Apis.Object.{Object, Application}
use provider_dip.Apis.Kinds.{as_application, application_kind}
use provider_dip.Iam.Remote
use provider_dip.Iam.Application
use provider_dip.Controller.{RemoteApi, from_spec, delete_external}
use provider_dip.Controller.Lifecycle.{GivesUuid}
use provider_dip.Controller.Session.{Session, Stays, IsNamed}
use provider_dip.Controller.Session.Invariant.{handlers_Session-Stays}
use provider_dip.Controller.Session.Tame.{nothing-Tame, delete_external-Tame}
use provider_dip.Controller.Reconcile.{drifted, Run}
use provider_dip.Controller.Reconcile.Converge.{OnlyReads, object_stable}
use provider_dip.Controller.Reconcile.Fixed.{asserted_nothing, Run-drifted}

module _ {W : Type 0}
    (api : RemoteApi W Remote.Application Remote.Application Remote.Application) where
  -- For applications: if a GET changes nothing in DIP, then a resource that is observed not to be up to
  -- date is so after any run of reconciliations whose calls return no error: `Update` reports
  -- success, and repairs nothing.
  pub application_Run-drifted :
      (s t : Object × W) {n : ℕ}
      → OnlyReads api
      → (Application.observe api s).0 ≡ ok drifted
      → Run (Application.external api) s t n
      → (Application.observe api t).0 ≡ ok drifted
  unfolding Application.observe Application.update
  application_Run-drifted s t reads =
      Run-drifted (Application.external api)
        (λ (mg, w). object_stable application_kind Application.observer api mg w reads)
        (asserted_nothing application_kind) s t

  -- For applications: if DIP gives what it creates a UUID, no sequence of calls, whatever their outcomes
  -- and whatever changes in DIP and in the cluster in between, changes the spec, the namespace or
  -- the provider configuration of a resource whose external name is empty or a UUID, and its
  -- external name stays one of these.
  pub application_Session-Stays :
      (s : Object × W) (cr : Application) {t : Object × W}
      → GivesUuid api (λ r. r.id)
      → as_application s.0 ≡ some cr
      → IsNamed cr
      → Session (Application.external api) s t
      → Stays application_kind cr t.0
  unfolding Application.observe Application.create Application.update Application.delete
  application_Session-Stays s cr stores found named =
      handlers_Session-Stays application_kind Application.observer api
        (from_spec Application.new_app) "cannot create application" (λ r. r.id)
        (λ _. pure no_details) (pure tt)
        (delete_external Application.app_by_id api.delete "cannot delete application") stores
        (λ cr w. refl) (λ r cr w. ((refl, refl, refl), refl)) nothing-Tame
        (delete_external-Tame {P = _} Application.app_by_id api.delete _) s cr found named
