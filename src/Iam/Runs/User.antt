-- ===== src/Iam/Runs/User.antt =====
-- Any sequence of calls of the controller `internal/controller/user/user.go`.
use provider_dip.Base.{some, ℕ, ◌≡◌, refl}
use provider_dip.Go.{ok, pure}
use provider_dip.Managed.{no_details}
use provider_dip.Apis.Object.{Object, User}
use provider_dip.Apis.Kinds.{as_user, user_kind}
use provider_dip.Iam.Remote
use provider_dip.Iam.User
use provider_dip.Controller.{RemoteApi, from_spec, delete_external}
use provider_dip.Controller.Lifecycle.{GivesUuid}
use provider_dip.Controller.Session.{Session, Stays, IsNamed}
use provider_dip.Controller.Session.Invariant.{handlers_Session-Stays}
use provider_dip.Controller.Session.Tame.{nothing-Tame, delete_external-Tame}
use provider_dip.Controller.Reconcile.{drifted, Run}
use provider_dip.Controller.Reconcile.Converge.{OnlyReads, object_stable}
use provider_dip.Controller.Reconcile.Fixed.{asserted_nothing, Run-drifted}

module _ {W : Type 0} (api : RemoteApi W Remote.Person Remote.Person Remote.User) where
  -- For users: if a GET changes nothing in DIP, then a resource that is observed not to be up to
  -- date is so after any run of reconciliations whose calls return no error: `Update` reports
  -- success, and repairs nothing.
  pub user_Run-drifted :
      (s t : Object × W) {n : ℕ}
      → OnlyReads api
      → (User.observe api s).0 ≡ ok drifted
      → Run (User.external api) s t n
      → (User.observe api t).0 ≡ ok drifted
  unfolding User.observe User.update
  user_Run-drifted s t reads =
      Run-drifted (User.external api)
        (λ (mg, w). object_stable user_kind User.observer api mg w reads)
        (asserted_nothing user_kind) s t

  -- For users: if DIP gives what it creates a UUID, no sequence of calls, whatever their outcomes
  -- and whatever changes in DIP and in the cluster in between, changes the spec, the namespace or
  -- the provider configuration of a resource whose external name is empty or a UUID, and its
  -- external name stays one of these.
  pub user_Session-Stays :
      (s : Object × W) (cr : User) {t : Object × W}
      → GivesUuid api (λ r. r.id)
      → as_user s.0 ≡ some cr
      → IsNamed cr
      → Session (User.external api) s t
      → Stays user_kind cr t.0
  unfolding User.observe User.create User.update User.delete
  user_Session-Stays s cr stores found named =
      handlers_Session-Stays user_kind User.observer api (from_spec User.new_user)
        "cannot create user" (λ r. r.id) (λ _. pure no_details) (pure tt)
        (delete_external User.user_by_id api.delete "cannot delete user") stores (λ cr w. refl)
        (λ r cr w. ((refl, refl, refl), refl)) nothing-Tame
        (delete_external-Tame {P = _} User.user_by_id api.delete _) s cr found named
