-- ===== src/Iam/Runs/Role.antt =====
-- Any sequence of calls of the controller `internal/controller/role/role.go`.
use provider_dip.Base.{some, ℕ, ◌≡◌, refl}
use provider_dip.Go.{ok, pure}
use provider_dip.Managed.{no_details}
use provider_dip.Apis.Object.{Object, Role}
use provider_dip.Apis.Kinds.{as_role, role_kind}
use provider_dip.Iam.Remote
use provider_dip.Iam.Role
use provider_dip.Controller.{RemoteApi, from_spec, delete_external}
use provider_dip.Controller.Lifecycle.{GivesUuid}
use provider_dip.Controller.Session.{Session, Stays, IsNamed}
use provider_dip.Controller.Session.Invariant.{handlers_Session-Stays}
use provider_dip.Controller.Session.Tame.{nothing-Tame, delete_external-Tame}
use provider_dip.Controller.Reconcile.{drifted, Run}
use provider_dip.Controller.Reconcile.Converge.{OnlyReads, object_stable}
use provider_dip.Controller.Reconcile.Fixed.{asserted_nothing, Run-drifted}

module _ {W : Type 0} (api : RemoteApi W Remote.RoleRequest Remote.Role Remote.Role) where
  -- For roles: if a GET changes nothing in DIP, then a resource that is observed not to be up to
  -- date is so after any run of reconciliations whose calls return no error: `Update` reports
  -- success, and repairs nothing.
  pub role_Run-drifted :
      (s t : Object × W) {n : ℕ}
      → OnlyReads api
      → (Role.observe api s).0 ≡ ok drifted
      → Run (Role.external api) s t n
      → (Role.observe api t).0 ≡ ok drifted
  unfolding Role.observe Role.update
  role_Run-drifted s t reads =
      Run-drifted (Role.external api)
        (λ (mg, w). object_stable role_kind Role.observer api mg w reads)
        (asserted_nothing role_kind) s t

  -- For roles: if DIP gives what it creates a UUID, no sequence of calls, whatever their outcomes
  -- and whatever changes in DIP and in the cluster in between, changes the spec, the namespace or
  -- the provider configuration of a resource whose external name is empty or a UUID, and its
  -- external name stays one of these.
  pub role_Session-Stays :
      (s : Object × W) (cr : Role) {t : Object × W}
      → GivesUuid api (λ r. r.id)
      → as_role s.0 ≡ some cr
      → IsNamed cr
      → Session (Role.external api) s t
      → Stays role_kind cr t.0
  unfolding Role.observe Role.create Role.update Role.delete
  role_Session-Stays s cr stores found named =
      handlers_Session-Stays role_kind Role.observer api (from_spec Role.new_role)
        "cannot create role" (λ r. r.id) (λ _. pure no_details) (pure tt)
        (delete_external Role.role_by_id api.delete "cannot delete role") stores (λ cr w. refl)
        (λ r cr w. ((refl, refl, refl), refl)) nothing-Tame
        (delete_external-Tame {P = _} Role.role_by_id api.delete _) s cr found named
