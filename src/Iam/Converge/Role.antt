-- ===== src/Iam/Converge/Role.antt =====
-- `internal/controller/role/role.go`.
use provider_dip.Base.{Text, true, some, [], ◌≡◌, refl, ◌↔◌, arith, differs-given, differs_iff}
use provider_dip.Base.{text_Comparable, text_eq_refl, text_eq_iff}
use provider_dip.Go.{ok, pure}
use provider_dip.Managed.{ExternalCreation, no_details}
use provider_dip.Apis.Iam.{RoleParameters}
use provider_dip.Apis.Object.{Object}
use provider_dip.Apis.Kinds.{role_kind}
use provider_dip.Iam.Remote
use provider_dip.Iam.Role
use provider_dip.Controller.{RemoteApi, absent}
use provider_dip.Controller.Lifecycle.{StoresCreated, settled}
use provider_dip.Controller.Deletion.{Forgets}
use provider_dip.Controller.Objects.{object_create_spec-observe, object_delete-observe}

-- What DIP keeps of a request, as far as `isUpToDate` looks at it.
abbrev pub Kept : Remote.RoleRequest → Remote.Role → Type 0
Kept sent role = (role.name ≡ sent.name) × (role.description ≡ sent.description)

-- The spec agrees with what DIP holds exactly when the names are equal, and the
-- description is, where the spec gives it.
pub role-is_up_to_date_iff :
    (fp : RoleParameters) (role : Remote.Role)
    → (Role.is_up_to_date fp role ≡ true)
      ↔ ((fp.name ≡ role.name) × ((t : Text) → fp.description ≡ some t → t ≡ role.description))
unfolding Role.is_up_to_date
role-is_up_to_date_iff fp role = (
  λ h. (
    (text_eq_iff fp.name role.name).0 (ground arith),
    (differs_iff fp.description role.description).0 (ground arith),
  ),
  λ (h0, h1). ground (
    arith,
    (text_eq_iff fp.name role.name).1 h0,
    (differs_iff fp.description role.description).1 h1,
  ),
)

new_role_current :
    (fp : RoleParameters) (role : Remote.Role)
    → Kept (Role.new_role fp) role
    → Role.is_up_to_date fp role ≡ true
unfolding Role.is_up_to_date Role.new_role
new_role_current fp role kept =
    ground (arith, text_eq_refl fp.name, differs-given fp.description [])

module _ {W : Type 0} (api : RemoteApi W Remote.RoleRequest Remote.Role Remote.Role) where
  -- For roles: if DIP gives what it creates a UUID, and a GET of it then returns the name and
  -- description that were sent, then after a successful `Create` of any object `Observe` reports
  -- that it exists and is up to date.
  pub role_create-observe :
      (mg : Object) (w : W) {details : ExternalCreation}
      → StoresCreated api (λ r. r.id) Kept
      → (Role.create api (mg, w)).0 ≡ ok details
      → (Role.observe api (Role.create api (mg, w)).1).0 ≡ ok settled
  unfolding Role.create Role.observe
  role_create-observe mg w stores h =
      object_create_spec-observe role_kind Role.observer api Role.new_role _ (λ r. r.id) Kept
        (λ _. pure no_details) mg w new_role_current (λ r cr w. (refl, refl, refl)) stores h

  -- For roles: if a GET of a deleted id fails with 400 or 404, then after a successful `Delete` of
  -- any object, whatever its external name, `Observe` reports it absent.
  pub role_delete-observe :
      (mg : Object) (w : W)
      → Forgets api (λ r. r.id)
      → (Role.delete api (mg, w)).0 ≡ ok tt
      → (Role.observe api (Role.delete api (mg, w)).1).0 ≡ ok absent
  unfolding Role.delete Role.observe
  role_delete-observe mg w forgets h =
      object_delete-observe role_kind Role.observer api Role.role_by_id (λ r. r.id) _ mg w forgets
        (λ name. refl) h
