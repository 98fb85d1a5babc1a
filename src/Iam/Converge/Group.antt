-- ===== src/Iam/Converge/Group.antt =====
-- `internal/controller/group/group.go`.
use provider_dip.Base.{Text, true, some, [], ◌≡◌, refl, ◌↔◌, arith, differs-given, differs_iff}
use provider_dip.Base.{text_Comparable, text_eq_refl, text_eq_iff}
use provider_dip.Go.{ok, pure}
use provider_dip.Managed.{ExternalCreation, no_details}
use provider_dip.Util.{is_valid_uuid}
use provider_dip.Apis.Iam.{GroupParameters}
use provider_dip.Apis.Object.{Object, Group}
use provider_dip.Apis.Kinds.{as_group, group_kind}
use provider_dip.Iam.Remote
use provider_dip.Iam.Group
use provider_dip.Controller.{RemoteApi, absent}
use provider_dip.Controller.Lifecycle.{StoresCreated, StoresUpdated, settled}
use provider_dip.Controller.Deletion.{Forgets}
use provider_dip.Controller.Objects.{
  object_create_spec-observe, object_update_named-observe, object_delete-observe,
}

-- What DIP keeps of a request, as far as `isUpToDate` looks at it.
abbrev pub Kept : Remote.Group → Remote.Group → Type 0
Kept sent group = (group.name ≡ sent.name) × (group.description ≡ sent.description)

-- The spec agrees with what DIP holds exactly when the names are equal, and the
-- description is, where the spec gives it.
pub group-is_up_to_date_iff :
    (fp : GroupParameters) (group : Remote.Group)
    → (Group.is_up_to_date fp group ≡ true)
      ↔ ((fp.name ≡ group.name) × ((t : Text) → fp.description ≡ some t → t ≡ group.description))
unfolding Group.is_up_to_date
group-is_up_to_date_iff fp group = (
  λ h. (
    (text_eq_iff fp.name group.name).0 (ground arith),
    (differs_iff fp.description group.description).0 (ground arith),
  ),
  λ (h0, h1). ground (
    arith,
    (text_eq_iff fp.name group.name).1 h0,
    (differs_iff fp.description group.description).1 h1,
  ),
)

pub new_group_current :
    (fp : GroupParameters) (group : Remote.Group)
    → Kept (Group.new_group fp) group
    → Group.is_up_to_date fp group ≡ true
unfolding Group.is_up_to_date Group.new_group
new_group_current fp group kept =
    ground (arith, text_eq_refl fp.name, differs-given fp.description [])

pub updated_group_current :
    (name : Text) (fp : GroupParameters) (group : Remote.Group)
    → Kept (Group.updated_group name fp) group
    → Group.is_up_to_date fp group ≡ true
unfolding Group.is_up_to_date Group.updated_group
updated_group_current name fp group kept =
    ground (arith, text_eq_refl fp.name, differs-given fp.description [])

module _ {W : Type 0} (api : RemoteApi W Remote.Group Remote.Group Remote.Group) where
  -- For groups: if DIP gives what it creates a UUID, and a GET of it then returns the name and
  -- description that were sent, then after a successful `Create` of any object `Observe` reports
  -- that it exists and is up to date.
  pub group_create-observe :
      (mg : Object) (w : W) {details : ExternalCreation}
      → StoresCreated api (λ r. r.id) Kept
      → (Group.create api (mg, w)).0 ≡ ok details
      → (Group.observe api (Group.create api (mg, w)).1).0 ≡ ok settled
  unfolding Group.create Group.observe
  group_create-observe mg w stores h =
      object_create_spec-observe group_kind Group.observer api Group.new_group _ (λ r. r.id) Kept
        (λ _. pure no_details) mg w new_group_current (λ r cr w. (refl, refl, refl)) stores h

  -- For groups: if after an update without error a GET of the id returns the name and description
  -- that were sent, then after a successful `Update` of an object whose external name is a UUID
  -- `Observe` reports that it exists and is up to date.
  pub group_update-observe :
      (mg : Object) (cr : Group) (w : W)
      → as_group mg ≡ some cr
      → is_valid_uuid cr.external_name ≡ true
      → StoresUpdated api (λ r. r.id) Kept
      → (Group.update api (mg, w)).0 ≡ ok tt
      → (Group.observe api (Group.update api (mg, w)).1).0 ≡ ok settled
  unfolding Group.update Group.observe
  group_update-observe mg cr w found named stores h =
      object_update_named-observe group_kind Group.observer api Group.updated_group _ (λ r. r.id)
        Kept mg cr w updated_group_current (λ name fp. refl) found named stores h

  -- For groups: if a GET of a deleted id fails with 400 or 404, then after a successful `Delete`
  -- of any object, whatever its external name, `Observe` reports it absent.
  pub group_delete-observe :
      (mg : Object) (w : W)
      → Forgets api (λ r. r.id)
      → (Group.delete api (mg, w)).0 ≡ ok tt
      → (Group.observe api (Group.delete api (mg, w)).1).0 ≡ ok absent
  unfolding Group.delete Group.observe
  group_delete-observe mg w forgets h =
      object_delete-observe group_kind Group.observer api Group.group_by_id (λ r. r.id) _ mg w
        forgets (λ name. refl) h
