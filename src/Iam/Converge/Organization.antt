-- ===== src/Iam/Converge/Organization.antt =====
-- `internal/controller/organization/organization.go`.
use provider_dip.Base.{Text, true, some, [], ◌≡◌, refl, ◌↔◌, arith, differs-given, differs_iff}
use provider_dip.Base.{text_Comparable, text_eq_refl, text_eq_iff}
use provider_dip.Go.{ok, pure}
use provider_dip.Managed.{ExternalCreation, no_details}
use provider_dip.Util.{is_valid_uuid}
use provider_dip.Apis.Iam.{OrganizationParameters}
use provider_dip.Apis.Object.{Object, Organization}
use provider_dip.Apis.Kinds.{as_organization, organization_kind}
use provider_dip.Iam.Remote
use provider_dip.Iam.Organization
use provider_dip.Controller.{RemoteApi, absent}
use provider_dip.Controller.Lifecycle.{StoresCreated, StoresUpdated, settled}
use provider_dip.Controller.Deletion.{Forgets}
use provider_dip.Controller.Objects.{
  object_create_spec-observe, object_update_named-observe, object_delete-observe,
}

-- What DIP keeps of a request, as far as `isUpToDate` looks at it.
abbrev pub Kept : Remote.Organization → Remote.Organization → Type 0
Kept sent org =
    (org.name ≡ sent.name)
    × (org.description ≡ sent.description)
    × (org.display_name ≡ sent.display_name)

-- The spec agrees with what DIP holds exactly when the names are equal, and the
-- description and the display name are, where the spec gives them.
pub organization-is_up_to_date_iff :
    (fp : OrganizationParameters) (org : Remote.Organization)
    → (Organization.is_up_to_date fp org ≡ true) ↔ (
        (fp.name ≡ org.name)
        × ((t : Text) → fp.description ≡ some t → t ≡ org.description)
        × ((t : Text) → fp.display_name ≡ some t → t ≡ org.display_name))
unfolding Organization.is_up_to_date
organization-is_up_to_date_iff fp org = (
  λ h. (
    (text_eq_iff fp.name org.name).0 (ground arith),
    (differs_iff fp.description org.description).0 (ground arith),
    (differs_iff fp.display_name org.display_name).0 (ground arith),
  ),
  λ (h0, h1, h2). ground (
    arith,
    (text_eq_iff fp.name org.name).1 h0,
    (differs_iff fp.description org.description).1 h1,
    (differs_iff fp.display_name org.display_name).1 h2,
  ),
)

pub new_org_current :
    (fp : OrganizationParameters) (org : Remote.Organization)
    → Kept (Organization.new_org fp) org
    → Organization.is_up_to_date fp org ≡ true
unfolding Organization.is_up_to_date Organization.new_org
new_org_current fp org kept =
    ground (
      arith,
      text_eq_refl fp.name,
      differs-given fp.description [],
      differs-given fp.display_name [],
    )

pub updated_org_current :
    (name : Text) (fp : OrganizationParameters) (org : Remote.Organization)
    → Kept (Organization.updated_org name fp) org
    → Organization.is_up_to_date fp org ≡ true
unfolding Organization.is_up_to_date Organization.updated_org
updated_org_current name fp org kept =
    ground (
      arith,
      text_eq_refl fp.name,
      differs-given fp.description [],
      differs-given fp.display_name [],
    )

module _ {W : Type 0}
    (api : RemoteApi W Remote.Organization Remote.Organization Remote.Organization) where
  -- For organizations: if DIP gives what it creates a UUID, and a GET of it then returns the name,
  -- description and display name that were sent, then after a successful `Create` of any object
  -- `Observe` reports that it exists and is up to date.
  pub organization_create-observe :
      (mg : Object) (w : W) {details : ExternalCreation}
      → StoresCreated api (λ r. r.id) Kept
      → (Organization.create api (mg, w)).0 ≡ ok details
      → (Organization.observe api (Organization.create api (mg, w)).1).0 ≡ ok settled
  unfolding Organization.create Organization.observe
  organization_create-observe mg w stores h =
      object_create_spec-observe organization_kind Organization.observer api Organization.new_org _
        (λ r. r.id) Kept (λ _. pure no_details) mg w new_org_current (λ r cr w. (refl, refl, refl))
        stores h

  -- For organizations: if after an update without error a GET of the id returns the name,
  -- description and display name that were sent, then after a successful `Update` of an object
  -- whose external name is a UUID `Observe` reports that it exists and is up to date.
  pub organization_update-observe :
      (mg : Object) (cr : Organization) (w : W)
      → as_organization mg ≡ some cr
      → is_valid_uuid cr.external_name ≡ true
      → StoresUpdated api (λ r. r.id) Kept
      → (Organization.update api (mg, w)).0 ≡ ok tt
      → (Organization.observe api (Organization.update api (mg, w)).1).0 ≡ ok settled
  unfolding Organization.update Organization.observe
  organization_update-observe mg cr w found named stores h =
      object_update_named-observe organization_kind Organization.observer api
        Organization.updated_org _ (λ r. r.id) Kept mg cr w updated_org_current (λ name fp. refl)
        found named stores h

  -- For organizations: if a GET of a deleted id fails with 400 or 404, then after a successful
  -- `Delete` of any object, whatever its external name, `Observe` reports it absent.
  pub organization_delete-observe :
      (mg : Object) (w : W)
      → Forgets api (λ r. r.id)
      → (Organization.delete api (mg, w)).0 ≡ ok tt
      → (Organization.observe api (Organization.delete api (mg, w)).1).0 ≡ ok absent
  unfolding Organization.delete Organization.observe
  organization_delete-observe mg w forgets h =
      object_delete-observe organization_kind Organization.observer api Organization.org_by_id
        (λ r. r.id) _ mg w forgets (λ name. refl) h
