-- ===== src/Iam/Converge/Application.antt =====
-- `internal/controller/application/application.go`.
use provider_dip.Base.{Text, true, some, [], ◌≡◌, refl, ◌↔◌, arith, differs-given, differs_iff}
use provider_dip.Base.{text_Comparable, text_eq_refl, text_eq_iff}
use provider_dip.Go.{ok, pure}
use provider_dip.Managed.{ExternalCreation, no_details}
use provider_dip.Apis.Iam.{ApplicationParameters}
use provider_dip.Apis.Object.{Object}
use provider_dip.Apis.Kinds.{application_kind}
use provider_dip.Iam.Remote
use provider_dip.Iam.Application
use provider_dip.Controller.{RemoteApi, absent}
use provider_dip.Controller.Lifecycle.{StoresCreated, settled}
use provider_dip.Controller.Deletion.{Forgets}
use provider_dip.Controller.Objects.{object_create_spec-observe, object_delete-observe}

-- What DIP keeps of a request, as far as `isUpToDate` looks at it.
abbrev pub Kept : Remote.Application → Remote.Application → Type 0
Kept sent app = (app.name ≡ sent.name) × (app.description ≡ sent.description)

-- The spec agrees with what DIP holds exactly when the names are equal, and the
-- description is, where the spec gives it.
pub application-is_up_to_date_iff :
    (fp : ApplicationParameters) (app : Remote.Application)
    → (Application.is_up_to_date fp app ≡ true)
      ↔ ((fp.name ≡ app.name) × ((t : Text) → fp.description ≡ some t → t ≡ app.description))
unfolding Application.is_up_to_date
application-is_up_to_date_iff fp app = (
  λ h. (
    (text_eq_iff fp.name app.name).0 (ground arith),
    (differs_iff fp.description app.description).0 (ground arith),
  ),
  λ (h0, h1). ground (
    arith,
    (text_eq_iff fp.name app.name).1 h0,
    (differs_iff fp.description app.description).1 h1,
  ),
)

new_app_current :
    (fp : ApplicationParameters) (app : Remote.Application)
    → Kept (Application.new_app fp) app
    → Application.is_up_to_date fp app ≡ true
unfolding Application.is_up_to_date Application.new_app
new_app_current fp app kept = ground (arith, text_eq_refl fp.name, differs-given fp.description [])

module _ {W : Type 0}
    (api : RemoteApi W Remote.Application Remote.Application Remote.Application) where
  -- For applications: if DIP gives what it creates a UUID, and a GET of it then returns the name
  -- and description that were sent, then after a successful `Create` of any object `Observe`
  -- reports that it exists and is up to date.
  pub application_create-observe :
      (mg : Object) (w : W) {details : ExternalCreation}
      → StoresCreated api (λ r. r.id) Kept
      → (Application.create api (mg, w)).0 ≡ ok details
      → (Application.observe api (Application.create api (mg, w)).1).0 ≡ ok settled
  unfolding Application.create Application.observe
  application_create-observe mg w stores h =
      object_create_spec-observe application_kind Application.observer api Application.new_app _
        (λ r. r.id) Kept (λ _. pure no_details) mg w new_app_current (λ r cr w. (refl, refl, refl))
        stores h

  -- For applications: if a GET of a deleted id fails with 400 or 404, then after a successful
  -- `Delete` of any object, whatever its external name, `Observe` reports it absent.
  pub application_delete-observe :
      (mg : Object) (w : W)
      → Forgets api (λ r. r.id)
      → (Application.delete api (mg, w)).0 ≡ ok tt
      → (Application.observe api (Application.delete api (mg, w)).1).0 ≡ ok absent
  unfolding Application.delete Application.observe
  application_delete-observe mg w forgets h =
      object_delete-observe application_kind Application.observer api Application.app_by_id
        (λ r. r.id) _ mg w forgets (λ name. refl) h
