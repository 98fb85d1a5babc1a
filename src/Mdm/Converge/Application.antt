-- ===== src/Mdm/Converge/Application.antt =====
-- `internal/controller/mdm/application/application.go`.
use provider_dip.Base.{
  Text, true, some, [], ◌≡◌, refl, arith, differs-given, text_Comparable, text_eq_refl,
}
use provider_dip.Go.{ok, pure}
use provider_dip.Managed.{ExternalCreation, no_details}
use provider_dip.Util.{is_valid_uuid}
use provider_dip.Apis.Mdm
use provider_dip.Apis.Object.{Object, MdmApplication}
use provider_dip.Apis.MdmKinds.{as_mdm_application, mdm_application_kind}
use provider_dip.Mdm.Remote
use provider_dip.Mdm.Application
use provider_dip.Controller.{RemoteApi}
use provider_dip.Controller.Lifecycle.{StoresCreated, StoresUpdated, settled}
use provider_dip.Controller.Objects.{
  object_create_spec-observe, object_update_named-observe, object_marked-observe,
}

-- What DIP keeps of a request, as far as `isUpToDate` looks at it.
abbrev pub Kept : Remote.Application → Remote.Application → Type 0
Kept sent app = (app.name ≡ sent.name) × (app.description ≡ sent.description)

pub new_app_current :
    (fp : Mdm.ApplicationParameters) (app : Remote.Application)
    → Kept (Application.new_app fp) app
    → Application.is_up_to_date fp app ≡ true
unfolding Application.is_up_to_date Application.new_app
new_app_current fp app kept = ground (arith, text_eq_refl fp.name, differs-given fp.description [])

pub updated_app_current :
    (name : Text) (fp : Mdm.ApplicationParameters) (app : Remote.Application)
    → Kept (Application.updated_app name fp) app
    → Application.is_up_to_date fp app ≡ true
unfolding Application.is_up_to_date Application.updated_app
updated_app_current name fp app kept =
    ground (arith, text_eq_refl fp.name, differs-given fp.description [])

module _ {W : Type 0}
    (api : RemoteApi W Remote.Application Remote.Application Remote.Application) where
  -- For MDM applications: if MDM gives what it creates a UUID, and a GET of it then returns the
  -- name and description that were sent, then after a successful `Create` of any object `Observe`
  -- reports that it exists and is up to date.
  pub mdm_application_create-observe :
      (mg : Object) (w : W) {details : ExternalCreation}
      → StoresCreated api (λ r. r.id) Kept
      → (Application.create api (mg, w)).0 ≡ ok details
      → (Application.observe api (Application.create api (mg, w)).1).0 ≡ ok settled
  unfolding Application.create Application.observe
  mdm_application_create-observe mg w stores h =
      object_create_spec-observe mdm_application_kind Application.observer api Application.new_app _
        (λ r. r.id) Kept (λ _. pure no_details) mg w new_app_current (λ r cr w. (refl, refl, refl))
        stores h

  -- For MDM applications: if after an update without error a GET of the id returns the name and
  -- description that were sent, then after a successful `Update` of an object whose external name
  -- is a UUID `Observe` reports that it exists and is up to date.
  pub mdm_application_update-observe :
      (mg : Object) (cr : MdmApplication) (w : W)
      → as_mdm_application mg ≡ some cr
      → is_valid_uuid cr.external_name ≡ true
      → StoresUpdated api (λ r. r.id) Kept
      → (Application.update api (mg, w)).0 ≡ ok tt
      → (Application.observe api (Application.update api (mg, w)).1).0 ≡ ok settled
  unfolding Application.update Application.observe
  mdm_application_update-observe mg cr w found named stores h =
      object_update_named-observe mdm_application_kind Application.observer api
        Application.updated_app _ (λ r. r.id) Kept mg cr w updated_app_current (λ name fp. refl)
        found named stores h

  -- For MDM applications: a `Delete` does not change what `Observe` answers, whatever MDM does. A
  -- resource that exists is still reported to exist.
  pub mdm_application_delete-observe :
      (mg : Object) (w : W)
      → (Application.observe api (Application.delete api (mg, w)).1).0
        ≡ (Application.observe api (mg, w)).0
  unfolding Application.delete Application.observe
  mdm_application_delete-observe mg w =
      object_marked-observe mdm_application_kind Application.observer api mg w
