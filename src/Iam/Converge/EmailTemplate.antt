-- ===== src/Iam/Converge/EmailTemplate.antt =====
-- `internal/controller/emailtemplate/emailtemplate.go`.
use provider_dip.Base.{Text, true, some, [], ◌≡◌, refl, ◌↔◌, arith, differs-given, differs_iff}
use provider_dip.Base.{text_Comparable, text_eq_refl, text_eq_iff}
use provider_dip.Go.{ok, pure}
use provider_dip.Managed.{ExternalCreation, no_details}
use provider_dip.Apis.Iam.{EmailTemplateParameters}
use provider_dip.Apis.Object.{Object}
use provider_dip.Apis.Kinds.{email_template_kind}
use provider_dip.Iam.Remote
use provider_dip.Iam.EmailTemplate
use provider_dip.Controller.{RemoteApi, absent}
use provider_dip.Controller.Lifecycle.{StoresCreated, settled}
use provider_dip.Controller.Deletion.{Forgets}
use provider_dip.Controller.Objects.{object_create_spec-observe, object_delete-observe}

-- What DIP keeps of a request, as far as `isUpToDate` looks at it.
abbrev pub Kept : Remote.EmailTemplate → Remote.EmailTemplate → Type 0
Kept sent template =
    (template.type ≡ sent.type)
    × (template.subject ≡ sent.subject)
    × (template.message ≡ sent.message)

-- The spec agrees with what DIP holds exactly when the types are equal, and the
-- subject and the message are, where the spec gives them.
pub email_template-is_up_to_date_iff :
    (fp : EmailTemplateParameters) (template : Remote.EmailTemplate)
    → (EmailTemplate.is_up_to_date fp template ≡ true) ↔ (
        (fp.type ≡ template.type)
        × ((t : Text) → fp.subject ≡ some t → t ≡ template.subject)
        × ((t : Text) → fp.message ≡ some t → t ≡ template.message))
unfolding EmailTemplate.is_up_to_date
email_template-is_up_to_date_iff fp template = (
  λ h. (
    (text_eq_iff fp.type template.type).0 (ground arith),
    (differs_iff fp.subject template.subject).0 (ground arith),
    (differs_iff fp.message template.message).0 (ground arith),
  ),
  λ (h0, h1, h2). ground (
    arith,
    (text_eq_iff fp.type template.type).1 h0,
    (differs_iff fp.subject template.subject).1 h1,
    (differs_iff fp.message template.message).1 h2,
  ),
)

new_template_current :
    (fp : EmailTemplateParameters) (template : Remote.EmailTemplate)
    → Kept (EmailTemplate.new_template fp) template
    → EmailTemplate.is_up_to_date fp template ≡ true
unfolding EmailTemplate.is_up_to_date EmailTemplate.new_template
new_template_current fp template kept =
    ground (arith, text_eq_refl fp.type, differs-given fp.subject [], differs-given fp.message [])

module _ {W : Type 0}
    (api : RemoteApi W Remote.EmailTemplate Remote.EmailTemplate Remote.EmailTemplate) where
  -- For e-mail templates: if DIP gives what it creates a UUID, and a GET of it then returns the
  -- type, subject and message that were sent, then after a successful `Create` of any object
  -- `Observe` reports that it exists and is up to date.
  pub email_template_create-observe :
      (mg : Object) (w : W) {details : ExternalCreation}
      → StoresCreated api (λ r. r.id) Kept
      → (EmailTemplate.create api (mg, w)).0 ≡ ok details
      → (EmailTemplate.observe api (EmailTemplate.create api (mg, w)).1).0 ≡ ok settled
  unfolding EmailTemplate.create EmailTemplate.observe
  email_template_create-observe mg w stores h =
      object_create_spec-observe email_template_kind EmailTemplate.observer api
        EmailTemplate.new_template _ (λ r. r.id) Kept (λ _. pure no_details) mg w
        new_template_current (λ r cr w. (refl, refl, refl)) stores h

  -- For e-mail templates: if a GET of a deleted id fails with 400 or 404, then after a successful
  -- `Delete` of any object, whatever its external name, `Observe` reports it absent.
  pub email_template_delete-observe :
      (mg : Object) (w : W)
      → Forgets api (λ r. r.id)
      → (EmailTemplate.delete api (mg, w)).0 ≡ ok tt
      → (EmailTemplate.observe api (EmailTemplate.delete api (mg, w)).1).0 ≡ ok absent
  unfolding EmailTemplate.delete EmailTemplate.observe
  email_template_delete-observe mg w forgets h =
      object_delete-observe email_template_kind EmailTemplate.observer api
        EmailTemplate.template_by_id (λ r. r.id) _ mg w forgets (λ name. refl) h
