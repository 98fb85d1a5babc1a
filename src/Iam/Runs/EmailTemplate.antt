-- ===== src/Iam/Runs/EmailTemplate.antt =====
-- Any sequence of calls of the controller `internal/controller/emailtemplate/emailtemplate.go`.
use provider_dip.Base.{some, ℕ, ◌≡◌, refl}
use provider_dip.Go.{ok, pure}
use provider_dip.Managed.{no_details}
use provider_dip.Apis.Object.{Object, EmailTemplate}
use provider_dip.Apis.Kinds.{as_email_template, email_template_kind}
use provider_dip.Iam.Remote
use provider_dip.Iam.EmailTemplate
use provider_dip.Controller.{RemoteApi, from_spec, delete_external}
use provider_dip.Controller.Lifecycle.{GivesUuid}
use provider_dip.Controller.Session.{Session, Stays, IsNamed}
use provider_dip.Controller.Session.Invariant.{handlers_Session-Stays}
use provider_dip.Controller.Session.Tame.{nothing-Tame, delete_external-Tame}
use provider_dip.Controller.Reconcile.{drifted, Run}
use provider_dip.Controller.Reconcile.Converge.{OnlyReads, object_stable}
use provider_dip.Controller.Reconcile.Fixed.{asserted_nothing, Run-drifted}

module _ {W : Type 0}
    (api : RemoteApi W Remote.EmailTemplate Remote.EmailTemplate Remote.EmailTemplate) where
  -- For email templates: if a GET changes nothing in DIP, then a resource that is observed not to be up to
  -- date is so after any run of reconciliations whose calls return no error: `Update` reports
  -- success, and repairs nothing.
  pub email_template_Run-drifted :
      (s t : Object × W) {n : ℕ}
      → OnlyReads api
      → (EmailTemplate.observe api s).0 ≡ ok drifted
      → Run (EmailTemplate.external api) s t n
      → (EmailTemplate.observe api t).0 ≡ ok drifted
  unfolding EmailTemplate.observe EmailTemplate.update
  email_template_Run-drifted s t reads =
      Run-drifted (EmailTemplate.external api)
        (λ (mg, w). object_stable email_template_kind EmailTemplate.observer api mg w reads)
        (asserted_nothing email_template_kind) s t

  -- For email templates: if DIP gives what it creates a UUID, no sequence of calls, whatever their outcomes
  -- and whatever changes in DIP and in the cluster in between, changes the spec, the namespace or
  -- the provider configuration of a resource whose external name is empty or a UUID, and its
  -- external name stays one of these.
  pub email_template_Session-Stays :
      (s : Object × W) (cr : EmailTemplate) {t : Object × W}
      → GivesUuid api (λ r. r.id)
      → as_email_template s.0 ≡ some cr
      → IsNamed cr
      → Session (EmailTemplate.external api) s t
      → Stays email_template_kind cr t.0
  unfolding EmailTemplate.observe EmailTemplate.create EmailTemplate.update EmailTemplate.delete
  email_template_Session-Stays s cr stores found named =
      handlers_Session-Stays email_template_kind EmailTemplate.observer api
        (from_spec EmailTemplate.new_template) "cannot create email template" (λ r. r.id)
        (λ _. pure no_details) (pure tt)
        (delete_external EmailTemplate.template_by_id api.delete "cannot delete email template")
        stores (λ cr w. refl) (λ r cr w. ((refl, refl, refl), refl)) nothing-Tame
        (delete_external-Tame {P = _} EmailTemplate.template_by_id api.delete _) s cr found named
