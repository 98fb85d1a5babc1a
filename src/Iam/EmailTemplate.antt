-- ===== src/Iam/EmailTemplate.antt =====
-- `internal/controller/emailtemplate/emailtemplate.go`.
use provider_dip.Base.{Text, Bool, true, false, some, [], given, differs, ◌!=◌}
use provider_dip.Base.{text_Comparable, int_Comparable, if◌then◌else◌}
use provider_dip.Go.{M, pure, ◌>>=◌}
use provider_dip.Managed.{ExternalObservation, ExternalCreation, no_details}
use provider_dip.Apis.Iam.{EmailTemplateParameters, EmailTemplateObservation}
use provider_dip.Apis.Object.{Object}
use provider_dip.Apis.Kinds.{email_template_kind}
use provider_dip.Iam.Remote
use provider_dip.Controller.{RemoteApi, Observer, asserted, from_spec, observe_external}
use provider_dip.Controller.{create_external, delete_external}
use provider_dip.Controller.Connect
use provider_dip.Controller.Session.{ExternalClient}
use provider_dip.Controller.Connect.{Environment}
use provider_dip.Dip.Client.{Client}

unfoldable pub is_up_to_date : EmailTemplateParameters → Remote.EmailTemplate → Bool
is_up_to_date fp template =
    if fp.type != template.type
    then false
    else if differs fp.subject template.subject
    then false
    else if differs fp.message template.message
    then false
    else true

unfoldable pub record_status :
    Remote.EmailTemplate → EmailTemplateObservation → EmailTemplateObservation
record_status template status = record status { id = some template.id }

abbrev pub observer : Observer EmailTemplateParameters EmailTemplateObservation Remote.EmailTemplate
observer = record {
  message = "cannot get email template";
  record_status = record_status;
  is_up_to_date = is_up_to_date;
}

-- What `Create` sends.
unfoldable pub new_template : EmailTemplateParameters → Remote.EmailTemplate
new_template fp = record {
  id = [];
  type = fp.type;
  managing_organization = given fp.managing_organization_id [];
  format = given fp.format [];
  locale = given fp.locale [];
  subject = given fp.subject [];
  from = given fp.from [];
  message = given fp.message [];
  link = given fp.link [];
}

abbrev pub template_by_id : Text → Remote.EmailTemplate
template_by_id external_name = record {
  id = external_name;
  type = [];
  managing_organization = [];
  format = [];
  locale = [];
  subject = [];
  from = [];
  message = [];
  link = [];
}

module _ {W : Type 0}
    (api : RemoteApi W Remote.EmailTemplate Remote.EmailTemplate Remote.EmailTemplate) where
  unfoldable pub observe : M (Object × W) ExternalObservation
  unfolding is_up_to_date record_status
  observe = asserted email_template_kind (observe_external observer api.get)

  unfoldable pub create : M (Object × W) ExternalCreation
  unfolding new_template
  create = asserted email_template_kind (do
    created ←
        create_external (from_spec new_template) api.create "cannot create email template"
          (λ r. r.id)
    pure no_details)

  -- `Update` calls nothing: the API has no update of this resource.
  unfoldable pub update : M (Object × W) (Unit {0})
  update = asserted email_template_kind (pure tt)

  unfoldable pub delete : M (Object × W) (Unit {0})
  delete =
      asserted email_template_kind
        (delete_external template_by_id api.delete "cannot delete email template")

  -- `external`, whose calls are these.
  abbrev pub external : ExternalClient W
  external = record { observe = observe; create = create; update = update; delete = delete }

unfoldable pub connect :
    {W Iam Mdm Provisioning : Type 0}
    → Environment W Iam Mdm Provisioning
    → M (Object × W) (Client Iam Mdm Provisioning)
unfolding Connect.connect
connect env = Connect.connect email_template_kind env
