-- ===== src/Tests/EmailTemplate.antt =====
-- The handlers of `internal/controller/emailtemplate/emailtemplate.go`, run.
use provider_dip.Base.{Text, Option, none, some, [], ◌≡◌, refl, codes}
use provider_dip.Go.{ok}
use provider_dip.Managed.{Managed, no_details, ExternalCreation}
use provider_dip.Apis.Iam.{EmailTemplateParameters, EmailTemplateObservation}
use provider_dip.Apis.Object.{email_template}
use provider_dip.Iam.Remote
use provider_dip.Iam.EmailTemplate
use provider_dip.Iam.Converge.EmailTemplate.{Kept}
use provider_dip.Controller.{RemoteApi, asserted, create_external, checked, dereference}
use provider_dip.Controller.Lifecycle.{StoresCreated}
use provider_dip.Tests.Fake
use provider_dip.Tests.Fake.{fresh, service-StoresCreated, service-Forgets}

abbrev fp : EmailTemplateParameters
fp = record {
  type = codes "ACCOUNT_VERIFICATION";
  managing_organization_id = none;
  format = none;
  locale = none;
  subject = some (codes "Hello");
  from = none;
  message = none;
  link = none;
}

abbrev cr : Text → Managed EmailTemplateParameters EmailTemplateObservation
cr external_name = record {
  external_name = external_name;
  namespace = codes "team";
  provider_config_ref = none;
  for_provider = fp;
  at_provider = record { id = none };
  ready = none;
}

abbrev make : Remote.EmailTemplate → Remote.EmailTemplate
make = λ body. record body { id = fresh }

abbrev change : Remote.EmailTemplate → Remote.EmailTemplate
change = λ body. body

abbrev remote :
    RemoteApi
      (Option Remote.EmailTemplate)
      Remote.EmailTemplate
      Remote.EmailTemplate
      Remote.EmailTemplate
remote = Fake.service (λ r. r.id) (λ r. r.id) make change

stores : StoresCreated remote (λ r. r.id) Kept
stores =
    service-StoresCreated (λ r. r.id) (λ r. r.id) make change Kept (λ body. refl)
      (λ body. (refl, refl, refl))

abbrev details : ExternalCreation
details = no_details

created : (EmailTemplate.create remote (email_template (cr []), none)).0 ≡ ok details
unfolding EmailTemplate.create asserted create_external checked dereference
    EmailTemplate.new_template
created = refl
