-- ===== src/Tests/User.antt =====
-- The handlers of `internal/controller/user/user.go`, run.
use provider_dip.Base.{Text, false, Option, none, some, [], ◌≡◌, refl, codes}
use provider_dip.Go.{ok}
use provider_dip.Managed.{Managed, no_details, ExternalCreation}
use provider_dip.Apis.Iam.{UserParameters, UserObservation}
use provider_dip.Apis.Object.{user}
use provider_dip.Iam.Remote
use provider_dip.Iam.Converge.User.{email_value}
use provider_dip.Iam.User
use provider_dip.Iam.Converge.User.{Kept, user_create-observe}
use provider_dip.Controller.{RemoteApi, asserted, create_external, checked, dereference}
use provider_dip.Controller.Lifecycle.{StoresCreated, settled}
use provider_dip.Tests.Fake
use provider_dip.Tests.Fake.{fresh, service-StoresCreated, service-Forgets}

abbrev fp : UserParameters
fp = record {
  login_id = codes "ada";
  email = codes "ada@example.org";
  first_name = some (codes "Ada");
  last_name = none;
  organization_id = none;
  preferred_language = none;
  preferred_communication_channel = none;
  is_age_validated = none;
  password_secret_ref = none;
}

abbrev cr : Text → Managed UserParameters UserObservation
cr external_name = record {
  external_name = external_name;
  namespace = codes "team";
  provider_config_ref = none;
  for_provider = fp;
  at_provider = record { id = none; account_status = none; email_verified = none };
  ready = none;
}

abbrev make : Remote.Person → Remote.User
make = λ body. record {
  id = fresh;
  login_id = body.login_id;
  email_address = email_value body.telecom;
  given_name = body.given_name;
  family_name = body.family_name;
  disabled = false;
  email_verified = false;
}

abbrev change : Remote.Person → Remote.User
change = λ body. record {
  id = body.id;
  login_id = body.login_id;
  email_address = email_value body.telecom;
  given_name = body.given_name;
  family_name = body.family_name;
  disabled = false;
  email_verified = false;
}

abbrev remote : RemoteApi (Option Remote.User) Remote.Person Remote.Person Remote.User
remote = Fake.service (λ r. r.id) (λ r. r.id) make change

stores : StoresCreated remote (λ r. r.id) Kept
stores =
    service-StoresCreated (λ r. r.id) (λ r. r.id) make change Kept (λ body. refl)
      (λ body. (refl, refl, refl, refl))

abbrev details : ExternalCreation
details = no_details

created : (User.create remote (user (cr []), none)).0 ≡ ok details
unfolding User.create asserted create_external checked dereference User.new_user
created = refl

user_create-observe_example :
    (User.observe remote (User.create remote (user (cr []), none)).1).0 ≡ ok settled
user_create-observe_example =
    user_create-observe remote (user (cr [])) none {details = details} stores created

abbrev seen : Remote.User
seen = make (User.new_user fp)
