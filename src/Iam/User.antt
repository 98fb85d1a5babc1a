-- ===== src/Iam/User.antt =====
-- `internal/controller/user/user.go`.
use provider_dip.Base.{Text, Bool, true, false, Option, none, some, [], ◌∷◌, given, differs, ◌!=◌}
use provider_dip.Base.{text_Comparable, int_Comparable, codes, if◌then◌else◌}
use provider_dip.Go.{M, pure, ◌>>=◌}
use provider_dip.Managed.{ExternalObservation, ExternalCreation, no_details}
use provider_dip.Apis.Iam.{UserParameters, UserObservation}
use provider_dip.Apis.Object.{Object}
use provider_dip.Apis.Kinds.{user_kind}
use provider_dip.Iam.Remote
use provider_dip.Controller.{RemoteApi, Observer, asserted, from_spec, observe_external}
use provider_dip.Controller.{create_external, delete_external}
use provider_dip.Controller.Connect
use provider_dip.Controller.Session.{ExternalClient}
use provider_dip.Controller.Connect.{Environment}
use provider_dip.Dip.Client.{Client}

unfoldable pub is_up_to_date : UserParameters → Remote.User → Bool
is_up_to_date fp user =
    if fp.login_id != user.login_id
    then false
    else if fp.email != user.email_address
    then false
    else if differs fp.first_name user.given_name
    then false
    else if differs fp.last_name user.family_name
    then false
    else true

unfoldable pub record_status : Remote.User → UserObservation → UserObservation
record_status user status = record status {
  id = some user.id;
  account_status = some (if user.disabled then codes "DISABLED" else codes "ACTIVE");
  email_verified = some user.email_verified;
}

abbrev pub observer : Observer UserParameters UserObservation Remote.User
observer = record {
  message = "cannot get user";
  record_status = record_status;
  is_up_to_date = is_up_to_date;
}

abbrev yes_or_no : Option Bool → Text
yes_or_no none = []
yes_or_no (some true) = codes "yes"
yes_or_no (some false) = codes "no"

-- The person that `Create` sends.
unfoldable pub new_user : UserParameters → Remote.Person
new_user fp = record {
  id = [];
  resource_type = codes "Person";
  login_id = fp.login_id;
  telecom = record { system = codes "email"; value = fp.email } ∷ [];
  given_name = given fp.first_name [];
  family_name = given fp.last_name [];
  managing_organization = given fp.organization_id [];
  preferred_language = given fp.preferred_language [];
  preferred_communication_channel = given fp.preferred_communication_channel [];
  is_age_validated = yes_or_no fp.is_age_validated;
}

abbrev pub user_by_id : Text → Remote.Person
user_by_id external_name = record {
  id = external_name;
  resource_type = [];
  login_id = [];
  telecom = [];
  given_name = [];
  family_name = [];
  managing_organization = [];
  preferred_language = [];
  preferred_communication_channel = [];
  is_age_validated = [];
}

module _ {W : Type 0} (api : RemoteApi W Remote.Person Remote.Person Remote.User) where
  unfoldable pub observe : M (Object × W) ExternalObservation
  unfolding is_up_to_date record_status
  observe = asserted user_kind (observe_external observer api.get)

  unfoldable pub create : M (Object × W) ExternalCreation
  unfolding new_user
  create = asserted user_kind (do
    created ← create_external (from_spec new_user) api.create "cannot create user" (λ r. r.id)
    pure no_details)

  -- `Update` calls nothing: the API has no update of this resource.
  unfoldable pub update : M (Object × W) (Unit {0})
  update = asserted user_kind (pure tt)

  unfoldable pub delete : M (Object × W) (Unit {0})
  delete = asserted user_kind (delete_external user_by_id api.delete "cannot delete user")

  -- `external`, whose calls are these.
  abbrev pub external : ExternalClient W
  external = record { observe = observe; create = create; update = update; delete = delete }

unfoldable pub connect :
    {W Iam Mdm Provisioning : Type 0}
    → Environment W Iam Mdm Provisioning
    → M (Object × W) (Client Iam Mdm Provisioning)
unfolding Connect.connect
connect env = Connect.connect user_kind env
