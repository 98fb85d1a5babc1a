-- ===== src/Iam/Converge/User.antt =====
-- `internal/controller/user/user.go`.
use provider_dip.Base.{
  List, Text, true, some, [], ◌∷◌, ◌≡◌, refl, ◌↔◌, arith, differs-given, differs_iff,
}
use provider_dip.Base.{text_Comparable, text_eq_refl, text_eq_iff}
use provider_dip.Go.{ok, pure}
use provider_dip.Managed.{ExternalCreation, no_details}
use provider_dip.Apis.Iam.{UserParameters}
use provider_dip.Apis.Object.{Object}
use provider_dip.Apis.Kinds.{user_kind}
use provider_dip.Iam.Remote
use provider_dip.Iam.User
use provider_dip.Controller.{RemoteApi, absent}
use provider_dip.Controller.Lifecycle.{StoresCreated, settled}
use provider_dip.Controller.Deletion.{Forgets}
use provider_dip.Controller.Objects.{object_create_spec-observe, object_delete-observe}

-- What DIP keeps of a request, as far as `isUpToDate` looks at it.
abbrev pub email_value : List Remote.TelecomEntry → Text
email_value [] = []
email_value (entry ∷ more) = entry.value

abbrev pub Kept : Remote.Person → Remote.User → Type 0
Kept sent user =
    (user.login_id ≡ sent.login_id)
    × (user.email_address ≡ email_value sent.telecom)
    × (user.given_name ≡ sent.given_name)
    × (user.family_name ≡ sent.family_name)

-- The spec agrees with what DIP holds exactly when the login ids and the e-mail
-- addresses are equal, and the first and the last name are, where the spec gives them.
pub user-is_up_to_date_iff :
    (fp : UserParameters) (user : Remote.User)
    → (User.is_up_to_date fp user ≡ true) ↔ (
        (fp.login_id ≡ user.login_id)
        × (fp.email ≡ user.email_address)
        × ((t : Text) → fp.first_name ≡ some t → t ≡ user.given_name)
        × ((t : Text) → fp.last_name ≡ some t → t ≡ user.family_name))
unfolding User.is_up_to_date
user-is_up_to_date_iff fp user = (
  λ h. (
    (text_eq_iff fp.login_id user.login_id).0 (ground arith),
    (text_eq_iff fp.email user.email_address).0 (ground arith),
    (differs_iff fp.first_name user.given_name).0 (ground arith),
    (differs_iff fp.last_name user.family_name).0 (ground arith),
  ),
  λ (h0, h1, h2, h3). ground (
    arith,
    (text_eq_iff fp.login_id user.login_id).1 h0,
    (text_eq_iff fp.email user.email_address).1 h1,
    (differs_iff fp.first_name user.given_name).1 h2,
    (differs_iff fp.last_name user.family_name).1 h3,
  ),
)

new_user_current :
    (fp : UserParameters) (user : Remote.User)
    → Kept (User.new_user fp) user
    → User.is_up_to_date fp user ≡ true
unfolding User.is_up_to_date User.new_user
new_user_current fp user kept = ground (
  arith,
  text_eq_refl fp.login_id,
  text_eq_refl fp.email,
  differs-given fp.first_name [],
  differs-given fp.last_name [],
)

module _ {W : Type 0} (api : RemoteApi W Remote.Person Remote.Person Remote.User) where
  -- For users: if DIP gives what it creates a UUID, and a GET of it then returns the login id,
  -- e-mail address and names that were sent, then after a successful `Create` of any object
  -- `Observe` reports that it exists and is up to date.
  pub user_create-observe :
      (mg : Object) (w : W) {details : ExternalCreation}
      → StoresCreated api (λ r. r.id) Kept
      → (User.create api (mg, w)).0 ≡ ok details
      → (User.observe api (User.create api (mg, w)).1).0 ≡ ok settled
  unfolding User.create User.observe
  user_create-observe mg w stores h =
      object_create_spec-observe user_kind User.observer api User.new_user _ (λ r. r.id) Kept
        (λ _. pure no_details) mg w new_user_current (λ r cr w. (refl, refl, refl)) stores h

  -- For users: if a GET of a deleted id fails with 400 or 404, then after a successful `Delete` of
  -- any object, whatever its external name, `Observe` reports it absent.
  pub user_delete-observe :
      (mg : Object) (w : W)
      → Forgets api (λ r. r.id)
      → (User.delete api (mg, w)).0 ≡ ok tt
      → (User.observe api (User.delete api (mg, w)).1).0 ≡ ok absent
  unfolding User.delete User.observe
  user_delete-observe mg w forgets h =
      object_delete-observe user_kind User.observer api User.user_by_id (λ r. r.id) _ mg w forgets
        (λ name. refl) h
