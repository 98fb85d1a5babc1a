-- ===== src/Iam/Converge/Proposition.antt =====
-- `internal/controller/proposition/proposition.go`.
use provider_dip.Base.{Text, true, some, [], ◌≡◌, refl, ◌↔◌, arith, differs-given, differs_iff}
use provider_dip.Base.{text_Comparable, text_eq_refl, text_eq_iff}
use provider_dip.Go.{ok, pure}
use provider_dip.Managed.{ExternalCreation, no_details}
use provider_dip.Apis.Iam.{PropositionParameters}
use provider_dip.Apis.Object.{Object}
use provider_dip.Apis.Kinds.{proposition_kind}
use provider_dip.Iam.Remote
use provider_dip.Iam.Proposition
use provider_dip.Controller.{RemoteApi, absent}
use provider_dip.Controller.Lifecycle.{StoresCreated, settled}
use provider_dip.Controller.Deletion.{Forgets}
use provider_dip.Controller.Objects.{object_create_spec-observe, object_delete-observe}

-- What DIP keeps of a request, as far as `isUpToDate` looks at it.
abbrev pub Kept : Remote.Proposition → Remote.Proposition → Type 0
Kept sent prop = (prop.name ≡ sent.name) × (prop.description ≡ sent.description)

-- The spec agrees with what DIP holds exactly when the names are equal, and the
-- description is, where the spec gives it.
pub proposition-is_up_to_date_iff :
    (fp : PropositionParameters) (prop : Remote.Proposition)
    → (Proposition.is_up_to_date fp prop ≡ true)
      ↔ ((fp.name ≡ prop.name) × ((t : Text) → fp.description ≡ some t → t ≡ prop.description))
unfolding Proposition.is_up_to_date
proposition-is_up_to_date_iff fp prop = (
  λ h. (
    (text_eq_iff fp.name prop.name).0 (ground arith),
    (differs_iff fp.description prop.description).0 (ground arith),
  ),
  λ (h0, h1). ground (
    arith,
    (text_eq_iff fp.name prop.name).1 h0,
    (differs_iff fp.description prop.description).1 h1,
  ),
)

new_prop_current :
    (fp : PropositionParameters) (prop : Remote.Proposition)
    → Kept (Proposition.new_prop fp) prop
    → Proposition.is_up_to_date fp prop ≡ true
unfolding Proposition.is_up_to_date Proposition.new_prop
new_prop_current fp prop kept =
    ground (arith, text_eq_refl fp.name, differs-given fp.description [])

module _ {W : Type 0}
    (api : RemoteApi W Remote.Proposition Remote.Proposition Remote.Proposition) where
  -- For propositions: if DIP gives what it creates a UUID, and a GET of it then returns the name
  -- and description that were sent, then after a successful `Create` of any object `Observe`
  -- reports that it exists and is up to date.
  pub proposition_create-observe :
      (mg : Object) (w : W) {details : ExternalCreation}
      → StoresCreated api (λ r. r.id) Kept
      → (Proposition.create api (mg, w)).0 ≡ ok details
      → (Proposition.observe api (Proposition.create api (mg, w)).1).0 ≡ ok settled
  unfolding Proposition.create Proposition.observe
  proposition_create-observe mg w stores h =
      object_create_spec-observe proposition_kind Proposition.observer api Proposition.new_prop _
        (λ r. r.id) Kept (λ _. pure no_details) mg w new_prop_current (λ r cr w. (refl, refl, refl))
        stores h

  -- For propositions: if a GET of a deleted id fails with 400 or 404, then after a successful
  -- `Delete` of any object, whatever its external name, `Observe` reports it absent.
  pub proposition_delete-observe :
      (mg : Object) (w : W)
      → Forgets api (λ r. r.id)
      → (Proposition.delete api (mg, w)).0 ≡ ok tt
      → (Proposition.observe api (Proposition.delete api (mg, w)).1).0 ≡ ok absent
  unfolding Proposition.delete Proposition.observe
  proposition_delete-observe mg w forgets h =
      object_delete-observe proposition_kind Proposition.observer api Proposition.prop_by_id
        (λ r. r.id) _ mg w forgets (λ name. refl) h
