-- ===== src/Mdm/Converge/Proposition.antt =====
-- `internal/controller/mdm/proposition/proposition.go`.
use provider_dip.Base.{
  Text, true, some, [], ◌≡◌, refl, arith, differs-given, text_Comparable, text_eq_refl,
}
use provider_dip.Go.{ok, pure}
use provider_dip.Managed.{ExternalCreation, no_details}
use provider_dip.Util.{is_valid_uuid}
use provider_dip.Apis.Mdm
use provider_dip.Apis.Object.{Object, MdmProposition}
use provider_dip.Apis.MdmKinds.{as_mdm_proposition, mdm_proposition_kind}
use provider_dip.Mdm.Remote
use provider_dip.Mdm.Proposition
use provider_dip.Controller.{RemoteApi}
use provider_dip.Controller.Lifecycle.{StoresCreated, StoresUpdated, settled}
use provider_dip.Controller.Objects.{
  object_create_spec-observe, object_update_named-observe, object_marked-observe,
}

-- What DIP keeps of a request, as far as `isUpToDate` looks at it.
abbrev pub Kept : Remote.Proposition → Remote.Proposition → Type 0
Kept sent prop = (prop.name ≡ sent.name) × (prop.description ≡ sent.description)

pub new_prop_current :
    (fp : Mdm.PropositionParameters) (prop : Remote.Proposition)
    → Kept (Proposition.new_prop fp) prop
    → Proposition.is_up_to_date fp prop ≡ true
unfolding Proposition.is_up_to_date Proposition.new_prop
new_prop_current fp prop kept =
    ground (arith, text_eq_refl fp.name, differs-given fp.description [])

pub updated_prop_current :
    (name : Text) (fp : Mdm.PropositionParameters) (prop : Remote.Proposition)
    → Kept (Proposition.updated_prop name fp) prop
    → Proposition.is_up_to_date fp prop ≡ true
unfolding Proposition.is_up_to_date Proposition.updated_prop
updated_prop_current name fp prop kept =
    ground (arith, text_eq_refl fp.name, differs-given fp.description [])

module _ {W : Type 0}
    (api : RemoteApi W Remote.Proposition Remote.Proposition Remote.Proposition) where
  -- For MDM propositions: if MDM gives what it creates a UUID, and a GET of it then returns the
  -- name and description that were sent, then after a successful `Create` of any object `Observe`
  -- reports that it exists and is up to date.
  pub mdm_proposition_create-observe :
      (mg : Object) (w : W) {details : ExternalCreation}
      → StoresCreated api (λ r. r.id) Kept
      → (Proposition.create api (mg, w)).0 ≡ ok details
      → (Proposition.observe api (Proposition.create api (mg, w)).1).0 ≡ ok settled
  unfolding Proposition.create Proposition.observe
  mdm_proposition_create-observe mg w stores h =
      object_create_spec-observe mdm_proposition_kind Proposition.observer api Proposition.new_prop
        _ (λ r. r.id) Kept (λ _. pure no_details) mg w new_prop_current
        (λ r cr w. (refl, refl, refl)) stores h

  -- For MDM propositions: if after an update without error a GET of the id returns the name and
  -- description that were sent, then after a successful `Update` of an object whose external name
  -- is a UUID `Observe` reports that it exists and is up to date.
  pub mdm_proposition_update-observe :
      (mg : Object) (cr : MdmProposition) (w : W)
      → as_mdm_proposition mg ≡ some cr
      → is_valid_uuid cr.external_name ≡ true
      → StoresUpdated api (λ r. r.id) Kept
      → (Proposition.update api (mg, w)).0 ≡ ok tt
      → (Proposition.observe api (Proposition.update api (mg, w)).1).0 ≡ ok settled
  unfolding Proposition.update Proposition.observe
  mdm_proposition_update-observe mg cr w found named stores h =
      object_update_named-observe mdm_proposition_kind Proposition.observer api
        Proposition.updated_prop _ (λ r. r.id) Kept mg cr w updated_prop_current (λ name fp. refl)
        found named stores h

  -- For MDM propositions: a `Delete` does not change what `Observe` answers, whatever MDM does. A
  -- resource that exists is still reported to exist.
  pub mdm_proposition_delete-observe :
      (mg : Object) (w : W)
      → (Proposition.observe api (Proposition.delete api (mg, w)).1).0
        ≡ (Proposition.observe api (mg, w)).0
  unfolding Proposition.delete Proposition.observe
  mdm_proposition_delete-observe mg w =
      object_marked-observe mdm_proposition_kind Proposition.observer api mg w
