-- ===== src/Iam/Converge/Service.antt =====
-- `internal/controller/service/service.go`.
use provider_dip.Base.{
  Text, true, false, some, [], ◌∷◌, ◌≡◌, refl, ◌↔◌, arith, differs-given, differs_iff,
}
use provider_dip.Base.{text_Comparable, text_eq_refl, text_eq_iff, codes, sym, ap}
use provider_dip.Base.{none, String, List, ◌∙◌, lookup, text_eq, ◌≢◌}
use provider_dip.Go.{ok}
use provider_dip.Managed.{ExternalCreation}
use provider_dip.Util.{is_valid_uuid}
use provider_dip.Apis.Iam.{ServiceParameters}
use provider_dip.Apis.Object.{Object, Service}
use provider_dip.Apis.Kinds.{as_service, service_kind}
use provider_dip.Iam.Remote
use provider_dip.Iam.Service
use provider_dip.Controller.{RemoteApi, absent}
use provider_dip.Controller.Lifecycle.{StoresCreated, StoresUpdated, settled}
use provider_dip.Controller.Deletion.{Forgets}
use provider_dip.Controller.Objects.{
  object_create_spec-observe, object_update_named-observe, object_delete-observe,
}

-- What DIP keeps of a request, as far as `isUpToDate` looks at it.
abbrev pub Kept : Remote.Service → Remote.Service → Type 0
Kept sent service = (service.name ≡ sent.name) × (service.description ≡ sent.description)

-- The spec agrees with what DIP holds exactly when the names are equal, and the
-- description is, where the spec gives it.
pub service-is_up_to_date_iff :
    (fp : ServiceParameters) (service : Remote.Service)
    → (Service.is_up_to_date fp service ≡ true) ↔ (
        (fp.name ≡ service.name) × ((t : Text) → fp.description ≡ some t → t ≡ service.description))
unfolding Service.is_up_to_date
service-is_up_to_date_iff fp service = (
  λ h. (
    (text_eq_iff fp.name service.name).0 (ground arith),
    (differs_iff fp.description service.description).0 (ground arith),
  ),
  λ (h0, h1). ground (
    arith,
    (text_eq_iff fp.name service.name).1 h0,
    (differs_iff fp.description service.description).1 h1,
  ),
)

pub new_service_current :
    (fp : ServiceParameters) (service : Remote.Service)
    → Kept (Service.new_service fp) service
    → Service.is_up_to_date fp service ≡ true
unfolding Service.is_up_to_date Service.new_service
new_service_current fp service kept =
    ground (arith, text_eq_refl fp.name, differs-given fp.description [])

pub updated_service_current :
    (name : Text) (fp : ServiceParameters) (service : Remote.Service)
    → Kept (Service.updated_service name fp) service
    → Service.is_up_to_date fp service ≡ true
unfolding Service.is_up_to_date Service.updated_service
updated_service_current name fp service kept =
    ground (arith, text_eq_refl fp.name, differs-given fp.description [])

lookup-other :
    (k : Text) (k' : String) (v : Text) (m : List (Text × Text))
    → text_eq (codes k') k ≡ false
    → lookup k (Service.entry_unless_empty k' v m) ≡ lookup k m
lookup-other k k' [] m h = refl
lookup-other k k' (c ∷ v) m h = rw h

lookup-own :
    (k : String) (v : Text) (m : List (Text × Text)) (key : Text)
    → lookup (codes k) m ≡ none
    → (lookup (codes k) (Service.entry_unless_empty k v m) ≡ some key) ↔ ((v ≡ key) × (key ≢ []))
lookup-own k [] m key h = (λ e. cc (sym h ∙ e), λ (e, there). absurd (there (sym e)))
lookup-own k (c ∷ v) m key h =
    rw (text_eq_refl (codes k))
      (λ e. (some-injective e, λ nil. cc (some-injective e ∙ nil)), λ (e, _). ap some e)
  where
    some-injective : {a b : Text} → some a ≡ some b → a ≡ b
    some-injective e = cc

-- The connection details of a created service identity hold its service id always, and its private
-- key exactly when that is not empty.
pub connection_details-lookup :
    (s : Remote.Service)
    → (lookup (codes "serviceId") (Service.connection_details s) ≡ some s.service_id)
      × ((key : Text)
          → (lookup (codes "privateKey") (Service.connection_details s) ≡ some key)
            ↔ ((s.private_key ≡ key) × (key ≢ [])))
unfolding Service.connection_details text_eq
connection_details-lookup s =
    let ids = (codes "serviceId", s.service_id) ∷ [] in
    let keyed = Service.entry_unless_empty "privateKey" s.private_key ids in
    let organized = Service.entry_unless_empty "organizationId" s.organization_id keyed in
    (
      lookup-other (codes "serviceId") "expiresOn" s.expires_on organized refl
          ∙ lookup-other (codes "serviceId") "organizationId" s.organization_id keyed refl
          ∙ lookup-other (codes "serviceId") "privateKey" s.private_key ids refl,
      λ key.
          rw
            (
              lookup-other (codes "privateKey") "expiresOn" s.expires_on organized refl,
              lookup-other (codes "privateKey") "organizationId" s.organization_id keyed refl,
            )
            (lookup-own "privateKey" s.private_key ids key refl),
    )

module _ {W : Type 0} (api : RemoteApi W Remote.Service Remote.Service Remote.Service) where
  -- For services: if DIP gives what it creates a UUID, and a GET of it then returns the name and
  -- description that were sent, then after a successful `Create` of any object `Observe` reports
  -- that it exists and is up to date.
  pub service_create-observe :
      (mg : Object) (w : W) {details : ExternalCreation}
      → StoresCreated api (λ r. r.id) Kept
      → (Service.create api (mg, w)).0 ≡ ok details
      → (Service.observe api (Service.create api (mg, w)).1).0 ≡ ok settled
  unfolding Service.create Service.observe
  service_create-observe mg w stores h =
      object_create_spec-observe service_kind Service.observer api Service.new_service _ (λ r. r.id)
        Kept _ mg w new_service_current (λ r cr w. (refl, refl, refl)) stores h

  -- For services: if after an update without error a GET of the id returns the name and
  -- description that were sent, then after a successful `Update` of an object whose external name
  -- is a UUID `Observe` reports that it exists and is up to date.
  pub service_update-observe :
      (mg : Object) (cr : Service) (w : W)
      → as_service mg ≡ some cr
      → is_valid_uuid cr.external_name ≡ true
      → StoresUpdated api (λ r. r.id) Kept
      → (Service.update api (mg, w)).0 ≡ ok tt
      → (Service.observe api (Service.update api (mg, w)).1).0 ≡ ok settled
  unfolding Service.update Service.observe
  service_update-observe mg cr w found named stores h =
      object_update_named-observe service_kind Service.observer api Service.updated_service _
        (λ r. r.id) Kept mg cr w updated_service_current (λ name fp. refl) found named stores h

  -- For services: if a GET of a deleted id fails with 400 or 404, then after a successful `Delete`
  -- of any object, whatever its external name, `Observe` reports it absent.
  pub service_delete-observe :
      (mg : Object) (w : W)
      → Forgets api (λ r. r.id)
      → (Service.delete api (mg, w)).0 ≡ ok tt
      → (Service.observe api (Service.delete api (mg, w)).1).0 ≡ ok absent
  unfolding Service.delete Service.observe
  service_delete-observe mg w forgets h =
      object_delete-observe service_kind Service.observer api Service.service_by_id (λ r. r.id) _ mg
        w forgets (λ name. refl) h
