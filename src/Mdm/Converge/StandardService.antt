-- ===== src/Mdm/Converge/StandardService.antt =====
-- `internal/controller/mdm/standardservice/standardservice.go`.
use provider_dip.Base.{
  ℤ, pos, Option, none, given, subst, List, ◌∷◌, ◌++◌, map, append-nil, append_assoc, sym, ◌∙◌,
  Text, true, some, [], ◌≡◌, refl, arith, differs-given, text_Comparable, text_eq_refl,
}
use provider_dip.Go.{ok, pure}
use provider_dip.Managed.{ExternalCreation, no_details}
use provider_dip.Util.{is_valid_uuid}
use provider_dip.Apis.Mdm
use provider_dip.Apis.Object.{Object, MdmStandardService}
use provider_dip.Apis.MdmKinds.{as_mdm_standard_service, mdm_standard_service_kind}
use provider_dip.Mdm.Remote
use provider_dip.Mdm.StandardService
use provider_dip.Controller.{RemoteApi, absent}
use provider_dip.Controller.Lifecycle.{StoresCreated, StoresUpdated, settled}
use provider_dip.Controller.Deletion.{Forgets}
use provider_dip.Controller.Objects.{
  object_create_spec-observe, object_update_named-observe, object_delete-observe,
}

-- What DIP keeps of a request, as far as `isUpToDate` looks at it.
abbrev pub Kept : Remote.StandardService → Remote.StandardService → Type 0
Kept sent svc = (svc.name ≡ sent.name) × (svc.description ≡ sent.description)

pub new_service_current :
    (fp : Mdm.StandardServiceParameters) (svc : Remote.StandardService)
    → Kept (StandardService.new_service fp) svc
    → StandardService.is_up_to_date fp svc ≡ true
unfolding StandardService.is_up_to_date StandardService.new_service
new_service_current fp svc kept =
    ground (arith, text_eq_refl fp.name, differs-given fp.description [])

pub updated_service_current :
    (name : Text) (fp : Mdm.StandardServiceParameters) (svc : Remote.StandardService)
    → Kept (StandardService.updated_service name fp) svc
    → StandardService.is_up_to_date fp svc ≡ true
unfolding StandardService.is_up_to_date StandardService.updated_service
updated_service_current name fp svc kept =
    ground (arith, text_eq_refl fp.name, differs-given fp.description [])

append_urls-map :
    (us : List Mdm.ServiceUrl) (done : List Remote.ServiceUrl)
    → StandardService.append_urls us done ≡ done ++ map StandardService.convert_url us
unfolding StandardService.append_urls
append_urls-map [] done = sym (append-nil done)
append_urls-map (u ∷ us) done =
    append_urls-map us (done ++ StandardService.convert_url u ∷ [])
    ∙ append_assoc done (StandardService.convert_url u ∷ []) (map StandardService.convert_url us)

-- What a service URL of the spec is sent as: its address, its sort order or, without one, 0, and its
-- authentication method or none.
pub record Sends (u : Mdm.ServiceUrl) (sent : Remote.ServiceUrl) : Type 0 where
  pub address : sent.url ≡ u.url
  pub sort_order : (n : ℤ) → u.sort_order ≡ some n → sent.sort_order ≡ n
  pub no_sort_order : u.sort_order ≡ none → sent.sort_order ≡ pos 0
  pub method : sent.authentication_method_id ≡ u.authentication_method_id

-- One is sent for each, in the same order.
abbrev pub AllSent : List Mdm.ServiceUrl → List Remote.ServiceUrl → Type 0
AllSent [] [] = Unit {0}
AllSent (u ∷ us) (sent ∷ rest) = Sends u sent × AllSent us rest
AllSent _ _ = ⊥

given-sort_order : (o : Option ℤ) (n : ℤ) → o ≡ some n → given o (pos 0) ≡ n
given-sort_order none n h = cc
given-sort_order (some m) n h = cc

given-no_sort_order : (o : Option ℤ) → o ≡ none → given o (pos 0) ≡ pos 0
given-no_sort_order none h = refl
given-no_sort_order (some m) h = cc

convert_url-Sends : (u : Mdm.ServiceUrl) → Sends u (StandardService.convert_url u)
unfolding StandardService.convert_url
convert_url-Sends u = record {
  address = refl;
  sort_order = given-sort_order u.sort_order;
  no_sort_order = given-no_sort_order u.sort_order;
  method = refl;
}

map-AllSent : (us : List Mdm.ServiceUrl) → AllSent us (map StandardService.convert_url us)
map-AllSent [] = tt
map-AllSent (u ∷ us) = (convert_url-Sends u, map-AllSent us)

-- `Create` and `Update` send one service URL for each of the spec, in the same order: with its
-- address, its sort order or, where the spec gives none, 0, and its authentication method or none.
pub service_urls-AllSent :
    (external_name : Text) (fp : Mdm.StandardServiceParameters)
    → AllSent fp.service_urls (StandardService.new_service fp).service_urls
      × AllSent fp.service_urls (StandardService.updated_service external_name fp).service_urls
unfolding StandardService.new_service StandardService.updated_service
service_urls-AllSent external_name fp =
    let sent =
      subst (AllSent fp.service_urls) (sym (append_urls-map fp.service_urls []))
        (map-AllSent fp.service_urls) in
    (sent, sent)

module _ {W : Type 0}
    (api : RemoteApi W Remote.StandardService Remote.StandardService Remote.StandardService) where
  -- For standard services: if MDM gives what it creates a UUID, and a GET of it then returns the
  -- name and description that were sent, then after a successful `Create` of any object `Observe`
  -- reports that it exists and is up to date.
  pub mdm_standard_service_create-observe :
      (mg : Object) (w : W) {details : ExternalCreation}
      → StoresCreated api (λ r. r.id) Kept
      → (StandardService.create api (mg, w)).0 ≡ ok details
      → (StandardService.observe api (StandardService.create api (mg, w)).1).0 ≡ ok settled
  unfolding StandardService.create StandardService.observe
  mdm_standard_service_create-observe mg w stores h =
      object_create_spec-observe mdm_standard_service_kind StandardService.observer api
        StandardService.new_service _ (λ r. r.id) Kept (λ _. pure no_details) mg w
        new_service_current (λ r cr w. (refl, refl, refl)) stores h

  -- For standard services: if after an update without error a GET of the id returns the name and
  -- description that were sent, then after a successful `Update` of an object whose external name
  -- is a UUID `Observe` reports that it exists and is up to date.
  pub mdm_standard_service_update-observe :
      (mg : Object) (cr : MdmStandardService) (w : W)
      → as_mdm_standard_service mg ≡ some cr
      → is_valid_uuid cr.external_name ≡ true
      → StoresUpdated api (λ r. r.id) Kept
      → (StandardService.update api (mg, w)).0 ≡ ok tt
      → (StandardService.observe api (StandardService.update api (mg, w)).1).0 ≡ ok settled
  unfolding StandardService.update StandardService.observe
  mdm_standard_service_update-observe mg cr w found named stores h =
      object_update_named-observe mdm_standard_service_kind StandardService.observer api
        StandardService.updated_service _ (λ r. r.id) Kept mg cr w updated_service_current
        (λ name fp. refl) found named stores h

  -- For standard services: if a GET of a deleted id fails with 400 or 404, then after a successful
  -- `Delete` of any object, whatever its external name, `Observe` reports it absent.
  pub mdm_standard_service_delete-observe :
      (mg : Object) (w : W)
      → Forgets api (λ r. r.id)
      → (StandardService.delete api (mg, w)).0 ≡ ok tt
      → (StandardService.observe api (StandardService.delete api (mg, w)).1).0 ≡ ok absent
  unfolding StandardService.delete StandardService.observe
  mdm_standard_service_delete-observe mg w forgets h =
      object_delete-observe mdm_standard_service_kind StandardService.observer api
        StandardService.service_by_id (λ r. r.id) _ mg w forgets (λ name. refl) h
