-- ===== src/Controller.antt =====
-- What the controllers under `internal/controller/` share. Each has its own copy of `Observe`,
-- `Create`, `Update` and `Delete`, which differ in the API that they call, in the request that they
-- build and in their messages. Here are the common steps; the parts that differ are parameters.
pub mod Frame
pub mod Observe
pub mod Lifecycle
pub mod Deletion
pub mod Objects
pub mod Connect
pub mod Secrets
pub mod Session
pub mod Reconcile
use provider_dip.Base.{
  ℕ, inl, inr, Text, String, Bool, true, false, Option, none, some, is_empty, not, if◌then◌else◌,
}
use provider_dip.Go.{
  Error, new, wrap, Outcome, ok, fail, panic, M, pure, throw, nil_dereference, continue,
}
use provider_dip.Go.{◌>>=◌, ◌>>◌}
use provider_dip.Managed.{Managed, Ready, available, creating, deleting, ExternalObservation}
use provider_dip.Util.{is_valid_uuid, is_not_found_or_invalid_id}
use provider_dip.Apis.Object.{Object, Kind}

-- What a call of go-dip-api returns: a pointer, the response (its status code) and an error.
pub record Reply (R : Type 0) : Type 0 where
  pub value : Option R
  pub response : Option ℕ
  pub error : Option Error

-- The service of one kind of resource: `New` is what it creates from, `Old` what it updates and
-- deletes by.
pub record RemoteApi (W New Old R : Type 0) : Type 0 where
  pub get : Text → W → Reply R × W
  pub create : New → W → Reply R × W
  pub update : Old → W → Reply R × W
  pub delete : Old → W → Reply Bool × W

-- A handler runs on the resource and the world.
abbrev pub Handler : Type 0 → Type 0 → Type 0 → Type 0 → Type 0
Handler P S W A = M (Managed P S × W) A

module _ {P S W : Type 0} where
  abbrev pub resource : Handler P S W (Managed P S)
  resource (cr, w) = (ok cr, (cr, w))

  abbrev pub modify : (Managed P S → Managed P S) → Handler P S W (Unit {0})
  modify f (cr, w) = (ok tt, (f cr, w))

  abbrev pub set_conditions : Ready → Handler P S W (Unit {0})
  set_conditions c = modify (λ cr. record cr { ready = some c })

  abbrev pub set_external_name : Text → Handler P S W (Unit {0})
  set_external_name name = modify (λ cr. record cr { external_name = name })

  abbrev pub remote : {A : Type 0} → (W → A × W) → Handler P S W A
  remote f (cr, w) = let (a, w') = f w in (ok a, (cr, w'))

  -- A call that acts on the world alone, with its outcome as a value.
  abbrev pub on_world : {A : Type 0} → M W A → Handler P S W (Outcome A)
  on_world m (cr, w) = let (o, w') = m w in (ok o, (cr, w'))

  -- A request built from the spec alone, and one that carries the external name too.
  abbrev pub from_spec : {New : Type 0} → (P → New) → Handler P S W New
  from_spec build (cr, w) = (ok (build cr.for_provider), (cr, w))

  abbrev pub from_named : {Old : Type 0} → (Text → P → Old) → Handler P S W Old
  from_named build (cr, w) = (ok (build cr.external_name cr.for_provider), (cr, w))

-- `cr, ok := mg.(*T); if !ok { return errors.New(errNotT) }`, and then the handler of the kind. The
-- object and `cr` are one: what the handler assigns to `cr` is assigned to the object.
abbrev pub reobject :
    {P S W A : Type 0} → Kind P S → Outcome A × (Managed P S × W) → Outcome A × (Object × W)
reobject kind (o, (cr, w)) = (o, (kind.object cr, w))

abbrev pub asserting :
    {P S W A : Type 0}
    → Kind P S
    → Handler P S W A
    → Object
    → W
    → Option (Managed P S)
    → Outcome A × (Object × W)
asserting kind body mg w none = (fail (new kind.mismatch), (mg, w))
asserting kind body mg w (some cr) = reobject kind (body (cr, w))

unfoldable pub asserted : {P S W A : Type 0} → Kind P S → Handler P S W A → M (Object × W) A
asserted kind body (mg, w) = asserting kind body mg w (kind.assert mg)

-- What distinguishes the `Observe` of a kind: its message, the fields of the status that it sets,
-- and its `isUpToDate`.
pub record Observer (P S R : Type 0) : Type 0 where
  pub message : String
  pub record_status : R → S → S
  pub is_up_to_date : P → R → Bool

abbrev pub absent : ExternalObservation
absent = record { resource_exists = false; resource_up_to_date = false }

-- `resp != nil && util.IsNotFoundOrInvalidID(resp.StatusCode())`.
unfoldable pub is_gone : Option ℕ → Bool
is_gone none = false
is_gone (some status_code) = is_not_found_or_invalid_id status_code

module _ {P S R W : Type 0} (o : Observer P S R) where
  unfoldable pub observe_value : Option R → Handler P S W ExternalObservation
  observe_value none = pure absent
  observe_value (some r) = do
    modify (λ cr. record cr { at_provider = o.record_status r cr.at_provider })
    set_conditions available
    cr ← resource
    pure
        (record { resource_exists = true; resource_up_to_date = o.is_up_to_date cr.for_provider r })

  unfoldable pub observe_error : Option Error → Reply R → Handler P S W ExternalObservation
  unfolding observe_value is_gone
  observe_error (some e) reply =
      if is_gone reply.response then pure absent else throw (wrap e o.message)
  observe_error none reply = observe_value reply.value

  unfoldable pub observe_name : (Text → W → Reply R × W) → Text → Handler P S W ExternalObservation
  unfolding observe_error
  observe_name get external_name =
      if is_empty external_name
      then pure absent
      else if not (is_valid_uuid external_name)
      then pure absent
      else (do reply ← remote (get external_name); observe_error reply.error reply)

  unfoldable pub observe_external : (Text → W → Reply R × W) → Handler P S W ExternalObservation
  unfolding observe_name
  observe_external get = do cr ← resource; observe_name get cr.external_name

module _ {P S R W : Type 0} where
  -- `_, _, err := call(); if err != nil { return wrapped }`.
  unfoldable pub checked : String → Reply R → Handler P S W (Unit {0})
  checked message reply = elim reply.error [ none ↦ pure tt | some e ↦ throw (wrap e message) ]

  -- `created.ID`, on a pointer that the caller does not check.
  unfoldable pub dereference : Reply R → Handler P S W R
  dereference reply = elim reply.value [ none ↦ nil_dereference | some r ↦ pure r ]

  unfoldable pub create_external :
      {New : Type 0}
      → Handler P S W New
      → (New → W → Reply R × W)
      → String
      → (R → Text)
      → Handler P S W R
  unfolding checked dereference
  create_external request create message id = do
    set_conditions creating
    body ← request
    reply ← remote (create body)
    checked message reply
    created ← dereference reply
    set_external_name (id created)
    pure created

  unfoldable pub update_external :
      {Old : Type 0}
      → Handler P S W Old
      → (Old → W → Reply R × W)
      → String
      → Handler P S W (Unit {0})
  unfolding checked
  update_external request update message = do
    body ← request
    reply ← remote (update body)
    checked message reply

  unfoldable pub delete_name :
      {Old : Type 0}
      → (Text → Old)
      → (Old → W → Reply R × W)
      → String
      → Text
      → Handler P S W (Unit {0})
  unfolding checked
  delete_name by_id delete message external_name =
      if is_empty external_name
      then pure tt
      else (do reply ← remote (delete (by_id external_name)); checked message reply)

  unfoldable pub delete_external :
      {Old : Type 0} → (Text → Old) → (Old → W → Reply R × W) → String → Handler P S W (Unit {0})
  unfolding delete_name
  delete_external by_id delete message = do
    set_conditions deleting
    cr ← resource
    delete_name by_id delete message cr.external_name
