-- ===== src/Go.antt =====
-- What the handlers use of Go: errors (`errors.New`, `errors.Errorf`, `errors.Wrap`, `fmt.Errorf`
-- with `%w`), calls that may fail or panic, and mutable state.
use provider_dip.Base.{List, String, Text, Option, none, some, ◌⊎◌, inl, inr, ◌≡◌, refl}

-- An error value. `foreign` is one that a dependency returned.
pub data Error : Type 0 where
  new : String → Error
  errorf : String → List Text → Error
  wrap : Error → String → Error
  wrapf : Error → String → List Text → Error
  foreign : Text → Error

-- The end of a call: a value with a nil error, an error, or a nil dereference.
pub data Outcome {ℓ} (A : Type ℓ) : Type ℓ where
  ok : A → Outcome A
  fail : Error → Outcome A
  panic : Outcome A

-- A call over mutable state. What was assigned before an error stays assigned.
abbrev pub M {ℓ κ} : Type ℓ → Type κ → Type (ℓ ⊔ κ)
M S A = S → Outcome A × S

abbrev pub pure {ℓ κ} : {S : Type ℓ} {A : Type κ} → A → M S A
pure a s = (ok a, s)

abbrev pub throw {ℓ κ} : {S : Type ℓ} {A : Type κ} → Error → M S A
throw e s = (fail e, s)

abbrev pub nil_dereference {ℓ κ} : {S : Type ℓ} {A : Type κ} → M S A
nil_dereference s = (panic, s)

abbrev pub continue {ℓ κ ι} :
    {S : Type ℓ} {A : Type κ} {B : Type ι} → Outcome A × S → (A → M S B) → Outcome B × S
continue (ok a, s) f = f a s
continue (fail e, s) f = (fail e, s)
continue (panic, s) f = (panic, s)

infixl 5 ◌>>=◌ ◌>>◌
abbrev pub ◌>>=◌ {ℓ κ ι} : {S : Type ℓ} {A : Type κ} {B : Type ι} → M S A → (A → M S B) → M S B
◌>>=◌ m f s = continue (m s) f

abbrev pub ◌>>◌ {ℓ κ} : {S : Type ℓ} {B : Type κ} → M S (Unit {0}) → M S B → M S B
m >> k = m >>= λ _. k

-- A call of a dependency: its result, and the world that it leaves.
abbrev pub call {ℓ} : {W A : Type ℓ} → (W → A × W) → M W A
call f w = let (a, w') = f w in (ok a, w')

-- What a constructor or a lookup returns: an error, or a value when the error is nil.
abbrev pub Attempt {ℓ} : Type ℓ → Type ℓ
Attempt A = Error ⊎ A

-- `if err != nil { return wrapped }`.
abbrev pub wrapping {ℓ κ} : {S : Type ℓ} {A : Type κ} → String → Attempt A → M S A
wrapping message (inl e) = throw (wrap e message)
wrapping message (inr a) = pure a

-- `if err := f(); err != nil { return wrapped }`.
abbrev pub check {ℓ} : {S : Type ℓ} → String → Option Error → M S (Unit {0})
check message none = pure tt
check message (some e) = throw (wrap e message)

-- The error of a call, wrapped.
abbrev pub rewrap {ℓ} : {A : Type ℓ} → String → Outcome A → Outcome A
rewrap message (ok a) = ok a
rewrap message (fail e) = fail (wrap e message)
rewrap message panic = panic

abbrev pub lift_outcome {ℓ κ} : {S : Type ℓ} {A : Type κ} → Outcome A → M S A
lift_outcome o s = (o, s)

-- Inversion of a call that returned a value: both of its parts did.
pub continue-ok {ℓ κ ι} :
    {S : Type ℓ} {A : Type κ} {B : Type ι} (q : Outcome A × S) (f : A → M S B) {b : B}
    → (continue q f).0 ≡ ok b
    → (a : A) × (q.0 ≡ ok a) × (continue q f ≡ f a q.1)
continue-ok (ok a, s) f h = (a, refl, refl)
continue-ok (fail e, s) f h = cc
continue-ok (panic, s) f h = cc

module _ {ℓ κ} {S : Type ℓ} {B : Type κ} (message : String) where
  pub check_then :
      (o : Option Error) (s : S) (f : Unit {0} → M S B) {b : B}
      → (continue (check message o s) f).0 ≡ ok b
      → (o ≡ none) × (continue (check message o s) f ≡ f tt s)
  check_then none s f h = (refl, refl)
  check_then (some e) s f h = cc

  pub wrapping_then {ι} :
      {A : Type ι} (t : Attempt A) (s : S) (f : A → M S B) {b : B}
      → (continue (wrapping message t s) f).0 ≡ ok b
      → (a : A) × (t ≡ inr a) × (continue (wrapping message t s) f ≡ f a s)
  wrapping_then (inl e) s f h = cc
  wrapping_then (inr a) s f h = (a, refl, refl)

  pub rewrap_then {ι} :
      {A : Type ι} (o : Outcome A) (s : S) (f : A → M S B) {b : B}
      → (continue (lift_outcome (rewrap message o) s) f).0 ≡ ok b
      → (a : A) × (o ≡ ok a) × (continue (lift_outcome (rewrap message o) s) f ≡ f a s)
  rewrap_then (ok a) s f h = (a, refl, refl)
  rewrap_then (fail e) s f h = cc
  rewrap_then panic s f h = cc

pub rewrap-ok {ℓ} :
    {A : Type ℓ} (message : String) (o : Outcome A) {a : A} → rewrap message o ≡ ok a → o ≡ ok a
rewrap-ok message (ok a) h = h
rewrap-ok message (fail e) h = cc
rewrap-ok message panic h = cc

pub ok-injective {ℓ} : {A : Type ℓ} {a b : A} → ok a ≡ ok b → a ≡ b
ok-injective h = cc
