-- ===== src/Base/Tests.antt =====
-- Go's comparisons and conditionals as Boolean functions, and the splits on computed values.
use Prim.Native.Nat.{ℕ, ◌≤◌, ◌<◌, compare, Ordering}
use mathlib.Core.Path.{◌≡◌, refl}
use mathlib.Core.Logic.{◌↔◌, ◌⊎◌, inl, inr}
use mathlib.Core.Bool.{Bool, true, false, not}
use mathlib.Core.Option.{Option, none, some}
use native.Mathlib.Omega.{arith}

abbrev pub ltb : ℕ → ℕ → Bool
ltb a b = elim (compare a b) [ Ordering.lt ↦ true | _ ↦ false ]

abbrev pub leb : ℕ → ℕ → Bool
leb a b = elim (compare a b) [ Ordering.gt ↦ false | _ ↦ true ]

abbrev pub nat_eq : ℕ → ℕ → Bool
nat_eq a b = elim (compare a b) [ Ordering.eq ↦ true | _ ↦ false ]

pub lt→ltb : (a b : ℕ) → a < b → ltb a b ≡ true
lt→ltb a b h = ground arith

pub le→ltb_false : (a b : ℕ) → b ≤ a → ltb a b ≡ false
le→ltb_false a b h = ground arith

pub nat_eq_iff : (a b : ℕ) → (nat_eq a b ≡ true) ↔ (a ≡ b)
nat_eq_iff a b = ground arith

infix 1 if◌then◌else◌
abbrev pub if◌then◌else◌ {ℓ} : {A : Type ℓ} → Bool → A → A → A
if true then x else y = x
if false then x else y = y

infix 50 ◌==◌ ◌!=◌
-- The types that Go compares by `==`.
pub record Comparable {ℓ} (A : Type ℓ) : Type ℓ where
  pub equal : A → A → Bool
  pub equal_iff : (a b : A) → (equal a b ≡ true) ↔ (a ≡ b)

abbrev pub ◌!=◌ {ℓ} : {A : Type ℓ} ⦃e : Comparable A⦄ → A → A → Bool
◌!=◌ ⦃e⦄ a b = not (e.equal a b)

abbrev pub ◌==◌ {ℓ} : {A : Type ℓ} ⦃e : Comparable A⦄ → A → A → Bool
◌==◌ ⦃e⦄ = e.equal

instance abbrev pub nat_Comparable : Comparable ℕ
nat_Comparable = record { equal = nat_eq; equal_iff = nat_eq_iff }

pub Bool-cases : (b : Bool) → (b ≡ true) ⊎ (b ≡ false)
Bool-cases true = inl refl
Bool-cases false = inr refl

pub Option-cases {ℓ} : {A : Type ℓ} (o : Option A) → (o ≡ none) ⊎ ((a : A) × (o ≡ some a))
Option-cases none = inl refl
Option-cases (some a) = inr (a, refl)

-- `if p != nil { x = *p }`: the new value of `x`.
abbrev pub given {ℓ} : {A : Type ℓ} → Option A → A → A
given none old = old
given (some v) old = v

-- `p != nil && *p != x`.
module _ {ℓ} {A : Type ℓ} ⦃e : Comparable A⦄ where
  unfoldable pub differs : Option A → A → Bool
  differs none a = false
  differs (some v) a = v != a

  -- A field that is not given never differs, and one that is given differs unless it is equal.
  pub differs_iff : (o : Option A) (a : A) → (differs o a ≡ false) ↔ ((v : A) → o ≡ some v → v ≡ a)
  unfolding differs
  differs_iff none a = (λ _ v h. cc, λ _. refl)
  differs_iff (some v) a =
      (λ h u p. ground (arith, e.equal_iff v a), λ h. ground (arith, e.equal_iff v a, h v refl))

  -- A field that was just assigned does not differ.
  pub differs-given : (o : Option A) (a : A) → differs o (given o a) ≡ false
  unfolding differs
  differs-given none a = refl
  differs-given (some v) a = ground (arith, e.equal_iff v v)
