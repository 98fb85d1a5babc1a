-- ===== src/Base/Ints.antt =====
-- Go's `int` and `int64` on the 64-bit platforms that the provider is built for. The code copies
-- and compares these values and computes nothing with them, so a conversion keeps the value.
use Prim.Native.Nat.{ℕ}
use mathlib.Core.Path.{◌≡◌}
use mathlib.Core.Logic.{◌↔◌}
use mathlib.Core.Bool.{Bool, true, false}
use native.Mathlib.Omega.{arith}
use provider_dip.Base.Tests.{Comparable, nat_eq, nat_eq_iff}

-- `negsuc n` is -(n + 1).
pub data ℤ : Type 0 where
  pos : ℕ → ℤ
  negsuc : ℕ → ℤ

unfoldable pub int_eq : ℤ → ℤ → Bool
int_eq (pos a) (pos b) = nat_eq a b
int_eq (negsuc a) (negsuc b) = nat_eq a b
int_eq (pos _) (negsuc _) = false
int_eq (negsuc _) (pos _) = false

pub int_eq_iff : (a b : ℤ) → (int_eq a b ≡ true) ↔ (a ≡ b)
unfolding int_eq
int_eq_iff (pos a) (pos b) = ground (arith, nat_eq_iff a b)
int_eq_iff (negsuc a) (negsuc b) = ground (arith, nat_eq_iff a b)
int_eq_iff (pos a) (negsuc b) = (λ h. cc, λ h. cc)
int_eq_iff (negsuc a) (pos b) = (λ h. cc, λ h. cc)

instance abbrev pub int_Comparable : Comparable ℤ
int_Comparable = record { equal = int_eq; equal_iff = int_eq_iff }
