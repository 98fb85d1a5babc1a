-- ===== src/Util/Uuid.antt =====
-- What `IsValidUUID` accepts, said without regular expressions.
use provider_dip.Base.{ℕ, zero, suc, ◌≤◌, Bool, true, false, List, [], ◌∷◌, ◌≡◌, refl, ◌↔◌, ◌≢◌}
use provider_dip.Base.{
  ◌⊎◌, inl, inr, ◌||◌, ◌==◌, nat_Comparable, if◌then◌else◌, length, Text, arith, subst, sym, ap,
  Bool-cases, nat_eq_iff,
}
use provider_dip.Regex.{Item, one, exactly}
use provider_dip.Regex.Language.{Matches, finished, one_byte}
use provider_dip.Regex.Complete.{matches_full_iff}
use provider_dip.Util.{is_hex, uuid_regex, is_valid_uuid}

abbrev pub IsHex : ℕ → Type 0
IsHex c = ((b'0' ≤ c) × (c ≤ b'9')) ⊎ (((b'a' ≤ c) × (c ≤ b'f')) ⊎ ((b'A' ≤ c) × (c ≤ b'F')))

abbrev dash_at : ℕ → Bool
dash_at i = i == 8 || i == 13 || i == 18 || i == 23

-- The byte at place `i` of a UUID: a dash at the places 8, 13, 18 and 23, or else a digit.
abbrev pub UuidByte : ℕ → ℕ → Type 0
UuidByte i c = ((dash_at i ≡ true) × (c ≡ b'-')) ⊎ ((dash_at i ≡ false) × IsHex c)

abbrev pub AllFrom : (ℕ → ℕ → Type 0) → ℕ → Text → Type 0
AllFrom P i [] = Unit
AllFrom P i (c ∷ s) = P i c × AllFrom P (suc i) s

-- 36 bytes, each of which fits its place.
abbrev pub IsUuid : Text → Type 0
IsUuid s = (length s ≡ 36) × AllFrom UuidByte 0 s

abbrev class_at : ℕ → ℕ → Bool
class_at i = if dash_at i then exactly b'-' else is_hex

is_hex_iff : (c : ℕ) → (is_hex c ≡ true) ↔ IsHex c
unfolding is_hex
is_hex_iff c = ground arith

class_at_iff : (i c : ℕ) → (class_at i c ≡ true) ↔ UuidByte i c
class_at_iff i c = elim (Bool-cases (dash_at i)) [
  | inl dash ↦ rw dash (ground (arith, nat_eq_iff c b'-'))
  | inr digit ↦ rw digit (ground (arith, is_hex_iff c))
]

abbrev classes_from : ℕ → ℕ → List Item
classes_from i zero = []
classes_from i (suc n) = one (class_at i) ∷ classes_from (suc i) n

uuid_regex-classes_from : uuid_regex ≡ classes_from 0 36
unfolding uuid_regex
uuid_regex-classes_from = refl

Matches-classes_from :
    (n i : ℕ) (s : Text) → Matches (classes_from i n) s → (length s ≡ n) × AllFrom UuidByte i s
Matches-classes_from zero i [] m = (refl, tt)
Matches-classes_from zero i (c ∷ s) m = elim m [ ]
Matches-classes_from (suc n) i [] m = elim m [ ]
Matches-classes_from (suc n) i (c ∷ s) (one_byte h m) =
    let (size, fits) = Matches-classes_from n (suc i) s m in
    (ap suc size, ((class_at_iff i c).0 h, fits))

classes_from-Matches :
    (n i : ℕ) (s : Text) → length s ≡ n → AllFrom UuidByte i s → Matches (classes_from i n) s
classes_from-Matches zero i [] size fits = finished
classes_from-Matches zero i (c ∷ s) size fits = absurd (omega arith)
classes_from-Matches (suc n) i [] size fits = absurd (omega arith)
classes_from-Matches (suc n) i (c ∷ s) size (fit, fits) =
    one_byte ((class_at_iff i c).1 fit) (classes_from-Matches n (suc i) s (omega arith) fits)

-- A text passes the UUID check exactly when it has 36 bytes, of which those at the places 8, 13, 18
-- and 23 are dashes and all others are hexadecimal digits of either case.
pub is_valid_uuid_iff : (s : Text) → (is_valid_uuid s ≡ true) ↔ IsUuid s
unfolding is_valid_uuid
is_valid_uuid_iff s = (
  λ h. Matches-classes_from 36 0 s (
      subst (λ items. Matches items s) uuid_regex-classes_from
        ((matches_full_iff uuid_regex s).0 h)),
  λ (size, fits). (matches_full_iff uuid_regex s).1 (
      subst (λ items. Matches items s) (sym uuid_regex-classes_from)
        (classes_from-Matches 36 0 s size fits)),
)

-- A name that passes the check is not empty.
pub is_valid_uuid-ne-nil : (s : Text) → is_valid_uuid s ≡ true → s ≢ []
is_valid_uuid-ne-nil [] h = absurd (omega (arith, ((is_valid_uuid_iff []).0 h).0))
is_valid_uuid-ne-nil (c ∷ s) h = λ e. cc
