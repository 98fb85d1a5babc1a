-- ===== src/Dip/Key/Lines.antt =====
-- The loop that cuts the body into lines, with the body's length for fuel.
use provider_dip.Base.{ℕ, zero, suc, ◌+◌, ◌-◌, ◌≤◌, ◌<◌, List, [], ◌∷◌, ◌++◌}
use provider_dip.Base.{
  ◌≡◌, refl, sym, ap, ◌∙◌, append_assoc, append-nil, arith, Text, length, take, drop,
}
use provider_dip.Base.{
  concat, length-drop, length-take, take-append-drop, lt→ltb, le→ltb_false, dec_lt, ap₂, ◌≢◌,
}
use provider_dip.Dip.Key.{slice, line_end, split_loop, split_lines}

drop-nil : (n : ℕ) → drop {A = ℕ} n [] ≡ []
drop-nil zero = refl
drop-nil (suc n) = refl

drop-drop : (m n : ℕ) (s : Text) → drop n (drop m s) ≡ drop (m + n) s
drop-drop zero n s = ap (λ k. drop k s) (omega arith)
drop-drop (suc m) n [] = drop-nil n ∙ sym (drop-nil (suc m + n))
drop-drop (suc m) n (c ∷ s) =
    drop-drop m n s ∙ ap (λ k. drop k (c ∷ s)) (let e : suc (m + n) ≡ suc m + n = omega arith in e)

take_all : (n : ℕ) (s : Text) → length s ≤ n → take n s ≡ s
take_all zero [] h = refl
take_all zero (c ∷ s) h = absurd (omega arith)
take_all (suc n) [] h = refl
take_all (suc n) (c ∷ s) h = ap (λ t. c ∷ t) (take_all n s (omega arith))

drop_all : (n : ℕ) (s : Text) → length s ≤ n → drop n s ≡ []
drop_all zero [] h = refl
drop_all zero (c ∷ s) h = absurd (omega arith)
drop_all (suc n) [] h = refl
drop_all (suc n) (c ∷ s) h = drop_all n s (omega arith)

concat-append : (xs ys : List Text) → concat (xs ++ ys) ≡ concat xs ++ concat ys
concat-append [] ys = refl
concat-append (x ∷ xs) ys = rw (concat-append xs ys) (sym (append_assoc x (concat xs) (concat ys)))

-- One round: the loop's result is what it had, then the line, then the later lines.
pub split_loop_more :
    (fuel : ℕ) (body : Text) (i : ℕ) (lines : List Text)
    → i < length body
    → split_loop (suc fuel) body i lines
      ≡ split_loop fuel body (i + 64) (lines ++ slice body i (line_end body i) ∷ [])
unfolding split_loop
split_loop_more fuel body i lines h = rw (lt→ltb i (length body) h)

pub split_loop_end :
    (fuel : ℕ) (body : Text) (i : ℕ) (lines : List Text)
    → length body ≤ i
    → split_loop fuel body i lines ≡ lines
unfolding split_loop
split_loop_end zero body i lines h = refl
split_loop_end (suc fuel) body i lines h = rw (le→ltb_false i (length body) h)

split_loop-append :
    (fuel : ℕ) (body : Text) (i : ℕ) (lines : List Text)
    → split_loop fuel body i lines ≡ lines ++ split_loop fuel body i []
split_loop-append zero body i lines = unfold split_loop in sym (append-nil lines)
split_loop-append (suc fuel) body i lines = elim (dec_lt i (length body)) [
  | yes more ↦
      rw (split_loop_more fuel body i lines more, split_loop_more fuel body i [] more)
        (split_loop-append fuel body (i + 64) (lines ++ line ∷ [])
          ∙ append_assoc lines (line ∷ []) (split_loop fuel body (i + 64) [])
          ∙ ap (λ t. lines ++ t) (sym (split_loop-append fuel body (i + 64) (line ∷ []))))
  | no done ↦
      split_loop_end (suc fuel) body i lines (omega arith)
      ∙ sym (append-nil lines)
      ∙ ap (λ t. lines ++ t) (sym (split_loop_end (suc fuel) body i [] (omega arith)))
]
  where
    line : Text
    line = slice body i (line_end body i)

-- The line that the loop cuts at `i`, and the text behind it.
line_at : (body : Text) (i : ℕ) → slice body i (line_end body i) ++ drop (i + 64) body ≡ drop i body
line_at body i = elim (dec_lt (length body) (i + 64)) [
  | yes short ↦ rw (lt→ltb (length body) (i + 64) short) (
      ap₂ (λ s t. s ++ t)
        (take_all (length body - i) (drop i body) (omega (arith, length-drop i body)))
        (drop_all (i + 64) body (omega arith))
      ∙ append-nil (drop i body))
  | no long ↦ rw (le→ltb_false (length body) (i + 64) (omega arith)) (
      ap₂ (λ n t. take n (drop i body) ++ t) (let e : i + 64 - i ≡ 64 = omega arith in e)
        (sym (drop-drop i 64 body))
      ∙ take-append-drop 64 (drop i body))
]

line_length :
    (body : Text) (i : ℕ)
    → i < length body
    → let n = length (slice body i (line_end body i)) in
      (1 ≤ n) × (n ≤ 64) × (i + 64 < length body → n ≡ 64)
line_length body i h = elim (dec_lt (length body) (i + 64)) [
  | yes short ↦ rw (lt→ltb (length body) (i + 64) short) (
      let e = length-take (length body - i) (drop i body) (omega (arith, length-drop i body)) in
      (omega (arith, e), omega (arith, e), λ later. omega (arith, e)))
  | no long ↦ rw (le→ltb_false (length body) (i + 64) (omega arith)) (
      let e = length-take (i + 64 - i) (drop i body) (omega (arith, length-drop i body)) in
      (omega (arith, e), omega (arith, e), λ later. omega (arith, e)))
]

-- With at least as much fuel as bytes left, nothing of the body is lost.
concat-split_loop :
    (fuel : ℕ) (body : Text) (i : ℕ)
    → length body ≤ i + fuel
    → concat (split_loop fuel body i []) ≡ drop i body
concat-split_loop zero body i h =
    ap concat (split_loop_end zero body i [] (omega arith)) ∙ sym (drop_all i body (omega arith))
concat-split_loop (suc fuel) body i h = elim (dec_lt i (length body)) [
  | yes more ↦
      rw (split_loop_more fuel body i [] more, split_loop-append fuel body (i + 64) (_ ∷ []))
        (ap (λ t. slice body i (line_end body i) ++ t)
            (concat-split_loop fuel body (i + 64) (omega arith))
          ∙ line_at body i)
  | no done ↦
      ap concat (split_loop_end (suc fuel) body i [] (omega arith))
      ∙ sym (drop_all i body (omega arith))
]

-- Lines of exactly 64 bytes, and a last one of at least one byte and at most 64.
abbrev pub Wrapped : List Text → Type 0
Wrapped [] = Unit
Wrapped (l ∷ []) = (1 ≤ length l) × (length l ≤ 64)
Wrapped (l ∷ m ∷ lines) = (length l ≡ 64) × Wrapped (m ∷ lines)

cons-Wrapped :
    (l : Text) (lines : List Text)
    → (1 ≤ length l)
    → (length l ≤ 64)
    → (lines ≢ [] → length l ≡ 64)
    → Wrapped lines
    → Wrapped (l ∷ lines)
cons-Wrapped l [] low high full w = (low, high)
cons-Wrapped l (m ∷ lines) low high full w = (full (λ e. cc), w)

later_lines : (fuel : ℕ) (body : Text) (i : ℕ) → split_loop fuel body i [] ≢ [] → i < length body
later_lines fuel body i h = elim (dec_lt i (length body)) [
  | yes more ↦ more
  | no done ↦ absurd (h (split_loop_end fuel body i [] (omega arith)))
]

split_loop-Wrapped : (fuel : ℕ) (body : Text) (i : ℕ) → Wrapped (split_loop fuel body i [])
split_loop-Wrapped zero body i = unfold split_loop in tt
split_loop-Wrapped (suc fuel) body i = elim (dec_lt i (length body)) [
  | yes more ↦
      rw (split_loop_more fuel body i [] more, split_loop-append fuel body (i + 64) (_ ∷ []))
        (let (low, high, full) = line_length body i more in
          cons-Wrapped _ (split_loop fuel body (i + 64) []) low high
            (λ later. full (later_lines fuel body (i + 64) later))
            (split_loop-Wrapped fuel body (i + 64)))
  | no done ↦ rw (split_loop_end (suc fuel) body i [] (omega arith)) tt
]

-- The lines of a body are cut at 64 bytes, and together they are the body.
pub split_lines_lem :
    (body : Text) → Wrapped (split_lines body) × (concat (split_lines body) ≡ body)
unfolding split_lines
split_lines_lem body =
    (split_loop-Wrapped (length body) body 0, concat-split_loop (length body) body 0 (omega arith))
