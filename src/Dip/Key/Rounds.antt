-- ===== src/Dip/Key/Rounds.antt =====
-- The loop of `formatPrivateKey` without fuel: `for i := 0; i < len(body); i += 64`.
use provider_dip.Base.{
  ℕ, zero, suc, ◌+◌, ◌-◌, ◌*◌, ◌≤◌, ◌<◌, List, [], ◌∷◌, ◌++◌, ◌≡◌, sym, ◌∙◌, subst, arith, Text,
  length, dec_lt,
}
use provider_dip.Dip.Key.{slice, line_end, split_loop, split_lines}
use provider_dip.Dip.Key.Lines.{split_loop_more, split_loop_end}

-- The loop, from `i` and the lines so far, ends with `result` after so many rounds.
pub data Loop (body : Text) (result : List Text) : ℕ → List Text → ℕ → Type 0 where
  done : {i : ℕ} {lines : List Text} → length body ≤ i → result ≡ lines → Loop body result i lines 0
  round :
      {i : ℕ} {lines : List Text} {n : ℕ}
      → i < length body
      → Loop body result (i + 64) (lines ++ slice body i (line_end body i) ∷ []) n
      → Loop body result i lines (suc n)

split_loop-Loop :
    (fuel : ℕ) (body : Text) (i : ℕ) (lines : List Text)
    → length body ≤ i + fuel
    → (n : ℕ) × Loop body (split_loop fuel body i lines) i lines n
      × (64 * n < (length body - i) + 64)
      × (length body - i ≤ 64 * n)
split_loop-Loop zero body i lines h = (
  0,
  done (omega arith) (split_loop_end zero body i lines (omega arith)),
  omega arith,
  omega arith,
)
split_loop-Loop (suc fuel) body i lines h = elim (dec_lt i (length body)) [
  | yes more ↦
      let next = lines ++ slice body i (line_end body i) ∷ [] in
      let (n, rest, few, enough) = split_loop-Loop fuel body (i + 64) next (omega arith) in
      (
        suc n,
        round more (
            subst (λ r. Loop body r (i + 64) next n) (sym (split_loop_more fuel body i lines more))
              rest),
        omega arith,
        omega arith,
      )
  | no stop ↦ (
    0,
    done (omega arith) (split_loop_end (suc fuel) body i lines (omega arith)),
    omega arith,
    omega arith,
  )
]

Loop-unique :
    (body : Text) (a b : List Text) (i : ℕ) (lines : List Text) {m n : ℕ}
    → Loop body a i lines m
    → Loop body b i lines n
    → a ≡ b
Loop-unique body a b i lines (done h e) (done h' e') = e ∙ sym e'
Loop-unique body a b i lines (done h e) (round h' l') = absurd (omega arith)
Loop-unique body a b i lines (round h l) (done h' e') = absurd (omega arith)
Loop-unique body a b i lines (round h l) (round h' l') =
    Loop-unique body a b (i + 64) (lines ++ slice body i (line_end body i) ∷ []) l l'

-- For every body the loop ends with the lines that `split_lines` computes on fuel, after as many
-- rounds of 64 bytes as cover the body.
pub split_lines-Loop :
    (body : Text)
    → (n : ℕ) × Loop body (split_lines body) 0 [] n
      × (64 * n < length body + 64)
      × (length body ≤ 64 * n)
unfolding split_lines
split_lines-Loop body =
    let (n, loop, few, enough) = split_loop-Loop (length body) body 0 [] (omega arith) in
    (n, loop, omega (arith, few), omega (arith, enough))

-- It ends with no other lines.
Loop-split_lines :
    (body : Text) (lines : List Text) {m : ℕ} → Loop body lines 0 [] m → lines ≡ split_lines body
Loop-split_lines body lines loop =
    Loop-unique body lines (split_lines body) 0 [] loop
      (let (_, ours, _, _) = split_lines-Loop body in ours)
