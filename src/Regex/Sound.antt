-- ===== src/Regex/Sound.antt =====
-- The search of `Regex` against `Regex.Language`: soundness.
use provider_dip.Base.{ℕ, Bool, List, [], ◌∷◌, ◌++◌, Text, true, false, map, ◌≡◌, refl, ap, subst}
use provider_dip.Base.{
  ◌∙◌, ◌⊎◌, inl, inr, given, sym, append_assoc, append-nil, Bool-cases, All, Option, none, some,
}
use provider_dip.Base.{In, here, there, In-nil, In-append, In-flat_map, In-map, concat}
use provider_dip.Regex.{Item, one, plus, Split, taking, behind, star, match_item, match_items}
use provider_dip.Regex.{match_groups, first_captures, find_submatch, any_full, matches_full}
use provider_dip.Regex.Language.{Matches, MatchesAll, finished, one_byte, plus-Matches}

module _ (cls : ℕ → Bool) (c : ℕ) (s : Text) where
  pub star_in : cls c ≡ true → star cls (c ∷ s) ≡ map (taking c) (star cls s) ++ ([], c ∷ s) ∷ []
  unfolding star
  star_in h = rw h

  pub star_out : cls c ≡ false → star cls (c ∷ s) ≡ ([], c ∷ s) ∷ []
  unfolding star
  star_out h = rw h

abbrev pub Taken : (ℕ → Bool) → Text → Split → Type 0
Taken cls s w = (w.0 ++ w.1 ≡ s) × All (λ d. cls d ≡ true) w.0

nothing-Taken : (cls : ℕ → Bool) (s : Text) {w : Split} → In w (([], s) ∷ []) → Taken cls s w
nothing-Taken cls s (here e) = rw e (refl, tt)
nothing-Taken cls s (there h) = absurd (In-nil h)

pub star_sound : (cls : ℕ → Bool) (s : Text) {w : Split} → In w (star cls s) → Taken cls s w
star_sound cls [] h = nothing-Taken cls [] (unfold star in h)
star_sound cls (c ∷ s) {w} h = elim (Bool-cases (cls c)) [
  | inl yes_in ↦
      elim (In-append (map (taking c) (star cls s)) (([], c ∷ s) ∷ [])
        (subst (In w) (star_in cls c s yes_in) h)) [
          | inl longer ↦
              let (v, m, e) = In-map (taking c) (star cls s) longer in
              let (joined, all) = star_sound cls s m in rw e (ap (λ t. c ∷ t) joined, (yes_in, all))
          | inr shorter ↦ nothing-Taken cls (c ∷ s) shorter
        ]
  | inr not_in ↦ nothing-Taken cls (c ∷ s) (subst (In w) (star_out cls c s not_in) h)
]

-- A way of matching one item can be continued by any text that the rest of the pattern describes.
abbrev Continues : Item → Text → Split → Type 0
Continues i s w =
    (w.0 ++ w.1 ≡ s)
    × ((items : List Item) (q : Text) → Matches items q → Matches (i ∷ items) (w.0 ++ q))

match_item_sound : (i : Item) (s : Text) {w : Split} → In w (match_item i s) → Continues i s w
unfolding match_item
match_item_sound (one cls) [] h = absurd (In-nil h)
match_item_sound (plus cls) [] h = absurd (In-nil h)
match_item_sound (one cls) (c ∷ s) {w} h = elim (Bool-cases (cls c)) [
  | inl holds ↦ only (rw holds at h) holds
  | inr fails ↦ absurd (In-nil (rw fails at h))
]
  where
    only : In w ((c ∷ [], s) ∷ []) → cls c ≡ true → Continues (one cls) (c ∷ s) w
    only (here e) holds = rw e (refl, λ items q m. one_byte holds m)
    only (there m) holds = absurd (In-nil m)
match_item_sound (plus cls) (c ∷ s) {w} h = elim (Bool-cases (cls c)) [
  | inl holds ↦
      let (v, m, e) = In-map (taking c) (star cls s) (rw holds at h) in
      let (joined, all) = star_sound cls s m in
      rw e (ap (λ t. c ∷ t) joined, λ items q n. plus-Matches cls items c v.0 holds all n)
  | inr fails ↦ absurd (In-nil (rw fails at h))
]

abbrev pub Found : List Item → Text → Split → Type 0
Found items s w = (w.0 ++ w.1 ≡ s) × Matches items w.0

pub match_items_sound :
    (items : List Item) (s : Text) {w : Split} → In w (match_items items s) → Found items s w
unfolding match_items
match_items_sound [] s {w} (here e) = rw e (refl, finished)
match_items_sound [] s (there h) = absurd (In-nil h)
match_items_sound (i ∷ items) s {w} h =
    let (v, m, n) =
      In-flat_map (λ (v : Split). map (behind v.0) (match_items items v.1)) (match_item i s) h in
    let (u, k, e) = In-map (behind v.0) (match_items items v.1) n in
    let (first, continued) = match_item_sound i s m in
    let (second, rest) = match_items_sound items v.1 k in
    rw e (append_assoc v.0 u.0 u.1 ∙ ap (λ t. v.0 ++ t) second ∙ first, continued items u.0 rest)

abbrev FoundAll : List (List Item) → Text → List Text × Text → Type 0
FoundAll groups s v = (concat v.0 ++ v.1 ≡ s) × MatchesAll groups v.0

match_groups_sound :
    (groups : List (List Item)) (s : Text) {v : List Text × Text}
    → In v (match_groups groups s)
    → FoundAll groups s v
unfolding match_groups
match_groups_sound [] s (here e) = rw e (refl, tt)
match_groups_sound [] s (there h) = absurd (In-nil h)
match_groups_sound (g ∷ groups) s h =
    let (w, m, n) =
      In-flat_map
        (λ (w : Split). map (λ (v : List Text × Text). (w.0 ∷ v.0, v.1)) (match_groups groups w.1))
        (match_items g s) h in
    let (u, k, e) =
      In-map (λ (v : List Text × Text). (w.0 ∷ v.0, v.1)) (match_groups groups w.1) n in
    let (first, head) = match_items_sound g s m in
    let (second, rest) = match_groups_sound groups w.1 k in
    rw e (append_assoc w.0 (concat u.0) u.1 ∙ ap (λ t. w.0 ++ t) second ∙ first, (head, rest))

-- The captures stand side by side in the input, between what comes before and what follows.
abbrev pub Captured : List (List Item) → Text → List Text → Type 0
Captured groups s captures =
    (before : Text) × (after : Text) × (s ≡ before ++ (concat captures ++ after))
    × MatchesAll groups captures

first_captures-cases :
    (ways : List (List Text × Text)) (later : Option (List Text)) {captures : List Text}
    → first_captures ways later ≡ some captures
    → ((rest : Text) × In (captures, rest) ways) ⊎ (later ≡ some captures)
unfolding first_captures
first_captures-cases [] later h = inr h
first_captures-cases ((found, rest) ∷ ways) later h =
    inl (rest, here (ap (λ o. (given o [], rest)) (sym h)))

pub find_submatch_sound :
    (groups : List (List Item)) (s : Text) {captures : List Text}
    → find_submatch groups s ≡ some captures
    → Captured groups s captures
unfolding find_submatch
find_submatch_sound groups [] h = elim (first_captures-cases (match_groups groups []) none h) [
  | inl (rest, m) ↦
      let (joined, all) = match_groups_sound groups [] m in ([], rest, sym joined, all)
  | inr never ↦ cc
]
find_submatch_sound groups (c ∷ s) h =
    elim (first_captures-cases (match_groups groups (c ∷ s)) (find_submatch groups s) h) [
      | inl (rest, m) ↦
          let (joined, all) = match_groups_sound groups (c ∷ s) m in ([], rest, sym joined, all)
      | inr later ↦
          let (before, after, e, all) = find_submatch_sound groups s later in
          (c ∷ before, after, ap (λ t. c ∷ t) e, all)
    ]

any_full-In : (ways : List Split) → any_full ways ≡ true → (p : Text) × In (p, []) ways
unfolding any_full
any_full-In [] h = cc
any_full-In ((p, []) ∷ ways) h = (p, here refl)
any_full-In ((p, d ∷ rest) ∷ ways) h = let (q, m) = any_full-In ways h in (q, there m)

pub matches_full_sound :
    (items : List Item) (s : Text) → matches_full items s ≡ true → Matches items s
unfolding matches_full
matches_full_sound items s h =
    let (p, m) = any_full-In (match_items items s) h in
    let (joined, found) = match_items_sound items s m in
    subst (Matches items) (sym (append-nil p) ∙ joined) found
