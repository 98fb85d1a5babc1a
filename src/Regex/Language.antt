-- ===== src/Regex/Language.antt =====
-- What a pattern describes, independent of any search.
use provider_dip.Base.{ℕ, Bool, List, [], ◌∷◌, ◌++◌, Text, true, ◌≡◌, All}
use provider_dip.Regex.{Item, one, plus}

pub data Matches : List Item → Text → Type 0 where
  finished : Matches [] []
  one_byte :
      {cls : ℕ → Bool} {items : List Item} {c : ℕ} {s : Text}
      → cls c ≡ true
      → Matches items s
      → Matches (one cls ∷ items) (c ∷ s)
  last_byte :
      {cls : ℕ → Bool} {items : List Item} {c : ℕ} {s : Text}
      → cls c ≡ true
      → Matches items s
      → Matches (plus cls ∷ items) (c ∷ s)
  more_bytes :
      {cls : ℕ → Bool} {items : List Item} {c : ℕ} {s : Text}
      → cls c ≡ true
      → Matches (plus cls ∷ items) s
      → Matches (plus cls ∷ items) (c ∷ s)

-- A byte of the class, then any number more, then the rest of the pattern.
pub plus-Matches :
    (cls : ℕ → Bool) (items : List Item) (c : ℕ) (p : Text) {q : Text}
    → cls c ≡ true
    → All (λ d. cls d ≡ true) p
    → Matches items q
    → Matches (plus cls ∷ items) (c ∷ (p ++ q))
plus-Matches cls items c [] h _ m = last_byte h m
plus-Matches cls items c (d ∷ p) h (hd, hp) m = more_bytes h (plus-Matches cls items d p hd hp m)

-- One text for each group.
abbrev pub MatchesAll : List (List Item) → List Text → Type 0
MatchesAll [] [] = Unit
MatchesAll [] (t ∷ texts) = ⊥
MatchesAll (g ∷ groups) [] = ⊥
MatchesAll (g ∷ groups) (t ∷ texts) = Matches g t × MatchesAll groups texts
