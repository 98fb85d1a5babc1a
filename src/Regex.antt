-- ===== src/Regex.antt =====
-- The part of Go's `regexp` that the provider uses: sequences of byte classes, each taken once or
-- repeated by `+`, in capture groups. `internal/util/util.go` (uuidRegex) and
-- `internal/clients/dip/client.go` (formatPrivateKey) compile such patterns.
-- Go prefers the leftmost match, and among those the one that a backtracking search with greedy
-- repetition finds first. `match_items` lists all ways of matching in that order.
pub mod Language
pub mod Sound
pub mod Complete
use provider_dip.Base.{ℕ, Bool, List, [], ◌∷◌, ◌++◌, Option, none, some, Text, String, codes}
use provider_dip.Base.{◌==◌, nat_Comparable, map, if◌then◌else◌, flat_map, is_empty, true, false}

-- A class once, or one or more bytes of a class, as many as possible.
pub data Item : Type 0 where
  one : (ℕ → Bool) → Item
  plus : (ℕ → Bool) → Item

-- A way of matching: what was taken, and what is left.
abbrev pub Split : Type 0
Split = Text × Text

abbrev pub taking : ℕ → Split → Split
taking c (p, r) = (c ∷ p, r)

abbrev pub behind : Text → Split → Split
behind p (q, r) = (p ++ q, r)

-- `c*`, the longest way first.
unfoldable pub star : (ℕ → Bool) → Text → List Split
star cls [] = ([], []) ∷ []
star cls (c ∷ s) =
    let rest = star cls s in
    if cls c then map (taking c) rest ++ ([], c ∷ s) ∷ [] else ([], c ∷ s) ∷ []

unfoldable pub match_item : Item → Text → List Split
unfolding star
match_item (one cls) [] = []
match_item (one cls) (c ∷ s) = if cls c then (c ∷ [], s) ∷ [] else []
match_item (plus cls) [] = []
match_item (plus cls) (c ∷ s) = if cls c then map (taking c) (star cls s) else []

unfoldable pub match_items : List Item → Text → List Split
unfolding match_item
match_items [] s = ([], s) ∷ []
match_items (i ∷ items) s =
    flat_map (λ (w : Split). map (behind w.0) (match_items items w.1)) (match_item i s)

-- The captures of the groups, and what is left.
unfoldable pub match_groups : List (List Item) → Text → List (List Text × Text)
unfolding match_items
match_groups [] s = ([], s) ∷ []
match_groups (g ∷ groups) s =
    flat_map
      (λ (w : Split). map (λ (v : List Text × Text). (w.0 ∷ v.0, v.1)) (match_groups groups w.1))
      (match_items g s)

-- `FindStringSubmatch`, less the whole match in front: the first way of matching at the leftmost
-- position that has one.
unfoldable pub first_captures : List (List Text × Text) → Option (List Text) → Option (List Text)
first_captures [] later = later
first_captures ((captures, rest) ∷ ways) later = some captures

unfoldable pub find_submatch : List (List Item) → Text → Option (List Text)
unfolding match_groups first_captures
find_submatch groups [] = first_captures (match_groups groups []) none
find_submatch groups (c ∷ s) = first_captures (match_groups groups (c ∷ s)) (find_submatch groups s)

-- `MatchString` of a pattern between `^` and `$`: some way of matching leaves nothing.
unfoldable pub any_full : List Split → Bool
any_full [] = false
any_full ((p, rest) ∷ ways) = if is_empty rest then true else any_full ways

unfoldable pub matches_full : List Item → Text → Bool
unfolding match_items any_full
matches_full items s = any_full (match_items items s)

-- A literal text, byte by byte.
abbrev pub exactly : ℕ → ℕ → Bool
exactly c d = d == c

abbrev pub literal_bytes : Text → List Item
literal_bytes [] = []
literal_bytes (c ∷ s) = one (exactly c) ∷ literal_bytes s

abbrev pub literal : String → List Item
literal s = literal_bytes (codes s)
