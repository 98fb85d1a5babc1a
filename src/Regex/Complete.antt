-- ===== src/Regex/Complete.antt =====
-- The search of `Regex` against `Regex.Language`: completeness.
use provider_dip.Base.{ℕ, Bool, List, [], ◌∷◌, ◌++◌, Text, true, false, map, ◌≡◌, ◌≢◌, refl, subst}
use provider_dip.Base.{sym, append_assoc, append-nil, Option, none, concat, if◌then◌else◌}
use provider_dip.Base.{
  In, here, there, In-nil, In-append_left, In-append_right, map-In, flat_map-In,
}
use provider_dip.Base.{◌↔◌, ap}
use provider_dip.Regex.{Item, one, plus, Split, taking, behind, star, match_item, match_items}
use provider_dip.Regex.{match_groups, first_captures, find_submatch, any_full, matches_full}
use provider_dip.Regex.Language.{Matches, MatchesAll, finished, one_byte, last_byte, more_bytes}
use provider_dip.Regex.Sound.{star_in, matches_full_sound}

-- Taking nothing is the last resort of `c*`.
star_nothing : (cls : ℕ → Bool) (s : Text) → In ([], s) (star cls s)
unfolding star
star_nothing cls [] = here refl
star_nothing cls (c ∷ s) =
    elim (cls c)
      as (λ b.
        In ([], c ∷ s)
          (if b then map (taking c) (star cls s) ++ ([], c ∷ s) ∷ [] else ([], c ∷ s) ∷ [])) [
            | true ↦ In-append_right (map (taking c) (star cls s)) _ (here refl)
            | false ↦ here refl
          ]

star_more :
    (cls : ℕ → Bool) (c : ℕ) (s : Text) (w : Split)
    → cls c ≡ true
    → In w (star cls s)
    → In (taking c w) (star cls (c ∷ s))
star_more cls c s w holds m =
    subst (In (taking c w)) (sym (star_in cls c s holds))
      (In-append_left (map (taking c) (star cls s)) _ (map-In (taking c) (star cls s) w m))

match_item_one :
    (cls : ℕ → Bool) (c : ℕ) (s : Text)
    → cls c ≡ true
    → In (c ∷ [], s) (match_item (one cls) (c ∷ s))
unfolding match_item
match_item_one cls c s holds = rw holds (here refl)

match_item_plus :
    (cls : ℕ → Bool) (c : ℕ) (s : Text) (w : Split)
    → cls c ≡ true
    → In w (star cls s)
    → In (taking c w) (match_item (plus cls) (c ∷ s))
unfolding match_item
match_item_plus cls c s w holds m = rw holds (map-In (taking c) (star cls s) w m)

-- A way of matching the first item, then one of matching the others.
match_items_then :
    (i : Item) (items : List Item) (s : Text) (w v : Split)
    → In w (match_item i s)
    → In v (match_items items w.1)
    → In (w.0 ++ v.0, v.1) (match_items (i ∷ items) s)
unfolding match_items
match_items_then i items s w v m n =
    flat_map-In (λ (w : Split). map (behind w.0) (match_items items w.1)) (match_item i s) w m
      (map-In (behind w.0) (match_items items w.1) v n)

-- What `c+` and the items behind it match: `c*` takes a first part.
abbrev Starred : (ℕ → Bool) → List Item → Text → Text → Type 0
Starred cls items p rest =
    (w : Split) × (v : Split) × In w (star cls (p ++ rest))
    × In v (match_items items w.1)
    × (w.0 ++ v.0 ≡ p)
    × (v.1 ≡ rest)

star_then_plus :
    (cls : ℕ → Bool) (items : List Item) (c : ℕ) (p rest : Text)
    → cls c ≡ true
    → Starred cls items p rest
    → In (c ∷ p, rest) (match_items (plus cls ∷ items) (c ∷ (p ++ rest)))
star_then_plus cls items c p rest holds (w, v, m, n, joined, left) =
    subst (λ (u : Split). In u (match_items (plus cls ∷ items) (c ∷ (p ++ rest))))
      (λ i. (c ∷ joined i, left i))
      (match_items_then (plus cls) items (c ∷ (p ++ rest)) (taking c w) v
        (match_item_plus cls c (p ++ rest) w holds m) n)

-- Behind a `c+`, the search also finds the text from inside the repetition.
abbrev Inside : List Item → Text → Text → Type 0
Inside [] p rest = Unit
Inside (one cls ∷ items) p rest = Unit
Inside (plus cls ∷ items) p rest = Starred cls items p rest

abbrev Reached : List Item → Text → Text → Type 0
Reached items p rest = In (p, rest) (match_items items (p ++ rest)) × Inside items p rest

Matches-Reached :
    {items : List Item} {p : Text} → Matches items p → (rest : Text) → Reached items p rest
Matches-Reached finished rest = (unfold match_items in here refl, tt)
Matches-Reached (one_byte {cls} {items} {c} {s} h m) rest = (
  match_items_then (one cls) items (c ∷ (s ++ rest)) (c ∷ [], s ++ rest) (s, rest)
      (match_item_one cls c (s ++ rest) h) (Matches-Reached m rest).0,
  tt,
)
Matches-Reached (last_byte {cls} {items} {c} {s} h m) rest =
    let found = (Matches-Reached m rest).0 in
    let nothing = star_nothing cls (s ++ rest) in
    (
      star_then_plus cls items c s rest h (([], s ++ rest), (s, rest), nothing, found, refl, refl),
      (
        (c ∷ [], s ++ rest),
        (s, rest),
        star_more cls c (s ++ rest) ([], s ++ rest) h nothing,
        found,
        refl,
        refl,
      ),
    )
Matches-Reached (more_bytes {cls} {items} {c} {s} h m) rest =
    let inside = (Matches-Reached m rest).1 in
    let (w, v, k, n, joined, left) = inside in
    (
      star_then_plus cls items c s rest h inside,
      (taking c w, v, star_more cls c (s ++ rest) w h k, n, ap (λ t. c ∷ t) joined, left),
    )

-- The search lists every way that the pattern describes.
pub match_items_complete :
    (items : List Item) (p rest : Text)
    → Matches items p
    → In (p, rest) (match_items items (p ++ rest))
match_items_complete items p rest m = (Matches-Reached m rest).0

match_groups_complete :
    (groups : List (List Item)) (texts : List Text) (rest : Text)
    → MatchesAll groups texts
    → In (texts, rest) (match_groups groups (concat texts ++ rest))
unfolding match_groups
match_groups_complete [] [] rest _ = here refl
match_groups_complete [] (t ∷ texts) rest h = absurd h
match_groups_complete (g ∷ groups) [] rest h = absurd h
match_groups_complete (g ∷ groups) (t ∷ texts) rest (m, all) =
    rw (append_assoc t (concat texts) rest) (
      flat_map-In
        (λ (w : Split). map (λ (v : List Text × Text). (w.0 ∷ v.0, v.1)) (match_groups groups w.1))
        (match_items g (t ++ (concat texts ++ rest))) (t, concat texts ++ rest)
        (match_items_complete g t (concat texts ++ rest) m)
        (map-In (λ (v : List Text × Text). (t ∷ v.0, v.1))
          (match_groups groups (concat texts ++ rest)) (texts, rest)
          (match_groups_complete groups texts rest all)))

first_captures-In :
    (ways : List (List Text × Text)) (later : Option (List Text)) (v : List Text × Text)
    → In v ways
    → first_captures ways later ≢ none
unfolding first_captures
first_captures-In [] later v h = absurd (In-nil h)
first_captures-In (w ∷ ways) later v h = λ e. cc

first_captures-later :
    (ways : List (List Text × Text)) (later : Option (List Text))
    → later ≢ none
    → first_captures ways later ≢ none
unfolding first_captures
first_captures-later [] later h = h
first_captures-later (w ∷ ways) later h = λ e. cc

find_submatch_here :
    (groups : List (List Item)) (s : Text) (v : List Text × Text)
    → In v (match_groups groups s)
    → find_submatch groups s ≢ none
unfolding find_submatch
find_submatch_here groups [] v h = first_captures-In (match_groups groups []) none v h
find_submatch_here groups (c ∷ s) v h = first_captures-In (match_groups groups (c ∷ s)) _ v h

-- Wherever the pattern's texts stand in the input, the search finds a match.
pub find_submatch_complete :
    (groups : List (List Item)) (before after : Text) (texts : List Text)
    → MatchesAll groups texts
    → find_submatch groups (before ++ (concat texts ++ after)) ≢ none
unfolding find_submatch
find_submatch_complete groups [] after texts all =
    find_submatch_here groups (concat texts ++ after) (texts, after)
      (match_groups_complete groups texts after all)
find_submatch_complete groups (c ∷ before) after texts all =
    first_captures-later (match_groups groups (c ∷ (before ++ (concat texts ++ after)))) _
      (find_submatch_complete groups before after texts all)

any_full_of_In : (ways : List Split) (p : Text) → In (p, []) ways → any_full ways ≡ true
unfolding any_full
any_full_of_In [] p h = absurd (In-nil h)
any_full_of_In ((q, []) ∷ ways) p h = refl
any_full_of_In ((q, d ∷ rest) ∷ ways) p (here e) = cc (ap (λ (w : Split). w.1) e)
any_full_of_In ((q, d ∷ rest) ∷ ways) p (there h) = any_full_of_In ways p h

-- An anchored match succeeds on exactly the texts that the pattern describes.
pub matches_full_iff :
    (items : List Item) (s : Text) → (matches_full items s ≡ true) ↔ Matches items s
unfolding matches_full
matches_full_iff items s = (
  matches_full_sound items s,
  λ m. any_full_of_In (match_items items s) s (
      subst (λ t. In (s, []) (match_items items t)) (append-nil s)
        (match_items_complete items s [] m)),
)
