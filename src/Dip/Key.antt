-- ===== src/Dip/Key.antt =====
-- `formatPrivateKey` of `internal/clients/dip/client.go`: a PEM key on one line gets its line
-- breaks back.
pub mod Lines
pub mod Rounds
pub mod Layout
use provider_dip.Base.{ℕ, zero, suc, ◌+◌, ◌-◌, Bool, true, false, List, [], ◌∷◌, ◌++◌, Option, none}
use provider_dip.Base.{
  some, Text, codes, length, take, drop, ltb, leb, not, ◌&&◌, ◌||◌, ◌==◌, nat_Comparable,
}
use provider_dip.Base.{if◌then◌else◌}
use provider_dip.Regex.{Item, plus, literal, find_submatch}

abbrev pub newline : ℕ
newline = b'\n'

-- `strings.Contains(key, "\n")`.
unfoldable pub has_newline : Text → Bool
has_newline [] = false
has_newline (c ∷ s) = c == newline || has_newline s

-- `[A-Z ]`, and `.`, which takes every byte but a line break.
abbrev pub is_label : ℕ → Bool
is_label c = (leb b'A' c && leb c b'Z') || c == b' '

abbrev pub is_any : ℕ → Bool
is_any c = not (c == newline)

abbrev pub header_items : List Item
header_items = literal "-----BEGIN " ++ plus is_label ∷ literal "-----"

abbrev pub body_items : List Item
body_items = plus is_any ∷ []

abbrev pub footer_items : List Item
footer_items = literal "-----END " ++ plus is_label ∷ literal "-----"

abbrev pub pem : List (List Item)
pem = header_items ∷ body_items ∷ footer_items ∷ []

-- `s[i:j]`.
abbrev pub slice : Text → ℕ → ℕ → Text
slice s i j = take (j - i) (drop i s)

-- `end := i + 64`, cut at the end of the body.
abbrev pub line_end : Text → ℕ → ℕ
line_end body i = if ltb (length body) (i + 64) then length body else i + 64

-- The loop over `i`; every round moves `i` on, so the body's length is enough fuel.
unfoldable pub split_loop : ℕ → Text → ℕ → List Text → List Text
split_loop zero body i lines = lines
split_loop (suc fuel) body i lines =
    let rest = split_loop fuel body (i + 64) (lines ++ slice body i (line_end body i) ∷ []) in
    if ltb i (length body) then rest else lines

unfoldable pub split_lines : Text → List Text
split_lines body = split_loop (length body) body 0 []

-- `strings.Join(lines, "\n")`.
unfoldable pub join_lines : List Text → Text
join_lines [] = []
join_lines (l ∷ []) = l
join_lines (l ∷ m ∷ lines) = l ++ newline ∷ join_lines (m ∷ lines)

unfoldable pub reformat : Text → Option (List Text) → Text
unfolding split_lines join_lines
reformat key (some (header ∷ body ∷ footer ∷ [])) =
    header ++ newline ∷ (join_lines (split_lines body) ++ newline ∷ footer)
reformat key matches = key

unfoldable pub format_private_key : Text → Text
unfolding reformat has_newline
format_private_key key = if has_newline key then key else reformat key (find_submatch pem key)
