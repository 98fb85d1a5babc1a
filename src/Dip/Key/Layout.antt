-- ===== src/Dip/Key/Layout.antt =====
-- The layout of keys, and `formatPrivateKey` of `internal/clients/dip/client.go`.
use provider_dip.Base.{true, false, List, [], ◌∷◌, ◌++◌, none, some, Text, ◌≡◌, ◌≢◌}
use provider_dip.Base.{
  refl, sym, ap, subst, ◌∙◌, append_assoc, append-nil, arith, concat, nat_Comparable,
}
use provider_dip.Base.{◌⊎◌, inl, inr, Bool-cases, Option-cases, ◌||◌}
use provider_dip.Regex.{find_submatch}
use provider_dip.Regex.Language.{Matches}
use provider_dip.Regex.Sound.{Captured, find_submatch_sound}
use provider_dip.Regex.Complete.{find_submatch_complete}
use provider_dip.Dip.Key.{
  newline, has_newline, header_items, body_items, footer_items, pem, split_lines,
}
use provider_dip.Dip.Key.{join_lines, reformat, format_private_key}
use provider_dip.Dip.Key.Lines.{Wrapped, split_lines_lem}

-- The parts of a PEM key on one line, and what stands around it.
pub record IsPem (key header body footer : Text) : Type 0 where
  pub before : Text
  pub after : Text
  pub parts : key ≡ before ++ (header ++ (body ++ (footer ++ after)))
  pub header_matches : Matches header_items header
  pub body_matches : Matches body_items body
  pub footer_matches : Matches footer_items footer

-- The key's parts on lines of their own, the body's lines wrapped at 64 bytes.
pub record IsLaidOut (key out : Text) : Type 0 where
  pub header : Text
  pub body : Text
  pub footer : Text
  pub lines : List Text
  pub is_pem : IsPem key header body footer
  pub wrapped : Wrapped lines
  pub whole : concat lines ≡ body
  pub output : out ≡ header ++ newline ∷ (join_lines lines ++ newline ∷ footer)

Captured-IsLaidOut :
    (key : Text) (captures : List Text)
    → Captured pem key captures
    → IsLaidOut key (reformat key (some captures))
unfolding reformat
Captured-IsLaidOut key [] (_, _, _, none_left) = absurd none_left
Captured-IsLaidOut key (h ∷ []) (_, _, _, (_, none_left)) = absurd none_left
Captured-IsLaidOut key (h ∷ b ∷ []) (_, _, _, (_, (_, none_left))) = absurd none_left
Captured-IsLaidOut key (h ∷ b ∷ f ∷ []) (before, after, joined, (mh, (mb, (mf, _)))) = record {
  header = h;
  body = b;
  footer = f;
  lines = split_lines b;
  is_pem = record {
    before = before;
    after = after;
    parts = joined ∙ simp (append_assoc, append-nil);
    header_matches = mh;
    body_matches = mb;
    footer_matches = mf;
  };
  wrapped = (split_lines_lem b).0;
  whole = (split_lines_lem b).1;
  output = refl;
}
Captured-IsLaidOut key (h ∷ b ∷ f ∷ g ∷ more) (_, _, _, (_, (_, (_, too_many)))) = absurd too_many

-- A key is returned as it is, or laid out.
pub format_private_key-cases :
    (key : Text) → (format_private_key key ≡ key) ⊎ IsLaidOut key (format_private_key key)
unfolding format_private_key
format_private_key-cases key = elim (Bool-cases (has_newline key)) [
  | inl formatted ↦ inl (rw formatted)
  | inr flat ↦ elim (Option-cases (find_submatch pem key)) [
    | inl missing ↦ inl (rw (flat, missing))
    | inr (captures, found) ↦
        inr (rw (flat, found) (Captured-IsLaidOut key captures (find_submatch_sound pem key found)))
  ]
]

IsPem-found :
    {key header body footer : Text} → IsPem key header body footer → find_submatch pem key ≢ none
IsPem-found {key} {header} {body} {footer} p =
    subst (λ k. find_submatch pem k ≢ none)
      (let e : p.before ++ (concat (header ∷ body ∷ footer ∷ []) ++ p.after)
            ≡ p.before ++ (header ++ (body ++ (footer ++ p.after))) =
          simp (append_assoc, append-nil) in
        e ∙ sym p.parts)
      (find_submatch_complete pem p.before p.after (header ∷ body ∷ footer ∷ [])
        (p.header_matches, (p.body_matches, (p.footer_matches, tt))))

-- A key without a line break that holds a PEM header, a body and a footer, in this order and side
-- by side, is laid out: header, body and footer of such a reading of the key stand on lines of their
-- own, and the body is cut into lines of exactly 64 bytes, the last of 1 to 64 bytes, which together
-- are the body.
pub format_private_key-IsLaidOut :
    {key header body footer : Text}
    → has_newline key ≡ false
    → IsPem key header body footer
    → IsLaidOut key (format_private_key key)
unfolding format_private_key
format_private_key-IsLaidOut {key} flat p = elim (Option-cases (find_submatch pem key)) [
  | inl missing ↦ absurd (IsPem-found p missing)
  | inr (captures, found) ↦
      rw (flat, found) (Captured-IsLaidOut key captures (find_submatch_sound pem key found))
]

has_newline-append : (s t : Text) → has_newline (s ++ t) ≡ (has_newline s || has_newline t)
unfolding has_newline
has_newline-append [] t = refl
has_newline-append (c ∷ s) t = ground (arith, has_newline-append s t)

IsLaidOut-has_newline : {key out : Text} → IsLaidOut key out → has_newline out ≡ true
unfolding has_newline
IsLaidOut-has_newline l = rw (l.output, has_newline-append l.header) (ground arith)

-- Formatting a key twice is formatting it once, whatever the key.
pub format_private_key_idem :
    (key : Text) → format_private_key (format_private_key key) ≡ format_private_key key
format_private_key_idem key = elim (format_private_key-cases key) [
  | inl same ↦ ap format_private_key same
  | inr laid ↦ formatted (format_private_key key) (IsLaidOut-has_newline laid)
]
  where
    formatted : (out : Text) → has_newline out ≡ true → format_private_key out ≡ out
    formatted out h = unfold format_private_key in rw h
