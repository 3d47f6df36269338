-- ===== src/Hash/Transit.antt =====
-- What `select_headers` and the lines of src/hash.rs keep of an email that other software has passed on.
use dkim.Prelude.{
  ℕ, ap₂, zero, suc, ◌≡◌, refl, sym, ap, ◌∙◌, Bool-cases, List, [], ◌∷◌, ◌++◌, append_assoc,
  append-nil, inl, inr, map, reverse, drop, Bytes,
}
use mathlib.Core.List.{reverse-cons, map-append}
use dkim.Canonicalization.{CanonicalizationType}
use dkim.Externals.{MailHeader, ParsedMail}
use dkim.Hash.Numbered.{of_name}
use dkim.Hash.Prepend.{names_of, of_name-append}
use dkim.Hash.Select.{count, first_of, from_bottom, select_headers-from_bottom}
use dkim.Hash.{select_headers, signed_lines, canonicalize_header}
use dkim.Str.{Unicode, All, eq_ignore_ascii_case}

module _ (unicode : Unicode) (t : CanonicalizationType) where
  -- The canonical form of a header.
  abbrev pub line : MailHeader → Bytes
  line h = canonicalize_header unicode t h.key h.value_raw

  -- The canonical headers of a name, from the top.
  abbrev pub lines_of : Bytes → List MailHeader → List Bytes
  lines_of name hs = map line (of_name name hs)

  lines_of-append :
      (name : Bytes) (xs ys : List MailHeader)
      → lines_of name (xs ++ ys) ≡ lines_of name xs ++ lines_of name ys
  lines_of-append name xs ys =
      ap (map line) (of_name-append name xs ys)
      ∙ map-append line (of_name name xs) (of_name name ys)

  lines_of-reverse :
      (name : Bytes) (hs : List MailHeader)
      → lines_of name (reverse hs) ≡ reverse (lines_of name hs)
  lines_of-reverse name [] = refl
  lines_of-reverse name (h ∷ hs) =
      ap (lines_of name) (reverse-cons h hs)
      ∙ lines_of-append name (reverse hs) (h ∷ [])
      ∙ ap (λ ls. ls ++ lines_of name (h ∷ [])) (lines_of-reverse name hs)
      ∙ (elim (Bool-cases (eq_ignore_ascii_case h.key name)) [
        | inl e ↦ rw e (sym (reverse-cons (line h) (lines_of name hs)))
        | inr e ↦ rw e (append-nil (reverse (lines_of name hs)))
      ])

  -- The first line behind so many.
  abbrev first_line : List Bytes → Bytes
  first_line [] = []
  first_line (l ∷ ls) = l

  signed_lines-append :
      (xs ys : List (Bytes × Bytes))
      → signed_lines unicode t (xs ++ ys) ≡ signed_lines unicode t xs ++ signed_lines unicode t ys
  unfolding signed_lines
  signed_lines-append [] ys = refl
  signed_lines-append ((key, value) ∷ xs) ys =
      rw (signed_lines-append xs ys)
        (sym (append_assoc (canonicalize_header unicode t key value) _ _))

  signed_lines-first_of :
      (hs : List MailHeader) → signed_lines unicode t (first_of hs) ≡ first_line (map line hs)
  unfolding signed_lines
  signed_lines-first_of [] = refl
  signed_lines-first_of (h ∷ hs) = append-nil (line h)

  map-drop : (n : ℕ) (hs : List MailHeader) → map line (drop n hs) ≡ drop n (map line hs)
  map-drop zero hs = refl
  map-drop (suc n) [] = refl
  map-drop (suc n) (h ∷ hs) = map-drop n hs

  -- The line that is selected for a name, by the canonical headers of the name.
  selected :
      (c : ℕ) (name : Bytes) (hs : List MailHeader)
      → signed_lines unicode t (first_of (drop c (of_name name (reverse hs))))
        ≡ first_line (drop c (reverse (lines_of name hs)))
  selected c name hs =
      signed_lines-first_of (drop c (of_name name (reverse hs)))
      ∙ ap first_line (map-drop c (of_name name (reverse hs)))
      ∙ ap (λ ls. first_line (drop c ls)) (lines_of-reverse name hs)

  module _ (hs hs' : List MailHeader) where
    abbrev pub SameLines : List Bytes → Type 0
    SameLines = All (λ name. lines_of name hs ≡ lines_of name hs')

    bottom_lines :
        (seen names : List Bytes)
        → SameLines names
        → signed_lines unicode t (from_bottom hs seen names)
          ≡ signed_lines unicode t (from_bottom hs' seen names)
    bottom_lines seen [] same = refl
    bottom_lines seen (name ∷ names) (here, same) =
        let c = count seen name in
        signed_lines-append (first_of (drop c (of_name name (reverse hs)))) _
        ∙ ap₂ (λ a b. a ++ b)
            (selected c name hs
              ∙ ap (λ ls. first_line (drop c (reverse ls))) here
              ∙ sym (selected c name hs'))
            (bottom_lines (name ∷ seen) names same)
        ∙ sym (signed_lines-append (first_of (drop c (of_name name (reverse hs')))) _)

  -- What is hashed of the headers depends on the canonical headers of each signed name, in their
  -- order, alone.
  pub signed_lines_kept :
      (text : Bytes) (email email' : ParsedMail)
      → SameLines email.headers email'.headers (names_of text)
      → signed_lines unicode t (select_headers text email)
        ≡ signed_lines unicode t (select_headers text email')
  signed_lines_kept text email email' same =
      ap (signed_lines unicode t) (select_headers-from_bottom text email)
      ∙ bottom_lines email.headers email'.headers [] (names_of text) same
      ∙ sym (ap (signed_lines unicode t) (select_headers-from_bottom text email'))
