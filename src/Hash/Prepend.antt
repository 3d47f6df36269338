-- ===== src/Hash/Prepend.antt =====
-- `select_headers` of src/hash.rs on an email that a header has been put on top of.
use dkim.Prelude.{
  ◌≡◌, refl, sym, ap, ◌∙◌, false, Bool-cases, List, [], ◌∷◌, ◌++◌, append-nil, inl, inr, map,
  reverse, Bytes,
}
use mathlib.Core.List.{reverse-cons}
use dkim.Externals.{MailHeader, ParsedMail}
use dkim.Hash.Numbered.{of_name}
use dkim.Hash.Select.{from_bottom, select_headers-from_bottom}
use dkim.Hash.{select_headers}
use dkim.Str.{All, eq_ignore_ascii_case, to_ascii_lowercase, trim, split}

pub of_name-append :
    (name : Bytes) (xs ys : List MailHeader)
    → of_name name (xs ++ ys) ≡ of_name name xs ++ of_name name ys
of_name-append name [] ys = refl
of_name-append name (x ∷ xs) ys = elim (Bool-cases (eq_ignore_ascii_case x.key name)) [
  | inl e ↦ rw (e, of_name-append name xs ys)
  | inr e ↦ rw (e, of_name-append name xs ys)
]

-- The names of `h=`, as they are looked for.
abbrev pub names_of : Bytes → List Bytes
names_of text = map (λ h. to_ascii_lowercase (trim h)) (split b':' text)

module _ (h : MailHeader) where
  abbrev pub NotNamed : List Bytes → Type 0
  NotNamed = All (λ name. eq_ignore_ascii_case h.key name ≡ false)

  of_name_on_top :
      (name : Bytes) (hs : List MailHeader)
      → eq_ignore_ascii_case h.key name ≡ false
      → of_name name (reverse (h ∷ hs)) ≡ of_name name (reverse hs)
  of_name_on_top name hs other =
      ap (of_name name) (reverse-cons h hs)
      ∙ of_name-append name (reverse hs) (h ∷ [])
      ∙ rw other (append-nil (of_name name (reverse hs)))

  from_bottom_on_top :
      (hs : List MailHeader) (seen names : List Bytes)
      → NotNamed names
      → from_bottom (h ∷ hs) seen names ≡ from_bottom hs seen names
  from_bottom_on_top hs seen [] other = refl
  from_bottom_on_top hs seen (name ∷ names) (differs, other) =
      rw (of_name_on_top name hs differs, from_bottom_on_top hs (name ∷ seen) names other)

  -- A header on top that h= does not name is not selected, and changes nothing for the others.
  pub select_headers_on_top :
      (text : Bytes) (email on_top : ParsedMail)
      → on_top.headers ≡ h ∷ email.headers
      → NotNamed (names_of text)
      → select_headers text on_top ≡ select_headers text email
  select_headers_on_top text email on_top is other =
      select_headers-from_bottom text on_top
      ∙ ap (λ hs. from_bottom hs [] (names_of text)) is
      ∙ from_bottom_on_top email.headers [] (names_of text) other
      ∙ sym (select_headers-from_bottom text email)
