-- ===== src/Hash/Select.antt =====
-- Which headers `select_headers` of src/hash.rs takes: of each name, the occurrences from the bottom
-- of the email upwards.
use dkim.Prelude.{
  ℕ, suc, ◌-◌, ◌≡◌, refl, sym, ap, subst, ◌∙◌, Bool-cases, List, [], ◌∷◌, ◌++◌, map, reverse, inl,
  inr, Bytes, beq, beq_iff, length, drop, arith, if◌then◌else◌,
}
use mathlib.Core.Option.{get_or}
use dkim.Externals.{MailHeader, ParsedMail}
use dkim.Hash.{enumerate, select_loop, select_headers}
use dkim.Hash.Numbered.{
  Numbered, of_name, RunsDown-reverse, unnumbered, length-reverse, headers, find_header_lem,
  drop-suc, drop-suc_nil, drop_after,
}
use dkim.Map.{Map, get, insert, get-insert}
use dkim.Str.{to_ascii_lowercase, trim, split}

-- How often a name stands among names.
abbrev pub count : List Bytes → Bytes → ℕ
count [] name = 0
count (x ∷ seen) name = if beq x name then suc (count seen name) else count seen name

abbrev pub first_of : List MailHeader → List (Bytes × Bytes)
first_of [] = []
first_of (h ∷ hs) = (h.key, h.value_raw) ∷ []

-- The occurrence of each name that the earlier ones leave, from the bottom; where there is none left
-- the name selects nothing.
abbrev pub from_bottom : List MailHeader → List Bytes → List Bytes → List (Bytes × Bytes)
from_bottom hs seen [] = []
from_bottom hs seen (name ∷ names) =
    first_of (drop (count seen name) (of_name name (reverse hs)))
    ++ from_bottom hs (name ∷ seen) names

module _ (hs : List MailHeader) where
  abbrev numbered : Numbered
  numbered = reverse (enumerate 0 hs)

  abbrev left : Map ℕ → Bytes → Numbered
  left m name = drop (length hs - get_or (get m name) (length hs)) numbered

  -- The headers that a name has left are those behind as many as it was seen.
  abbrev Inv : List Bytes → Map ℕ → Type 0
  Inv seen m =
      (name : Bytes)
      → of_name name (headers (left m name))
        ≡ drop (count seen name) (of_name name (headers numbered))

  Inv-insert :
      (seen : List Bytes) (m : Map ℕ) (name : Bytes) (i : ℕ)
      → Inv seen m
      → of_name name (headers (drop (length hs - i) numbered))
        ≡ drop (suc (count seen name)) (of_name name (headers numbered))
      → Inv (name ∷ seen) (insert m name i)
  Inv-insert seen m name i inv e other = elim (Bool-cases (beq name other)) [
    | inl same ↦
        rw (get-insert m name i other, same)
          (subst
            (λ o.
              of_name o (headers (drop (length hs - i) numbered))
              ≡ drop (suc (count seen o)) (of_name o (headers numbered)))
            ((beq_iff name other).0 same) e)
    | inr differ ↦ rw (get-insert m name i other, differ, inv other)
  ]

  drop_all : {A : Type 0} (xs : List A) → drop (length xs) xs ≡ []
  drop_all [] = refl
  drop_all (x ∷ xs) = drop_all xs

  length-numbered : length numbered ≡ length hs
  length-numbered = length-reverse 0 hs

  nothing_left : (name : Bytes) → of_name name (headers (drop (length hs - 0) numbered)) ≡ []
  nothing_left name =
      let at : length hs - 0 ≡ length numbered = omega (arith, length-numbered) in
      ap (λ d. of_name name (headers (drop d numbered))) at
      ∙ ap (λ l. of_name name (headers l)) (drop_all numbered)

  numbered-of_name : (name : Bytes) → of_name name (headers numbered) ≡ of_name name (reverse hs)
  numbered-of_name name = ap (of_name name) (unnumbered 0 hs)

  below :
      (m : Map ℕ) (name : Bytes) (pre : Numbered) (i : ℕ) (h : MailHeader) (post : Numbered)
      → left m name ≡ pre ++ ((i, h) ∷ post)
      → drop (length hs - i) numbered ≡ post
  below m name pre i h post at =
      ap (λ n. drop (n - i) numbered) (sym length-numbered)
      ∙ drop_after _ numbered pre i h post (RunsDown-reverse 0 hs) at

  -- The loop selects what the counts say.
  select_loop-from_bottom :
      (names seen : List Bytes) (m : Map ℕ)
      → Inv seen m
      → select_loop hs m names ≡ from_bottom hs seen names
  unfolding select_loop
  select_loop-from_bottom [] seen m inv = refl
  select_loop-from_bottom (name ∷ names) seen m inv = elim (find_header_lem name (left m name)) [
    | inl (n, o) ↦
        let none_left = sym (inv name) ∙ o in
        let next =
          Inv-insert seen m name 0 inv
            (nothing_left name ∙ sym (drop-suc_nil (count seen name) _ none_left)) in
        rw (
          n,
          select_loop,
          sym (numbered-of_name name),
          none_left,
          select_loop-from_bottom names (name ∷ seen) (insert m name 0) next,
        )
    | inr (pre, i, h, post, at, f, o) ↦
        let here = sym (inv name) ∙ o in
        let next = Inv-insert seen m name i inv (
          ap (λ l. of_name name (headers l)) (below m name pre i h post at)
          ∙ sym (drop-suc (count seen name) _ here)) in
        rw (
          f,
          select_loop,
          sym (numbered-of_name name),
          here,
          select_loop-from_bottom names (name ∷ seen) (insert m name i) next,
        )
  ]

  Inv-start : Inv [] []
  unfolding get
  Inv-start name =
      let at : length hs - length hs ≡ 0 = omega arith in
      ap (λ d. of_name name (headers (drop d numbered))) at

-- The signed headers are, for each name in h=, the occurrence that the same name earlier in h=
-- leaves, counted from the bottom of the email, and a name with no occurrence left selects
-- nothing.
pub select_headers-from_bottom :
    (dkim_header : Bytes) (email : ParsedMail)
    → select_headers dkim_header email
      ≡ from_bottom email.headers []
          (map (λ h. to_ascii_lowercase (trim h)) (split b':' dkim_header))
unfolding select_headers
select_headers-from_bottom dkim_header email =
    select_loop-from_bottom email.headers
      (map (λ h. to_ascii_lowercase (trim h)) (split b':' dkim_header)) [] []
      (Inv-start email.headers)
