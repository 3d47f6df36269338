-- ===== src/Canonicalization/Spaces/Absence.antt =====
-- Which patterns each pass of src/canonicalization.rs keeps out of a text.
use dkim.Prelude.{
  ℕ, ◌≡◌, ◌≢◌, refl, sym, ap, ◌∙◌, inl, inr, Bool, true, false, ◌&&◌, [], ◌∷◌, ◌++◌, arith, Bytes,
  starts_with, Bool-cases, ◌==◌, if◌then◌else◌,
}
use dkim.Bytes.{replace}
use dkim.Bytes.Find.{find-nil, find-none_tail}
use dkim.Canonicalization.{space, crlf, space_crlf, collapse}
use dkim.Canonicalization.Spaces.{Absent, Absent-cons, Absent-head, line_ends}

abbrev pub tab : Bytes
tab = b'\t' ∷ []

abbrev pub two_spaces : Bytes
two_spaces = space ∷ space ∷ []

pub one_byte : (c b : ℕ) (s : Bytes) → starts_with (c ∷ s) (b ∷ []) ≡ (c == b)
unfolding starts_with
one_byte c b s = ground arith

-- `replace` leaves none of the bytes that it replaces.
pub replace-Absent : (s : Bytes) (from to : ℕ) → from ≢ to → Absent (from ∷ []) (replace s from to)
unfolding replace
replace-Absent [] from to ne = find-nil (from ∷ [])
replace-Absent (c ∷ s) from to ne =
    let byte = if c == from then to else c in
    Absent-cons (from ∷ []) byte (replace s from to)
      (one_byte byte from (replace s from to) ∙ ground arith) (replace-Absent s from to ne)

-- Nothing of `collapse` is new, so no byte comes back.
pub collapse-Absent :
    (previous : Bool) (s : Bytes) (b : ℕ)
    → Absent (b ∷ []) s
    → Absent (b ∷ []) (collapse previous s)
unfolding collapse
collapse-Absent previous [] b h = h
collapse-Absent previous (c ∷ s) b h =
    let rest = find-none_tail c s (b ∷ []) h in
    let other : (c == b) ≡ false = sym (one_byte c b s) ∙ Absent-head (b ∷ []) c s h in
    let keep = λ (p : Bool).
      Absent-cons (b ∷ []) c (collapse p s) (one_byte c b (collapse p s) ∙ other)
        (collapse-Absent p s b rest) in
    ground (arith, keep true, keep false, collapse-Absent true s b rest)

collapse_no_space : (s : Bytes) → starts_with (collapse true s) (space ∷ []) ≡ false
unfolding collapse starts_with
collapse_no_space [] = refl
collapse_no_space (c ∷ s) = ground (arith, collapse_no_space s)

two_of_one :
    (c : ℕ) (s : Bytes)
    → starts_with s (space ∷ []) ≡ false
    → starts_with (c ∷ s) two_spaces ≡ false
unfolding starts_with
two_of_one c [] h = ground arith
two_of_one c (d ∷ s) h = ground arith

two_of_other : (c : ℕ) (s : Bytes) → (c == space) ≡ false → starts_with (c ∷ s) two_spaces ≡ false
unfolding starts_with
two_of_other c s h = ground arith

-- After `collapse` no two spaces meet.
pub collapse-Absent_two : (previous : Bool) (s : Bytes) → Absent two_spaces (collapse previous s)
unfolding collapse
collapse-Absent_two previous [] = find-nil two_spaces
collapse-Absent_two previous (c ∷ s) =
    let after =
      Absent-cons two_spaces c (collapse true s) (two_of_one c _ (collapse_no_space s))
        (collapse-Absent_two true s) in
    let other = λ (e : (c == space) ≡ false).
      Absent-cons two_spaces c (collapse false s) (two_of_other c _ e)
        (collapse-Absent_two false s) in
    ground (arith, after, other, collapse-Absent_two true s)

pub line_ends-Absent : (s : Bytes) (b : ℕ) → Absent (b ∷ []) s → Absent (b ∷ []) (line_ends s)
unfolding line_ends
line_ends-Absent [] b h = h
line_ends-Absent (c ∷ s) b h =
    let ih = line_ends-Absent s b (find-none_tail c s (b ∷ []) h) in
    let other : (c == b) ≡ false = sym (one_byte c b s) ∙ Absent-head (b ∷ []) c s h in
    let keep = Absent-cons (b ∷ []) c (line_ends s) (one_byte c b (line_ends s) ∙ other) ih in
    ground (arith, ih, keep)

line_ends-space :
    (s : Bytes)
    → starts_with s (space ∷ []) ≡ false
    → starts_with (line_ends s) (space ∷ []) ≡ false
unfolding line_ends starts_with
line_ends-space [] h = refl
line_ends-space (c ∷ s) h = ground arith

one_of_two :
    (c : ℕ) (s : Bytes)
    → starts_with (c ∷ s) two_spaces ≡ false
    → (c == space) ≡ true
    → starts_with s (space ∷ []) ≡ false
unfolding starts_with
one_of_two c [] h e = refl
one_of_two c (d ∷ s) h e = ground arith

pub line_ends-Absent_two : (s : Bytes) → Absent two_spaces s → Absent two_spaces (line_ends s)
unfolding line_ends
line_ends-Absent_two [] h = h
line_ends-Absent_two (c ∷ s) h =
    let ih = line_ends-Absent_two s (find-none_tail c s two_spaces h) in
    let single = Absent-head two_spaces c s h in
    let keep : Absent two_spaces (c ∷ line_ends s) =
      Absent-cons two_spaces c (line_ends s)
        (elim (Bool-cases (c == space)) [
          | inl e ↦ two_of_one c (line_ends s) (line_ends-space s (one_of_two c s single e))
          | inr e ↦ two_of_other c (line_ends s) e
        ])
        ih in
    ground (arith, ih, keep)

not_space_crlf :
    (c : ℕ) (s : Bytes)
    → (c == space && starts_with s crlf) ≡ false
    → starts_with (c ∷ s) space_crlf ≡ false
unfolding starts_with
not_space_crlf c s h = ground arith

-- After the pass over line ends no space stands before a CRLF.
pub line_ends-Absent_space : (s : Bytes) → Absent space_crlf (line_ends s)
unfolding line_ends
line_ends-Absent_space [] = find-nil space_crlf
line_ends-Absent_space (c ∷ s) =
    let ih = line_ends-Absent_space s in
    elim (Bool-cases (c == space && starts_with (line_ends s) crlf)) [
      | inl gone ↦ rw gone ih
      | inr kept ↦
          rw kept (Absent-cons space_crlf c (line_ends s) (not_space_crlf c (line_ends s) kept) ih)
    ]

starts_with_longer : (s t p : Bytes) → starts_with (s ++ t) p ≡ false → starts_with s p ≡ false
unfolding starts_with
starts_with_longer s t [] h = h
starts_with_longer [] t (y ∷ p) h = refl
starts_with_longer (x ∷ s) t (y ∷ p) h = ground (arith, starts_with_longer s t p)

-- A pattern that is absent from a text is absent from what the text begins with.
pub Absent-prefix : (p s t : Bytes) → p ≢ [] → Absent p (s ++ t) → Absent p s
Absent-prefix p [] t ne h = find-nil p
Absent-prefix p (x ∷ s) t ne h =
    Absent-cons p x s (starts_with_longer (x ∷ s) t p (Absent-head p x (s ++ t) h))
      (Absent-prefix p s t ne (find-none_tail x (s ++ t) p h))

pub Absent-append :
    (b : ℕ) (s t : Bytes) → Absent (b ∷ []) s → Absent (b ∷ []) t → Absent (b ∷ []) (s ++ t)
Absent-append b [] t hs ht = ht
Absent-append b (x ∷ s) t hs ht =
    Absent-cons (b ∷ []) x (s ++ t)
      (one_byte x b (s ++ t) ∙ sym (one_byte x b s) ∙ Absent-head (b ∷ []) x s hs)
      (Absent-append b s t (find-none_tail x s (b ∷ []) hs) ht)

two_at_end :
    (x : ℕ) (s t : Bytes)
    → starts_with (x ∷ s) two_spaces ≡ false
    → starts_with t (space ∷ []) ≡ false
    → starts_with (x ∷ (s ++ t)) two_spaces ≡ false
unfolding starts_with
two_at_end x [] t hs ht = two_of_one x t ht
two_at_end x (y ∷ s) t hs ht = hs

pub Absent-two-append :
    (s t : Bytes)
    → Absent two_spaces s
    → Absent two_spaces t
    → starts_with t (space ∷ []) ≡ false
    → Absent two_spaces (s ++ t)
Absent-two-append [] t hs ht h = ht
Absent-two-append (x ∷ s) t hs ht h =
    Absent-cons two_spaces x (s ++ t) (two_at_end x s t (Absent-head two_spaces x s hs) h)
      (Absent-two-append s t (find-none_tail x s two_spaces hs) ht h)

pub replace_same : (s : Bytes) (from to : ℕ) → Absent (from ∷ []) s → replace s from to ≡ s
unfolding replace
replace_same [] from to h = refl
replace_same (c ∷ s) from to h =
    let other : (c == from) ≡ false = sym (one_byte c from s) ∙ Absent-head (from ∷ []) c s h in
    rw other (ap (◌∷◌ c) (replace_same s from to (find-none_tail c s (from ∷ []) h)))
