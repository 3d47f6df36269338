-- ===== src/Canonicalization/Spaces.antt =====
-- Runs of spaces, and spaces at the end of a line, in the relaxed body of src/canonicalization.rs.
pub mod Absence
use dkim.Prelude.{
  ℕ, zero, suc, ◌+◌, ◌-◌, ◌≤◌, ◌<◌, ◌≡◌, ◌≢◌, refl, sym, ap, ◌∙◌, inl, inr, Bool, true, false, ◌&&◌,
  List, [], ◌∷◌, ◌++◌, Option, none, some, append_assoc, append-nil, arith, Bytes, length, drop,
  remove, length-append, starts_with, ends_with, Bool-cases, Option-cases, ◌==◌, if◌then◌else◌,
}
use dkim.Bytes.{find}
use dkim.Bytes.Find.{find-cons, find-nil, find_sound, shift, FirstAt, find-none_tail}
use dkim.Canonicalization.{space, crlf, space_crlf, collapse, strip_line_ends}

abbrev pub Absent : Bytes → Bytes → Type 0
Absent pattern s = find s pattern ≡ none

pub Absent-cons :
    (p : Bytes) (x : ℕ) (s : Bytes) → starts_with (x ∷ s) p ≡ false → Absent p s → Absent p (x ∷ s)
Absent-cons p x s h a = rw (find-cons x s p, h, a)

pub Absent-head : (p : Bytes) (x : ℕ) (s : Bytes) → Absent p (x ∷ s) → starts_with (x ∷ s) p ≡ false
Absent-head p x s h = ground (arith, find-cons x s p)

-- Every space that stands before a CRLF, or before spaces that do, is gone.
unfoldable pub line_ends : Bytes → Bytes
line_ends [] = []
line_ends (c ∷ s) =
    let rest = line_ends s in if c == space && starts_with rest crlf then rest else c ∷ rest

line_ends_match :
    (s : Bytes) → starts_with s space_crlf ≡ true → line_ends s ≡ line_ends (remove s 0)
unfolding line_ends starts_with
line_ends_match [] h = cc
line_ends_match (a ∷ []) h = ground arith
line_ends_match (a ∷ b ∷ []) h = ground arith
line_ends_match (a ∷ b ∷ c ∷ s) h = ground arith

-- Taking out a space before a CRLF does not change what is left in the end.
line_ends-remove :
    (s : Bytes) (i : ℕ)
    → starts_with (drop i s) space_crlf ≡ true
    → line_ends (remove s i) ≡ line_ends s
unfolding line_ends
line_ends-remove s zero h = sym (line_ends_match s h)
line_ends-remove [] (suc i) h = refl
line_ends-remove (c ∷ s) (suc i) h = rw (line_ends-remove s i h)

pub line_ends-Absent_at_end : (s : Bytes) → Absent space_crlf s → line_ends s ≡ s
unfolding line_ends starts_with
line_ends-Absent_at_end [] h = refl
line_ends-Absent_at_end (c ∷ s) h =
    let ih = line_ends-Absent_at_end s (find-none_tail c s space_crlf h) in
    ground (arith, ih, Absent-head space_crlf c s h)

length-remove :
    (s : Bytes) (i : ℕ)
    → starts_with (drop i s) space_crlf ≡ true
    → suc (length (remove s i)) ≡ length s
length-remove [] zero h = unfold starts_with in cc
length-remove (c ∷ s) zero h = refl
length-remove [] (suc i) h = unfold starts_with in cc
length-remove (c ∷ s) (suc i) h = ap suc (length-remove s i h)

-- The loop ends, with the spaces at the ends of lines gone.
pub strip_line_ends-line_ends :
    (fuel : ℕ) (s : Bytes) → length s ≤ fuel → strip_line_ends fuel s ≡ line_ends s
unfolding strip_line_ends
strip_line_ends-line_ends zero [] h = unfold line_ends in refl
strip_line_ends-line_ends zero (c ∷ s) h = absurd (omega arith)
strip_line_ends-line_ends (suc fuel) s h = elim (Option-cases (find s space_crlf)) [
  | inl absent ↦ rw (absent, strip_line_ends) (sym (line_ends-Absent_at_end s absent))
  | inr (i, at) ↦
      let here = (find_sound s space_crlf i at).0 in
      rw (at, strip_line_ends)
        (strip_line_ends-line_ends fuel (remove s i) (omega (arith, length-remove s i here))
          ∙ line_ends-remove s i here)
]

collapse_first :
    (c : ℕ) (s : Bytes)
    → starts_with (c ∷ s) (space ∷ space ∷ []) ≡ false
    → collapse (c == space) s ≡ s
    → collapse false (c ∷ s) ≡ c ∷ s
unfolding collapse
collapse_first c s h e = ground arith

collapse_after :
    (s : Bytes) → starts_with s (space ∷ []) ≡ false → collapse true s ≡ collapse false s
unfolding collapse starts_with
collapse_after [] h = refl
collapse_after (c ∷ s) h = ground arith

second_space :
    (c : ℕ) (s : Bytes)
    → starts_with (c ∷ s) (space ∷ space ∷ []) ≡ false
    → (c == space) ≡ true
    → starts_with s (space ∷ []) ≡ false
unfolding starts_with
second_space c [] h e = refl
second_space c (d ∷ s) h e = ground arith

-- Collapsing changes nothing where no two spaces meet.
pub collapse-Absent_pairs : (s : Bytes) → Absent (space ∷ space ∷ []) s → collapse false s ≡ s
collapse-Absent_pairs [] h = unfold collapse in refl
collapse-Absent_pairs (c ∷ s) h =
    let single = Absent-head (space ∷ space ∷ []) c s h in
    let ih = collapse-Absent_pairs s (find-none_tail c s (space ∷ space ∷ []) h) in
    collapse_first c s single (elim (Bool-cases (c == space)) [
      | inl e ↦ rw e (collapse_after s (second_space c s single e) ∙ ih)
      | inr e ↦ rw e ih
    ])
