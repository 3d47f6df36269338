-- ===== src/Canonicalization/Ends.antt =====
-- The `while` loops of src/canonicalization.rs end, and how long their results are.
use dkim.Prelude.{
  ℕ, suc, ◌+◌, ◌≤◌, ◌≡◌, refl, ap, Bool, true, false, [], ◌∷◌, Bytes, length, length-append,
  starts_with, ends_with, arith,
}
use native.Mathlib.Nat.{le_refl}
use dkim.Bytes.{replace}
use dkim.Canonicalization.{
  space, crlf, blank_line, space_crlf, collapse, strip_line_ends, drop_blank_lines, pop_blank_lines,
  drop_back, drop_front, terminate, is_empty, canonicalize_body_simple, canonicalize_body_relaxed,
}
use dkim.Canonicalization.Blank.{drop_blank_lines-DropsTo, pop_blank_lines-drop_blank_lines, crlfs}
use dkim.Canonicalization.Body.{lines, without_blank, relaxed_passes}
use dkim.Canonicalization.Spaces.{Absent, line_ends, strip_line_ends-line_ends}
use dkim.Canonicalization.Spaces.Absence.{line_ends-Absent_space}
use dkim.Canonicalization.Value.{sp, drop_back-Back, drop_front-Front}

-- With a round for each byte, every while loop of the canonicalization ends because its test
-- fails: no space before a CRLF is left, no two CRLFs in a row at the end, and no space at the two
-- ends of a header's value.
pub loops_end :
    (fuel : ℕ) (s : Bytes)
    → length s ≤ fuel
    → Absent space_crlf (strip_line_ends fuel s)
      × (ends_with (drop_blank_lines fuel s) blank_line ≡ false)
      × (ends_with (pop_blank_lines fuel s) blank_line ≡ false)
      × (ends_with (drop_back fuel s) sp ≡ false)
      × (starts_with (drop_front fuel s) sp ≡ false)
loops_end fuel s h =
    let d = drop_blank_lines-DropsTo fuel s h in
    (
      rw (strip_line_ends-line_ends fuel s h) (line_ends-Absent_space s),
      d.none_left,
      rw (pop_blank_lines-drop_blank_lines fuel s) d.none_left,
      (drop_back-Back fuel s h).none_left,
      (drop_front-Front fuel s h).none_left,
    )

length-replace : (s : Bytes) (from to : ℕ) → length (replace s from to) ≡ length s
unfolding replace
length-replace [] from to = refl
length-replace (c ∷ s) from to = ap suc (length-replace s from to)

length-collapse : (previous : Bool) (s : Bytes) → length (collapse previous s) ≤ length s
unfolding collapse
length-collapse previous [] = omega arith
length-collapse previous (c ∷ s) = ground (arith, length-collapse true s, length-collapse false s)

length-line_ends : (s : Bytes) → length (line_ends s) ≤ length s
unfolding line_ends
length-line_ends [] = omega arith
length-line_ends (c ∷ s) = ground (arith, length-line_ends s)

length-without_blank : (s : Bytes) → length (without_blank s) ≤ length s
length-without_blank s =
    let d = drop_blank_lines-DropsTo (length s) s (le_refl (length s)) in
    omega (
      arith,
      ap (λ (l : Bytes). length l) d.splits,
      length-append (without_blank s) (crlfs d.count),
    )

length-terminate : (s : Bytes) → length (terminate s) ≤ length s + 2
unfolding terminate is_empty
length-terminate s = ground (arith, length-append s crlf)

-- The relaxed body has at most two bytes more than the body.
pub length-relaxed : (body : Bytes) → length (canonicalize_body_relaxed body) ≤ length body + 2
length-relaxed body =
    let spaced = collapse false (replace body b'\t' space) in
    rw (relaxed_passes body) (
      omega (
        arith,
        length-terminate (without_blank (lines body)),
        length-without_blank (lines body),
        length-line_ends spaced,
        length-collapse false (replace body b'\t' space),
        length-replace body b'\t' space,
      ))

pub length-simple : (body : Bytes) → length (canonicalize_body_simple body) ≤ length body + 2
unfolding canonicalize_body_simple
length-simple [] = omega arith
length-simple (c ∷ s) = omega (arith, length-without_blank (c ∷ s))
