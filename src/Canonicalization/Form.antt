-- ===== src/Canonicalization/Form.antt =====
-- The relaxed body of src/canonicalization.rs, and the bodies that are empty lines only.
use dkim.Prelude.{
  ℕ, zero, suc, ◌≤◌, ◌≡◌, ◌≢◌, refl, sym, ap, ◌∙◌, ◌⊎◌, inl, inr, true, false, [], ◌∷◌, ◌++◌,
  append_assoc, arith, Bytes, length, ends_with, ends_with_split, ends_with-append, Bool-cases,
}
use dkim.Bytes.{replace}
use dkim.Canonicalization.Blank.{crlfs, crlfs-crlf, take_blank, drop_blank_lines_same}
use dkim.Canonicalization.Body.{
  IsRelaxed, relaxed_passes, lines, terminate_same, canonicalize_body_relaxed-IsRelaxed,
}
use dkim.Canonicalization.Spaces.Absence.{tab, two_spaces}
use dkim.Canonicalization.Spaces.{Absent, line_ends}
use dkim.Canonicalization.{
  space, crlf, blank_line, collapse, drop_blank_lines, canonicalize_body_relaxed,
}

-- Nothing, or one empty line, or a text whose last line has a CRLF and is not empty.
abbrev pub LastLine : Bytes → Type 0
LastLine b =
    (b ≡ [])
    ⊎ ((b ≡ crlf) ⊎ ((x : Bytes) × (b ≡ x ++ crlf) × (x ≢ []) × (ends_with x crlf ≡ false)))

ended-LastLine : (b x : Bytes) → ends_with b blank_line ≡ false → b ≡ x ++ crlf → LastLine b
ended-LastLine b [] h e = inr (inl e)
ended-LastLine b (c ∷ s) h e = elim (Bool-cases (ends_with (c ∷ s) crlf)) [
  | inl blank ↦
      let (q, split) = ends_with_split (c ∷ s) crlf blank in
      let whole : b ≡ q ++ blank_line = e ∙ ap (λ t. t ++ crlf) split ∙ append_assoc q crlf crlf in
      let found : ends_with b blank_line ≡ true =
        ap (λ t. ends_with t blank_line) whole ∙ ends_with-append q blank_line in
      absurd (cc)
  | inr fine ↦ inr (inr (c ∷ s, e, λ z. cc, fine))
]

IsRelaxed-LastLine : (b : Bytes) → IsRelaxed b → LastLine b
IsRelaxed-LastLine b r = elim r.ended [
  | inl e ↦ inl e
  | inr ends ↦ let (x, e) = ends_with_split b crlf ends in ended-LastLine b x r.no_two_crlfs e
]

-- The passes over the lines keep empty lines.
replace-crlfs : (k : ℕ) → replace (crlfs k) b'\t' space ≡ crlfs k
unfolding replace
replace-crlfs zero = refl
replace-crlfs (suc k) = rw (replace-crlfs k)

collapse-crlfs : (k : ℕ) → collapse false (crlfs k) ≡ crlfs k
unfolding collapse
collapse-crlfs zero = refl
collapse-crlfs (suc k) = rw (collapse-crlfs k)

line_ends-crlfs : (k : ℕ) → line_ends (crlfs k) ≡ crlfs k
unfolding line_ends
line_ends-crlfs zero = refl
line_ends-crlfs (suc k) = rw (line_ends-crlfs k)

lines-crlfs : (k : ℕ) → lines (crlfs k) ≡ crlfs k
lines-crlfs k = rw (replace-crlfs, collapse-crlfs, line_ends-crlfs)

-- Of a run of CRLFs one is left.
crlfs-blank : (n : ℕ) → crlfs (suc (suc n)) ≡ crlfs n ++ blank_line
crlfs-blank n =
    sym (crlfs-crlf (suc n))
    ∙ ap (λ t. t ++ crlf) (sym (crlfs-crlf n))
    ∙ append_assoc (crlfs n) crlf crlf

drop-blank :
    (fuel : ℕ) (p : Bytes)
    → drop_blank_lines (suc fuel) (p ++ blank_line) ≡ drop_blank_lines fuel (p ++ crlf)
unfolding drop_blank_lines
drop-blank fuel p = rw ends_with-append (rw take_blank)

drop-crlfs : (fuel n : ℕ) → n ≤ fuel → drop_blank_lines fuel (crlfs (suc n)) ≡ crlf
unfolding drop_blank_lines
drop-crlfs zero zero h = refl
drop-crlfs zero (suc n) h = absurd (omega arith)
drop-crlfs (suc fuel) zero h = drop_blank_lines_same (suc fuel) crlf (unfold ends_with in refl)
drop-crlfs (suc fuel) (suc n) h =
    ap (drop_blank_lines (suc fuel)) (crlfs-blank n)
    ∙ drop-blank fuel (crlfs n)
    ∙ ap (drop_blank_lines fuel) (crlfs-crlf n)
    ∙ drop-crlfs fuel n (omega (arith, h))

length-crlfs : (n : ℕ) → n ≤ length (crlfs (suc n))
length-crlfs zero = omega arith
length-crlfs (suc n) = omega (arith, length-crlfs n)

relaxed-crlfs : (n : ℕ) → canonicalize_body_relaxed (crlfs (suc n)) ≡ crlf
relaxed-crlfs n =
    rw (relaxed_passes, lines-crlfs, drop-crlfs (length (crlfs (suc n))) n (length-crlfs n))
      (terminate_same crlf (inr (unfold ends_with in refl)))

-- The relaxed body holds no tab and no two spaces in a row, and is nothing, or one CRLF, or a text
-- with one CRLF behind it that is not empty and does not itself end in a CRLF, for every body; and
-- of a body that is one or more CRLFs and nothing else the relaxed form is one CRLF.
pub canonicalize_body_relaxed_form :
    (body : Bytes) (n : ℕ)
    → Absent tab (canonicalize_body_relaxed body)
      × Absent two_spaces (canonicalize_body_relaxed body)
      × LastLine (canonicalize_body_relaxed body)
      × (canonicalize_body_relaxed (crlfs (suc n)) ≡ crlf)
canonicalize_body_relaxed_form body n =
    let r = canonicalize_body_relaxed-IsRelaxed body in
    (r.no_tab, r.no_two_spaces, IsRelaxed-LastLine _ r, relaxed-crlfs n)
