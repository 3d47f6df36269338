-- ===== src/Canonicalization/Body.antt =====
-- The relaxed body of src/canonicalization.rs: its passes and the form of its result.
use dkim.Prelude.{
  ℕ, zero, suc, ◌≡◌, ◌≢◌, refl, sym, ap, ◌∙◌, ◌⊎◌, inl, inr, Bool, true, false, ◌&&◌, [], ◌∷◌, ◌++◌,
  append_assoc, append-nil, arith, Bytes, length, beq, starts_with, ends_with, ends_with_split,
  ends_with-append, Bool-cases, ◌==◌,
}
use mathlib.Core.List.{map-append, append_cancel_right}
use native.Mathlib.Nat.{le_refl}
use dkim.Bytes.{replace, find}
use dkim.Canonicalization.{
  space, crlf, blank_line, space_crlf, collapse, drop_blank_lines, terminate, is_empty,
  canonicalize_body_relaxed,
}
use dkim.Canonicalization.Blank.{
  drop_blank_lines-DropsTo, drop_blank_lines_same, pop_blank_lines-drop_blank_lines, crlfs,
}
use dkim.Canonicalization.Spaces.{
  Absent, line_ends, line_ends-Absent_at_end, strip_line_ends-line_ends, collapse-Absent_pairs,
}
use dkim.Canonicalization.Spaces.Absence.{
  tab, two_spaces, replace-Absent, replace_same, collapse-Absent, collapse-Absent_two,
  line_ends-Absent, line_ends-Absent_two, line_ends-Absent_space, Absent-prefix, Absent-append,
  Absent-two-append,
}

-- The passes over the lines, each in one go.
abbrev pub lines : Bytes → Bytes
lines body = line_ends (collapse false (replace body b'\t' space))

abbrev pub without_blank : Bytes → Bytes
without_blank s = drop_blank_lines (length s) s

-- The loops of the relaxed body end, and together make these passes.
pub relaxed_passes :
    (body : Bytes) → canonicalize_body_relaxed body ≡ terminate (without_blank (lines body))
unfolding canonicalize_body_relaxed
relaxed_passes body =
    let s = collapse false (replace body b'\t' space) in
    rw (
      strip_line_ends-line_ends (length s) s (le_refl (length s)),
      pop_blank_lines-drop_blank_lines,
    )

-- The form of a relaxed body, whatever the input is: of a run of CRLFs at its end one is left, also
-- when there is nothing else.
pub record IsRelaxed (b : Bytes) : Type 0 where
  pub no_tab : Absent tab b
  pub no_two_spaces : Absent two_spaces b
  pub no_two_crlfs : ends_with b blank_line ≡ false
  pub ended : (b ≡ []) ⊎ (ends_with b crlf ≡ true)

-- A body that ends in CRLF, as every message in transit does, or is empty.
abbrev pub IsTerminated : Bytes → Type 0
IsTerminated b = (b ≡ []) ⊎ (ends_with b crlf ≡ true)

without_blank-Absent : (p s : Bytes) → p ≢ [] → Absent p s → Absent p (without_blank s)
without_blank-Absent p s ne h =
    let d = drop_blank_lines-DropsTo (length s) s (le_refl (length s)) in
    Absent-prefix p (without_blank s) (crlfs d.count) ne (ap (λ r. find r p) (sym d.splits) ∙ h)

terminate-cases :
    (s : Bytes)
    → ((IsTerminated s) × (terminate s ≡ s))
      ⊎ ((ends_with s crlf ≡ false) × (terminate s ≡ s ++ crlf))
unfolding terminate is_empty
terminate-cases [] = inl (inl refl, refl)
terminate-cases (c ∷ s) = elim (Bool-cases (ends_with (c ∷ s) crlf)) [
  | inl ends ↦ inl (inr ends, rw ends)
  | inr open_end ↦ inr (open_end, rw open_end)
]

blank_needs_crlf : (s : Bytes) → ends_with s crlf ≡ false → ends_with (s ++ crlf) blank_line ≡ false
blank_needs_crlf s h = elim (Bool-cases (ends_with (s ++ crlf) blank_line)) [
  | inl blank ↦
      let (p, e) = ends_with_split (s ++ crlf) blank_line blank in
      let same : s ≡ p ++ crlf =
        append_cancel_right s (p ++ crlf) crlf (e ∙ sym (append_assoc p crlf crlf)) in
      absurd (cc (ends_with-append p crlf))
  | inr fine ↦ fine
]

crlf_lacks : Absent tab crlf × Absent two_spaces crlf × (starts_with crlf (space ∷ []) ≡ false)
unfolding find beq starts_with
crlf_lacks = (refl, refl, refl)

IsRelaxed-terminate :
    (s : Bytes)
    → Absent tab s
    → Absent two_spaces s
    → ends_with s blank_line ≡ false
    → IsRelaxed (terminate s)
IsRelaxed-terminate s tabs twos blank = elim (terminate-cases s) [
  | inl (ended, e) ↦
      rw e (record { no_tab = tabs; no_two_spaces = twos; no_two_crlfs = blank; ended = ended })
  | inr (open_end, e) ↦ rw e (record {
    no_tab = Absent-append b'\t' s crlf tabs crlf_lacks.0;
    no_two_spaces = Absent-two-append s crlf twos crlf_lacks.1 crlf_lacks.2;
    no_two_crlfs = blank_needs_crlf s open_end;
    ended = inr (ends_with-append s crlf);
  })
]

pub canonicalize_body_relaxed-IsRelaxed :
    (body : Bytes) → IsRelaxed (canonicalize_body_relaxed body)
canonicalize_body_relaxed-IsRelaxed body =
    let tabs =
      collapse-Absent false (replace body b'\t' space) b'\t'
        (replace-Absent body b'\t' space (omega arith)) in
    let twos = collapse-Absent_two false (replace body b'\t' space) in
    let d = drop_blank_lines-DropsTo (length (lines body)) (lines body) (le_refl _) in
    rw (relaxed_passes body) (
      IsRelaxed-terminate (without_blank (lines body))
        (without_blank-Absent tab (lines body) (λ e. cc) (line_ends-Absent _ b'\t' tabs))
        (without_blank-Absent two_spaces (lines body) (λ e. cc) (line_ends-Absent_two _ twos))
        d.none_left)

collapse-crlf :
    (previous : Bool) (s : Bytes) → collapse previous (s ++ crlf) ≡ collapse previous s ++ crlf
unfolding collapse
collapse-crlf previous [] = refl
collapse-crlf previous (c ∷ s) = ground (arith, collapse-crlf true s, collapse-crlf false s)

line_ends-crlf : (s : Bytes) → (q : Bytes) × (line_ends (s ++ crlf) ≡ q ++ crlf)
unfolding line_ends
line_ends-crlf [] = ([], refl)
line_ends-crlf (c ∷ s) =
    let (q, e) = line_ends-crlf s in
    elim (Bool-cases (c == space && starts_with (q ++ crlf) crlf)) [
      | inl gone ↦ (q, rw e (rw gone))
      | inr kept ↦ (c ∷ q, rw e (rw kept))
    ]

replace-crlf : (s : Bytes) → replace (s ++ crlf) b'\t' space ≡ replace s b'\t' space ++ crlf
unfolding replace
replace-crlf s = map-append _ s crlf

lines-crlf : (s : Bytes) → ends_with (lines (s ++ crlf)) crlf ≡ true
lines-crlf s =
    let (q, e) = line_ends-crlf (collapse false (replace s b'\t' space)) in
    rw (replace-crlf, collapse-crlf, e) (ends_with-append q crlf)

without_blank-crlf : (s : Bytes) → ends_with s crlf ≡ true → ends_with (without_blank s) crlf ≡ true
without_blank-crlf s h =
    let d = drop_blank_lines-DropsTo (length s) s (le_refl (length s)) in
    ended_of_count (without_blank s) d.count d.splits h d.keeps_one
  where
    ended_of_count :
        (r : Bytes) (k : ℕ)
        → s ≡ r ++ crlfs k
        → ends_with s crlf ≡ true
        → (k ≢ 0 → ends_with r crlf ≡ true)
        → ends_with r crlf ≡ true
    ended_of_count r zero e h keeps = ap (λ t. ends_with t crlf) (sym (e ∙ append-nil r)) ∙ h
    ended_of_count r (suc k) e h keeps = keeps (λ z. cc)

lines_nil : without_blank (lines []) ≡ []
unfolding drop_blank_lines line_ends collapse replace
lines_nil = refl

pub lines-IsTerminated :
    (body : Bytes) → IsTerminated body → IsTerminated (without_blank (lines body))
lines-IsTerminated body (inl e) = inl (rw e lines_nil)
lines-IsTerminated body (inr ends) =
    let (p, e) = ends_with_split body crlf ends in
    inr (without_blank-crlf (lines body) (rw e (lines-crlf p)))

pub terminate_same : (s : Bytes) → IsTerminated s → terminate s ≡ s
unfolding terminate is_empty
terminate_same [] t = refl
terminate_same (c ∷ s) (inl e) = cc
terminate_same (c ∷ s) (inr ends) = rw ends

-- The relaxed form of a body that is empty or ends in CRLF has no space before a CRLF.
pub canonicalize_body_relaxed-Absent_space :
    (body : Bytes) → IsTerminated body → Absent space_crlf (canonicalize_body_relaxed body)
canonicalize_body_relaxed-Absent_space body t =
    rw (relaxed_passes body, terminate_same _ (lines-IsTerminated body t))
      (without_blank-Absent space_crlf (lines body) (λ e. cc) (line_ends-Absent_space _))

-- A body in canonical form stays as it is.
pub relaxed_same : (b : Bytes) → IsRelaxed b → Absent space_crlf b → canonicalize_body_relaxed b ≡ b
relaxed_same b r h =
    rw
      (
        relaxed_passes b,
        replace_same b b'\t' space r.no_tab,
        collapse-Absent_pairs b r.no_two_spaces,
        line_ends-Absent_at_end b h,
        drop_blank_lines_same (length b) b r.no_two_crlfs,
      )
      (terminate_same b r.ended)

-- Canonicalizing a body that is empty or ends in CRLF twice by the relaxed algorithm is
-- canonicalizing it once.
pub canonicalize_body_relaxed_idem :
    (body : Bytes)
    → IsTerminated body
    → canonicalize_body_relaxed (canonicalize_body_relaxed body) ≡ canonicalize_body_relaxed body
canonicalize_body_relaxed_idem body t =
    relaxed_same (canonicalize_body_relaxed body) (canonicalize_body_relaxed-IsRelaxed body)
      (canonicalize_body_relaxed-Absent_space body t)
