-- ===== src/Canonicalization/Open.antt =====
-- The relaxed body of src/canonicalization.rs where its last line is open.
use dkim.Prelude.{
  ℕ, ◌≡◌, ◌≢◌, refl, sym, ap, ◌∙◌, inl, inr, Bool, true, false, ◌&&◌, [], ◌∷◌, ◌++◌, append_assoc,
  arith, Bytes, starts_with, ends_with, ends_with_split, ends_with-append, Bool-cases, ◌==◌,
  if◌then◌else◌,
}
use mathlib.Core.List.{map-append}
use dkim.Bytes.{replace}
use dkim.Canonicalization.{
  space, crlf, space_crlf, collapse, terminate, is_empty, canonicalize_body_relaxed,
}
use dkim.Canonicalization.Blank.{drop_blank_lines_same}
use dkim.Canonicalization.Spaces.{line_ends}
use dkim.Canonicalization.Body.{relaxed_passes}

collapse_keeps_last :
    (previous : Bool) (s : Bytes)
    → (q : Bytes) × ((if previous then space ∷ [] else []) ++ collapse previous (s ++ space ∷ [])
        ≡ q ++ space ∷ [])
unfolding collapse
collapse_keeps_last true [] = ([], refl)
collapse_keeps_last false [] = ([], refl)
collapse_keeps_last true (c ∷ s) = elim (Bool-cases (c == space)) [
  | inl e ↦ let (q, h) = collapse_keeps_last true s in (q, ground arith)
  | inr e ↦ let (q, h) = collapse_keeps_last false s in (space ∷ c ∷ q, ground arith)
]
collapse_keeps_last false (c ∷ s) = elim (Bool-cases (c == space)) [
  | inl e ↦ let (q, h) = collapse_keeps_last true s in (q, ground arith)
  | inr e ↦ let (q, h) = collapse_keeps_last false s in (c ∷ q, ground arith)
]

line_ends_keeps_last : (s : Bytes) → (q : Bytes) × (line_ends (s ++ space ∷ []) ≡ q ++ space ∷ [])
unfolding line_ends starts_with
line_ends_keeps_last [] = ([], refl)
line_ends_keeps_last (c ∷ s) =
    let (q, e) = line_ends_keeps_last s in
    elim (Bool-cases (c == space && starts_with (q ++ space ∷ []) crlf)) [
      | inl gone ↦ (q, rw e (rw gone))
      | inr kept ↦ (c ∷ q, rw e (rw kept))
    ]

last : ℕ → Bytes → ℕ
last d [] = d
last d (x ∷ s) = last x s

last-append : (d : ℕ) (s : Bytes) (x : ℕ) → last d (s ++ x ∷ []) ≡ x
unfolding last
last-append d [] x = refl
last-append d (y ∷ s) x = last-append y s x

pub ends_with_other :
    (q t : Bytes) (x y : ℕ) → x ≢ y → ends_with (q ++ x ∷ []) (t ++ y ∷ []) ≡ false
ends_with_other q t x y ne = elim (Bool-cases (ends_with (q ++ x ∷ []) (t ++ y ∷ []))) [
  | inl ends ↦
      let (p, e) = ends_with_split (q ++ x ∷ []) (t ++ y ∷ []) ends in
      let e' : q ++ x ∷ [] ≡ (p ++ t) ++ y ∷ [] = e ∙ sym (append_assoc p t (y ∷ [])) in
      absurd (ne (sym (last-append 0 q x) ∙ ap (last 0) e' ∙ last-append 0 (p ++ t) y))
  | inr fine ↦ fine
]

terminate_open : (q : Bytes) → terminate (q ++ space ∷ []) ≡ q ++ space_crlf
unfolding terminate is_empty
terminate_open [] = unfold ends_with in refl
terminate_open (c ∷ q) =
    rw (ends_with_other (c ∷ q) (b'\r' ∷ []) space b'\n' (omega arith))
      (append_assoc (c ∷ q) (space ∷ []) crlf)

replace-space :
    (s : Bytes) → replace (s ++ space ∷ []) b'\t' space ≡ replace s b'\t' space ++ space ∷ []
unfolding replace
replace-space s = map-append _ s (space ∷ [])

-- The relaxed form of a body that ends in a space ends in a space and a CRLF.
pub relaxed_keeps_space :
    (s : Bytes) → ends_with (canonicalize_body_relaxed (s ++ space ∷ [])) space_crlf ≡ true
relaxed_keeps_space s =
    let (q, one_space) = collapse_keeps_last false (replace s b'\t' space) in
    let (r, stripped) = line_ends_keeps_last q in
    let open_line = ends_with_other r (b'\r' ∷ b'\n' ∷ b'\r' ∷ []) space b'\n' (omega arith) in
    rw
      (
        relaxed_passes (s ++ space ∷ []),
        replace-space s,
        one_space,
        stripped,
        drop_blank_lines_same _ (r ++ space ∷ []) open_line,
        terminate_open r,
      )
      (ends_with-append r space_crlf)
