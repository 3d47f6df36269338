-- ===== src/Canonicalization/Visible.antt =====
-- The visible bytes of a body, before and after the relaxed form of src/canonicalization.rs.
use dkim.Prelude.{
  ℕ, zero, suc, ◌≡◌, refl, sym, ap, ◌∙◌, Bool, true, false, ◌||◌, [], ◌∷◌, ◌++◌, arith, Bytes,
  length, ◌==◌, if◌then◌else◌,
}
use native.Mathlib.Nat.{le_refl}
use dkim.Bytes.{replace}
use dkim.Canonicalization.{space, collapse, canonicalize_body_relaxed}
use dkim.Canonicalization.Blank.{drop_blank_lines-DropsTo, crlfs}
use dkim.Canonicalization.Body.{
  lines, without_blank, relaxed_passes, IsTerminated, lines-IsTerminated, terminate_same,
}
use dkim.Canonicalization.Spaces.{line_ends}

-- The bytes that are no space and no tab.
abbrev pub visible : Bytes → Bytes
visible [] = []
visible (c ∷ s) = if c == space || c == b'\t' then visible s else c ∷ visible s

pub visible-append : (s t : Bytes) → visible (s ++ t) ≡ visible s ++ visible t
visible-append [] t = refl
visible-append (c ∷ s) t = ground (arith, visible-append s t)

visible-crlfs : (k : ℕ) → visible (crlfs k) ≡ crlfs k
visible-crlfs zero = refl
visible-crlfs (suc k) = rw (visible-crlfs k)

pub visible-replace : (s : Bytes) → visible (replace s b'\t' space) ≡ visible s
unfolding replace
visible-replace [] = refl
visible-replace (c ∷ s) = ground (arith, visible-replace s)

pub visible-collapse : (previous : Bool) (s : Bytes) → visible (collapse previous s) ≡ visible s
unfolding collapse
visible-collapse previous [] = refl
visible-collapse previous (c ∷ s) =
    ground (arith, visible-collapse true s, visible-collapse false s)

visible-line_ends : (s : Bytes) → visible (line_ends s) ≡ visible s
unfolding line_ends
visible-line_ends [] = refl
visible-line_ends (c ∷ s) = ground (arith, visible-line_ends s)

visible-lines : (body : Bytes) → visible (lines body) ≡ visible body
visible-lines body =
    visible-line_ends _ ∙ visible-collapse false (replace body b'\t' space) ∙ visible-replace body

-- The relaxed form of a body that is empty or ends in CRLF has the same bytes other than spaces
-- and tabs, but for CRLFs at its end.
pub visible-relaxed :
    (body : Bytes)
    → IsTerminated body
    → (k : ℕ) × (visible body ≡ visible (canonicalize_body_relaxed body) ++ crlfs k)
visible-relaxed body t =
    let d = drop_blank_lines-DropsTo (length (lines body)) (lines body) (le_refl _) in
    let same : canonicalize_body_relaxed body ≡ without_blank (lines body) =
      relaxed_passes body ∙ terminate_same _ (lines-IsTerminated body t) in
    (
      d.count,
      rw same (
          sym (visible-lines body)
          ∙ ap visible d.splits
          ∙ visible-append (without_blank (lines body)) (crlfs d.count)
          ∙ ap (λ r. visible (without_blank (lines body)) ++ r) (visible-crlfs d.count)),
    )
