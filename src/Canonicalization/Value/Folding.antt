-- ===== src/Canonicalization/Value/Folding.antt =====
-- Folded lines in a header's value, and what its relaxed form in src/canonicalization.rs keeps.
use dkim.Prelude.{
  ℕ, zero, suc, ◌≡◌, refl, sym, ap, ◌∙◌, inl, inr, true, false, ◌&&◌, [], ◌∷◌, ◌++◌, append-nil,
  arith, Bytes, length, starts_with, ends_with, Bool-cases, ◌==◌,
}
use mathlib.Core.List.{map-append}
use dkim.Bytes.{replace}
use dkim.Bytes.Find.{find-none_tail}
use dkim.Bytes.Replace.{replaced, replaced_match, replaced_miss}
use dkim.Canonicalization.{
  space, crlf, drop_back, drop_front, canonicalize_header_value_relaxed,
  canonicalize_header_relaxed,
}
use dkim.Canonicalization.Spaces.{Absent, Absent-head, collapse-Absent_pairs}
use dkim.Canonicalization.Spaces.Absence.{replace_same}
use dkim.Canonicalization.Value.{
  sp, unfolded, trimmed, trimmed_back, value_passes, trimmed_back-Back, trimmed-Front,
  IsRelaxedValue, value-IsRelaxedValue,
}
use dkim.Canonicalization.Visible.{visible, visible-append, visible-collapse, visible-replace}
use dkim.Str.{Unicode}

abbrev line_feed : Bytes
line_feed = b'\n' ∷ []

seam : (x : ℕ) (b : Bytes) → starts_with b line_feed ≡ false → starts_with (x ∷ b) crlf ≡ false
unfolding starts_with
seam x [] h = ground arith
seam x (y ∷ b) h = ground arith

two_bytes : (x y : ℕ) (s : Bytes) → starts_with (x ∷ y ∷ s) crlf ≡ (x == b'\r' && y == b'\n')
unfolding starts_with
two_bytes x y s = ground arith

one_crlf : (x : ℕ) → starts_with (x ∷ []) crlf ≡ false
unfolding starts_with
one_crlf x = ground arith

replaced-crlf :
    (x y : ℕ) (s : Bytes)
    → starts_with (x ∷ y ∷ s) crlf ≡ true
    → replaced crlf [] 0 (x ∷ y ∷ s) ≡ replaced crlf [] 0 s
unfolding replaced
replaced-crlf x y s h = rw (h, replaced)

-- No CRLF lies across the two parts, so they are read one after the other.
replaced-append :
    (a b : Bytes)
    → starts_with b line_feed ≡ false
    → replaced crlf [] 0 (a ++ b) ≡ replaced crlf [] 0 a ++ replaced crlf [] 0 b
replaced-append [] b h = unfold replaced in refl
replaced-append (x ∷ []) b h =
    rw (replaced_miss crlf [] x b (seam x b h), replaced_miss crlf [] x [] (one_crlf x))
      (unfold replaced in refl)
replaced-append (x ∷ y ∷ a) b h = elim (Bool-cases (x == b'\r' && y == b'\n')) [
  | inl hit ↦
      rw
        (
          replaced-crlf x y (a ++ b) (two_bytes x y (a ++ b) ∙ hit),
          replaced-crlf x y a (two_bytes x y a ∙ hit),
        )
        (replaced-append a b h)
  | inr miss ↦
      rw
        (
          replaced_miss crlf [] x (y ∷ (a ++ b)) (two_bytes x y (a ++ b) ∙ miss),
          replaced_miss crlf [] x (y ∷ a) (two_bytes x y a ∙ miss),
        )
        (ap (◌∷◌ x) (replaced-append (y ∷ a) b h))
]

replace-append :
    (a b : Bytes) → replace (a ++ b) b'\t' space ≡ replace a b'\t' space ++ replace b b'\t' space
unfolding replace
replace-append a b = map-append _ a b

replace-line_feed :
    (b : Bytes)
    → starts_with b line_feed ≡ false
    → starts_with (replace b b'\t' space) line_feed ≡ false
unfolding replace starts_with
replace-line_feed [] h = refl
replace-line_feed (c ∷ b) h = ground arith

unfolded-append :
    (a b : Bytes) → starts_with b line_feed ≡ false → unfolded (a ++ b) ≡ unfolded a ++ unfolded b
unfolded-append a b h =
    rw (replace-append a b)
      (replaced-append (replace a b'\t' space) (replace b b'\t' space) (replace-line_feed b h))

unfolded-crlf : (b : Bytes) → unfolded (crlf ++ b) ≡ unfolded b
unfolding replace
unfolded-crlf b = replaced_match crlf [] (replace b b'\t' space) (λ e. cc)

-- A CRLF put into a header's value before any byte but a line feed does not show in the relaxed
-- header.
pub relaxed_fold :
    (unicode : Unicode) (key a b : Bytes)
    → starts_with b line_feed ≡ false
    → canonicalize_header_relaxed unicode key (a ++ (crlf ++ b))
      ≡ canonicalize_header_relaxed unicode key (a ++ b)
unfolding canonicalize_header_relaxed
relaxed_fold unicode key a b h =
    let folded : starts_with (crlf ++ b) line_feed ≡ false = unfold starts_with in refl in
    let same : unfolded (a ++ (crlf ++ b)) ≡ unfolded (a ++ b) =
      unfolded-append a (crlf ++ b) folded
      ∙ ap (λ r. unfolded a ++ r) (unfolded-crlf b)
      ∙ sym (unfolded-append a b h) in
    rw (value_passes (a ++ (crlf ++ b)), value_passes (a ++ b), same)

-- A value in relaxed form that holds no CRLF stays as it is.
replaced_same : (s : Bytes) → Absent crlf s → replaced crlf [] 0 s ≡ s
replaced_same [] h = unfold replaced in refl
replaced_same (c ∷ s) h =
    rw (replaced_miss crlf [] c s (Absent-head crlf c s h))
      (ap (◌∷◌ c) (replaced_same s (find-none_tail c s crlf h)))

drop_back_same : (fuel : ℕ) (s : Bytes) → ends_with s sp ≡ false → drop_back fuel s ≡ s
unfolding drop_back
drop_back_same zero s h = refl
drop_back_same (suc fuel) s h = rw h

drop_front_same : (fuel : ℕ) (s : Bytes) → starts_with s sp ≡ false → drop_front fuel s ≡ s
unfolding drop_front
drop_front_same zero s h = refl
drop_front_same (suc fuel) s h = rw h

value_same :
    (v : Bytes) → IsRelaxedValue v → Absent crlf v → canonicalize_header_value_relaxed v ≡ v
value_same v r h =
    rw
      (
        value_passes v,
        replace_same v b'\t' space r.no_tab,
        replaced_same v h,
        drop_back_same (length v) v r.no_space_behind,
        drop_front_same (length v) v r.no_space_before,
      )
      (collapse-Absent_pairs v r.no_two_spaces)

-- Relaxing a value twice is relaxing it once, where no CRLF is left after the first time.
pub value_idem :
    (value : Bytes)
    → Absent crlf (canonicalize_header_value_relaxed value)
    → canonicalize_header_value_relaxed (canonicalize_header_value_relaxed value)
      ≡ canonicalize_header_value_relaxed value
value_idem value h =
    value_same (canonicalize_header_value_relaxed value) (value-IsRelaxedValue value) h

visible-trimmed : (s : Bytes) → visible (trimmed s) ≡ visible s
visible-trimmed s =
    let back = trimmed_back-Back s in
    let front = trimmed-Front s in
    let whole : visible s ≡ visible (trimmed_back s) =
      ap visible back.splits
      ∙ visible-append (trimmed_back s) back.dropped
      ∙ ap (λ r. visible (trimmed_back s) ++ r) back.blank
      ∙ append-nil _ in
    sym (
      whole
      ∙ ap visible front.splits
      ∙ visible-append front.dropped (trimmed s)
      ∙ ap (λ r. r ++ visible (trimmed s)) front.blank)

starts-replace : (s : Bytes) → starts_with (replace s b'\t' space) crlf ≡ starts_with s crlf
unfolding replace starts_with
starts-replace [] = refl
starts-replace (c ∷ []) = ground arith
starts-replace (c ∷ d ∷ s) = ground arith

-- Taking out CRLFs and making tabs spaces can change places.
replaced-replace :
    (s : Bytes) (skip : ℕ)
    → replaced crlf [] skip (replace s b'\t' space) ≡ replace (replaced crlf [] skip s) b'\t' space
unfolding replaced replace
replaced-replace [] skip = refl
replaced-replace (c ∷ s) zero =
    ground (arith, starts-replace (c ∷ s), replaced-replace s 0, replaced-replace s 1)
replaced-replace (c ∷ s) (suc skip) = replaced-replace s skip

-- The relaxed value has the bytes of the value other than spaces and tabs, without its CRLFs.
pub visible-value :
    (value : Bytes)
    → visible (canonicalize_header_value_relaxed value) ≡ visible (replaced crlf [] 0 value)
visible-value value = rw (value_passes value) (
    visible-collapse false (trimmed (unfolded value))
    ∙ visible-trimmed (unfolded value)
    ∙ ap visible (replaced-replace value 0)
    ∙ visible-replace (replaced crlf [] 0 value))
