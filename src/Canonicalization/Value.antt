-- ===== src/Canonicalization/Value.antt =====
-- The relaxed form of a header's value in src/canonicalization.rs.
pub mod Folding
use dkim.Prelude.{
  ℕ, zero, suc, ◌+◌, ◌-◌, ◌≤◌, ◌≡◌, ◌≢◌, refl, sym, ap, ◌∙◌, inl, inr, Bool, true, false, ◌&&◌,
  ◌||◌, [], ◌∷◌, ◌++◌, append_assoc, append-nil, map, arith, Bytes, length, remove, starts_with,
  ends_with, ends_with_split, ends_with-append, length-append, Bool-cases, ◌==◌, if◌then◌else◌,
}
use mathlib.Core.List.{map-append}
use native.Mathlib.Nat.{le_refl}
use dkim.Bytes.{find, replace, replace_slice}
use dkim.Bytes.Find.{find-nil, find-none_tail}
use dkim.Bytes.Replace.{replaced, replaced_match, replace_slice-replaced}
use dkim.Canonicalization.{
  space, crlf, collapse, drop_back, drop_front, remove_last, canonicalize_header_value_relaxed,
}
use dkim.Canonicalization.Blank.{remove_last-append}
use dkim.Canonicalization.Open.{ends_with_other}
use dkim.Canonicalization.Spaces.{Absent, Absent-cons, Absent-head}
use dkim.Canonicalization.Spaces.Absence.{
  tab, two_spaces, one_byte, replace-Absent, replace_same, collapse-Absent, collapse-Absent_two,
  Absent-prefix,
}
use dkim.Canonicalization.Visible.{visible, visible-append, visible-collapse}

abbrev pub sp : Bytes
sp = space ∷ []

-- `result` is `value` without the spaces at its front.
pub record Front (value result : Bytes) : Type 0 where
  pub dropped : Bytes
  pub splits : value ≡ dropped ++ result
  pub blank : visible dropped ≡ []
  pub none_left : starts_with result sp ≡ false

-- `result` is `value` without the spaces at its back.
pub record Back (value result : Bytes) : Type 0 where
  pub dropped : Bytes
  pub splits : value ≡ result ++ dropped
  pub blank : visible dropped ≡ []
  pub none_left : ends_with result sp ≡ false

Front-same : (value : Bytes) → starts_with value sp ≡ false → Front value value
Front-same value h = record { dropped = []; splits = refl; blank = refl; none_left = h }

Back-same : (value : Bytes) → ends_with value sp ≡ false → Back value value
Back-same value h = record {
  dropped = [];
  splits = sym (append-nil value);
  blank = refl;
  none_left = h;
}

Front-cons :
    (c : ℕ) {s result : Bytes}
    → starts_with (c ∷ s) sp ≡ true
    → Front s result
    → Front (c ∷ s) result
unfolding starts_with
Front-cons c h f = record {
  dropped = c ∷ f.dropped;
  splits = ap (◌∷◌ c) f.splits;
  blank = ground (arith, f.blank);
  none_left = f.none_left;
}

Back-concat : (p : Bytes) {result : Bytes} → Back p result → Back (p ++ sp) result
Back-concat p {result} b = record {
  dropped = b.dropped ++ sp;
  splits = ap (λ r. r ++ sp) b.splits ∙ append_assoc result b.dropped sp;
  blank = visible-append b.dropped sp ∙ ap (λ r. r ++ []) b.blank;
  none_left = b.none_left;
}

pub drop_front-Front :
    (fuel : ℕ) (value : Bytes) → length value ≤ fuel → Front value (drop_front fuel value)
unfolding drop_front
drop_front-Front zero [] h = Front-same [] (unfold starts_with in refl)
drop_front-Front zero (c ∷ s) h = absurd (omega arith)
drop_front-Front (suc fuel) [] h =
    let none : starts_with [] sp ≡ false = unfold starts_with in refl in
    rw none (Front-same [] none)
drop_front-Front (suc fuel) (c ∷ s) h = elim (Bool-cases (starts_with (c ∷ s) sp)) [
  | inl more ↦ rw more (Front-cons c more (drop_front-Front fuel s (omega arith)))
  | inr done ↦ rw done (Front-same (c ∷ s) done)
]

pub drop_back-Back :
    (fuel : ℕ) (value : Bytes) → length value ≤ fuel → Back value (drop_back fuel value)
unfolding drop_back
drop_back-Back zero [] h = Back-same [] (unfold ends_with in refl)
drop_back-Back zero (c ∷ s) h = absurd (omega arith)
drop_back-Back (suc fuel) value h = elim (Bool-cases (ends_with value sp)) [
  | inl more ↦
      let (p, e) = ends_with_split value sp more in
      let shorter : length p ≤ fuel = omega (arith, ap length e, length-append p sp) in
      rw more (rw e (rw remove_last-append (Back-concat p (drop_back-Back fuel p shorter))))
  | inr done ↦ rw done (Back-same value done)
]

-- The value with its tabs made spaces and its CRLFs taken out.
abbrev pub unfolded : Bytes → Bytes
unfolded value = replaced crlf [] 0 (replace value b'\t' space)

abbrev trimmed_back : Bytes → Bytes
trimmed_back s = drop_back (length s) s

abbrev trimmed : Bytes → Bytes
trimmed s = let back = trimmed_back s in drop_front (length back) back

value_passes :
    (value : Bytes)
    → canonicalize_header_value_relaxed value ≡ collapse false (trimmed (unfolded value))
unfolding canonicalize_header_value_relaxed
value_passes value = rw (replace_slice-replaced (replace value b'\t' space) crlf [] (λ e. cc))

trimmed_back-Back : (s : Bytes) → Back s (trimmed_back s)
trimmed_back-Back s = drop_back-Back (length s) s (le_refl (length s))

trimmed-Front : (s : Bytes) → Front (trimmed_back s) (trimmed s)
trimmed-Front s = drop_front-Front (length (trimmed_back s)) (trimmed_back s) (le_refl _)

Absent-cons_other :
    (b c : ℕ) (s t : Bytes) → Absent (b ∷ []) (c ∷ s) → Absent (b ∷ []) t → Absent (b ∷ []) (c ∷ t)
Absent-cons_other b c s t h a =
    Absent-cons (b ∷ []) c t (one_byte c b t ∙ sym (one_byte c b s) ∙ Absent-head (b ∷ []) c s h) a

-- Taking out CRLFs brings in no byte.
replaced-Absent :
    (s : Bytes) (skip b : ℕ) → Absent (b ∷ []) s → Absent (b ∷ []) (replaced crlf [] skip s)
unfolding replaced
replaced-Absent [] skip b h = h
replaced-Absent (c ∷ s) zero b h =
    let rest = find-none_tail c s (b ∷ []) h in
    let keep = Absent-cons_other b c s (replaced crlf [] 0 s) h (replaced-Absent s 0 b rest) in
    ground (arith, keep, replaced-Absent s 1 b rest)
replaced-Absent (c ∷ s) (suc skip) b h = replaced-Absent s skip b (find-none_tail c s (b ∷ []) h)

suffix-Absent : (p s t : Bytes) → Absent p (s ++ t) → Absent p t
suffix-Absent p [] t h = h
suffix-Absent p (x ∷ s) t h = suffix-Absent p s t (find-none_tail x (s ++ t) p h)

starts-collapse : (s : Bytes) → starts_with s sp ≡ false → starts_with (collapse false s) sp ≡ false
unfolding collapse starts_with
starts-collapse [] h = refl
starts-collapse (c ∷ s) h = ground arith

ends_with_shorter : (d t p : Bytes) → ends_with (d ++ t) p ≡ false → ends_with t p ≡ false
ends_with_shorter d t p h = elim (Bool-cases (ends_with t p)) [
  | inl ends ↦
      let (q, e) = ends_with_split t p ends in
      let whole : d ++ t ≡ (d ++ q) ++ p = ap (λ r. d ++ r) e ∙ sym (append_assoc d q p) in
      absurd (cc (ends_with-append (d ++ q) p))
  | inr fine ↦ fine
]

trimmed_ends : (s : Bytes) → ends_with (trimmed s) sp ≡ false
trimmed_ends s =
    let f = trimmed-Front s in
    ends_with_shorter f.dropped (trimmed s) sp
      (ap (λ r. ends_with r sp) (sym f.splits) ∙ (trimmed_back-Back s).none_left)

last_view : (c : ℕ) (s : Bytes) → (q : Bytes) × (x : ℕ) × (c ∷ s ≡ q ++ x ∷ [])
last_view c [] = ([], c, refl)
last_view c (d ∷ s) = let (q, x, e) = last_view d s in (c ∷ q, x, ap (◌∷◌ c) e)

collapse_keeps_end :
    (previous : Bool) (s : Bytes) (x : ℕ)
    → x ≢ space
    → (q : Bytes) × (collapse previous (s ++ x ∷ []) ≡ q ++ x ∷ [])
unfolding collapse
collapse_keeps_end previous [] x ne = ([], ground arith)
collapse_keeps_end true (c ∷ s) x ne = elim (Bool-cases (c == space)) [
  | inl e ↦ let (q, h) = collapse_keeps_end true s x ne in (q, ground arith)
  | inr e ↦ let (q, h) = collapse_keeps_end false s x ne in (c ∷ q, ground arith)
]
collapse_keeps_end false (c ∷ s) x ne = elim (Bool-cases (c == space)) [
  | inl e ↦ let (q, h) = collapse_keeps_end true s x ne in (c ∷ q, ground arith)
  | inr e ↦ let (q, h) = collapse_keeps_end false s x ne in (c ∷ q, ground arith)
]

ends-collapse : (s : Bytes) → ends_with s sp ≡ false → ends_with (collapse false s) sp ≡ false
ends-collapse [] h = unfold collapse in h
ends-collapse (c ∷ s) h =
    let (q, x, e) = last_view c s in
    let ne : x ≢ space = λ same. cc (ends_with-append q sp) in
    let (r, e') = collapse_keeps_end false q x ne in rw (e, e') (ends_with_other r [] x space ne)

-- The form of a relaxed value.
pub record IsRelaxedValue (v : Bytes) : Type 0 where
  pub no_tab : Absent tab v
  pub no_two_spaces : Absent two_spaces v
  pub no_space_before : starts_with v sp ≡ false
  pub no_space_behind : ends_with v sp ≡ false

-- A relaxed header value holds no tab and no two spaces in a row, and neither starts nor ends with
-- a space, for every value.
pub value-IsRelaxedValue :
    (value : Bytes) → IsRelaxedValue (canonicalize_header_value_relaxed value)
value-IsRelaxedValue value =
    let s = unfolded value in
    let tabs =
      replaced-Absent (replace value b'\t' space) 0 b'\t'
        (replace-Absent value b'\t' space (omega arith)) in
    let back = trimmed_back-Back s in
    let front = trimmed-Front s in
    let tabs_back =
      Absent-prefix tab (trimmed_back s) back.dropped (λ e. cc)
        (ap (λ r. find r tab) (sym back.splits) ∙ tabs) in
    let tabs_front =
      suffix-Absent tab front.dropped (trimmed s)
        (ap (λ r. find r tab) (sym front.splits) ∙ tabs_back) in
    rw (value_passes value) (record {
      no_tab = collapse-Absent false (trimmed s) b'\t' tabs_front;
      no_two_spaces = collapse-Absent_two false (trimmed s);
      no_space_before = starts-collapse (trimmed s) front.none_left;
      no_space_behind = ends-collapse (trimmed s) (trimmed_ends s);
    })
