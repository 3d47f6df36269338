-- ===== src/Bytes/Replace.antt =====
-- `replace_slice` of src/bytes.rs against a single pass from the left.
use dkim.Prelude.{
  ℕ, zero, suc, ◌+◌, ◌-◌, ◌≤◌, ◌<◌, ◌≡◌, refl, sym, ap, ◌∙◌, ◌≢◌, inl, inr, true, false, [], ◌∷◌,
  ◌++◌, append_assoc, arith, Bytes, length, drop, length-append, take-append, drop-append,
  length-drop, starts_with, starts_with_split, starts_with-append, leb, leb→le, Bool-cases,
}
use dkim.Bytes.Find.{starts_with_short}
use dkim.Bytes.{replace_loop, replace_slice, splice}

-- `str::replace`, one pass from the left: the matches do not overlap, and what is put in is not
-- read again. The number counts the bytes of a match that are still to be skipped.
unfoldable pub replaced : Bytes → Bytes → ℕ → Bytes → Bytes
replaced from to skip [] = []
replaced from to zero (x ∷ xs) = elim (starts_with (x ∷ xs) from) [
  | true ↦ to ++ replaced from to (length from - 1) xs
  | false ↦ x ∷ replaced from to 0 xs
]
replaced from to (suc skip) (x ∷ xs) = replaced from to skip xs

replaced_skip :
    (from to p rest : Bytes) → replaced from to (length p) (p ++ rest) ≡ replaced from to 0 rest
unfolding replaced
replaced_skip from to [] rest = refl
replaced_skip from to (x ∷ p) rest = replaced_skip from to p rest

replaced_hit :
    (from to : Bytes) (x : ℕ) (xs : Bytes)
    → starts_with (x ∷ xs) from ≡ true
    → replaced from to 0 (x ∷ xs) ≡ to ++ replaced from to (length from - 1) xs
unfolding replaced
replaced_hit from to x xs h = ground arith

pub replaced_match :
    (from to rest : Bytes)
    → from ≢ []
    → replaced from to 0 (from ++ rest) ≡ to ++ replaced from to 0 rest
replaced_match [] to rest h = absurd (h refl)
replaced_match (y ∷ from) to rest h =
    let e : length (y ∷ from) - 1 ≡ length from = omega arith in
    replaced_hit (y ∷ from) to y (from ++ rest) (starts_with-append (y ∷ from) rest)
    ∙ ap (λ r. to ++ r) (rw e (replaced_skip (y ∷ from) to from rest))

pub replaced_miss :
    (from to : Bytes) (x : ℕ) (xs : Bytes)
    → starts_with (x ∷ xs) from ≡ false
    → replaced from to 0 (x ∷ xs) ≡ x ∷ replaced from to 0 xs
unfolding replaced
replaced_miss from to x xs h = ground arith

replaced_short : (from to s : Bytes) → length s < length from → replaced from to 0 s ≡ s
replaced_short from to [] h = unfold replaced in refl
replaced_short from to (x ∷ xs) h =
    rw (replaced_miss from to x xs (starts_with_short (x ∷ xs) from (ground arith)))
      (ap (◌∷◌ x) (replaced_short from to xs (omega arith)))

splice-append :
    (from to done rest : Bytes)
    → splice (done ++ (from ++ rest)) (length done) (length done + length from) to
      ≡ (done ++ to) ++ rest
splice-append from to done rest =
    let e : length done + length from ≡ length (done ++ from) =
      omega (arith, length-append done from) in
    rw (take-append, e, ← append_assoc done from rest, drop-append, append_assoc)

length-pos : (s : Bytes) → s ≢ [] → 0 < length s
length-pos [] h = absurd (h refl)
length-pos (x ∷ s) h = omega arith

module _ (from to : Bytes) (ne : from ≢ []) where
  loop_hit :
      (fuel : ℕ) (done rest : Bytes)
      → replace_loop (suc fuel) from to (done ++ (from ++ rest)) (length done)
        ≡ replace_loop fuel from to ((done ++ to) ++ rest) (length (done ++ to))
  unfolding replace_loop
  loop_hit fuel done rest =
      let whole = done ++ (from ++ rest) in
      ground (
        arith,
        length-append done (from ++ rest),
        length-append from rest,
        length-append done to,
        drop-append done (from ++ rest),
        starts_with-append from rest,
        splice-append from to done rest,
      )

  loop_miss :
      (fuel : ℕ) (done : Bytes) (x : ℕ) (rest : Bytes)
      → starts_with (x ∷ rest) from ≡ false
      → length from ≤ length (x ∷ rest)
      → replace_loop (suc fuel) from to (done ++ (x ∷ rest)) (length done)
        ≡ replace_loop fuel from to ((done ++ x ∷ []) ++ rest) (length (done ++ x ∷ []))
  unfolding replace_loop
  loop_miss fuel done x rest h fits = ground (
    arith,
    length-append done (x ∷ rest),
    length-append done (x ∷ []),
    drop-append done (x ∷ rest),
    append_assoc done (x ∷ []) rest,
  )

  loop_stop :
      (fuel : ℕ) (done rest : Bytes)
      → length rest < length from
      → replace_loop (suc fuel) from to (done ++ rest) (length done)
        ≡ done ++ replaced from to 0 rest
  unfolding replace_loop
  loop_stop fuel done rest h =
      ground (arith, length-append done rest, replaced_short from to rest h)

  -- In the loop, `done` lies before the index and `rest` behind it.
  replace_loop-replaced :
      (fuel : ℕ) (done rest : Bytes)
      → length rest < fuel
      → replace_loop fuel from to (done ++ rest) (length done) ≡ done ++ replaced from to 0 rest
  replace_loop-replaced zero done rest h = elim h [ ]
  replace_loop-replaced (suc fuel) done [] h = loop_stop fuel done [] (length-pos from ne)
  replace_loop-replaced (suc fuel) done (x ∷ rest) h =
      elim (Bool-cases (starts_with (x ∷ rest) from)) [
        | inl hit ↦
            let after = drop (length from) (x ∷ rest) in
            let e = starts_with_split (x ∷ rest) from hit in
            rw e (
              loop_hit fuel done after
              ∙ replace_loop-replaced fuel (done ++ to) after
                  (omega (arith, length-drop (length from) (x ∷ rest), length-pos from ne))
              ∙ append_assoc done to _
              ∙ ap (λ r. done ++ r) (sym (replaced_match from to after ne)))
        | inr miss ↦ elim (Bool-cases (leb (length from) (length (x ∷ rest)))) [
          | inl fits ↦
              loop_miss fuel done x rest miss (leb→le _ _ fits)
              ∙ replace_loop-replaced fuel (done ++ x ∷ []) rest (omega arith)
              ∙ append_assoc done (x ∷ []) _
              ∙ ap (λ r. done ++ r) (sym (replaced_miss from to x rest miss))
          | inr short ↦
              let lt : length (x ∷ rest) < length from = ground arith in
              loop_stop fuel done (x ∷ rest) lt
        ]
      ]

-- For a pattern that is not empty, the loop of replace_slice ends and gives what one pass of
-- replacements from the left gives.
pub replace_slice-replaced :
    (source from to : Bytes) → from ≢ [] → replace_slice source from to ≡ replaced from to 0 source
unfolding replace_slice
replace_slice-replaced source from to h =
    replace_loop-replaced from to h (length source + 1) [] source (omega arith)
