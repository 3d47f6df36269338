-- ===== src/Canonicalization/Blank.antt =====
-- The loops of src/canonicalization.rs that drop the empty lines at the end of a body.
use dkim.Prelude.{
  ℕ, zero, suc, ◌-◌, ◌≤◌, ◌≡◌, ◌≢◌, refl, sym, ap, ◌∙◌, ◌⊎◌, inl, inr, true, false, List, [], ◌∷◌,
  ◌++◌, append_assoc, append-nil, arith, Bytes, length, take, remove, length-append, take-append,
  ends_with, ends_with_split, ends_with-append, Bool-cases,
}
use dkim.Canonicalization.{
  crlf, blank_line, drop_blank_lines, pop_blank_lines, remove_last, canonicalize_body_simple,
}

pub remove-append :
    {A : Type 0} (s : List A) (x : A) (t : List A) → remove (s ++ (x ∷ t)) (length s) ≡ s ++ t
remove-append [] x t = refl
remove-append (y ∷ s) x t = rw (remove-append s x t)

pub remove_last-append : (s : Bytes) (x : ℕ) → remove_last (s ++ x ∷ []) ≡ s
remove_last-append s x =
    let e : length (s ++ x ∷ []) - 1 ≡ length s = omega (arith, length-append s (x ∷ [])) in
    rw (e, remove-append s x [], append-nil)

abbrev pub crlfs : ℕ → Bytes
crlfs zero = []
crlfs (suc k) = b'\r' ∷ b'\n' ∷ crlfs k

pub crlfs-crlf : (k : ℕ) → crlfs k ++ crlf ≡ crlfs (suc k)
crlfs-crlf zero = refl
crlfs-crlf (suc k) = rw (crlfs-crlf k)

-- `result` is `body` without empty lines at its end: one CRLF is left of a run of them.
pub record DropsTo (body result : Bytes) : Type 0 where
  pub count : ℕ
  pub splits : body ≡ result ++ crlfs count
  pub keeps_one : count ≢ 0 → ends_with result crlf ≡ true
  pub none_left : ends_with result blank_line ≡ false

pub take_blank : (p : Bytes) → take (length (p ++ blank_line) - 2) (p ++ blank_line) ≡ p ++ crlf
take_blank p =
    let e : length (p ++ blank_line) - 2 ≡ length (p ++ crlf) =
      omega (arith, length-append p blank_line, length-append p crlf) in
    rw (e, ← append_assoc p crlf crlf) (take-append (p ++ crlf) crlf)

pop_blank : (p : Bytes) → remove_last (remove_last (p ++ blank_line)) ≡ p ++ crlf
pop_blank p =
    rw (← append_assoc p crlf crlf, ← append_assoc (p ++ crlf) (b'\r' ∷ []) (b'\n' ∷ []))
      (rw remove_last-append (remove_last-append (p ++ crlf) b'\r'))

ends_of_splits :
    (p result : Bytes) (k : ℕ)
    → p ++ crlf ≡ result ++ crlfs k
    → (k ≢ 0 → ends_with result crlf ≡ true)
    → ends_with result crlf ≡ true
ends_of_splits p result zero e h =
    let e' : result ≡ p ++ crlf = sym (e ∙ append-nil result) in rw e' (ends_with-append p crlf)
ends_of_splits p result (suc k) e h = h (λ z. cc)

DropsTo-same : (body : Bytes) → ends_with body blank_line ≡ false → DropsTo body body
DropsTo-same body h = record {
  count = 0;
  splits = sym (append-nil body);
  keeps_one = λ ne. absurd (ne refl);
  none_left = h;
}

DropsTo-blank :
    (p : Bytes) {result : Bytes} → DropsTo (p ++ crlf) result → DropsTo (p ++ blank_line) result
DropsTo-blank p {result} d = record {
  count = suc d.count;
  splits =
      sym (append_assoc p crlf crlf)
      ∙ ap (λ r. r ++ crlf) d.splits
      ∙ append_assoc result (crlfs d.count) crlf
      ∙ ap (λ r. result ++ r) (crlfs-crlf d.count);
  keeps_one = λ _. ends_of_splits p result d.count d.splits d.keeps_one;
  none_left = d.none_left;
}

-- With fuel for every line, the loop ends and has dropped the empty lines.
pub drop_blank_lines-DropsTo :
    (fuel : ℕ) (body : Bytes) → length body ≤ fuel → DropsTo body (drop_blank_lines fuel body)
unfolding drop_blank_lines
drop_blank_lines-DropsTo zero [] h = DropsTo-same [] (unfold ends_with in refl)
drop_blank_lines-DropsTo zero (c ∷ s) h = absurd (omega arith)
drop_blank_lines-DropsTo (suc fuel) body h = elim (Bool-cases (ends_with body blank_line)) [
  | inl blank ↦
      let (p, e) = ends_with_split body blank_line blank in
      let shorter : length (p ++ crlf) ≤ fuel =
        omega (arith, length-append p crlf, length-append p blank_line, ap length e) in
      rw blank
        (rw e (DropsTo-blank p (rw take_blank (drop_blank_lines-DropsTo fuel (p ++ crlf) shorter))))
  | inr kept ↦ rw kept (DropsTo-same body kept)
]

pub pop_blank_lines-drop_blank_lines :
    (fuel : ℕ) (body : Bytes) → pop_blank_lines fuel body ≡ drop_blank_lines fuel body
unfolding pop_blank_lines drop_blank_lines
pop_blank_lines-drop_blank_lines zero body = refl
pop_blank_lines-drop_blank_lines (suc fuel) body = elim (Bool-cases (ends_with body blank_line)) [
  | inl blank ↦
      let (p, e) = ends_with_split body blank_line blank in
      rw blank
        (rw e (rw (take_blank, pop_blank) (pop_blank_lines-drop_blank_lines fuel (p ++ crlf))))
  | inr none ↦ rw none
]

-- The simple form of an empty body is one CRLF, and of any other body it is the body with a run of
-- CRLFs at its end cut down to one.
pub canonicalize_body_simple-DropsTo :
    (body : Bytes)
    → ((body ≡ []) × (canonicalize_body_simple body ≡ crlf))
      ⊎ ((body ≢ []) × DropsTo body (canonicalize_body_simple body))
unfolding canonicalize_body_simple
canonicalize_body_simple-DropsTo [] = inl (refl, refl)
canonicalize_body_simple-DropsTo (c ∷ s) =
    inr (λ e. cc, drop_blank_lines-DropsTo (length (c ∷ s)) (c ∷ s) (omega arith))

pub drop_blank_lines_same :
    (fuel : ℕ) (body : Bytes)
    → ends_with body blank_line ≡ false
    → drop_blank_lines fuel body ≡ body
unfolding drop_blank_lines
drop_blank_lines_same zero body h = refl
drop_blank_lines_same (suc fuel) body h = rw h

ne_nil_of_splits :
    {body : Bytes} (result : Bytes) (k : ℕ)
    → body ≡ result ++ crlfs k
    → body ≢ []
    → (k ≢ 0 → ends_with result crlf ≡ true)
    → result ≢ []
unfolding ends_with
ne_nil_of_splits [] zero split ne ends = absurd (ne split)
ne_nil_of_splits [] (suc k) split ne ends = cc (ends (λ z. cc))
ne_nil_of_splits (c ∷ s) k split ne ends = λ e. cc

-- Only an empty body has an empty result.
DropsTo-ne-nil : {body result : Bytes} → body ≢ [] → DropsTo body result → result ≢ []
DropsTo-ne-nil {result = result} ne d = ne_nil_of_splits result d.count d.splits ne d.keeps_one

simple_cons :
    (body : Bytes) → body ≢ [] → canonicalize_body_simple body ≡ drop_blank_lines (length body) body
unfolding canonicalize_body_simple
simple_cons [] ne = absurd (ne refl)
simple_cons (c ∷ s) ne = refl

-- Canonicalizing a body twice by the simple algorithm is canonicalizing it once.
pub canonicalize_body_simple_idem :
    (body : Bytes)
    → canonicalize_body_simple (canonicalize_body_simple body) ≡ canonicalize_body_simple body
canonicalize_body_simple_idem [] = unfold canonicalize_body_simple ends_with in refl
canonicalize_body_simple_idem (c ∷ s) =
    let d = drop_blank_lines-DropsTo (length (c ∷ s)) (c ∷ s) (omega arith) in
    let result = drop_blank_lines (length (c ∷ s)) (c ∷ s) in
    let ne : result ≢ [] = DropsTo-ne-nil (λ e. cc) d in
    rw (simple_cons (c ∷ s) (λ e. cc))
      (simple_cons result ne ∙ drop_blank_lines_same (length result) result d.none_left)
