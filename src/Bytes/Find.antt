-- ===== src/Bytes/Find.antt =====
-- What `find` and `get_all_after` of src/bytes.rs return.
use dkim.Prelude.{
  ℕ, zero, suc, ◌+◌, ◌<◌, ◌≡◌, ◌↔◌, refl, ◌≢◌, true, false, [], ◌∷◌, ◌++◌, Option, none, some,
  append_assoc, arith, length-append, drop-append, Bytes, length, take, drop, beq, starts_with,
  starts_with-append, leb, if◌then◌else◌,
}
use dkim.Bytes.{find, get_all_after}

abbrev pub shift : Option ℕ → Option ℕ
shift none = none
shift (some i) = some (suc i)

beq-take :
    (s p : Bytes) → leb (length p) (length s) ≡ true → beq (take (length p) s) p ≡ starts_with s p
unfolding beq starts_with
beq-take [] [] h = refl
beq-take (x ∷ s) [] h = refl
beq-take [] (y ∷ p) h = ground arith
beq-take (x ∷ s) (y ∷ p) h = ground (arith, beq-take s p)

pub starts_with_short : (s p : Bytes) → leb (length p) (length s) ≡ false → starts_with s p ≡ false
unfolding starts_with
starts_with_short s [] h = ground arith
starts_with_short [] (y ∷ p) h = refl
starts_with_short (x ∷ s) (y ∷ p) h = ground (arith, starts_with_short s p)

find_short : (s p : Bytes) → leb (length p) (length s) ≡ false → find s p ≡ none
unfolding find
find_short [] p h = refl
find_short (x ∷ s) p h = ground arith

-- `find` looks at one place after the other.
pub find-cons :
    (x : ℕ) (s p : Bytes)
    → find (x ∷ s) p ≡ (if starts_with (x ∷ s) p then some 0 else shift (find s p))
unfolding find
find-cons x s p = ground (arith, beq-take (x ∷ s) p, starts_with_short (x ∷ s) p, find_short s p)

pub find-nil : (p : Bytes) → find [] p ≡ none
unfolding find
find-nil p = refl

find-cons_zero : (x : ℕ) (s p : Bytes) → find (x ∷ s) p ≡ some 0 → starts_with (x ∷ s) p ≡ true
find-cons_zero x s p h = ground (arith, find-cons x s p)

find-cons_suc :
    (x : ℕ) (s p : Bytes) (i : ℕ)
    → find (x ∷ s) p ≡ some (suc i)
    → (starts_with (x ∷ s) p ≡ false) × (find s p ≡ some i)
find-cons_suc x s p i h = ground (arith, find-cons x s p)

abbrev pub FirstAt : Bytes → Bytes → ℕ → Type 0
FirstAt bytes search i =
    (starts_with (drop i bytes) search ≡ true)
    × ((j : ℕ) → j < i → starts_with (drop j bytes) search ≡ false)

FirstAt-suc :
    (x : ℕ) (s p : Bytes) (i : ℕ)
    → starts_with (x ∷ s) p ≡ false
    → FirstAt s p i
    → FirstAt (x ∷ s) p (suc i)
FirstAt-suc x s p i miss (here, before) = (here, earlier)
  where
    earlier : (j : ℕ) → j < suc i → starts_with (drop j (x ∷ s)) p ≡ false
    earlier zero lt = miss
    earlier (suc j) lt = before j (omega arith)

-- If find returns an index, the text searched for stands there and at no earlier index.
pub find_sound :
    (bytes search : Bytes) (i : ℕ) → find bytes search ≡ some i → FirstAt bytes search i
find_sound [] p i h = absurd (cc (find-nil p))
find_sound (x ∷ s) p zero h = (find-cons_zero x s p h, λ j lt. elim lt [ ])
find_sound (x ∷ s) p (suc i) h =
    let (miss, later) = find-cons_suc x s p i h in FirstAt-suc x s p i miss (find_sound s p i later)

find-none_starts : (s p : Bytes) → find s p ≡ none → p ≢ [] → starts_with s p ≡ false
unfolding starts_with
find-none_starts s [] h ne = absurd (ne refl)
find-none_starts [] (y ∷ p) h ne = refl
find-none_starts (x ∷ s) (y ∷ p) h ne = ground (arith, find-cons x s (y ∷ p))

pub find-none_tail : (x : ℕ) (s p : Bytes) → find (x ∷ s) p ≡ none → find s p ≡ none
find-none_tail x s p h = ground (arith, find-cons x s p)

-- If find returns nothing for a text that is not empty, the text stands nowhere.
pub find-none :
    (bytes search pre post : Bytes)
    → search ≢ []
    → find bytes search ≡ none
    → bytes ≢ pre ++ (search ++ post)
find-none b s [] post ne h e = cc (find-none_starts b s h ne, starts_with-append s post)
find-none [] s (x ∷ pre) post ne h e = cc
find-none (y ∷ b) s (x ∷ pre) post ne h e =
    find-none b s pre post ne (find-none_tail y b s h) (tail_eq e)
  where
    tail_eq : y ∷ b ≡ x ∷ (pre ++ (s ++ post)) → b ≡ pre ++ (s ++ post)
    tail_eq e = cc

-- find returns the first index at which a text that is not empty stands.
pub find_complete :
    (bytes search : Bytes) (i : ℕ)
    → search ≢ []
    → FirstAt bytes search i
    → find bytes search ≡ some i
find_complete [] [] i ne (here, _) = absurd (ne refl)
find_complete [] (y ∷ p) zero ne (here, _) = unfold starts_with in cc
find_complete [] (y ∷ p) (suc i) ne (here, _) = unfold starts_with in cc
find_complete (x ∷ s) p zero ne (here, _) = rw (find-cons x s p, here)
find_complete (x ∷ s) p (suc i) ne (here, before) =
    let ih = find_complete s p i ne (here, λ j lt. before (suc j) (omega arith)) in
    rw (find-cons x s p, before 0 (omega arith), ih)

-- For a text that is not empty, find returns an index exactly if the text stands there and at no
-- earlier index.
pub find_iff :
    (bytes search : Bytes) (i : ℕ)
    → search ≢ []
    → (find bytes search ≡ some i) ↔ FirstAt bytes search i
find_iff bytes search i ne = (find_sound bytes search i, find_complete bytes search i ne)

drop_both : (p q rest : Bytes) → drop (length p + length q) (p ++ (q ++ rest)) ≡ rest
drop_both p q rest =
    let e : length p + length q ≡ length (p ++ q) = omega (arith, length-append p q) in
    rw (e, ← append_assoc p q rest) (drop-append (p ++ q) rest)

-- What stands behind the first `end`, which `head` leads up to.
pub get_all_after-append :
    (head end rest : Bytes)
    → end ≢ []
    → ((j : ℕ) → j < length head → starts_with (drop j (head ++ (end ++ rest))) end ≡ false)
    → get_all_after (head ++ (end ++ rest)) end ≡ rest
unfolding get_all_after
get_all_after-append head end rest ne before =
    let found =
      find_complete (head ++ (end ++ rest)) end (length head) ne
        (rw drop-append (starts_with-append end rest), before) in
    rw (found, get_all_after) (drop_both head end rest)
