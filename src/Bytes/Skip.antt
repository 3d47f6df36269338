-- ===== src/Bytes/Skip.antt =====
-- `get_all_after` of src/bytes.rs on a text that is put in front of another.
use dkim.Prelude.{
  ◌≡◌, ◌∙◌, false, [], ◌∷◌, ◌++◌, inl, inr, none, some, Bytes, length, starts_with, arith,
  Option-cases, ℕ, ◌+◌, suc, refl,
}
use dkim.Bytes.Find.{find-cons}
use dkim.Str.Split.{Lacks}
use dkim.Bytes.{find, get_all_after}

-- A byte at which the text searched for does not start is passed over.
pub get_all_after-cons :
    (c : ℕ) (s end : Bytes)
    → starts_with (c ∷ s) end ≡ false
    → get_all_after (c ∷ s) end ≡ get_all_after s end
unfolding get_all_after
get_all_after-cons c s end miss = elim (Option-cases (find s end)) [
  | inl absent ↦
      let here : find (c ∷ s) end ≡ none = rw (find-cons c s end, miss, absent) in
      rw (here, get_all_after, absent)
  | inr (i, e) ↦
      let here : find (c ∷ s) end ≡ some (suc i) = rw (find-cons c s end, miss, e) in
      let past : suc i + length end ≡ suc (i + length end) = omega arith in
      rw (here, get_all_after, e, past)
]

-- So is a front that lacks its first byte.
pub get_all_after-skip :
    (front s : Bytes) (b : ℕ) (end : Bytes)
    → Lacks b front
    → get_all_after (front ++ s) (b ∷ end) ≡ get_all_after s (b ∷ end)
unfolding starts_with
get_all_after-skip [] s b end h = refl
get_all_after-skip (c ∷ front) s b end (hc, h) =
    let miss : starts_with (c ∷ (front ++ s)) (b ∷ end) ≡ false = ground arith in
    get_all_after-cons c (front ++ s) (b ∷ end) miss ∙ get_all_after-skip front s b end h
