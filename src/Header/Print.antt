-- ===== src/Header/Print.antt =====
-- The text that `DkimHeaderBuilder::build` of src/header.rs writes.
use dkim.Prelude.{
  ℕ, ◌≡◌, refl, sym, ap, subst, ◌∙◌, Bool-cases, List, [], ◌∷◌, ◌++◌, append_assoc, map, inl, inr,
  Bytes, codes, beq, beq_iff, none, arith,
}
use dkim.Header.{TagMap, pop, serialize_loop, serialize}
use dkim.Map.{get, insert, insert_hit, insert_miss, get-insert}
use dkim.Parser.RoundTrip.{printed, printed_tag, printed_rest}
use dkim.Parser.{Tag}
use dkim.Str.{All}

-- Each key is its tag's name.
abbrev pub Named : TagMap → Type 0
Named = All (λ entry. entry.0 ≡ entry.1.name)

-- No key stands twice.
abbrev pub Distinct : TagMap → Type 0
Distinct [] = Unit
Distinct ((k, t) ∷ m) = (get m k ≡ none) × Distinct m

abbrev pub tags_of : TagMap → List Tag
tags_of = map (λ entry. entry.1)

pop-append : (s : Bytes) (c : ℕ) → pop (s ++ c ∷ []) ≡ s
unfolding pop
pop-append [] c = refl
pop-append (x ∷ []) c = refl
pop-append (x ∷ y ∷ s) c = ap (λ l. x ∷ l) (pop-append (y ∷ s) c)

abbrev entry_text : Bytes → Tag → Bytes
entry_text k t = k ++ (codes "=" ++ (t.value ++ codes ";"))

serialize_loop-printed :
    (out : Bytes) (k : Bytes) (t : Tag) (m : TagMap)
    → Named ((k, t) ∷ m)
    → serialize_loop out ((k, t) ∷ m)
      ≡ (out ++ printed_tag t (printed_rest (tags_of m))) ++ codes " "
unfolding serialize_loop
serialize_loop-printed out k t [] (e, n) = ap (λ s. (out ++ entry_text s t) ++ codes " ") e
serialize_loop-printed out k t ((k2, t2) ∷ m) (e, n) =
    serialize_loop-printed ((out ++ entry_text k t) ++ codes " ") k2 t2 m n
    ∙ ap
        (λ name.
          ((out ++ entry_text name t) ++ codes " ")
          ++ printed_tag t2 (printed_rest (tags_of m))
          ++ codes " ")
        e
    ∙ simp append_assoc

-- A header that is built is written as the list of its tags.
pub serialize-printed : (m : TagMap) → Named m → serialize m ≡ printed (tags_of m)
unfolding serialize serialize_loop pop
serialize-printed [] n = refl
serialize-printed ((k, t) ∷ m) n = ap pop (serialize_loop-printed [] k t m n) ∙ pop-append _ b' '

pub insert-Named : (m : TagMap) (t : Tag) → Named m → Named (insert m t.name t)
unfolding insert
insert-Named [] t n = (refl, tt)
insert-Named ((j, w) ∷ m) t (e, n) = elim (Bool-cases (beq j t.name)) [
  | inl h ↦ subst Named (sym (insert_hit m j w t.name t h)) ((beq_iff j t.name).0 h, n)
  | inr h ↦ subst Named (sym (insert_miss m j w t.name t h)) (e, insert-Named m t n)
]

pub beq_sym : (a b : Bytes) → beq a b ≡ beq b a
beq_sym a b = ground (arith, beq_iff a b, beq_iff b a)

pub insert-Distinct : (m : TagMap) (k : Bytes) (t : Tag) → Distinct m → Distinct (insert m k t)
unfolding insert get
insert-Distinct [] k t d = (refl, tt)
insert-Distinct ((j, w) ∷ m) k t (e, d) = elim (Bool-cases (beq j k)) [
  | inl h ↦ subst Distinct (sym (insert_hit m j w k t h)) (e, d)
  | inr h ↦
      subst Distinct (sym (insert_miss m j w k t h))
        (rw (get-insert m k t j, beq_sym k j, h, e), insert-Distinct m k t d)
]
