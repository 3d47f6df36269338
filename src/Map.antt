-- ===== src/Map.antt =====
-- Maps under text keys, as association lists in insertion order (`IndexMap`, and `HashMap`, whose
-- order the program never reads): an insertion under a key that is there replaces its value.
use dkim.Prelude.{
  ◌≡◌, refl, true, false, List, [], ◌∷◌, ◌++◌, Option, none, some, Bytes, beq, beq_iff, arith,
  if◌then◌else◌,
}

abbrev pub Map {ℓ} : Type ℓ → Type ℓ
Map V = List (Bytes × V)

module _ {ℓ} {V : Type ℓ} where
  unfoldable pub get : Map V → Bytes → Option V
  get [] k = none
  get ((j, v) ∷ m) k = if beq j k then some v else get m k

  unfoldable pub insert : Map V → Bytes → V → Map V
  insert [] k v = (k, v) ∷ []
  insert ((j, w) ∷ m) k v = if beq j k then (j, v) ∷ m else (j, w) ∷ insert m k v

  -- What a key is bound to after an insertion.
  pub get-insert :
      (m : Map V) (k : Bytes) (v : V) (j : Bytes)
      → get (insert m k v) j ≡ (if beq k j then some v else get m j)
  unfolding get insert
  get-insert [] k v j = refl
  get-insert ((i, w) ∷ m) k v j =
      ground (arith, beq_iff i k, beq_iff k j, beq_iff i j, get-insert m k v j)

  pub insert_hit :
      (m : Map V) (j : Bytes) (w : V) (k : Bytes) (v : V)
      → beq j k ≡ true
      → insert ((j, w) ∷ m) k v ≡ (j, v) ∷ m
  unfolding insert
  insert_hit m j w k v h = rw h

  pub insert_miss :
      (m : Map V) (j : Bytes) (w : V) (k : Bytes) (v : V)
      → beq j k ≡ false
      → insert ((j, w) ∷ m) k v ≡ (j, w) ∷ insert m k v
  unfolding insert
  insert_miss m j w k v h = rw h

  -- An insertion under a new key goes to the end.
  pub insert_new :
      (m : Map V) (k : Bytes) (v : V) → get m k ≡ none → insert m k v ≡ m ++ ((k, v) ∷ [])
  unfolding get insert
  insert_new [] k v h = refl
  insert_new ((j, w) ∷ m) k v h = ground (arith, insert_new m k v)

pub beq_refl : (k : Bytes) → beq k k ≡ true
beq_refl k = (beq_iff k k).1 refl
