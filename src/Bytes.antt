-- ===== src/Bytes.antt =====
-- src/bytes.rs: searching and rewriting byte strings.
pub mod Find
pub mod Replace
pub mod Skip
use dkim.Prelude.{
  ℕ, zero, suc, ◌+◌, Bool, true, false, List, [], ◌∷◌, ◌++◌, map, Option, none, some, Bytes, length,
  take, drop, position, beq, starts_with, leb, ◌==◌, if◌then◌else◌,
}

-- `slice::windows`: the stretches of `n` bytes, from the left. Rust panics at `n = 0`.
windows : ℕ → Bytes → List Bytes
windows n [] = []
windows n (x ∷ xs) = if leb n (length (x ∷ xs)) then take n (x ∷ xs) ∷ windows n xs else []

-- Every caller gives a `search` that is not empty.
unfoldable pub find : Bytes → Bytes → Option ℕ
unfolding windows
find bytes search = position (λ window. beq window search) (windows (length search) bytes)

unfoldable pub get_all_after : Bytes → Bytes → Bytes
unfolding find
get_all_after bytes end = elim (find bytes end) [
  | some end_index ↦ drop (end_index + length end) bytes
  | none ↦ []
]

unfoldable pub replace : Bytes → ℕ → ℕ → Bytes
replace bytes from to = map (λ byte. if byte == from then to else byte) bytes

-- `Vec::splice` of the range from `i` up to `j`.
abbrev splice : Bytes → ℕ → ℕ → Bytes → Bytes
splice bytes i j to = take i bytes ++ (to ++ drop j bytes)

-- The loop over `i`, which grows and shrinks `result` in place.
replace_loop : ℕ → Bytes → Bytes → Bytes → ℕ → Bytes
replace_loop zero from to result i = result
replace_loop (suc fuel) from to result i =
    let hit = replace_loop fuel from to (splice result i (i + length from) to) (i + length to) in
    let miss = replace_loop fuel from to result (i + 1) in
    let body = if starts_with (drop i result) from then hit else miss in
    if leb (i + length from) (length result) then body else result

unfoldable pub replace_slice : Bytes → Bytes → Bytes → Bytes
unfolding replace_loop
replace_slice source from to = replace_loop (length source + 1) from to source 0
