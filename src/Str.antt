-- ===== src/Str.antt =====
-- What the program uses of `str` and of the number parsers of Rust's standard library. A `str` is
-- its UTF-8 bytes; `usize` has 64 bits.
pub mod Decimal
pub mod Numbers
pub mod Split
pub mod Digits
use dkim.Prelude.{
  ℕ, zero, suc, ◌+◌, Bool, true, false, ◌&&◌, ◌||◌, List, [], ◌∷◌, ◌++◌, map, reverse, Bytes,
  length, drop, beq, leb, ◌==◌, ◌<◌, ◌≡◌, if◌then◌else◌,
}
use dkim.Bytes.Replace.{replaced}

abbrev pub within : ℕ → ℕ → ℕ → Bool
within lo hi c = leb lo c && leb c hi

unfoldable pub ascii_lower : ℕ → ℕ
ascii_lower c = if within b'A' b'Z' c then c + 32 else c

unfoldable pub to_ascii_lowercase : Bytes → Bytes
unfolding ascii_lower
to_ascii_lowercase = map ascii_lower

unfoldable pub eq_ignore_ascii_case : Bytes → Bytes → Bool
unfolding to_ascii_lowercase beq
eq_ignore_ascii_case a b = beq (to_ascii_lowercase a) (to_ascii_lowercase b)

abbrev pub All {ℓ κ} : {A : Type ℓ} → (A → Type κ) → List A → Type κ
All P [] = Unit
All P (x ∷ xs) = P x × All P xs

abbrev pub IsAscii : Bytes → Type 0
IsAscii = All (λ c. c < 128)

-- The Unicode tables of the standard library. On ASCII the functions are known.
pub record Unicode : Type 0 where
  pub to_lowercase : Bytes → Bytes
  pub from_utf8_lossy : Bytes → Bytes
  pub to_lowercase_ascii : (s : Bytes) → IsAscii s → to_lowercase s ≡ to_ascii_lowercase s
  pub from_utf8_lossy_ascii : (s : Bytes) → IsAscii s → from_utf8_lossy s ≡ s

-- `s.split(sep)` for a separator of one byte.
unfoldable pub split : ℕ → Bytes → List Bytes
split sep [] = [] ∷ []
split sep (c ∷ s) = elim (split sep s) [
  | [] ↦ []
  | part ∷ parts ↦ if c == sep then [] ∷ part ∷ parts else (c ∷ part) ∷ parts
]

-- `parts.join(sep)` for a separator of one byte.
unfoldable pub join : ℕ → List Bytes → Bytes
join sep [] = []
join sep (p ∷ []) = p
join sep (p ∷ q ∷ parts) = p ++ (sep ∷ join sep (q ∷ parts))

-- `s.replace(pattern, "")`; an empty pattern puts the empty text between all characters.
unfoldable pub erase_all : Bytes → Bytes → Bytes
erase_all s [] = s
erase_all s (c ∷ pattern) = replaced (c ∷ pattern) [] 0 s

-- The bytes of the white-space character at the head of a text, 0 if there is none.
unfoldable pub space_width : Bytes → ℕ
space_width (a ∷ b ∷ c ∷ s) =
    if within 9 13 a || a == 32
    then 1
    else if a == 0xc2 && (b == 0x85 || b == 0xa0)
    then 2
    else if (a == 0xe1 && b == 0x9a && c == 0x80)
        || (a == 0xe2 && b == 0x80 && (within 0x80 0x8a c || within 0xa8 0xa9 c || c == 0xaf))
        || (a == 0xe2 && b == 0x81 && c == 0x9f)
        || (a == 0xe3 && b == 0x80 && c == 0x80)
    then 3
    else 0
space_width (a ∷ b ∷ []) =
    if within 9 13 a || a == 32 then 1 else if a == 0xc2 && (b == 0x85 || b == 0xa0) then 2 else 0
space_width (a ∷ []) = if within 9 13 a || a == 32 then 1 else 0
space_width [] = 0

-- The same at the end of a text, which is read backwards.
unfoldable pub space_width_back : Bytes → ℕ
space_width_back (c ∷ b ∷ a ∷ s) =
    if within 9 13 c || c == 32
    then 1
    else if b == 0xc2 && (c == 0x85 || c == 0xa0)
    then 2
    else if space_width (a ∷ b ∷ c ∷ []) == 3
    then 3
    else 0
space_width_back (c ∷ b ∷ []) =
    if within 9 13 c || c == 32 then 1 else if b == 0xc2 && (c == 0x85 || c == 0xa0) then 2 else 0
space_width_back (c ∷ []) = if within 9 13 c || c == 32 then 1 else 0
space_width_back [] = 0

-- Each round drops a character, so the length is fuel enough.
unfoldable pub strip : (Bytes → ℕ) → ℕ → Bytes → Bytes
strip width zero s = s
strip width (suc fuel) s =
    let rest = strip width fuel (drop (width s) s) in if width s == 0 then s else rest

unfoldable pub trim_start : Bytes → Bytes
unfolding strip space_width
trim_start s = strip space_width (length s) s

unfoldable pub trim_end : Bytes → Bytes
unfolding strip space_width_back space_width
trim_end s = reverse (strip space_width_back (length s) (reverse s))

unfoldable pub trim : Bytes → Bytes
unfolding trim_start trim_end
trim s = trim_end (trim_start s)
