-- ===== src/Tests/Real/Numbers.antt =====
-- Numbers as bytes, for the standards that the tests run.
use dkim.Prelude.{
  ℕ, zero, suc, ◌+◌, ◌-◌, ◌*◌, ◌/◌, ◌%◌, List, [], ◌∷◌, ◌++◌, Bytes, length, take, drop, reverse,
  ◌==◌, if◌then◌else◌,
}

-- `n` bytes of a number, the highest first.
abbrev pub big_endian : ℕ → ℕ → Bytes → Bytes
big_endian zero x out = out
big_endian (suc n) x out = big_endian n (x / 256) (x % 256 ∷ out)

abbrev pub number : ℕ → Bytes → ℕ
number n [] = n
number n (x ∷ s) = number (n * 256 + x) s

-- Lists of `n` bytes each, as numbers.
abbrev pub chunks : ℕ → ℕ → Bytes → List ℕ
chunks zero n s = []
chunks (suc count) n s = number 0 (take n s) ∷ chunks count n (drop n s)

abbrev pub zeros : ℕ → Bytes
zeros zero = []
zeros (suc n) = 0 ∷ zeros n

-- The text with a one bit, zeros, and its length in bits in `len` bytes, a multiple of `block` bytes.
abbrev pub padded : ℕ → ℕ → Bytes → Bytes
padded block len s =
    let n = length s in
    s ++ (0x80 ∷ (zeros ((2 * block - 1 - len - n % block) % block) ++ big_endian len (8 * n) []))

-- The lowest byte first.
abbrev pub little_endian : ℕ → ℕ → Bytes
little_endian n x = reverse (big_endian n x [])

abbrev pub from_little_endian : Bytes → ℕ
from_little_endian s = number 0 (reverse s)

-- `base ^ exponent` times `out`, modulo `n`, by the binary digits of the exponent, of which there
-- are `fuel` at most.
abbrev pub power : ℕ → ℕ → ℕ → ℕ → ℕ → ℕ
power zero base exponent n out = out
power (suc fuel) base exponent n out =
    power fuel (base * base % n) (exponent / 2) n
      (if exponent % 2 == 1 then out * base % n else out)
