-- ===== src/Str/Numbers.antt =====
-- `str::parse` of Rust's integers: an optional sign, then digits, read with an overflow check.
pub mod ReadBack
use dkim.Prelude.{
  ℕ, ◌+◌, ◌-◌, ◌*◌, ◌^◌, ◌≤◌, ◌≡◌, ◌⊎◌, inl, inr, Bool-cases, [], ◌∷◌, arith, Bytes, codes, ltb,
  ◌==◌, if◌then◌else◌,
}

pub data IntError : Type 0 where
  empty invalid_digit pos_overflow neg_overflow : IntError

abbrev pub int_error : IntError → Bytes
int_error empty = codes "cannot parse integer from empty string"
int_error invalid_digit = codes "invalid digit found in string"
int_error pos_overflow = codes "number too large to fit in target type"
int_error neg_overflow = codes "number too small to fit in target type"

-- The digits, from `n` on; `over` is the error above `bound`.
digits : ℕ → IntError → Bytes → ℕ → IntError ⊎ ℕ
digits bound over [] n = inr n
digits bound over (c ∷ s) n =
    let m = n * 10 + (c - b'0') in
    let rest = digits bound over s m in
    if ltb c b'0'
    then inl invalid_digit
    else if ltb b'9' c
    then inl invalid_digit
    else if ltb bound m
    then inl over
    else rest

-- A sign needs a digit behind it.
signed : ℕ → IntError → Bytes → IntError ⊎ ℕ
signed bound over [] = inl invalid_digit
signed bound over (c ∷ s) = digits bound over (c ∷ s) 0

abbrev pub usize_max : ℕ
usize_max = 2 ^ 64 - 1

unfoldable pub parse_usize : Bytes → IntError ⊎ ℕ
unfolding digits signed
parse_usize [] = inl empty
parse_usize (c ∷ s) =
    if c == b'+' then signed usize_max pos_overflow s else digits usize_max pos_overflow (c ∷ s) 0

-- `negsuc n` is -(n + 1).
pub data ℤ : Type 0 where
  pos : ℕ → ℤ
  negsuc : ℕ → ℤ

abbrev negate : ℕ → ℤ
negate n = if n == 0 then pos 0 else negsuc (n - 1)

abbrev map_right : (ℕ → ℤ) → IntError ⊎ ℕ → IntError ⊎ ℤ
map_right f (inl e) = inl e
map_right f (inr n) = inr (f n)

unfoldable pub parse_i64 : Bytes → IntError ⊎ ℤ
unfolding digits signed
parse_i64 [] = inl empty
parse_i64 (c ∷ s) =
    if c == b'+'
    then map_right pos (signed (2 ^ 63 - 1) pos_overflow s)
    else if c == b'-'
    then map_right negate (signed (2 ^ 63) neg_overflow s)
    else map_right pos (digits (2 ^ 63 - 1) pos_overflow (c ∷ s) 0)

digits_bound :
    (bound : ℕ) (over : IntError) (s : Bytes) (n r : ℕ)
    → n ≤ bound
    → digits bound over s n ≡ inr r
    → r ≤ bound
unfolding digits
digits_bound bound over [] n r fits h = ground arith
digits_bound bound over (c ∷ s) n r fits h =
    ground (arith, digits_bound bound over s (n * 10 + (c - b'0')) r)

signed_bound :
    (bound : ℕ) (over : IntError) (s : Bytes) (r : ℕ) → signed bound over s ≡ inr r → r ≤ bound
unfolding signed
signed_bound bound over [] r h = cc
signed_bound bound over (c ∷ s) r h = digits_bound bound over (c ∷ s) 0 r (omega arith) h

-- A length that is read fits into 64 bits.
pub parse_usize_bound : (s : Bytes) (n : ℕ) → parse_usize s ≡ inr n → n ≤ usize_max
unfolding parse_usize
parse_usize_bound [] n h = cc
parse_usize_bound (c ∷ s) n h = elim (Bool-cases (c == b'+')) [
  | inl plus ↦ signed_bound usize_max pos_overflow s n (rw plus at h)
  | inr other ↦ digits_bound usize_max pos_overflow (c ∷ s) 0 n (omega arith) (rw other at h)
]
