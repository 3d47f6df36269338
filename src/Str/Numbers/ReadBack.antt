-- ===== src/Str/Numbers/ReadBack.antt =====
-- The number parsers of Rust read back what its `to_string` writes.
use dkim.Prelude.{
  ℕ, zero, suc, ◌+◌, ◌-◌, ◌*◌, ◌/◌, ◌%◌, ◌^◌, ◌≤◌, ◌<◌, ◌≡◌, refl, subst, ◌∙◌, ap, inl, inr,
  Bool-cases, false, ◌==◌, [], ◌∷◌, arith, Bytes, ltb,
}
use dkim.Str.Decimal.{decimal_loop, decimal, int_to_string}
use dkim.Str.Numbers.{
  IntError, pos_overflow, neg_overflow, ℤ, pos, negsuc, digits, signed, parse_usize, parse_i64,
  usize_max, map_right, negate,
}

module _ (bound : ℕ) (over : IntError) where
  -- A digit is read by its value.
  digits_step :
      (out : Bytes) (q d : ℕ)
      → d < 10
      → q * 10 + d ≤ bound
      → digits bound over ((b'0' + d) ∷ out) q ≡ digits bound over out (q * 10 + d)
  unfolding digits
  digits_step out q d small fits = ground arith

  digits_read :
      (fuel n : ℕ) (out : Bytes)
      → n < fuel
      → n ≤ bound
      → digits bound over (decimal_loop fuel n out) 0 ≡ digits bound over out n
  unfolding decimal_loop
  digits_read zero n out enough fits = absurd (omega arith)
  digits_read (suc fuel) n out enough fits = elim (Bool-cases (ltb n 10)) [
    | inl small ↦
        let last = digits_step out 0 (n % 10) (omega arith) (omega arith) in
        rw small (last ∙ ap (digits bound over out) (ground arith))
    | inr large ↦
        let shorter =
          digits_read fuel (n / 10) ((b'0' + n % 10) ∷ out) (ground arith) (omega arith) in
        let digit = digits_step out (n / 10) (n % 10) (omega arith) (omega arith) in
        rw large (shorter ∙ digit ∙ ap (digits bound over out) (omega arith))
  ]

-- A text with a digit in front.
abbrev Front : Bytes → Type 0
Front t = (d : ℕ) × (s : Bytes) × (t ≡ (b'0' + d) ∷ s)

decimal_loop-Front : (fuel n : ℕ) (out : Bytes) → Front out → Front (decimal_loop fuel n out)
unfolding decimal_loop
decimal_loop-Front zero n out h = h
decimal_loop-Front (suc fuel) n out h = elim (Bool-cases (ltb n 10)) [
  | inl small ↦ rw small (n % 10, out, refl)
  | inr large ↦
      rw large (decimal_loop-Front fuel (n / 10) ((b'0' + n % 10) ∷ out) (n % 10, out, refl))
]

decimal_loop_first : (fuel n : ℕ) → Front (decimal_loop (suc fuel) n [])
unfolding decimal_loop
decimal_loop_first fuel n = elim (Bool-cases (ltb n 10)) [
  | inl small ↦ rw small (n % 10, [], refl)
  | inr large ↦
      rw large (decimal_loop-Front fuel (n / 10) ((b'0' + n % 10) ∷ []) (n % 10, [], refl))
]

-- A number is written with a digit in front.
decimal-Front : (n : ℕ) → Front (decimal n)
unfolding decimal
decimal-Front n =
    let more : suc n ≡ n + 1 = omega arith in
    subst (λ fuel. Front (decimal_loop fuel n [])) more (decimal_loop_first n n)

decimal_read :
    (bound : ℕ) (over : IntError) (n : ℕ) → n ≤ bound → digits bound over (decimal n) 0 ≡ inr n
unfolding decimal digits
decimal_read bound over n fits = digits_read bound over (n + 1) n [] (omega arith) fits

parse_usize_unsigned :
    (d : ℕ) (s : Bytes)
    → parse_usize ((b'0' + d) ∷ s) ≡ digits usize_max pos_overflow ((b'0' + d) ∷ s) 0
unfolding parse_usize
parse_usize_unsigned d s = ground arith

-- A number of 64 bits is read back.
pub parse_usize-decimal : (n : ℕ) → n ≤ usize_max → parse_usize (decimal n) ≡ inr n
parse_usize-decimal n fits =
    let (d, s, is) = decimal-Front n in
    let read = decimal_read usize_max pos_overflow n fits in
    rw is (parse_usize_unsigned d s ∙ (rw is at read))

-- A number of 64 bits with a sign.
abbrev pub Fits : ℤ → Type 0
Fits (pos n) = n ≤ 2 ^ 63 - 1
Fits (negsuc n) = n + 1 ≤ 2 ^ 63

parse_i64_unsigned :
    (d : ℕ) (s : Bytes)
    → parse_i64 ((b'0' + d) ∷ s)
      ≡ map_right pos (digits (2 ^ 63 - 1) pos_overflow ((b'0' + d) ∷ s) 0)
unfolding parse_i64
parse_i64_unsigned d s =
    let plus : ((b'0' + d) == b'+') ≡ false = ground arith in
    let minus : ((b'0' + d) == b'-') ≡ false = ground arith in rw plus (rw minus refl)

parse_i64_minus :
    (s : Bytes)
    → Front s
    → parse_i64 (b'-' ∷ s) ≡ map_right negate (digits (2 ^ 63) neg_overflow s 0)
unfolding parse_i64 signed
parse_i64_minus s (d, t, is) = rw is refl

negate_suc : (n : ℕ) → negate (n + 1) ≡ negsuc n
negate_suc n =
    let nonzero : ((n + 1) == 0) ≡ false = ground arith in
    let back : n + 1 - 1 ≡ n = omega arith in rw nonzero (ap negsuc back)

-- An integer of 64 bits is read back.
pub parse_i64-int_to_string : (z : ℤ) → Fits z → parse_i64 (int_to_string z) ≡ inr z
unfolding int_to_string
parse_i64-int_to_string (pos n) fits =
    let (d, s, is) = decimal-Front n in
    let read = decimal_read (2 ^ 63 - 1) pos_overflow n fits in
    rw is (parse_i64_unsigned d s ∙ ap (map_right pos) (rw is at read))
parse_i64-int_to_string (negsuc n) fits =
    let read = decimal_read (2 ^ 63) neg_overflow (n + 1) fits in
    parse_i64_minus (decimal (n + 1)) (decimal-Front (n + 1))
    ∙ ap (map_right negate) read
    ∙ ap inr (negate_suc n)
