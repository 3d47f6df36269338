-- ===== src/Str/Digits.antt =====
-- The digits of the times that src/header.rs writes.
use dkim.Prelude.{
  ℕ, zero, suc, ◌+◌, ◌/◌, ◌%◌, ◌≡◌, refl, true, false, [], ◌∷◌, Bytes, ltb, arith, if◌then◌else◌,
}
use dkim.Nom.Scan.{AllPass}
use dkim.Parser.{is_valchar}
use dkim.Str.Decimal.{decimal_loop, decimal, int_to_string}
use dkim.Str.Numbers.{ℤ, pos, negsuc}

digit_visible : (n : ℕ) → is_valchar (b'0' + n % 10) ≡ true
digit_visible n = ground arith

decimal_loop_visible :
    (fuel n : ℕ) (out : Bytes)
    → AllPass is_valchar out
    → AllPass is_valchar (decimal_loop fuel n out)
unfolding decimal_loop
decimal_loop_visible zero n out h = h
decimal_loop_visible (suc fuel) n out h =
    elim (ltb n 10)
      as (λ b. AllPass is_valchar (
        if b
        then ((b'0' + n % 10) ∷ out)
        else decimal_loop fuel (n / 10) ((b'0' + n % 10) ∷ out))) [
          | true ↦ (digit_visible n, h)
          | false ↦ decimal_loop_visible fuel (n / 10) ((b'0' + n % 10) ∷ out) (digit_visible n, h)
        ]

-- The decimal form of an integer is made of visible characters.
pub int_to_string_visible : (n : ℤ) → AllPass is_valchar (int_to_string n)
unfolding int_to_string decimal
int_to_string_visible (pos n) = decimal_loop_visible (n + 1) n [] tt
int_to_string_visible (negsuc n) = (refl, decimal_loop_visible (n + 1 + 1) (n + 1) [] tt)
