-- ===== src/Str/Decimal.antt =====
-- `to_string` of an integer, which src/header.rs writes times with.
use dkim.Prelude.{ℕ, zero, suc, ◌+◌, ◌/◌, ◌%◌, [], ◌∷◌, Bytes, ltb, if◌then◌else◌}
use dkim.Str.Numbers.{ℤ, pos, negsuc}

-- A number has fewer digits than its value plus one.
unfoldable pub decimal_loop : ℕ → ℕ → Bytes → Bytes
decimal_loop zero n out = out
decimal_loop (suc fuel) n out =
    let digit = b'0' + n % 10 in
    let rest = decimal_loop fuel (n / 10) (digit ∷ out) in if ltb n 10 then digit ∷ out else rest

unfoldable pub decimal : ℕ → Bytes
unfolding decimal_loop
decimal n = decimal_loop (n + 1) n []

unfoldable pub int_to_string : ℤ → Bytes
unfolding decimal
int_to_string (pos n) = decimal n
int_to_string (negsuc n) = b'-' ∷ decimal (n + 1)
