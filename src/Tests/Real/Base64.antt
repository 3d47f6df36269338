-- ===== src/Tests/Real/Base64.antt =====
-- Base64 with padding (RFC 4648), as the STANDARD engine of the crate base64 has it: letters that stand
-- for bits past the end are refused.
use dkim.Prelude.{
  ℕ, ◌+◌, ◌-◌, ◌*◌, ◌/◌, ◌%◌, [], ◌∷◌, ◌++◌, ◌⊎◌, inl, inr, Bytes, codes, ◌==◌, ltb, leb, ◌&&◌, ◌≡◌,
  refl, if◌then◌else◌,
}

abbrev letter : ℕ → ℕ
letter n =
    if ltb n 26
    then b'A' + n
    else if ltb n 52
    then b'a' + (n - 26)
    else if ltb n 62
    then b'0' + (n - 52)
    else if n == 62
    then b'+'
    else b'/'

abbrev pub encode : Bytes → Bytes
encode [] = []
encode (x ∷ []) = letter (x / 4) ∷ letter (x % 4 * 16) ∷ codes "=="
encode (x ∷ y ∷ []) =
    letter (x / 4) ∷ letter (x % 4 * 16 + y / 16) ∷ letter (y % 16 * 4) ∷ codes "="
encode (x ∷ y ∷ z ∷ s) =
    letter (x / 4)
    ∷ letter (x % 4 * 16 + y / 16)
    ∷ letter (y % 16 * 4 + z / 64)
    ∷ letter (z % 64)
    ∷ encode s

-- The value of a letter; 64 is none.
abbrev value : ℕ → ℕ
value c =
    if leb b'A' c && leb c b'Z'
    then c - b'A'
    else if leb b'a' c && leb c b'z'
    then c - b'a' + 26
    else if leb b'0' c && leb c b'9'
    then c - b'0' + 52
    else if c == b'+'
    then 62
    else if c == b'/'
    then 63
    else 64

abbrev Decoded : Type 0
Decoded = Bytes ⊎ Bytes

abbrev invalid : Decoded
invalid = inl (codes "invalid base64")

abbrev prepend : Bytes → Decoded → Decoded
prepend s (inl e) = inl e
prepend s (inr t) = inr (s ++ t)

-- Four letters that are no padding.
abbrev whole : ℕ → ℕ → ℕ → ℕ → Decoded → Decoded
whole p q r t rest =
    if ltb p 64 && (ltb q 64 && (ltb r 64 && ltb t 64))
    then prepend ((p * 4 + q / 16) ∷ (q % 16 * 16 + r / 4) ∷ (r % 4 * 64 + t) ∷ []) rest
    else invalid

-- The last four letters.
abbrev last : ℕ → ℕ → ℕ → ℕ → Decoded
last a b c d =
    if d == b'='
    then (if c == b'='
        then (if ltb (value a) 64 && (ltb (value b) 64 && (value b % 16 == 0))
            then inr ((value a * 4 + value b / 16) ∷ [])
            else invalid)
        else if ltb (value a) 64 && (ltb (value b) 64 && (ltb (value c) 64 && (value c % 4 == 0)))
        then inr ((value a * 4 + value b / 16) ∷ (value b % 16 * 16 + value c / 4) ∷ [])
        else invalid)
    else whole (value a) (value b) (value c) (value d) (inr [])

abbrev pub decode : Bytes → Decoded
decode [] = inr []
decode (a ∷ b ∷ c ∷ d ∷ []) = last a b c d
decode (a ∷ b ∷ c ∷ d ∷ e ∷ s) = whole (value a) (value b) (value c) (value d) (decode (e ∷ s))
decode _ = invalid

-- Examples of the standard, and bits past the end.
run_encode : encode (codes "fooba") ≡ codes "Zm9vYmE="
run_encode = refl

run_decode : decode (codes "Zm9vYg==") ≡ inr (codes "foob")
run_decode = refl

run_decode_trailing : decode (codes "Zm9vYh==") ≡ inl (codes "invalid base64")
run_decode_trailing = refl
