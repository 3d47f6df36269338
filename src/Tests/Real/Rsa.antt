-- ===== src/Tests/Real/Rsa.antt =====
-- RSA signatures of PKCS #1 v1.5 (RFC 8017), and the two DER forms of a public key.
use dkim.Prelude.{
  ℕ, zero, suc, ◌+◌, ◌-◌, ◌*◌, ◌/◌, Bool, false, [], ◌∷◌, ◌++◌, ◌⊎◌, inl, inr, Option, none, some,
  Bytes, codes, length, take, drop, beq, ltb, leb, ◌==◌, ◌&&◌, if◌then◌else◌,
}
use dkim.Externals.{Digest, sha1, sha256}
use dkim.Tests.Real.Numbers.{big_endian, number, power}

pub record PublicKey : Type 0 where
  pub modulus : ℕ
  pub exponent : ℕ

pub record PrivateKey : Type 0 where
  pub modulus : ℕ
  pub exponent : ℕ

-- The size of a number in bytes.
abbrev size_of : ℕ → ℕ → ℕ
size_of zero n = 0
size_of (suc fuel) n = let rest = size_of fuel (n / 256) in if n == 0 then 0 else suc rest

abbrev size : ℕ → ℕ
size = size_of 1024

-- The contents of a DER value with a tag, and what is behind it.
abbrev cut : ℕ → Bytes → Option (Bytes × Bytes)
cut n s = if leb n (length s) then some (take n s, drop n s) else none

abbrev contents : Bytes → Option (Bytes × Bytes)
contents [] = none
contents (n ∷ s) =
    if ltb n 128 then cut n s else cut (number 0 (take (n - 128) s)) (drop (n - 128) s)

abbrev tagged : ℕ → Bytes → Option (Bytes × Bytes)
tagged tag [] = none
tagged tag (c ∷ s) = if c == tag then contents s else none

abbrev der_error : Bytes
der_error = codes "ASN.1 error"

-- The sizes that the crate takes.
abbrev checked : ℕ → ℕ → Bytes ⊎ PublicKey
checked n e =
    if leb 2 e && (ltb e 8589934592 && leb (size n) 512)
    then inr (record { modulus = n; exponent = e })
    else inl der_error

-- SEQUENCE { INTEGER, INTEGER }.
abbrev two_numbers : Option (Bytes × Bytes) → Bytes ⊎ PublicKey
two_numbers none = inl der_error
two_numbers (some (body, _)) = elim (tagged 2 body) [
  | none ↦ inl der_error
  | some (n, rest) ↦ elim (tagged 2 rest) [
    | none ↦ inl der_error
    | some (e, _) ↦ checked (number 0 n) (number 0 e)
  ]
]

abbrev pub from_pkcs1_der : Bytes → Bytes ⊎ PublicKey
from_pkcs1_der s = two_numbers (tagged 48 s)

-- SEQUENCE { SEQUENCE { ... }, BIT STRING { 0, the key } }.
abbrev pub from_public_key_der : Bytes → Bytes ⊎ PublicKey
from_public_key_der s = elim (tagged 48 s) [
  | none ↦ inl der_error
  | some (body, _) ↦ elim (tagged 48 body) [
    | none ↦ inl der_error
    | some (_, rest) ↦ elim (tagged 3 rest) [
      | none ↦ inl der_error
      | some (bits, _) ↦ from_pkcs1_der (drop 1 bits)
    ]
  ]
]

-- An integer, whose first bit is a sign.
abbrev der_length : ℕ → Bytes
der_length n = if ltb n 128 then n ∷ [] else (128 + size n) ∷ big_endian (size n) n []

abbrev der_integer : ℕ → Bytes
der_integer n =
    let bytes = big_endian (size (n * 2)) n [] in 2 ∷ (der_length (length bytes) ++ bytes)

abbrev pub to_pkcs1_der : PublicKey → Option Bytes
to_pkcs1_der key =
    let body = der_integer key.modulus ++ der_integer key.exponent in
    some (48 ∷ (der_length (length body) ++ body))

-- DigestInfo without the digest.
abbrev prefix : Digest → Bytes
prefix sha1 = big_endian 15 0x3021300906052b0e03021a05000414 []
prefix sha256 = big_endian 19 0x3031300d060960864801650304020105000420 []

abbrev filler : ℕ → Bytes → Bytes
filler zero s = s
filler (suc n) s = 255 ∷ filler n s

abbrev encoded : ℕ → Digest → Bytes → Bytes
encoded k digest hash =
    let info = prefix digest ++ hash in 0 ∷ 1 ∷ filler (k - 3 - length info) (0 ∷ info)

abbrev pub verify : PublicKey → Digest → Bytes → Bytes → Bool
verify key digest hash signature =
    let k = size key.modulus in
    let s = number 0 signature in
    if length signature == k && ltb s key.modulus
    then beq (big_endian k (power 34 s key.exponent key.modulus 1) []) (encoded k digest hash)
    else false

abbrev pub sign : PrivateKey → Digest → Bytes → Bytes ⊎ Bytes
sign key digest hash =
    let k = size key.modulus in
    let m = number 0 (encoded k digest hash) in
    inr (big_endian k (power 4096 m key.exponent key.modulus 1) [])
