-- ===== src/Tests/Real/Sha1.antt =====
-- SHA-1 (FIPS 180-4) by an executable definition, for the tests with real digests.
use Prim.Native.Nat.{bit_and, bit_or, bit_xor}
use dkim.Prelude.{
  ℕ, zero, suc, ◌+◌, ◌-◌, ◌*◌, ◌/◌, ◌%◌, ◌^◌, List, [], ◌∷◌, Bytes, length, take, drop, codes, ◌≡◌,
  refl, ltb, if◌then◌else◌,
}
use dkim.Tests.Real.Numbers.{big_endian, number, chunks, padded}

record Words : Type 0 where
  a : ℕ
  b : ℕ
  c : ℕ
  d : ℕ
  e : ℕ

abbrev add : ℕ → ℕ → ℕ
add x y = (x + y) % 2 ^ 32

abbrev rotate : ℕ → ℕ → ℕ
rotate n x = x * 2 ^ n % 2 ^ 32 + x / 2 ^ (32 - n)

abbrev parity : ℕ → ℕ → ℕ → ℕ
parity x y z = bit_xor (bit_xor x y) z

-- The function and the constant of round `t`.
abbrev mixed : ℕ → ℕ → ℕ → ℕ → ℕ
mixed t x y z =
    if ltb t 20
    then bit_xor (bit_and x y) (bit_and (2 ^ 32 - 1 - x) z) + 0x5a827999
    else if ltb t 40
    then parity x y z + 0x6ed9eba1
    else if ltb t 60
    then bit_or (bit_or (bit_and x y) (bit_and x z)) (bit_and y z) + 0x8f1bbcdc
    else parity x y z + 0xca62c1d6

abbrev next : List ℕ → List ℕ
next (w0 ∷ w1 ∷ w2 ∷ w3 ∷ w4 ∷ w5 ∷ w6 ∷ w7 ∷ w8 ∷ w9 ∷ w10 ∷ w11 ∷ w12 ∷ w13 ∷ w14 ∷ w15 ∷ []) =
    w1
    ∷ w2
    ∷ w3
    ∷ w4
    ∷ w5
    ∷ w6
    ∷ w7
    ∷ w8
    ∷ w9
    ∷ w10
    ∷ w11
    ∷ w12
    ∷ w13
    ∷ w14
    ∷ w15
    ∷ rotate 1 (bit_xor (parity w13 w8 w2) w0)
    ∷ []
next w = w

abbrev head : List ℕ → ℕ
head [] = 0
head (x ∷ s) = x

abbrev round : ℕ → ℕ → Words → Words
round t w s = record {
  a = add (rotate 5 s.a + mixed t s.b s.c s.d + s.e) w;
  b = s.a;
  c = rotate 30 s.b;
  d = s.c;
  e = s.d;
}

abbrev rounds : ℕ → ℕ → List ℕ → Words → Words
rounds zero t w s = s
rounds (suc n) t w s = rounds n (suc t) (next w) (round t (head w) s)

abbrev compress : Words → Bytes → Words
compress s block =
    let t = rounds 80 0 (chunks 16 4 block) s in
    record { a = add s.a t.a; b = add s.b t.b; c = add s.c t.c; d = add s.d t.d; e = add s.e t.e }

abbrev blocks : ℕ → Bytes → Words → Words
blocks zero text s = s
blocks (suc n) text s = blocks n (drop 64 text) (compress s (take 64 text))

abbrev start : Words
start = record { a = 0x67452301; b = 0xefcdab89; c = 0x98badcfe; d = 0x10325476; e = 0xc3d2e1f0 }

abbrev pub sha1 : Bytes → Bytes
sha1 text =
    let whole = padded 64 8 text in
    let s = blocks (length whole / 64) whole start in
    big_endian 4 s.a (big_endian 4 s.b (big_endian 4 s.c (big_endian 4 s.d (big_endian 4 s.e []))))

-- The example of the standard.
run_sha1 : number 0 (sha1 (codes "abc")) ≡ 0xa9993e364706816aba3e25717850c26c9cd0d89d
run_sha1 = refl
