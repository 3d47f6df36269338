-- ===== src/Tests/Real/Sha2.antt =====
-- SHA-256 and SHA-512 (FIPS 180-4) by executable definitions, for the tests with real digests.
use dkim.Prelude.{
  ℕ, zero, suc, ◌+◌, ◌-◌, ◌*◌, ◌/◌, ◌%◌, ◌^◌, List, [], ◌∷◌, Bytes, length, take, drop, refl, ◌≡◌,
  codes,
}
use Prim.Native.Nat.{bit_and, bit_xor}
use dkim.Tests.Real.Numbers.{big_endian, number, chunks, padded}

-- What differs between the two: the width of a word, the constants, and the amounts of Σ0, Σ1, σ0
-- and σ1.
pub record Variant : Type 0 where
  pub width : ℕ
  pub constants : List ℕ
  pub big0 : ℕ × ℕ × ℕ
  pub big1 : ℕ × ℕ × ℕ
  pub small0 : ℕ × ℕ × ℕ
  pub small1 : ℕ × ℕ × ℕ

pub record Words : Type 0 where
  pub a : ℕ
  pub b : ℕ
  pub c : ℕ
  pub d : ℕ
  pub e : ℕ
  pub f : ℕ
  pub g : ℕ
  pub h : ℕ

module _ (v : Variant) where
  abbrev rotate : ℕ → ℕ → ℕ
  rotate n x = x / 2 ^ n + x % 2 ^ n * 2 ^ (v.width - n)

  abbrev add : ℕ → ℕ → ℕ
  add x y = (x + y) % 2 ^ v.width

  abbrev rotations : ℕ × ℕ × ℕ → ℕ → ℕ
  rotations (i, j, k) x = bit_xor (bit_xor (rotate i x) (rotate j x)) (rotate k x)

  abbrev shifted : ℕ × ℕ × ℕ → ℕ → ℕ
  shifted (i, j, k) x = bit_xor (bit_xor (rotate i x) (rotate j x)) (x / 2 ^ k)

  abbrev choice : ℕ → ℕ → ℕ → ℕ
  choice x y z = bit_xor (bit_and x y) (bit_and (2 ^ v.width - 1 - x) z)

  abbrev majority : ℕ → ℕ → ℕ → ℕ
  majority x y z = bit_xor (bit_xor (bit_and x y) (bit_and x z)) (bit_and y z)

  abbrev round : ℕ → ℕ → Words → Words
  round k w s =
      let t = s.h + rotations v.big1 s.e + choice s.e s.f s.g + k + w in
      let u = rotations v.big0 s.a + majority s.a s.b s.c in
      record { a = add t u; b = s.a; c = s.b; d = s.c; e = add s.d t; f = s.e; g = s.f; h = s.g }

  -- The next word of the schedule, from the last sixteen.
  abbrev next : List ℕ → List ℕ
  next (w0 ∷ w1 ∷ w2 ∷ w3 ∷ w4 ∷ w5 ∷ w6 ∷ w7 ∷ w8 ∷ w9 ∷ w10 ∷ w11 ∷ w12 ∷ w13 ∷ w14 ∷ w15 ∷ []) =
      w1
      ∷ w2
      ∷ w3
      ∷ w4
      ∷ w5
      ∷ w6
      ∷ w7
      ∷ w8
      ∷ w9
      ∷ w10
      ∷ w11
      ∷ w12
      ∷ w13
      ∷ w14
      ∷ w15
      ∷ add (shifted v.small1 w14 + w9) (shifted v.small0 w1 + w0)
      ∷ []
  next w = w

  abbrev head : List ℕ → ℕ
  head [] = 0
  head (x ∷ s) = x

  abbrev rounds : List ℕ → List ℕ → Words → Words
  rounds [] w s = s
  rounds (k ∷ ks) w s = rounds ks (next w) (round k (head w) s)

  abbrev compress : Words → Bytes → Words
  compress s block =
      let t = rounds v.constants (chunks 16 (v.width / 8) block) s in
      record {
        a = add s.a t.a;
        b = add s.b t.b;
        c = add s.c t.c;
        d = add s.d t.d;
        e = add s.e t.e;
        f = add s.f t.f;
        g = add s.g t.g;
        h = add s.h t.h;
      }

  abbrev blocks : ℕ → Bytes → Words → Words
  blocks zero text s = s
  blocks (suc n) text s = blocks n (drop (2 * v.width) text) (compress s (take (2 * v.width) text))

  abbrev digest : Words → Bytes → Bytes
  digest start text =
      let whole = padded (2 * v.width) (v.width / 4) text in
      let s = blocks (length whole / (2 * v.width)) whole start in
      let n = v.width / 8 in
      big_endian n s.a (
        big_endian n s.b (
          big_endian n s.c (
            big_endian n s.d
              (big_endian n s.e (big_endian n s.f (big_endian n s.g (big_endian n s.h [])))))))

abbrev variant256 : Variant
variant256 = record {
  width = 32;
  constants =
      0x428a2f98 ∷ 0x71374491 ∷ 0xb5c0fbcf ∷ 0xe9b5dba5 ∷ 0x3956c25b ∷ 0x59f111f1 ∷ 0x923f82a4
      ∷ 0xab1c5ed5 ∷ 0xd807aa98 ∷ 0x12835b01 ∷ 0x243185be ∷ 0x550c7dc3 ∷ 0x72be5d74 ∷ 0x80deb1fe
      ∷ 0x9bdc06a7 ∷ 0xc19bf174 ∷ 0xe49b69c1 ∷ 0xefbe4786 ∷ 0xfc19dc6 ∷ 0x240ca1cc ∷ 0x2de92c6f
      ∷ 0x4a7484aa ∷ 0x5cb0a9dc ∷ 0x76f988da ∷ 0x983e5152 ∷ 0xa831c66d ∷ 0xb00327c8 ∷ 0xbf597fc7
      ∷ 0xc6e00bf3 ∷ 0xd5a79147 ∷ 0x6ca6351 ∷ 0x14292967 ∷ 0x27b70a85 ∷ 0x2e1b2138 ∷ 0x4d2c6dfc
      ∷ 0x53380d13 ∷ 0x650a7354 ∷ 0x766a0abb ∷ 0x81c2c92e ∷ 0x92722c85 ∷ 0xa2bfe8a1 ∷ 0xa81a664b
      ∷ 0xc24b8b70 ∷ 0xc76c51a3 ∷ 0xd192e819 ∷ 0xd6990624 ∷ 0xf40e3585 ∷ 0x106aa070 ∷ 0x19a4c116
      ∷ 0x1e376c08 ∷ 0x2748774c ∷ 0x34b0bcb5 ∷ 0x391c0cb3 ∷ 0x4ed8aa4a ∷ 0x5b9cca4f ∷ 0x682e6ff3
      ∷ 0x748f82ee ∷ 0x78a5636f ∷ 0x84c87814 ∷ 0x8cc70208 ∷ 0x90befffa ∷ 0xa4506ceb ∷ 0xbef9a3f7
      ∷ 0xc67178f2 ∷ [];
  big0 = (2, 13, 22);
  big1 = (6, 11, 25);
  small0 = (7, 18, 3);
  small1 = (17, 19, 10);
}

abbrev variant512 : Variant
variant512 = record {
  width = 64;
  constants =
      0x428a2f98d728ae22 ∷ 0x7137449123ef65cd ∷ 0xb5c0fbcfec4d3b2f ∷ 0xe9b5dba58189dbbc
      ∷ 0x3956c25bf348b538 ∷ 0x59f111f1b605d019 ∷ 0x923f82a4af194f9b ∷ 0xab1c5ed5da6d8118
      ∷ 0xd807aa98a3030242 ∷ 0x12835b0145706fbe ∷ 0x243185be4ee4b28c ∷ 0x550c7dc3d5ffb4e2
      ∷ 0x72be5d74f27b896f ∷ 0x80deb1fe3b1696b1 ∷ 0x9bdc06a725c71235 ∷ 0xc19bf174cf692694
      ∷ 0xe49b69c19ef14ad2 ∷ 0xefbe4786384f25e3 ∷ 0xfc19dc68b8cd5b5 ∷ 0x240ca1cc77ac9c65
      ∷ 0x2de92c6f592b0275 ∷ 0x4a7484aa6ea6e483 ∷ 0x5cb0a9dcbd41fbd4 ∷ 0x76f988da831153b5
      ∷ 0x983e5152ee66dfab ∷ 0xa831c66d2db43210 ∷ 0xb00327c898fb213f ∷ 0xbf597fc7beef0ee4
      ∷ 0xc6e00bf33da88fc2 ∷ 0xd5a79147930aa725 ∷ 0x6ca6351e003826f ∷ 0x142929670a0e6e70
      ∷ 0x27b70a8546d22ffc ∷ 0x2e1b21385c26c926 ∷ 0x4d2c6dfc5ac42aed ∷ 0x53380d139d95b3df
      ∷ 0x650a73548baf63de ∷ 0x766a0abb3c77b2a8 ∷ 0x81c2c92e47edaee6 ∷ 0x92722c851482353b
      ∷ 0xa2bfe8a14cf10364 ∷ 0xa81a664bbc423001 ∷ 0xc24b8b70d0f89791 ∷ 0xc76c51a30654be30
      ∷ 0xd192e819d6ef5218 ∷ 0xd69906245565a910 ∷ 0xf40e35855771202a ∷ 0x106aa07032bbd1b8
      ∷ 0x19a4c116b8d2d0c8 ∷ 0x1e376c085141ab53 ∷ 0x2748774cdf8eeb99 ∷ 0x34b0bcb5e19b48a8
      ∷ 0x391c0cb3c5c95a63 ∷ 0x4ed8aa4ae3418acb ∷ 0x5b9cca4f7763e373 ∷ 0x682e6ff3d6b2b8a3
      ∷ 0x748f82ee5defb2fc ∷ 0x78a5636f43172f60 ∷ 0x84c87814a1f0ab72 ∷ 0x8cc702081a6439ec
      ∷ 0x90befffa23631e28 ∷ 0xa4506cebde82bde9 ∷ 0xbef9a3f7b2c67915 ∷ 0xc67178f2e372532b
      ∷ 0xca273eceea26619c ∷ 0xd186b8c721c0c207 ∷ 0xeada7dd6cde0eb1e ∷ 0xf57d4f7fee6ed178
      ∷ 0x6f067aa72176fba ∷ 0xa637dc5a2c898a6 ∷ 0x113f9804bef90dae ∷ 0x1b710b35131c471b
      ∷ 0x28db77f523047d84 ∷ 0x32caab7b40c72493 ∷ 0x3c9ebe0a15c9bebc ∷ 0x431d67c49c100d4c
      ∷ 0x4cc5d4becb3e42b6 ∷ 0x597f299cfc657e2a ∷ 0x5fcb6fab3ad6faec ∷ 0x6c44198c4a475817 ∷ [];
  big0 = (28, 34, 39);
  big1 = (14, 18, 41);
  small0 = (1, 8, 7);
  small1 = (19, 61, 6);
}

abbrev pub sha256 : Bytes → Bytes
sha256 = digest variant256 (record {
  a = 0x6a09e667;
  b = 0xbb67ae85;
  c = 0x3c6ef372;
  d = 0xa54ff53a;
  e = 0x510e527f;
  f = 0x9b05688c;
  g = 0x1f83d9ab;
  h = 0x5be0cd19;
})

abbrev pub sha512 : Bytes → Bytes
sha512 = digest variant512 (record {
  a = 0x6a09e667f3bcc908;
  b = 0xbb67ae8584caa73b;
  c = 0x3c6ef372fe94f82b;
  d = 0xa54ff53a5f1d36f1;
  e = 0x510e527fade682d1;
  f = 0x9b05688c2b3e6c1f;
  g = 0x1f83d9abfb41bd6b;
  h = 0x5be0cd19137e2179;
})

-- The examples of the standard.
run_sha256 :
    number 0 (sha256 (codes "abc"))
    ≡ 0xba7816bf8f01cfea414140de5dae2223b00361a396177a9cb410ff61f20015ad
run_sha256 = refl

run_sha512 :
    number 0 (sha512 (codes "abc"))
    ≡ 0xddaf35a193617abacc417349ae20413112e6fa4e89a97ea20a9eeee64b55d39a2192992a274fc1a836ba3c23a3feebbd454d4423643ce80e2a9ac94fa54ca49f
run_sha512 = refl
