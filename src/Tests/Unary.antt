-- ===== src/Tests/Unary.antt =====
-- Crates with an encoding that is text for every input: a byte is written in unary.
use dkim.Prelude.{
  ℕ, zero, suc, ◌+◌, ◌≡◌, refl, ap, ◌∙◌, true, false, [], ◌∷◌, inr, some, Bytes, length, beq, ◌==◌,
  arith,
}
use dkim.Externals.{Crypto, Platform}
use dkim.Nom.Scan.{AllPass}
use dkim.Parser.{is_valchar}
use dkim.Tests.Combinators.{combinators}
use dkim.Tests.Crates.{ascii, clock, get_all_headers}

abbrev unary : ℕ → Bytes → Bytes
unary zero rest = b'b' ∷ rest
unary (suc n) rest = b'a' ∷ unary n rest

abbrev pub encode : Bytes → Bytes
encode [] = []
encode (c ∷ s) = unary c (encode s)

abbrev pub decode : ℕ → Bytes → Bytes
decode n [] = []
decode n (c ∷ s) = elim (c == b'a') [ true ↦ decode (suc n) s | false ↦ n ∷ decode 0 s ]

decode-unary : (n c : ℕ) (rest : Bytes) → decode n (unary c rest) ≡ (n + c) ∷ decode 0 rest
decode-unary n zero rest = let e : n ≡ n + 0 = omega arith in ap (λ m. m ∷ decode 0 rest) e
decode-unary n (suc c) rest =
    let e : suc n + c ≡ n + suc c = omega arith in
    decode-unary (suc n) c rest ∙ ap (λ m. m ∷ decode 0 rest) e

pub decode-encode : (s : Bytes) → decode 0 (encode s) ≡ s
decode-encode [] = refl
decode-encode (c ∷ s) =
    let e : 0 + c ≡ c = omega arith in
    decode-unary 0 c (encode s)
    ∙ ap (λ m. m ∷ decode 0 (encode s)) e
    ∙ ap (λ l. c ∷ l) (decode-encode s)

unary_visible : (c : ℕ) (rest : Bytes) → AllPass is_valchar rest → AllPass is_valchar (unary c rest)
unary_visible zero rest h = (refl, h)
unary_visible (suc c) rest h = (refl, unary_visible c rest h)

pub encode_visible : (s : Bytes) → AllPass is_valchar (encode s)
encode_visible [] = tt
encode_visible (c ∷ s) = unary_visible c (encode s) (encode_visible s)

-- A digest is the length of its text, in one byte.
abbrev pub unary_crypto : Crypto
unary_crypto = record {
  hash_sha1 = λ s. length s ∷ [];
  hash_sha256 = λ s. length s ∷ [];
  base64_encode = encode;
  base64_decode = λ s. inr (decode 0 s);
  RsaPublicKey = Bytes;
  RsaPrivateKey = Bytes;
  from_pkcs1_der = λ s. inr s;
  from_public_key_der = λ s. inr s;
  to_pkcs1_der = λ key. some key;
  rsa_verify = λ key digest hash signature. beq hash signature;
  rsa_sign = λ key digest hash. inr hash;
  VerifyingKey = Bytes;
  SigningKey = Bytes;
  verifying_key_from_bytes = λ s. inr s;
  verifying_key_bytes = λ key. key;
  verify_strict = λ key hash signature. beq hash signature;
  signing_key_sign = λ key hash. hash;
}

abbrev pub unary_crates : Platform
unary_crates = record {
  nom = combinators;
  unicode = ascii;
  chrono = clock;
  crypto = unary_crypto;
  mailparse = record { get_all_headers = get_all_headers };
}
