-- ===== src/Tests/Crates.antt =====
-- The crates that the program calls, by executable definitions: a digest is the length of its text
-- in decimal, a signature is the digest that it signs, and base64 is the text itself.
use dkim.Prelude.{
  ℕ, ◌+◌, ◌*◌, refl, List, [], ◌∷◌, inr, Option, none, some, Bytes, length, beq, ltb, if◌then◌else◌,
}
use dkim.Externals.{Chrono, Crypto, MailHeader, Platform}
use dkim.Str.Decimal.{decimal}
use dkim.Str.Numbers.{ℤ, pos, negsuc}
use dkim.Str.{Unicode, to_ascii_lowercase, eq_ignore_ascii_case}
use dkim.Tests.Combinators.{combinators}

abbrev time_of : ℤ → Option ℕ
time_of (pos n) = some n
time_of (negsuc n) = none

abbrev pub clock : Chrono
clock = record {
  Time = ℕ;
  Duration = ℕ;
  minutes = λ n. n * 60;
  plus = λ t d. some (t + d);
  timestamp = λ t. pos t;
  from_timestamp_opt = time_of;
  later = λ a b. ltb b a;
}

-- A clock whose last instant is 1000.
abbrev in_range : ℕ → Option ℕ
in_range n = if ltb 1000 n then none else some n

abbrev in_range_of : ℤ → Option ℕ
in_range_of (pos n) = in_range n
in_range_of (negsuc n) = none

abbrev pub short_clock : Chrono
short_clock = record {
  Time = ℕ;
  Duration = ℕ;
  minutes = λ n. n * 60;
  plus = λ t d. in_range (t + d);
  timestamp = λ t. pos t;
  from_timestamp_opt = in_range_of;
  later = λ a b. ltb b a;
}

abbrev pub ascii : Unicode
ascii = record {
  to_lowercase = to_ascii_lowercase;
  from_utf8_lossy = λ s. s;
  to_lowercase_ascii = λ s h. refl;
  from_utf8_lossy_ascii = λ s h. refl;
}

abbrev pub toy_crypto : Crypto
toy_crypto = record {
  hash_sha1 = λ s. decimal (length s);
  hash_sha256 = λ s. decimal (length s);
  base64_encode = λ s. s;
  base64_decode = λ s. inr s;
  RsaPublicKey = Bytes;
  RsaPrivateKey = Bytes;
  from_pkcs1_der = λ s. inr s;
  from_public_key_der = λ s. inr s;
  to_pkcs1_der = λ key. some key;
  rsa_verify = λ key digest hash signature. beq hash signature;
  rsa_sign = λ key digest hash. inr hash;
  VerifyingKey = Bytes;
  SigningKey = Bytes;
  verifying_key_from_bytes = λ s. inr s;
  verifying_key_bytes = λ key. key;
  verify_strict = λ key hash signature. beq hash signature;
  signing_key_sign = λ key hash. hash;
}

abbrev pub get_all_headers : List MailHeader → Bytes → List MailHeader
get_all_headers [] name = []
get_all_headers (h ∷ hs) name =
    if eq_ignore_ascii_case h.key name then h ∷ get_all_headers hs name else get_all_headers hs name

abbrev pub crates : Platform
crates = record {
  nom = combinators;
  unicode = ascii;
  chrono = clock;
  crypto = toy_crypto;
  mailparse = record { get_all_headers = get_all_headers };
}
