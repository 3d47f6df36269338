-- ===== src/Tests/Real.antt =====
-- The crates by executable definitions after their standards, for the tests with real digests, keys and
-- signatures.
mod Numbers
mod Sha1
mod Sha2
mod Base64
pub mod Rsa
mod Ed25519
pub mod Mail
use dkim.Externals.{Crypto, Platform}
use dkim.Tests.Combinators.{combinators}
use dkim.Tests.Crates.{ascii, clock, get_all_headers}
use dkim.Tests.Real.Base64.{encode, decode}
use dkim.Tests.Real.Ed25519.{VerifyingKey, verifying_key_from_bytes}
use dkim.Tests.Real.Rsa.{PublicKey, PrivateKey}
use dkim.Tests.Real.Sha1.{sha1}
use dkim.Tests.Real.Sha2.{sha256}
use dkim.Prelude.{Bytes}

abbrev pub crypto : Crypto
crypto = record {
  hash_sha1 = sha1;
  hash_sha256 = sha256;
  base64_encode = encode;
  base64_decode = decode;
  RsaPublicKey = PublicKey;
  RsaPrivateKey = PrivateKey;
  from_pkcs1_der = dkim.Tests.Real.Rsa.from_pkcs1_der;
  from_public_key_der = dkim.Tests.Real.Rsa.from_public_key_der;
  to_pkcs1_der = dkim.Tests.Real.Rsa.to_pkcs1_der;
  rsa_verify = dkim.Tests.Real.Rsa.verify;
  rsa_sign = dkim.Tests.Real.Rsa.sign;
  VerifyingKey = VerifyingKey;
  SigningKey = Bytes;
  verifying_key_from_bytes = verifying_key_from_bytes;
  verifying_key_bytes = λ key. key.bytes;
  verify_strict = dkim.Tests.Real.Ed25519.verify_strict;
  signing_key_sign = dkim.Tests.Real.Ed25519.sign;
}

abbrev pub crates : Platform
crates = record {
  nom = combinators;
  unicode = ascii;
  chrono = clock;
  crypto = crypto;
  mailparse = record { get_all_headers = get_all_headers };
}
