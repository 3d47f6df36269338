-- ===== src/Externals.antt =====
-- The crates that the program calls besides nom, each as an interface: chrono, the hashes, base64,
-- rsa, ed25519-dalek and mailparse. What a crate does is an argument of the model.
use dkim.Prelude.{ℕ, ◌≡◌, true, Bool, List, ◌∷◌, Option, Bytes, ◌⊎◌}
use dkim.Nom.{Nom}
use dkim.Str.Numbers.{ℤ}
use dkim.Str.{Unicode, eq_ignore_ascii_case}

-- chrono: instants and durations. An addition that overflows panics: `none`.
pub record Chrono : Type 1 where
  pub Time : Type 0
  pub Duration : Type 0
  pub minutes : ℕ → Duration
  pub plus : Time → Duration → Option Time
  pub timestamp : Time → ℤ
  pub from_timestamp_opt : ℤ → Option Time
  -- `a > b`
  pub later : Time → Time → Bool

-- The digest that a PKCS #1 v1.5 signature is made over.
pub data Digest : Type 0 where
  sha1 sha256 : Digest

-- An error of a crate is its text.
pub record Crypto : Type 1 where
  pub hash_sha1 : Bytes → Bytes
  pub hash_sha256 : Bytes → Bytes
  pub base64_encode : Bytes → Bytes
  pub base64_decode : Bytes → Bytes ⊎ Bytes
  pub RsaPublicKey : Type 0
  pub RsaPrivateKey : Type 0
  pub from_pkcs1_der : Bytes → Bytes ⊎ RsaPublicKey
  pub from_public_key_der : Bytes → Bytes ⊎ RsaPublicKey
  pub to_pkcs1_der : RsaPublicKey → Option Bytes
  pub rsa_verify : RsaPublicKey → Digest → Bytes → Bytes → Bool
  pub rsa_sign : RsaPrivateKey → Digest → Bytes → Bytes ⊎ Bytes
  pub VerifyingKey : Type 0
  pub SigningKey : Type 0
  -- On 32 bytes.
  pub verifying_key_from_bytes : Bytes → Bytes ⊎ VerifyingKey
  pub verifying_key_bytes : VerifyingKey → Bytes
  -- The signature is 64 bytes.
  pub verify_strict : VerifyingKey → Bytes → Bytes → Bool
  pub signing_key_sign : SigningKey → Bytes → Bytes

-- mailparse: a header with its key and its raw value, and a parsed mail.
pub record MailHeader : Type 0 where
  pub key : Bytes
  pub value_raw : Bytes

pub record ParsedMail : Type 0 where
  pub raw_bytes : Bytes
  pub headers : List MailHeader

pub record Mailparse : Type 0 where
  pub get_all_headers : List MailHeader → Bytes → List MailHeader

-- `get_all_headers` keeps, in order, the headers of a name, which is compared without regard to the
-- case of ASCII letters.
abbrev pub KeepsMatches : Mailparse → Type 0
KeepsMatches m =
    (h : MailHeader) (hs : List MailHeader) (name : Bytes)
    → eq_ignore_ascii_case h.key name ≡ true
    → m.get_all_headers (h ∷ hs) name ≡ h ∷ m.get_all_headers hs name

-- All that a verification calls.
pub record Platform : Type 1 where
  pub nom : Nom
  pub unicode : Unicode
  pub chrono : Chrono
  pub crypto : Crypto
  pub mailparse : Mailparse
