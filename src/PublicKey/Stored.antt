-- ===== src/PublicKey/Stored.antt =====
-- `DkimPublicKey::to_vec` and `try_from_bytes` of src/lib.rs.
use dkim.Prelude.{◌≡◌, sym, inr, some, Bytes, codes, beq, length, arith}
use dkim.Error.Laws.{unwrap-eq-ok, ok-injective}
use dkim.Error.{ok}
use dkim.Externals.{Crypto}
use dkim.PublicKey.{
  DkimPublicKey, rsa, ed25519, to_vec, key_type, try_from_bytes, parse_rsa_key, parse_ed25519_key,
}
use dkim.Str.{Unicode, ascii_lower, to_ascii_lowercase}

module _ (crypto : Crypto) (unicode : Unicode) where
  -- The crates read back the keys that they write, and an Ed25519 key has 32 bytes.
  pub record KeysReadBack : Type 0 where
    pub rsa_read :
        (key : crypto.RsaPublicKey) (der : Bytes)
        → crypto.to_pkcs1_der key ≡ some der
        → crypto.from_pkcs1_der der ≡ inr key
    pub ed25519_length : (key : crypto.VerifyingKey) → length (crypto.verifying_key_bytes key) ≡ 32
    pub ed25519_read :
        (key : crypto.VerifyingKey)
        → crypto.verifying_key_from_bytes (crypto.verifying_key_bytes key) ≡ inr key

  lower_rsa : unicode.to_lowercase (codes "rsa") ≡ codes "rsa"
  unfolding to_ascii_lowercase ascii_lower
  lower_rsa =
      unicode.to_lowercase_ascii (codes "rsa") ((omega arith), ((omega arith), ((omega arith), tt)))

  lower_ed25519 : unicode.to_lowercase (codes "ed25519") ≡ codes "ed25519"
  unfolding to_ascii_lowercase ascii_lower
  lower_ed25519 = unicode.to_lowercase_ascii (codes "ed25519") (
    (omega arith),
    (
      (omega arith),
      ((omega arith), ((omega arith), ((omega arith), ((omega arith), ((omega arith), tt))))),
    ),
  )

  -- try_from_bytes reads a key back from the bytes and the type that to_vec and key_type give, if
  -- the crates read back the keys that they write and an Ed25519 key has 32 bytes.
  pub try_from_bytes-to_vec :
      (key : DkimPublicKey crypto) (bytes : Bytes)
      → KeysReadBack
      → to_vec crypto key ≡ ok bytes
      → try_from_bytes crypto unicode bytes (key_type crypto key) ≡ ok key
  unfolding try_from_bytes to_vec key_type parse_rsa_key parse_ed25519_key beq
  try_from_bytes-to_vec (rsa key) bytes laws h =
      rw (lower_rsa, try_from_bytes, laws.rsa_read key bytes (unwrap-eq-ok _ h), parse_rsa_key)
  try_from_bytes-to_vec (ed25519 key) bytes laws h = rw (
    sym (ok-injective h),
    lower_ed25519,
    try_from_bytes,
    laws.ed25519_length key,
    laws.ed25519_read key,
    parse_ed25519_key,
  )
