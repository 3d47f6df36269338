-- ===== src/Verify/Statuses.antt =====
-- The errors of a signature's checks in src/lib.rs have a status.
use dkim.Prelude.{Bytes, Option, none, some, arith}
use dkim.Canonicalization.{CanonicalizationType}
use dkim.Error.Statuses.{Verdicts, verdict_rules}
use dkim.Externals.{Crypto, ParsedMail}
use dkim.Hash.{compute_body_hash, compute_headers_hash, signature_line, truncate_to, get_body}
use dkim.Header.{DkimHeader}
use dkim.Parser.{
  HashAlgo, rsa_sha1, rsa_sha256, ed25519_sha256, parse_canonicalization, parse_hash_algo,
}
use dkim.PublicKey.{DkimPublicKey, rsa, ed25519}
use dkim.Str.{Unicode}
use dkim.Validate.Statuses.{get_required_tag-Verdicts}
use dkim.Verify.{verify_signature, verify_with_key, decode_signature}

parse_canonicalization-Verdicts : (c : Option Bytes) → Verdicts (parse_canonicalization c)
unfolding parse_canonicalization
parse_canonicalization-Verdicts none = search verdict_rules
parse_canonicalization-Verdicts (some v) = search verdict_rules depth 9

parse_hash_algo-Verdicts : (c : Bytes) → Verdicts (parse_hash_algo c)
unfolding parse_hash_algo
parse_hash_algo-Verdicts v = search verdict_rules

truncate_to-Verdicts : (l : Option Bytes) (body : Bytes) → Verdicts (truncate_to l body)
unfolding truncate_to
truncate_to-Verdicts l body = ground arith

compute_body_hash-Verdicts :
    (crypto : Crypto) (t : CanonicalizationType) (l : Option Bytes) (algo : HashAlgo)
    (email : ParsedMail)
    → Verdicts (compute_body_hash crypto t l algo email)
unfolding compute_body_hash get_body
compute_body_hash-Verdicts crypto t l algo email = search (verdict_rules, truncate_to-Verdicts)

module _ (crypto : Crypto) (unicode : Unicode) where
  headers_hash-Verdicts :
      (t : CanonicalizationType) (names : Bytes) (algo : HashAlgo) (header : DkimHeader)
      (email : ParsedMail)
      → Verdicts (compute_headers_hash crypto unicode t names algo header email)
  unfolding compute_headers_hash signature_line
  headers_hash-Verdicts t names algo header email = search verdict_rules

  decode_signature-Verdicts : (text : Bytes) → Verdicts (decode_signature crypto unicode text)
  unfolding decode_signature
  decode_signature-Verdicts text = ground arith

  verify_signature-Verdicts :
      (algo : HashAlgo) (hash signature : Bytes) (key : DkimPublicKey crypto)
      → Verdicts (verify_signature crypto algo hash signature key)
  unfolding verify_signature
  verify_signature-Verdicts rsa_sha1 hash signature (rsa key) = search verdict_rules
  verify_signature-Verdicts rsa_sha256 hash signature (rsa key) = search verdict_rules
  verify_signature-Verdicts ed25519_sha256 hash signature (rsa key) = search verdict_rules
  verify_signature-Verdicts rsa_sha1 hash signature (ed25519 key) = search verdict_rules
  verify_signature-Verdicts rsa_sha256 hash signature (ed25519 key) = search verdict_rules
  verify_signature-Verdicts ed25519_sha256 hash signature (ed25519 key) = search verdict_rules

  ruleset signature_rules = (
    verdict_rules, parse_canonicalization-Verdicts, parse_hash_algo-Verdicts,
    get_required_tag-Verdicts, compute_body_hash-Verdicts, headers_hash-Verdicts,
    decode_signature-Verdicts, verify_signature-Verdicts,
  )

  pub verify_with_key-Verdicts :
      (header : DkimHeader) (email : ParsedMail) (key : DkimPublicKey crypto)
      → Verdicts (verify_with_key crypto unicode header email key)
  unfolding verify_with_key
  verify_with_key-Verdicts header email key = search signature_rules depth 14
