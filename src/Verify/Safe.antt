-- ===== src/Verify/Safe.antt =====
-- The checks of a signature in src/lib.rs do not panic.
use dkim.Prelude.{◌≡◌, Bytes, codes, Option, none, some, arith}
use dkim.Error.NoPanic.{NoPanic, no_panic_rules}
use dkim.Externals.{Crypto, ParsedMail}
use dkim.Hash.{compute_body_hash, compute_headers_hash, signature_line, truncate_to, get_body}
use dkim.Header.{DkimHeader, get_raw_tag, required_tags}
use dkim.Canonicalization.{CanonicalizationType}
use dkim.Parser.{HashAlgo, parse_canonicalization, parse_hash_algo}
use dkim.PublicKey.{DkimPublicKey}
use dkim.Str.{Unicode, All}
use dkim.Validate.Checks.{Has}
use dkim.Validate.Panics.{get_required_tag-NoPanic}
use dkim.Verify.{verify_signature, verify_with_key, decode_signature}

parse_canonicalization-NoPanic : (c : Option Bytes) → NoPanic (parse_canonicalization c)
unfolding parse_canonicalization
parse_canonicalization-NoPanic none = search no_panic_rules
parse_canonicalization-NoPanic (some v) = search no_panic_rules depth 9

parse_hash_algo-NoPanic : (c : Bytes) → NoPanic (parse_hash_algo c)
unfolding parse_hash_algo
parse_hash_algo-NoPanic v = search no_panic_rules

truncate_to-NoPanic : (l : Option Bytes) (body : Bytes) → NoPanic (truncate_to l body)
unfolding truncate_to
truncate_to-NoPanic l body = ground arith

compute_body_hash-NoPanic :
    (crypto : Crypto) (t : CanonicalizationType) (l : Option Bytes) (algo : HashAlgo)
    (email : ParsedMail)
    → NoPanic (compute_body_hash crypto t l algo email)
unfolding compute_body_hash get_body
compute_body_hash-NoPanic crypto t l algo email = search (no_panic_rules, truncate_to-NoPanic)

raw_tag_lem :
    (header : DkimHeader) (name : Bytes)
    → Has header.tags name
    → (raw : Bytes) × (get_raw_tag header name ≡ some raw)
unfolding get_raw_tag
raw_tag_lem header name (tag, e) = (tag.raw_value, rw e)

module _ (crypto : Crypto) (unicode : Unicode) where
  headers_hash-NoPanic :
      (t : CanonicalizationType) (names : Bytes) (algo : HashAlgo) (header : DkimHeader)
      (email : ParsedMail)
      → Has header.tags (codes "b")
      → NoPanic (compute_headers_hash crypto unicode t names algo header email)
  unfolding compute_headers_hash signature_line
  headers_hash-NoPanic t names algo header email has =
      let (raw, e) = raw_tag_lem header (codes "b") has in
      rw (e, signature_line) (search no_panic_rules)

  decode_signature-NoPanic : (text : Bytes) → NoPanic (decode_signature crypto unicode text)
  unfolding decode_signature
  decode_signature-NoPanic text = ground arith

  verify_signature-NoPanic :
      (algo : HashAlgo) (hash signature : Bytes) (key : DkimPublicKey crypto)
      → NoPanic (verify_signature crypto algo hash signature key)
  unfolding verify_signature
  verify_signature-NoPanic algo hash signature key = ground arith

  -- The checks of a signature do not panic on a header that has every required tag.
  pub verify_with_key-NoPanic :
      (header : DkimHeader) (email : ParsedMail) (key : DkimPublicKey crypto)
      → All (Has header.tags) required_tags
      → NoPanic (verify_with_key crypto unicode header email key)
  unfolding verify_with_key
  verify_with_key-NoPanic header email key (v, (a, (b, (bh, (d, (h, (s, _))))))) =
      search
        (
          no_panic_rules, parse_canonicalization-NoPanic, parse_hash_algo-NoPanic,
          get_required_tag-NoPanic, compute_body_hash-NoPanic, headers_hash-NoPanic,
          decode_signature-NoPanic, verify_signature-NoPanic,
        )
        depth 14
