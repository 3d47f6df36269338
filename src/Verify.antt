-- ===== src/Verify.antt =====
-- The verification of src/lib.rs: one signature, one DKIM-Signature header, a whole email. Logging is
-- left out.
pub mod Signature
pub mod Same
pub mod Collision
pub mod Integrity
pub mod Transit
pub mod Loop
pub mod Verdict
pub mod Steps
pub mod Refines
pub mod Remembered
pub mod Round
pub mod Email
pub mod Refusals
pub mod Safe
pub mod Statuses
pub mod Reasons
pub mod Panics
pub mod Reported
pub mod Answered
pub mod Agree
use dkim.Prelude.{
  ℕ, zero, suc, Bool, true, false, List, [], ◌∷◌, ◌++◌, ◌⊎◌, inl, inr, Option, none, some, Bytes,
  codes, beq, length, ◌==◌, if◌then◌else◌,
}
use dkim.Canonicalization.{CanonicalizationType}
use dkim.DkimResult.{DkimResult, pass, fail, neutral}
use dkim.Error.{
  DkimError, Outcome, ok, err, panic, ◌>>=◌, ◌>>◌, guard, unsupported_hash_algorithm,
  signature_syntax_error, body_hash_did_not_verify, signature_did_not_verify,
  unknown_internal_error,
}
use dkim.Externals.{Crypto, sha1, sha256, MailHeader, ParsedMail, Platform}
use dkim.Hash.{compute_body_hash, compute_headers_hash}
use dkim.Header.{DkimHeader, header_name, get_tag, get_required_tag}
use dkim.Parser.{
  HashAlgo, rsa_sha1, rsa_sha256, ed25519_sha256, parse_canonicalization, parse_hash_algo,
}
use dkim.PublicKey.{
  DkimPublicKey, rsa, ed25519, Lookup, ResolveError, from_tokio_resolver, retrieve_public_key,
}
use dkim.Str.{Unicode}
use dkim.Validate.{validate_header}

-- The two canonicalization types of a signature.
abbrev pub Types : Type 0
Types = CanonicalizationType × CanonicalizationType

unfoldable pub verify_signature :
    (crypto : Crypto) → HashAlgo → Bytes → Bytes → DkimPublicKey crypto → Outcome Bool
verify_signature crypto rsa_sha1 header_hash signature (rsa key) =
    ok (crypto.rsa_verify key sha1 header_hash signature)
verify_signature crypto rsa_sha256 header_hash signature (rsa key) =
    ok (crypto.rsa_verify key sha256 header_hash signature)
verify_signature crypto ed25519_sha256 header_hash signature (rsa key) =
    err (unsupported_hash_algorithm (codes "Ed25519Sha256"))
verify_signature crypto hash_algo header_hash signature (ed25519 key) =
    if length signature == 64
    then ok (crypto.verify_strict key header_hash signature)
    else err (signature_syntax_error (codes "could not convert slice to array"))

module _ (crypto : Crypto) (unicode : Unicode) where
  unfoldable pub decode_signature : Bytes → Outcome Bytes
  decode_signature text = elim (crypto.base64_decode text) [
    | inr signature ↦ ok signature
    | inl e ↦ err (signature_syntax_error (codes "failed to decode signature: " ++ e))
  ]

  -- The steps that `verify_email_header` and `verify_email_with_key` share, once the key is known.
  unfoldable pub verify_with_key : DkimHeader → ParsedMail → DkimPublicKey crypto → Outcome Types
  verify_with_key dkim_header email public_key = do
    types ← parse_canonicalization (get_tag dkim_header (codes "c"))
    algo_text ← get_required_tag dkim_header (codes "a")
    hash_algo ← parse_hash_algo algo_text
    computed_body_hash ←
        compute_body_hash crypto types.1 (get_tag dkim_header (codes "l")) hash_algo email
    signed_headers ← get_required_tag dkim_header (codes "h")
    computed_headers_hash ←
        compute_headers_hash crypto unicode types.0 signed_headers hash_algo dkim_header email
    header_body_hash ← get_required_tag dkim_header (codes "bh")
    guard (beq header_body_hash computed_body_hash) body_hash_did_not_verify
    signature_text ← get_required_tag dkim_header (codes "b")
    signature ← decode_signature signature_text
    verified ← verify_signature crypto hash_algo computed_headers_hash signature public_key
    guard verified signature_did_not_verify
    ok types

-- How a round of the loop over the headers ends: by `continue`, with or without an error to
-- remember, or by a `return` from the function.
pub data Flow : Type 0 where
  skip : Flow
  failed : DkimError → Flow
  returned : Outcome DkimResult → Flow

-- `clock i` is the time at which the header with number `i` is validated.
module _ (p : Platform) (clock : ℕ → p.chrono.Time) where
  unfoldable pub verify_email_header : Lookup → DkimHeader → ParsedMail → Outcome Types
  verify_email_header resolver dkim_header email = do
    domain ← get_required_tag dkim_header (codes "d")
    selector ← get_required_tag dkim_header (codes "s")
    public_key ← retrieve_public_key p.crypto p.nom resolver domain selector
    verify_with_key p.crypto p.unicode dkim_header email public_key

  abbrev pub validated : ℕ → MailHeader → Outcome DkimHeader
  validated i h =
      validate_header p.nom p.unicode p.chrono (clock i) (p.unicode.from_utf8_lossy h.value_raw)

  abbrev pub same_domain : Bytes → Bytes → Bool
  same_domain a b = beq (p.unicode.to_lowercase a) (p.unicode.to_lowercase b)

  -- The end of both loops.
  abbrev pub last_result : Bytes → Option DkimError → Outcome DkimResult
  last_result from_domain (some e) = ok (fail e from_domain)
  last_result from_domain none = ok (neutral from_domain)

  -- One round up to the choice of the signature: a header that is not valid is an error to
  -- remember, and one of another domain is passed over. `verify` is what the round does with the rest.
  abbrev pub of_domain : Bytes → DkimHeader → (DkimHeader → Bytes → Flow) → Outcome Bytes → Flow
  of_domain from_domain header verify (ok domain) =
      if same_domain domain from_domain then verify header domain else skip
  of_domain from_domain header verify (err e) = returned (err e)
  of_domain from_domain header verify panic = returned panic

  abbrev pub of_header : Bytes → (DkimHeader → Bytes → Flow) → Outcome DkimHeader → Flow
  of_header from_domain verify (ok header) =
      of_domain from_domain header verify (get_required_tag header (codes "d"))
  of_header from_domain verify (err e) = failed e
  of_header from_domain verify panic = returned panic

  unfoldable pub round : Bytes → (DkimHeader → Bytes → Flow) → ℕ → MailHeader → Flow
  round from_domain verify i h = of_header from_domain verify (validated i h)

  -- The loop over the headers, from number `i` on.
  pub run_rounds :
      Bytes → (ℕ → MailHeader → Flow) → ℕ → Option DkimError → List MailHeader → Outcome DkimResult
  run_rounds from_domain body i last_error [] = last_result from_domain last_error
  run_rounds from_domain body i last_error (h ∷ hs) = elim (body i h) [
    | skip ↦ run_rounds from_domain body (suc i) last_error hs
    | failed e ↦ run_rounds from_domain body (suc i) (some e) hs
    | returned r ↦ r
  ]

  module _ (from_domain : Bytes) (email : ParsedMail) where
    -- With a resolver: an error is remembered, and the next header is tried.
    abbrev pub resolved : Bytes → Outcome Types → Flow
    resolved domain (ok types) = returned (ok (pass domain types.0 types.1))
    resolved domain (err e) = failed e
    resolved domain panic = returned panic

    unfoldable pub with_resolver : Lookup → DkimHeader → Bytes → Flow
    with_resolver resolver header domain =
        resolved domain (verify_email_header resolver header email)

    unfoldable pub verify_email_with_resolver : Lookup → Outcome DkimResult
    unfolding run_rounds round with_resolver
    verify_email_with_resolver resolver =
        run_rounds from_domain (round from_domain (with_resolver resolver)) 0 none
          (p.mailparse.get_all_headers email.headers header_name)

    -- With a key: the first valid header of the domain decides, by an error too.
    unfoldable pub with_key : DkimPublicKey p.crypto → DkimHeader → Bytes → Flow
    with_key public_key header domain = returned (
        verify_with_key p.crypto p.unicode header email public_key >>= λ types.
        ok (pass domain types.0 types.1))

    unfoldable pub verify_email_with_key : DkimPublicKey p.crypto → Outcome DkimResult
    unfolding run_rounds round with_key
    verify_email_with_key public_key =
        run_rounds from_domain (round from_domain (with_key public_key)) 0 none
          (p.mailparse.get_all_headers email.headers header_name)

  -- The resolver of the system's configuration, or why there is none.
  unfoldable pub verify_email :
      Bytes ⊎ (Bytes → ResolveError ⊎ List (List Bytes)) → Bytes → ParsedMail → Outcome DkimResult
  verify_email (inl e) from_domain email =
      err (unknown_internal_error (codes "failed to create DNS resolver: " ++ e))
  verify_email (inr inner) from_domain email =
      verify_email_with_resolver from_domain email (from_tokio_resolver p.unicode inner)

  -- Without the feature "dns", `verify_email` takes the key.
  unfoldable pub verify_email_without_dns :
      Bytes → ParsedMail → DkimPublicKey p.crypto → Outcome DkimResult
  verify_email_without_dns from_domain email public_key =
      verify_email_with_key from_domain email public_key
