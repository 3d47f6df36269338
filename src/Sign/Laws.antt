-- ===== src/Sign/Laws.antt =====
-- What the signer of src/sign.rs writes.
use dkim.Prelude.{◌≡◌, refl, ◌++◌, codes, some, beq}
use dkim.Canonicalization.{CanonicalizationType, simple, relaxed, to_string}
use dkim.Error.{ok, err, builder_error}
use dkim.Externals.{ParsedMail, Platform}
use dkim.Hash
use dkim.Header.{add_tag, set_signed_headers, set_expiry}
use dkim.Parser.{
  HashAlgo, rsa_sha1, rsa_sha256, ed25519_sha256, parse_canonicalization, parse_hash_algo,
}
use dkim.Sign.{
  DkimSigner, algo_name, sign, signed_header, compute_body_hash, dkim_header_builder, expiry_tag,
  first_tags,
}

-- The pair of canonicalization types that the signer writes into c= is read back by the verifier.
pub parse_canonicalization-to_string :
    (header_type body_type : CanonicalizationType)
    → parse_canonicalization (some (to_string header_type ++ (codes "/" ++ to_string body_type)))
      ≡ ok (header_type, body_type)
unfolding parse_canonicalization to_string beq
parse_canonicalization-to_string simple simple = refl
parse_canonicalization-to_string simple relaxed = refl
parse_canonicalization-to_string relaxed simple = refl
parse_canonicalization-to_string relaxed relaxed = refl

module _ (p : Platform) where
  -- The name of the algorithm that the signer writes into a= is read back by the verifier.
  pub parse_hash_algo-algo_name : (algo : HashAlgo) → parse_hash_algo (algo_name p algo) ≡ ok algo
  unfolding parse_hash_algo algo_name beq
  parse_hash_algo-algo_name rsa_sha1 = refl
  parse_hash_algo-algo_name rsa_sha256 = refl
  parse_hash_algo-algo_name ed25519_sha256 = refl

  pub signed_header_with_expiry :
      (signer : DkimSigner p) (now : p.chrono.Time) (email : ParsedMail)
      (expiry : p.chrono.Duration)
      → signer.expiry ≡ some expiry
      → signed_header p signer now email ≡ err (builder_error (codes "missing require time"))
  unfolding signed_header compute_body_hash dkim_header_builder expiry_tag first_tags add_tag
      set_signed_headers set_expiry Hash.compute_body_hash Hash.truncate_to Hash.get_body
  signed_header_with_expiry signer now email expiry e = rw (e, signed_header)

  -- A signer with an expiry signs nothing: every call of sign fails with the builder's error
  -- "missing require time".
  pub sign_with_expiry :
      (signer : DkimSigner p) (now : p.chrono.Time) (email : ParsedMail)
      (expiry : p.chrono.Duration)
      → signer.expiry ≡ some expiry
      → sign p signer now email ≡ err (builder_error (codes "missing require time"))
  unfolding sign
  sign_with_expiry signer now email expiry e =
      rw (signed_header_with_expiry signer now email expiry e)
