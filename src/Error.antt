-- ===== src/Error.antt =====
-- src/errors.rs: the error type, its display text and its status; and the results of the model, in
-- which a Rust panic is a value of its own.
pub mod Laws
pub mod NoPanic
pub mod Statuses
use dkim.Prelude.{Bytes, codes, ◌++◌, Bool, true, false, Option, none, some}

pub data Status : Type 0 where
  permfail tempfail : Status

pub data DkimError : Type 0 where
  unsupported_hash_algorithm : Bytes → DkimError
  unsupported_canonicalization_type : Bytes → DkimError
  signature_syntax_error : Bytes → DkimError
  signature_missing_required_tag : Bytes → DkimError
  incompatible_version : DkimError
  domain_mismatch : DkimError
  from_field_not_signed : DkimError
  signature_expired : DkimError
  unacceptable_signature_header : DkimError
  unsupported_query_method : DkimError
  key_unavailable : Bytes → DkimError
  unknown_internal_error : Bytes → DkimError
  no_key_for_signature : DkimError
  key_syntax_error : DkimError
  key_incompatible_version : DkimError
  inappropriate_key_algorithm : DkimError
  signature_did_not_verify : DkimError
  body_hash_did_not_verify : DkimError
  malformed_body : DkimError
  failed_to_sign : Bytes → DkimError
  builder_error : Bytes → DkimError

unfoldable pub display : DkimError → Bytes
display (unsupported_hash_algorithm value) = codes "unsupported hash algorithm: " ++ value
display (unsupported_canonicalization_type value) = codes "unsupported canonicalization: " ++ value
display (signature_syntax_error e) = codes "signature syntax error: " ++ e
display (signature_missing_required_tag name) =
    codes "signature missing required tag (" ++ (name ++ codes ")")
display incompatible_version = codes "incompatible version"
display domain_mismatch = codes "domain mismatch"
display from_field_not_signed = codes "From field not signed"
display signature_expired = codes "signature expired"
display unacceptable_signature_header = codes "unacceptable signature header"
display unsupported_query_method = codes "unsupported query method"
display (key_unavailable e) = codes "key unavailable: " ++ e
display (unknown_internal_error e) = codes "internal error: " ++ e
display no_key_for_signature = codes "no key for signature"
display key_syntax_error = codes "key syntax error"
display key_incompatible_version = codes "key incompatible version"
display inappropriate_key_algorithm = codes "inappropriate key algorithm"
display signature_did_not_verify = codes "signature did not verify"
display body_hash_did_not_verify = codes "body hash did not verify"
display malformed_body = codes "malformed email body"
display (failed_to_sign e) = codes "failed sign: " ++ e
display (builder_error e) = codes "failed to build object: " ++ e

-- A panic is a result: `unreachable!`, `unwrap` on `None`, an index out of range.
pub data Outcome {ℓ} (A : Type ℓ) : Type ℓ where
  ok : A → Outcome A
  err : DkimError → Outcome A
  panic : Outcome A

infixl 5 ◌>>=◌ ◌>>◌
abbrev pub ◌>>=◌ {ℓ κ} : {A : Type ℓ} {B : Type κ} → Outcome A → (A → Outcome B) → Outcome B
ok a >>= f = f a
err e >>= f = err e
panic >>= f = panic

abbrev pub ◌>>◌ {ℓ} : {B : Type ℓ} → Outcome (Unit {0}) → Outcome B → Outcome B
m >> k = m >>= λ _. k

-- `Option::ok_or(e)?` and `Option::unwrap`.
abbrev pub ok_or {ℓ} : {A : Type ℓ} → DkimError → Option A → Outcome A
ok_or e none = err e
ok_or e (some a) = ok a

abbrev pub unwrap {ℓ} : {A : Type ℓ} → Option A → Outcome A
unwrap none = panic
unwrap (some a) = ok a

unfoldable pub status : DkimError → Outcome Status
status (key_unavailable _) = ok tempfail
status (unknown_internal_error _) = ok tempfail
status (builder_error _) = panic
status (failed_to_sign _) = panic
status _ = ok permfail

-- `if !test { return Err(e) }`
abbrev pub guard : Bool → DkimError → Outcome (Unit {0})
guard true e = ok tt
guard false e = err e
