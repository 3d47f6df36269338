-- ===== src/Tests/Verdicts.antt =====
-- The verification of an email where it does not pass.
use dkim.Prelude.{◌≡◌, ◌≢◌, ◌↔◌, ◌⊎◌, refl, [], ◌∷◌, ◌++◌, inr, some, List, Bytes, codes}
use dkim.DkimResult.{DkimResult, fail}
use dkim.Error.{ok, panic, no_key_for_signature, status}
use dkim.Externals.{ParsedMail, Platform}
use dkim.Header.{DkimHeader, get_tag, get_required_tag}
use dkim.PublicKey.Complete.{retrieve_public_key_iff}
use dkim.PublicKey.Refused.{lookup_txt-NoPanic}
use dkim.PublicKey.Retrieve.{Retrieved}
use dkim.PublicKey.{ResolveError, rsa, retrieve_public_key}
use dkim.Tests.Combinators.{combinators}
use dkim.Tests.Crates.{ascii, clock, crates, short_clock, toy_crypto}
use dkim.Tests.Email.{
  from_header, signature_text, email, header, both_relaxed, lookup, no_records, late_text,
}
use dkim.Tests.Program.{program}
use dkim.Validate.Checks.{Accepted}
use dkim.Validate.Complete.{validate_header_iff}
use dkim.Validate.Domain.{check_domain_iff}
use dkim.Validate.{validate_header, check_domain}
use dkim.Verify.Answered.{Answers, verify_email_with_key_total}
use dkim.Verify.Panics.{HasOverflow, verify-eq-panic}
use dkim.Verify.Reasons.{verify_email-status}
use dkim.Verify.Reported.{Reports, verify_email_with_resolver_total}
use dkim.Verify.Signature.{Verified, verify_with_key_iff}
use dkim.Verify.{verify_with_key, verify_email, verify_email_with_key, verify_email_with_resolver}

verify_with_key_iff_example :
    (verify_with_key toy_crypto ascii header email (rsa []) ≡ ok both_relaxed)
    ↔ Verified toy_crypto ascii header email (rsa []) both_relaxed
verify_with_key_iff_example =
    verify_with_key_iff toy_crypto ascii header email (rsa []) both_relaxed

validate_header_iff_example :
    (validate_header combinators ascii clock 0 signature_text ≡ ok header)
    ↔ Accepted combinators ascii clock 0 signature_text header
validate_header_iff_example = validate_header_iff combinators ascii clock 0 signature_text header

retrieve_public_key_iff_example :
    (retrieve_public_key toy_crypto combinators lookup (codes "b.com") (codes "k")
      ≡ ok (rsa (codes "key")))
    ↔ Retrieved toy_crypto combinators lookup (codes "b.com") (codes "k") (rsa (codes "key"))
retrieve_public_key_iff_example =
    retrieve_public_key_iff toy_crypto combinators lookup (codes "b.com") (codes "k")
      (rsa (codes "key"))

no_overflow : HasOverflow crates (λ i. 0) (codes "b.com") email → ⊥
no_overflow o = let (_, _, _, _, never) = o.overflows in cc

verify_email_with_resolver_total_example :
    (result : DkimResult) × (verify_email_with_resolver crates
        (λ i. 0)
        (codes "b.com")
        email
        no_records
      ≡ ok result)
    × Reports crates (λ i. 0) (codes "b.com") email no_records result
verify_email_with_resolver_total_example =
    verify_email_with_resolver_total crates (λ i. 0) (codes "b.com") email no_records
      (lookup_txt-NoPanic ascii (λ name. inr [])) no_overflow

verify_email_with_key_total_example :
    Answers crates
      (λ i. 0)
      (codes "b.com")
      email
      (rsa [])
      (verify_email_with_key crates (λ i. 0) (codes "b.com") email (rsa []))
verify_email_with_key_total_example =
    verify_email_with_key_total crates (λ i. 0) (codes "b.com") email (rsa []) no_overflow

-- A clock at the end of whose range the signature expires.
abbrev short_crates : Platform
short_crates = record crates { chrono = short_clock }

abbrev late_email : ParsedMail
late_email = record {
  raw_bytes = email.raw_bytes;
  headers = from_header ∷ record { key = codes "DKIM-Signature"; value_raw = late_text } ∷ [];
}

abbrev system : Bytes ⊎ (Bytes → ResolveError ⊎ List (List Bytes))
system = inr (λ name. inr [])

late_panics : verify_email short_crates (λ i. 0) system (codes "b.com") late_email ≡ panic
unfolding program
late_panics = refl

late_panics_with_key :
    verify_email_with_key short_crates (λ i. 0) (codes "b.com") late_email (rsa []) ≡ panic
unfolding program
late_panics_with_key = refl

verify-eq-panic_example : HasOverflow short_crates (λ i. 0) (codes "b.com") late_email
verify-eq-panic_example =
    verify-eq-panic short_crates (λ i. 0) (codes "b.com") late_email system (rsa [])
      (inr late_panics_with_key)

no_key_reported :
    verify_email crates (λ i. 0) system (codes "b.com") email
    ≡ ok (fail no_key_for_signature (codes "b.com"))
unfolding program
no_key_reported = refl

reason : (fail no_key_for_signature (codes "b.com")).error ≡ some no_key_for_signature
unfolding fail
reason = refl

verify_email-status_example : status no_key_for_signature ≢ panic
verify_email-status_example =
    verify_email-status crates (λ i. 0) (codes "b.com") email system no_key_for_signature
      (inr (fail no_key_for_signature (codes "b.com"), no_key_reported, reason))

-- A user of another domain whose name ends in the signing domain's.
abbrev other_domain : DkimHeader
other_domain = record {
  tags =
      (codes "d", record { name = codes "d"; value = codes "b.com"; raw_value = codes "b.com" })
      ∷ (
        codes "i",
        record { name = codes "i"; value = codes "x@evilb.com"; raw_value = codes "x@evilb.com" },
      )
      ∷ [];
  raw_bytes = codes "d=b.com; i=x@evilb.com";
}

other_user : get_tag other_domain (codes "i") ≡ some (codes "x@evilb.com")
unfolding program
other_user = refl

other_d : get_required_tag other_domain (codes "d") ≡ ok (codes "b.com")
unfolding program
other_d = refl

check_domain_iff_example :
    (check_domain other_domain ≡ ok tt)
    ↔ ((before : Bytes) × (codes "x@evilb.com" ≡ before ++ codes "b.com"))
check_domain_iff_example =
    check_domain_iff other_domain (codes "x@evilb.com") (codes "b.com") other_user other_d
