-- ===== src/Tests/Email.antt =====
-- An email with a signature, verified.
use dkim.Prelude.{◌≡◌, true, refl, List, [], ◌∷◌, ◌⊎◌, inr, none, some, Bytes, codes}
use dkim.Canonicalization.{relaxed}
use dkim.DkimResult.{DkimResult, summary, fail}
use dkim.Error.{ok, err, panic, no_key_for_signature, body_hash_did_not_verify}
use dkim.Externals.{MailHeader, ParsedMail}
use dkim.Header.{DkimHeader}
use dkim.Parser.{Tag}
use dkim.PublicKey.{retrieve_public_key, rsa, Lookup, ResolveError, lookup_txt}
use dkim.Tests.Program.{program}
use dkim.Tests.Combinators.{combinators}
use dkim.Tests.Crates.{crates, ascii, clock, short_clock, toy_crypto}
use dkim.Validate.{validate_header}
use dkim.Verify.Round.{FirstPass}
use dkim.Verify.Email.{verify_email_with_resolver_sound, verify_email_with_resolver_complete}
use dkim.Verify.{
  Types, verify_with_key, verify_email_with_resolver, verify_email_with_key, same_domain,
}

abbrev pub from_header : MailHeader
from_header = record { key = codes "From"; value_raw = codes "a@b.com" }

abbrev pub signature_text : Bytes
signature_text = codes "v=1; a=rsa-sha256; d=b.com; s=k; c=relaxed/relaxed; bh=4; h=from; b=98;"

abbrev pub signature_header : MailHeader
signature_header = record { key = codes "DKIM-Signature"; value_raw = signature_text }

abbrev pub email : ParsedMail
email = record {
  raw_bytes = codes "From: a@b.com\r\nDKIM-Signature: v=1\r\n\r\nhi\r\n";
  headers = from_header ∷ signature_header ∷ [];
}

abbrev tag_of : Bytes → Bytes → Bytes × Tag
tag_of name value = (name, record { name = name; value = value; raw_value = value })

abbrev pub header : DkimHeader
header = record {
  tags =
      tag_of (codes "v") (codes "1")
      ∷ tag_of (codes "a") (codes "rsa-sha256")
      ∷ tag_of (codes "d") (codes "b.com")
      ∷ tag_of (codes "s") (codes "k")
      ∷ tag_of (codes "c") (codes "relaxed/relaxed")
      ∷ tag_of (codes "bh") (codes "4")
      ∷ tag_of (codes "h") (codes "from")
      ∷ tag_of (codes "b") (codes "98")
      ∷ [];
  raw_bytes = signature_text;
}

abbrev passed : DkimResult
passed = record {
  value = codes "pass";
  error = none;
  domain = codes "b.com";
  header_canonicalization_type = some relaxed;
  body_canonicalization_type = some relaxed;
}

abbrev pub both_relaxed : Types
both_relaxed = (relaxed, relaxed)

abbrev records : Bytes → ResolveError ⊎ List (List Bytes)
records name = inr ((codes "v=DKIM1; p=" ∷ codes "key" ∷ []) ∷ [])

abbrev pub lookup : Lookup
lookup = lookup_txt ascii records

header_accepted : validate_header combinators ascii clock 0 signature_text ≡ ok header
unfolding program
header_accepted = refl

pub signature_verifies : verify_with_key toy_crypto ascii header email (rsa []) ≡ ok both_relaxed
unfolding program
signature_verifies = refl

email_passes : verify_email_with_resolver crates (λ i. 0) (codes "b.com") email lookup ≡ ok passed
unfolding program
email_passes = refl

summary-passed : summary passed ≡ codes "pass"
unfolding summary
summary-passed = refl

verify_email_with_resolver_sound_example :
    FirstPass crates (λ i. 0) (codes "b.com") email lookup passed
verify_email_with_resolver_sound_example =
    verify_email_with_resolver_sound crates (λ i. 0) (codes "b.com") email lookup passed
      email_passes summary-passed

first_pass : FirstPass crates (λ i. 0) (codes "b.com") email lookup passed
unfolding program
first_pass = (
  [],
  signature_header,
  [],
  refl,
  tt,
  record {
    header = header;
    domain = codes "b.com";
    types = both_relaxed;
    valid = refl;
    domain_is = refl;
    domain_same = refl;
    verified = refl;
    result_is = refl;
  },
)

verify_email_with_resolver_complete_example :
    verify_email_with_resolver crates (λ i. 0) (codes "b.com") email lookup ≡ ok passed
verify_email_with_resolver_complete_example =
    verify_email_with_resolver_complete crates (λ i. 0) (codes "b.com") email lookup passed
      first_pass

-- A DNS server that knows no key.
abbrev pub no_records : Lookup
no_records = lookup_txt ascii (λ name. inr [])

run_no_records :
    verify_email_with_resolver crates (λ i. 0) (codes "b.com") email no_records
    ≡ ok (fail no_key_for_signature (codes "b.com"))
unfolding program
run_no_records = refl

-- The email with another body.
abbrev changed_email : ParsedMail
changed_email = record {
  raw_bytes = codes "From: a@b.com\r\nDKIM-Signature: v=1\r\n\r\nhello\r\n";
  headers = from_header ∷ signature_header ∷ [];
}

pub domain_same : same_domain crates (λ i. 0) (codes "b.com") (codes "b.com") ≡ true
unfolding program
domain_same = refl

run_changed :
    verify_email_with_key crates (λ i. 0) (codes "b.com") changed_email (rsa [])
    ≡ err body_hash_did_not_verify
unfolding program
run_changed = refl

-- An expiry within the drift of the clock's last instant.
abbrev pub late_text : Bytes
late_text = codes "v=1; a=rsa-sha256; d=b.com; s=k; bh=4; h=from; b=98; x=200"

validate_late : validate_header combinators ascii short_clock 0 late_text ≡ panic
unfolding program
validate_late = refl

pub key_retrieved :
    retrieve_public_key toy_crypto combinators lookup (codes "b.com") (codes "k")
    ≡ ok (rsa (codes "key"))
unfolding program
key_retrieved = refl
