-- ===== src/Tests/Repository/Headers.antt =====
-- The tests of src/header.rs, and those of src/hash.rs and src/lib.rs that need no digest.
use dkim.Prelude.{ℕ, zero, suc, ◌≡◌, ◌-◌, refl, [], ◌∷◌, ◌++◌, Bytes, codes}
use dkim.Error.{
  Outcome, ok, err, ◌>>=◌, signature_missing_required_tag, domain_mismatch, incompatible_version,
  from_field_not_signed, signature_expired, key_unavailable,
}
use dkim.Externals.{ParsedMail}
use dkim.Hash.{get_body, select_headers}
use dkim.Header.{DkimHeader, new, add_tag, set_signed_headers, set_time, set_expiry, build}
use dkim.PublicKey.{DkimPublicKey, try_from_bytes}
use dkim.Str.Decimal.{decimal}
use dkim.Str.{join}
use dkim.Tests.Combinators.{combinators}
use dkim.Tests.Crates.{ascii, clock}
use dkim.Tests.Real.{crypto}
use dkim.Tests.Real.Mail.{parse_mail}
use dkim.Tests.Program.{program}
use dkim.Validate.{validate_header}

abbrev raw_bytes_of : Outcome DkimHeader → Outcome Bytes
raw_bytes_of m = m >>= λ header. ok header.raw_bytes

abbrev pub TestDkimHeaderBuilder : Type 0
TestDkimHeaderBuilder =
    raw_bytes_of (
      build clock (
        add_tag clock (codes "a") (codes "something")
          (add_tag clock (codes "v") (codes "1") (new clock))))
    ≡ ok (codes "v=1; a=something;")

test_dkim_header_builder : TestDkimHeaderBuilder
unfolding program
test_dkim_header_builder = refl

abbrev pub TestDkimHeaderBuilderSignedHeaders : Type 0
TestDkimHeaderBuilderSignedHeaders =
    raw_bytes_of (
      build clock (
        set_signed_headers clock ascii (codes "header1" ∷ codes "header2" ∷ codes "header3" ∷ [])
          (add_tag clock (codes "v") (codes "2") (new clock))))
    ≡ ok (codes "v=2; h=header1:header2:header3;")

test_dkim_header_builder_signed_headers : TestDkimHeaderBuilderSignedHeaders
unfolding program
test_dkim_header_builder_signed_headers = refl

-- The first second of 2021, and three hours.
abbrev pub TestDkimHeaderBuilderTime : Type 0
TestDkimHeaderBuilderTime =
    raw_bytes_of (set_expiry clock 10800 (set_time clock 1609459201 (new clock)) >>= build clock)
    ≡ ok (codes "t=1609459201; x=1609470001;")

test_dkim_header_builder_time : TestDkimHeaderBuilderTime
unfolding program set_expiry
test_dkim_header_builder_time = refl

abbrev pub TestGetBody : Type 0
TestGetBody =
    get_body (parse_mail (codes "Subject: A\r\n\r\nContent\n.hi\n.hello.."))
    ≡ ok (codes "Content\n.hi\n.hello..")

test_get_body : TestGetBody
unfolding program
test_get_body = refl

abbrev email1 : ParsedMail
email1 = parse_mail (codes "from: biz\r\nfoo: bar\r\nfrom: baz\r\nsubject: boring\r\n\r\ntest")

abbrev email2 : ParsedMail
email2 = parse_mail (codes "From: biz\r\nFoo: bar\r\nSubject: Boring\r\n\r\ntest")

abbrev dkim_headers : Bytes
dkim_headers = join b':' (codes "from" ∷ codes "subject" ∷ codes "to" ∷ codes "from" ∷ [])

abbrev pub TestSelectHeaders : Type 0
TestSelectHeaders =
    (select_headers dkim_headers email1
      ≡ (codes "from", codes "baz")
        ∷ (codes "subject", codes "boring")
        ∷ (codes "from", codes "biz")
        ∷ [])
    × (select_headers dkim_headers email2
        ≡ (codes "From", codes "biz") ∷ (codes "Subject", codes "Boring") ∷ [])

test_select_headers : TestSelectHeaders
unfolding program
test_select_headers = (refl, refl)

abbrev validate : ℕ → Bytes → Outcome Bytes
validate now text = raw_bytes_of (validate_header combinators ascii clock now text)

abbrev long_header : Bytes
long_header =
    codes
      "v=1; a=rsa-sha256; d=example.net; s=brisbane;\nc=relaxed/simple; q=dns/txt; i=foo@eng.example.net;\nt=1117574938; x=9118006938; l=200;\nh=from:to:subject:date:keywords:keywords;\nz=From:foo@eng.example.net|To:joe@example.com|\nSubject:demo=20run|Date:July=205,=202005=203:44:08=20PM=20-0700;\nbh=MTIzNDU2Nzg5MDEyMzQ1Njc4OTAxMjM0NTY3ODkwMTI=;\nb=dzdVyOfAKCdLXdJOc9G2q8LoXSlEniSbav+yuU4zGeeruD00lszZ\n      VoG4ZHRNiYzR\n        "

abbrev pub TestValidateHeader : Type 0
TestValidateHeader = validate 1700000000 long_header ≡ ok long_header

test_validate_header : TestValidateHeader
unfolding program
test_validate_header = refl

abbrev pub TestValidateHeaderMissingTag : Type 0
TestValidateHeaderMissingTag =
    validate 1700000000 (codes "v=1; a=rsa-sha256; bh=a; b=b")
    ≡ err (signature_missing_required_tag (codes "d"))

test_validate_header_missing_tag : TestValidateHeaderMissingTag
unfolding program
test_validate_header_missing_tag = refl

abbrev pub TestValidateHeaderDomainMismatch : Type 0
TestValidateHeaderDomainMismatch =
    validate 1700000000 (
      codes
        "v=1; a=rsa-sha256; d=example.net; s=brisbane; i=foo@hein.com; h=headers; bh=hash; b=hash\n        ")
    ≡ err domain_mismatch

test_validate_header_domain_mismatch : TestValidateHeaderDomainMismatch
unfolding program
test_validate_header_domain_mismatch = refl

abbrev pub TestValidateHeaderIncompatibleVersion : Type 0
TestValidateHeaderIncompatibleVersion =
    validate 1700000000 (
      codes
        "v=3; a=rsa-sha256; d=example.net; s=brisbane; i=foo@example.net; h=headers; bh=hash; b=hash\n        ")
    ≡ err incompatible_version

test_validate_header_incompatible_version : TestValidateHeaderIncompatibleVersion
unfolding program
test_validate_header_incompatible_version = refl

abbrev pub TestValidateHeaderMissingFromInHeadersSignature : Type 0
TestValidateHeaderMissingFromInHeadersSignature =
    validate 1700000000 (
      codes
        "v=1; a=rsa-sha256; d=example.net; s=brisbane; i=foo@example.net; h=Subject:A:B; bh=hash; b=hash\n        ")
    ≡ err from_field_not_signed

test_validate_header_missing_from_in_headers_signature :
    TestValidateHeaderMissingFromInHeadersSignature
unfolding program
test_validate_header_missing_from_in_headers_signature = refl

-- The header of the two tests of the expiry.
abbrev expiring_at : ℕ → Bytes
expiring_at t =
    codes
      "v=1; a=rsa-sha256; d=example.net; s=brisbane; i=foo@example.net; h=From:B; bh=hash; b=hash; x="
    ++ decimal t

abbrev pub TestValidateHeaderExpiredInDrift : Type 0
TestValidateHeaderExpiredInDrift =
    validate 20000 (expiring_at (20000 - 1)) ≡ ok (expiring_at (20000 - 1))

test_validate_header_expired_in_drift : TestValidateHeaderExpiredInDrift
unfolding program
test_validate_header_expired_in_drift = refl

abbrev pub TestValidateHeaderExpired : Type 0
TestValidateHeaderExpired = validate 20000 (expiring_at (20000 - 10800)) ≡ err signature_expired

test_validate_header_expired : TestValidateHeaderExpired
unfolding program
test_validate_header_expired = refl

abbrev zeros : ℕ → Bytes
zeros zero = []
zeros (suc n) = 0 ∷ zeros n

abbrev pub TestInvalidKeyType : Type 0
TestInvalidKeyType =
    (e : Bytes) × (try_from_bytes crypto ascii (zeros 32) (codes "invalid")
      ≡ err (key_unavailable e))

abbrev pub TestInvalidEd25519Key : Type 0
TestInvalidEd25519Key =
    (e : Bytes) × (try_from_bytes crypto ascii (zeros 31) (codes "ed25519")
      ≡ err (key_unavailable e))

test_invalid_key_type : TestInvalidKeyType
unfolding program try_from_bytes
test_invalid_key_type = (codes "unsupported key type: invalid", refl)

test_invalid_ed25519_key : TestInvalidEd25519Key
unfolding program try_from_bytes dkim.PublicKey.parse_ed25519_key
test_invalid_ed25519_key =
    (codes "invalid Ed25519 key length: could not convert slice to array", refl)
