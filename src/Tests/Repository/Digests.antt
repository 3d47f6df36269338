-- ===== src/Tests/Repository/Digests.antt =====
-- The tests of src/hash.rs that compare digests, at the digests of the standards.
use dkim.Prelude.{◌≡◌, refl, [], ◌∷◌, Option, none, some, Bytes, codes}
use dkim.Canonicalization.{CanonicalizationType, simple, relaxed}
use dkim.Error.{Outcome, ok, ◌>>=◌}
use dkim.Externals.{ParsedMail}
use dkim.Hash.{compute_body_hash, compute_headers_hash}
use dkim.Header.{DkimHeader}
use dkim.Parser.{HashAlgo, rsa_sha1, rsa_sha256}
use dkim.Tests.Combinators.{combinators}
use dkim.Tests.Crates.{ascii, clock}
use dkim.Tests.Program.{program}
use dkim.Tests.Real.Mail.{parse_mail}
use dkim.Tests.Real.{crypto}
use dkim.Validate.{validate_header}

abbrev dkim_header : Outcome DkimHeader
dkim_header = validate_header combinators ascii clock 0 (
    codes
      "v=1; a=rsa-sha256; q=dns/txt; c=relaxed/relaxed; s=smtp; d=test.com; t=1641506955; h=content-type:to: subject:date:from:mime-version:sender; bh=PU2XIErWsXvhvt1W96ntPWZ2VImjVZ3vBY2T/A+wA3A=; b=PIO0A014nyntOGKdTdtvCJor9ZxvP1M3hoLeEh8HqZ+RvAyEKdAc7VOg+/g/OTaZgsmw6U sZCoN0YNVp+2o9nkaeUslsVz3M4I55HcZnarxl+fhplIMcJ/3s0nIhXL51MfGPRqPbB7/M Gjg9/07/2vFoid6Kitg6Z+CfoD2wlSRa8xDfmeyA2cHpeVuGQhGxu7BXuU8kGbeM4+weit Ql3t9zalhikEPI5Pr7dzYFrgWNOEO6w6rQfG7niKON1BimjdbJlGanC7cO4UL361hhXT4X iXLnC9TG39xKFPT/+4nkHy8pp6YvWkD3wKlBjwkYNm0JvKGwTskCMDeTwxXhAg==")

abbrev email : ParsedMail
email = parse_mail (
    codes
      "To: test@sauleau.com\nSubject: subject\nFrom: Sven Sauleau <sven@cloudflare.com>\n\nHello Alice\n        ")

abbrev empty_email : ParsedMail
empty_email = parse_mail []

abbrev body_hash : CanonicalizationType → Option Bytes → HashAlgo → ParsedMail → Outcome Bytes
body_hash = compute_body_hash crypto

abbrev headers_hash : CanonicalizationType → HashAlgo → Outcome Bytes
headers_hash t algo = dkim_header >>= λ header.
    compute_headers_hash crypto ascii t (codes "To: Subject") algo header email

abbrev pub TestComputeBodyHashSimple : Type 0
TestComputeBodyHashSimple =
    (body_hash simple none rsa_sha1 email ≡ ok (codes "uoq1oCgLlTqpdDX/iUbLy7J1Wic="))
    × (body_hash simple none rsa_sha256 email
        ≡ ok (codes "frcCV1k9oG9oKj3dpUqdJg1PxRT2RSN/XKdLCPjaYaY="))

test_compute_body_hash_simple : TestComputeBodyHashSimple
unfolding program
test_compute_body_hash_simple = (refl, refl)

abbrev pub TestComputeBodyHashRelaxed : Type 0
TestComputeBodyHashRelaxed =
    (body_hash relaxed none rsa_sha1 email ≡ ok (codes "2jmj7l5rSw0yVb/vlWAYkK/YBwk="))
    × (body_hash relaxed none rsa_sha256 email
        ≡ ok (codes "47DEQpj8HBSa+/TImW+5JCeuQeRkm5NMpJWZG3hSuFU="))

test_compute_body_hash_relaxed : TestComputeBodyHashRelaxed
unfolding program
test_compute_body_hash_relaxed = (refl, refl)

abbrev pub TestComputeBodyHashLength : Type 0
TestComputeBodyHashLength =
    (body_hash relaxed (some (codes "3")) rsa_sha1 email
      ≡ ok (codes "2jmj7l5rSw0yVb/vlWAYkK/YBwk="))
    × (body_hash relaxed (some (codes "3")) rsa_sha256 email
        ≡ ok (codes "47DEQpj8HBSa+/TImW+5JCeuQeRkm5NMpJWZG3hSuFU="))

test_compute_body_hash_length : TestComputeBodyHashLength
unfolding program
test_compute_body_hash_length = (refl, refl)

abbrev pub TestComputeBodyHashEmptySimple : Type 0
TestComputeBodyHashEmptySimple =
    (body_hash simple none rsa_sha1 empty_email ≡ ok (codes "uoq1oCgLlTqpdDX/iUbLy7J1Wic="))
    × (body_hash simple none rsa_sha256 empty_email
        ≡ ok (codes "frcCV1k9oG9oKj3dpUqdJg1PxRT2RSN/XKdLCPjaYaY="))

test_compute_body_hash_empty_simple : TestComputeBodyHashEmptySimple
unfolding program
test_compute_body_hash_empty_simple = (refl, refl)

abbrev pub TestComputeBodyHashEmptyRelaxed : Type 0
TestComputeBodyHashEmptyRelaxed =
    (body_hash relaxed none rsa_sha1 empty_email ≡ ok (codes "2jmj7l5rSw0yVb/vlWAYkK/YBwk="))
    × (body_hash relaxed none rsa_sha256 empty_email
        ≡ ok (codes "47DEQpj8HBSa+/TImW+5JCeuQeRkm5NMpJWZG3hSuFU="))

test_compute_body_hash_empty_relaxed : TestComputeBodyHashEmptyRelaxed
unfolding program
test_compute_body_hash_empty_relaxed = (refl, refl)

abbrev pub TestComputeHeadersHashSimple : Type 0
TestComputeHeadersHashSimple =
    (headers_hash simple rsa_sha1
      ≡ ok (
          214 ∷ 155 ∷ 167 ∷ 0 ∷ 209 ∷ 70 ∷ 127 ∷ 126 ∷ 160 ∷ 53 ∷ 79 ∷ 106 ∷ 141 ∷ 240 ∷ 35 ∷ 121
          ∷ 255 ∷ 190 ∷ 166 ∷ 229 ∷ []))
    × (headers_hash simple rsa_sha256
        ≡ ok (
            76 ∷ 143 ∷ 13 ∷ 248 ∷ 17 ∷ 209 ∷ 243 ∷ 111 ∷ 40 ∷ 96 ∷ 160 ∷ 242 ∷ 116 ∷ 86 ∷ 37 ∷ 249
            ∷ 134 ∷ 253 ∷ 196 ∷ 89 ∷ 6 ∷ 24 ∷ 157 ∷ 130 ∷ 142 ∷ 198 ∷ 27 ∷ 166 ∷ 127 ∷ 179 ∷ 72
            ∷ 247 ∷ []))

test_compute_headers_hash_simple : TestComputeHeadersHashSimple
unfolding program
test_compute_headers_hash_simple = (refl, refl)

abbrev pub TestComputeHeadersHashRelaxed : Type 0
TestComputeHeadersHashRelaxed =
    (headers_hash relaxed rsa_sha1
      ≡ ok (
          14 ∷ 171 ∷ 230 ∷ 1 ∷ 77 ∷ 117 ∷ 47 ∷ 207 ∷ 243 ∷ 167 ∷ 179 ∷ 5 ∷ 150 ∷ 82 ∷ 154 ∷ 25 ∷ 125
          ∷ 124 ∷ 44 ∷ 164 ∷ []))
    × (headers_hash relaxed rsa_sha256
        ≡ ok (
            45 ∷ 186 ∷ 211 ∷ 81 ∷ 49 ∷ 111 ∷ 18 ∷ 147 ∷ 180 ∷ 245 ∷ 207 ∷ 39 ∷ 9 ∷ 9 ∷ 118 ∷ 137
            ∷ 248 ∷ 204 ∷ 70 ∷ 214 ∷ 16 ∷ 98 ∷ 216 ∷ 111 ∷ 230 ∷ 130 ∷ 196 ∷ 3 ∷ 60 ∷ 201 ∷ 166
            ∷ 224 ∷ []))

test_compute_headers_hash_relaxed : TestComputeHeadersHashRelaxed
unfolding program
test_compute_headers_hash_relaxed = (refl, refl)
