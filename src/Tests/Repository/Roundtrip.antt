-- ===== src/Tests/Repository/Roundtrip.antt =====
-- The test of src/roundtrip_test.rs, at the algorithms of the standards.
use dkim.Prelude.{◌≡◌, refl, [], ◌∷◌, ◌++◌, Bytes, codes, beq, if◌then◌else◌}
use dkim.DkimResult.{with_detail}
use dkim.Error.{Outcome, ok, panic, ◌>>=◌}
use dkim.PublicKey.{Lookup}
use dkim.Sign.{DkimPrivateKey, rsa}
use dkim.Tests.Program.{program}
use dkim.Tests.Real.Mail.{parse_mail}
use dkim.Tests.Real.{crates}
use dkim.Tests.Repository.Signers.{private_key, signed_by}
use dkim.Verify.{verify_email_with_resolver}

-- The record of test/keys/2022.txt.
abbrev dkim_record : Bytes
dkim_record =
    codes
      "v=DKIM1; h=sha256; k=rsa; t=y:s; p=MIIBIjANBgkqhkiG9w0BAQEFAAOCAQ8AMIIBCgKCAQEAyrnZAH3hf+hp53o5gz7CfRNHme6iCW8koRNgV3bDiZcPxoC9nhjyMPWD/rizalhykziEaz0WBodeSalGjTXqH6yrlUobekxJO9UmzKrIpWCfsdbHLfTHCO6kk4JLeKs+hRs+/v2tPvcVnGD/A76cBXI5ksfrtUzeTlsPDYDSbafgBXvi9CTMAEUd3iB+HtjQbNuQJbNnZrLotBPGjuFTcUKCafCmFu31K6ZMDnOJadfoZO8cClti53V2DLz7NDO3kZIGiAHsNcptcZN3MnHRhMl2Buy5vdi4lfDXhjl5ozhb8MeY0LAJikJm9RUQ3GcHBdvqchnz53gcNXIApMuK2QIDAQAB"

abbrev roundtrip_resolver : Lookup
roundtrip_resolver name =
    if beq name (codes "2022._domainkey.cloudflare.com") then ok (dkim_record ∷ []) else panic

abbrev pub signed_email : Bytes → Bytes → Outcome Bytes
signed_email domain raw_email =
    signed_by (λ builder. builder) (codes "From" ∷ codes "Subject" ∷ []) (rsa private_key)
      (codes "2022") domain 1609459201 (parse_mail raw_email)
    >>= λ header. ok (header ++ (codes "\n" ++ raw_email))

abbrev pub verified_email : Bytes → Bytes → Outcome Bytes
verified_email from_domain raw_email =
    verify_email_with_resolver crates (λ i. 0) from_domain (parse_mail raw_email) roundtrip_resolver
    >>= λ result. ok (with_detail result)

abbrev round_trip : Bytes → Outcome Bytes
round_trip email =
    signed_email (codes "cloudflare.com") email >>= verified_email (codes "cloudflare.com")

abbrev plain : Bytes
plain = codes "Subject: subject\nFrom: Sven Sauleau <sven@cloudflare.com>\n\nHello Alice\n"

abbrev dotted : Bytes
dotted =
    codes "Subject: subject\nFrom: Sven Sauleau <sven@cloudflare.com>\n\n.Hello Alice...\n.\n...\n"

abbrev multipart : Bytes
multipart =
    codes
      "Subject: subject\nFrom: Sven Sauleau <sven@cloudflare.com>\nMime-Version: 1.0\nContent-Type: multipart/alternative; boundary=2c637dd08e3ccac9b9425780c2e07981cb322e7feed138813fb1ab054047\n\n--2c637dd08e3ccac9b9425780c2e07981cb322e7feed138813fb1ab054047\nContent-Transfer-Encoding: 7bit\nContent-Type: text/plain; charset=ascii\n\ntext here\n--2c637dd08e3ccac9b9425780c2e07981cb322e7feed138813fb1ab054047\nContent-Transfer-Encoding: quoted-printable\nContent-Type: text/html; charset=ascii\n\n<!doctype html><html xmlns=3D\"http://www.w3.org/1999/xhtml\" xmlns:v=3D\"urn:=\nschemas-microsoft-com:vml\" xmlns:o=3D\"urn:schemas-microsoft-com:office:offi=\nce\"><head><title></title><!--[if !mso]><!-- --><meta http-equiv=3D\"X-UA-Com=\npatible\" content=3D\"IE=3Dedge\"><!--<![endif]--><meta http-equiv=3D\"Content-=\nType\" content=3D\"text/html; charset=3DUTF-8\"><meta name=3D\"viewport\" conten=\nt=3D\"width=3Ddevice-width,initial-scale=3D1\"><style type=3D\"text/css\">#outl=\nook a { padding:0; }\n          .ReadMsgBody { width:100%; }\n          .ExternalClass { width:100%; }\n      div.footer-text a {\n        color: #3498db;\n      }  td {\n        font-family: -apple-system, BlinkMacSystemFont, 'Segoe UI', 'Roboto=\n', 'Oxygen', 'Ubuntu', 'Fira Sans', 'Droid Sans', 'Helvetica Neue', sans-se=\nrif !important;\n      }</style></head><body style=3D\"font-size: 16px; line-height: 24px; fo=\nnt-weight: normal; font-style: normal; background-color: #fbfbfb;\"><div sty=\nle=3D\"display:none;font-size:1px;color:#ffffff;line-height:1px;max-height:0=\npx;max-width:0px;opacity:0;overflow:hidden;\"> Completed - No components aff=\nected - The scheduled maintenance has been completed. &zwnj;&nbsp;&zwnj;&nb=\nsp;&zwnj;&nbsp;&zwnj;&nbsp;&zwnj;&nbsp;&zwnj;&nbsp;&zwnj;&nbsp;&zwnj;&nbsp;=\n&zwnj;&nbsp;&zwnj;&nbsp;&zwnj;&nbsp;&zwnj;&nbsp;&zwnj;&nbsp;&zwnj;&nbsp;&zw=\nnj;&nbsp;&zwnj;&nbsp;&zwnj;&nbsp;&nbsp;&zwnj;&nbsp;</div>=\n<div style=3D\"background-color:#fbfbfb;\"><!--[if mso | IE]><table align=3D\"=\ncenter\" border=3D\"0\" cellpadding=3D\"0\" cellspacing=3D\"0\" class=3D\"header-sp=\nacing-outlook\" style=3D\"width:600px;\" width=3D\"600\" ><tr><td style=3D\"line-=\nheight:0px;font-size:0px;mso-line-height-rule:exactly;\"><![endif]--><div cl=\nass=3D\"header-spacing\" style=3D\"Margin:0px auto;max-width:600px;\"><table al=\nign=3D\"center\" border=3D\"0\" cellpadding=3D\"0\" cellspacing=3D\"0\" role=3D\"pre=\nsentation\" style=3D\"width:100%;\">\n\n--2c637dd08e3ccac9b9425780c2e07981cb322e7feed138813fb1ab054047--\n"

abbrev pub TestRoundtrip : Type 0
TestRoundtrip =
    (round_trip plain ≡ ok (codes "pass"))
    × (round_trip dotted ≡ ok (codes "pass"))
    × (round_trip multipart ≡ ok (codes "pass"))

test_roundtrip : TestRoundtrip
unfolding program dkim.Sign.sign dkim.Sign.build dkim.Sign.with_signed_headers
    dkim.Sign.with_private_key dkim.Sign.with_selector dkim.Sign.with_logger
    dkim.Sign.with_signing_domain dkim.Sign.with_time dkim.Sign.names_from
    dkim.Str.Decimal.decimal_loop with_detail dkim.DkimResult.error
test_roundtrip = (refl, refl, refl)
