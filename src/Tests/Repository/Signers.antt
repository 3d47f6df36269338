-- ===== src/Tests/Repository/Signers.antt =====
-- The tests of src/sign.rs, at the algorithms of the standards.
use dkim.Prelude.{ℕ, ◌≡◌, refl, [], ◌∷◌, List, Bytes, codes}
use dkim.Canonicalization.{relaxed}
use dkim.Error.{Outcome, ok, ◌>>=◌}
use dkim.Externals.{ParsedMail}
use dkim.Sign.{
  DkimPrivateKey, rsa, ed25519, SignerBuilder, new_signer, with_signed_headers, with_private_key,
  with_selector, with_logger, with_signing_domain, with_time, with_header_canonicalization,
  with_body_canonicalization, build, sign,
}
use dkim.Tests.Program.{program}
use dkim.Tests.Real.Mail.{parse_mail}
use dkim.Tests.Real.Rsa.{PrivateKey}
use dkim.Tests.Real.{crypto, crates}
use dkim.Tests.Repository.{unwrap_right, to_crlf}

-- The modulus and the private exponent of test/keys/2022.private.
abbrev pub private_key : PrivateKey
private_key = record {
  modulus =
      0xcab9d9007de17fe869e77a39833ec27d134799eea2096f24a113605776c389970fc680bd9e18f230f583feb8b36a58729338846b3d1606875e49a9468d35ea1facab954a1b7a4c493bd526ccaac8a5609fb1d6c72df4c708eea493824b78ab3e851b3efefdad3ef7159c60ff03be9c05723992c7ebb54cde4e5b0f0d80d26da7e0057be2f424cc00451dde207e1ed8d06cdb9025b36766b2e8b413c68ee15371428269f0a616edf52ba64c0e738969d7e864ef1c0a5b62e775760cbcfb3433b79192068801ec35ca6d7193773271d184c97606ecb9bdd8b895f0d7863979a3385bf0c798d0b0098a4266f51510dc670705dbea7219f3e7781c357200a4cb8ad9;
  exponent =
      0x4abcc35ca40bdb5cf2962d0040fb853619427f64738668dc2729fe8da0322c6a6d9d6fdef807185aa658d8327daa8a1b0b5d7dac0f642c5a018fc4814714065151161cbeaa6ca6ed24cacb380f0a53b5d089feb585a2c531ecd0edb4ce601939be56b21dcda5ee1da770f46d6f92f8f0251146a4bfa822439ebd814a2820ebdd9c94c3a8cc0aa1c7c71482ae32e097d19bc6b9519bbabffc8432f989e698e51f3f3c5b11dd0c508304b49c6edfa287f3f5c01c9d9d1f50dd0c9204ac59eb7c91c4e525b4d0c16e17733e6153562e89f8cc8138af1d4811e3cc0bc40290c59a33cda8fd828eea181aefe8ccf63d30b48d977d63714ea4d46077158869e6710501;
}

-- The signers of the tests, which set the forms or not, with the key, the selector, the domain and
-- the time.
abbrev pub signed_by :
    (SignerBuilder crates → SignerBuilder crates)
    → List Bytes
    → DkimPrivateKey crypto
    → Bytes
    → Bytes
    → ℕ
    → ParsedMail
    → Outcome Bytes
signed_by forms names key selector domain time email =
    with_signed_headers crates names (new_signer crates) >>= λ builder.
    build crates (
      with_time crates time (
        with_signing_domain crates domain (
          with_logger crates tt
            (with_selector crates selector (forms (with_private_key crates key builder))))))
    >>= λ signer. sign crates signer 0 email

abbrev rsa_email : ParsedMail
rsa_email =
    parse_mail
      (codes "Subject: subject\nFrom: Sven Sauleau <sven@cloudflare.com>\n\nHello Alice\n        ")

abbrev pub TestSignRsa : Type 0
TestSignRsa =
    signed_by (λ builder. builder) (codes "From" ∷ codes "Subject" ∷ []) (rsa private_key)
      (codes "s20") (codes "example.com") 1609459201 rsa_email
    ≡ ok (
        codes
          "DKIM-Signature: v=1; a=rsa-sha256; d=example.com; s=s20; c=simple/simple; bh=frcCV1k9oG9oKj3dpUqdJg1PxRT2RSN/XKdLCPjaYaY=; h=from:subject; t=1609459201; b=ohfeeUk89mJI/nTb8cViCbOY11tYBkj0xecrpXVwPdkvLMYMZemydr01nUuruhrzaqxFcqgjdEB/alen4NygDo3Kj//GsEUksRO13Hi1aW5lfxLj7Ifux96CbKm3EEcI5rD9tXQ0LaW5nYUdqYdFVIgmU/qTtXRenMxesHhggknm1n6x7K4NsqBS+9leidXtKf8hTSCC7f4XMGFe2YQrCKHfYFBb/MTuzCHbF/CgZHKgMhBAYXMkuEwIGjh4xnR256AmJdxHN+JdrWYzkMdRiuDmYvlnUJdPWq0hD3fR1DxS5/YF6hNHMP9b1yM8eiUQVnqrbzR8C5KWJiM8JhaBcg==;")

test_sign_rsa : TestSignRsa
unfolding program sign dkim.Sign.build with_signed_headers with_private_key with_selector
    with_logger with_signing_domain with_time dkim.Sign.names_from dkim.Str.Decimal.decimal_loop
test_sign_rsa = refl

abbrev ed25519_email : ParsedMail
ed25519_email = parse_mail (
    to_crlf (
      codes
        "From: Joe SixPack <joe@football.example.com>\nTo: Suzie Q <suzie@shopping.example.net>\nSubject: Is dinner ready?\nDate: Fri, 11 Jul 2003 21:00:37 -0700 (PDT)\nMessage-ID: <20030712040037.46341.5F8J@football.example.com>\n\nHi.\n\nWe lost the game.  Are you hungry yet?\n\nJoe."))

abbrev both_relaxed : SignerBuilder crates → SignerBuilder crates
both_relaxed builder =
    with_header_canonicalization crates relaxed (with_body_canonicalization crates relaxed builder)

abbrev signed_names : List Bytes
signed_names =
    codes "From"
    ∷ codes "To"
    ∷ codes "Subject"
    ∷ codes "Date"
    ∷ codes "Message-ID"
    ∷ codes "From"
    ∷ codes "Subject"
    ∷ codes "Date"
    ∷ []

abbrev pub TestSignEd25519 : Type 0
TestSignEd25519 =
    (unwrap_right (crypto.base64_decode (codes "nWGxne/9WmC6hEr0kuwsxERJxWl7MmkZcDusAxyuf2A="))
      >>= λ secret.
          signed_by both_relaxed signed_names (ed25519 secret) (codes "brisbane")
            (codes "football.example.com") 1528637909 ed25519_email)
    ≡ ok (
        codes
          "DKIM-Signature: v=1; a=ed25519-sha256; d=football.example.com; s=brisbane; c=relaxed/relaxed; bh=2jUSOH9NhtVGCQWNr9BrIAPreKQjO6Sn7XIkfJVOzv8=; h=from:to:subject:date:message-id:from:subject:date; t=1528637909; b=wITr2H3sBuBfMsnUwlRTO7Oq/C/jd2vubDm50DrXtMFEBLRiz9GfrgCozcg764+gYqWXV3Snd1ynYh8sJ5BXBg==;")

test_sign_ed25519 : TestSignEd25519
unfolding program sign dkim.Sign.build with_signed_headers with_private_key with_selector
    with_logger with_signing_domain with_time dkim.Sign.names_from dkim.Str.Decimal.decimal_loop
    with_header_canonicalization with_body_canonicalization
test_sign_ed25519 = refl
