-- ===== src/Tests/Integrity.antt =====
-- Two emails with one signature.
use dkim.Prelude.{◌≡◌, ◌⊎◌, refl, [], ◌∷◌, codes}
use dkim.Error.{ok}
use dkim.Externals.{ParsedMail}
use dkim.PublicKey.{rsa}
use dkim.Tests.Crates.{ascii, toy_crypto}
use dkim.Tests.Email.{signature_header, email, header, both_relaxed, signature_verifies}
use dkim.Tests.Program.{program}
use dkim.Verify.Collision.{Collision, TwoDigests}
use dkim.Verify.Integrity.{accepted_agree}
use dkim.Canonicalization.{relaxed}
use dkim.Hash.Prepend.{names_of}
use dkim.Hash.Transit.{SameLines}
use dkim.Header.{get_tag, get_required_tag}
use dkim.Parser.{parse_canonicalization}
use dkim.Verify.Transit.{verify_with_key_kept}
use dkim.Verify.Same.{Same, hashed_body}
use dkim.Verify.{verify_with_key}

-- The email with another header, its own headers in another order and one of them folded and in
-- capitals, more white space in its body, and empty lines at its end.
abbrev forwarded : ParsedMail
forwarded = record {
  raw_bytes = codes "X: 1\r\nDKIM-Signature: v=1\r\nFROM:\r\n\ta@b.com \r\n\r\nhi \t\r\n\r\n\r\n";
  headers =
      record { key = codes "X"; value_raw = codes "1" }
      ∷ signature_header
      ∷ record { key = codes "FROM"; value_raw = codes "\r\n\ta@b.com " }
      ∷ [];
}

types_are : parse_canonicalization (get_tag header (codes "c")) ≡ ok both_relaxed
unfolding program
types_are = refl

names_are : get_required_tag header (codes "h") ≡ ok (codes "from")
unfolding program
names_are = refl

same_body : hashed_body header relaxed email ≡ hashed_body header relaxed forwarded
unfolding program hashed_body
same_body = refl

same_lines : SameLines ascii relaxed email.headers forwarded.headers (names_of (codes "from"))
unfolding program
same_lines = (refl, tt)

verify_with_key_kept_example :
    verify_with_key toy_crypto ascii header email (rsa [])
    ≡ verify_with_key toy_crypto ascii header forwarded (rsa [])
verify_with_key_kept_example =
    verify_with_key_kept toy_crypto ascii header email forwarded (rsa []) both_relaxed
      (codes "from") types_are names_are same_body same_lines

forwarded_verifies : verify_with_key toy_crypto ascii header forwarded (rsa []) ≡ ok both_relaxed
unfolding program
forwarded_verifies = refl

accepted_agree_example :
    Same ascii header email forwarded
    ⊎ (Collision toy_crypto ascii header both_relaxed email forwarded
        ⊎ TwoDigests toy_crypto (rsa []))
accepted_agree_example =
    accepted_agree toy_crypto ascii header email forwarded (rsa []) both_relaxed both_relaxed
      (λ text. refl) signature_verifies forwarded_verifies
