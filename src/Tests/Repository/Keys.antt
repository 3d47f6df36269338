-- ===== src/Tests/Repository/Keys.antt =====
-- The tests of src/lib.rs with keys and signatures, at the algorithms of the standards.
use dkim.Prelude.{◌≡◌, refl, true, [], ◌∷◌, List, Bytes, codes, beq, if◌then◌else◌}
use dkim.DkimResult.{with_detail}
use dkim.Error.{Outcome, ok, panic, ◌>>=◌}
use dkim.Externals.{MailHeader, ParsedMail}
use dkim.Header.{header_name}
use dkim.PublicKey.{Lookup, DkimPublicKey, rsa, ed25519, key_type, try_from_bytes}
use dkim.Tests.Combinators.{combinators}
use dkim.Tests.Crates.{ascii, clock, get_all_headers}
use dkim.Tests.Program.{program}
use dkim.Tests.Real.Mail.{parse_mail}
use dkim.Tests.Real.{crypto, crates}
use dkim.Tests.Repository.{is_ok, unwrap_right, to_crlf}
use dkim.Validate.{validate_header}
use dkim.Verify.{Types, verify_email_header, verify_email_with_key}

abbrev pub mock_resolver : Lookup
mock_resolver name =
    if beq name (codes "brisbane._domainkey.football.example.com")
    then ok (codes "v=DKIM1; k=ed25519; p=11qYAYKxCrfVS/7TyWQHOg7hcvPapiMlrwIaaPcHURo=" ∷ [])
    else if beq name (codes "newengland._domainkey.example.com")
    then ok (
        codes
          "v=DKIM1; p=MIGJAoGBALVI635dLK4cJJAH3Lx6upo3X/Lm1tQz3mezcWTA3BUBnyIsdnRf57aD5BtNmhPrYYDlWlzw3UgnKisIxktkk5+iMQMlFtAS10JB8L3YadXNJY+JBcbeSi5TgJe4WFzNgW95FWDAuSTRXSWZfA/8xjflbTLDx0euFZOM7C4T0GwLAgMBAAE="
        ∷ [])
    else panic

-- The value of the first header, `unwrap`ped.
abbrev first_value : List MailHeader → Outcome Bytes
first_value [] = panic
first_value (h ∷ hs) = ok h.value_raw

-- The first signature of an email, verified.
abbrev verify_first : ParsedMail → Outcome Types
verify_first email = first_value (get_all_headers email.headers header_name) >>= λ h.
    validate_header combinators ascii clock 0 (ascii.from_utf8_lossy h) >>= λ header.
    verify_email_header crates (λ i. 0) mock_resolver header email

abbrev ed25519_email : ParsedMail
ed25519_email = parse_mail (
    to_crlf (
      codes
        "DKIM-Signature: v=1; a=ed25519-sha256; c=relaxed/relaxed;\n d=football.example.com; i=@football.example.com;\n q=dns/txt; s=brisbane; t=1528637909; h=from : to :\n subject : date : message-id : from : subject : date;\n bh=2jUSOH9NhtVGCQWNr9BrIAPreKQjO6Sn7XIkfJVOzv8=;\n b=/gCrinpcQOoIfuHNQIbq4pgh9kyIK3AQUdt9OdqQehSwhEIug4D11Bus\n Fa3bT3FY5OsU7ZbnKELq+eXdp1Q1Dw==\nDKIM-Signature: v=1; a=rsa-sha256; c=relaxed/relaxed;\n d=football.example.com; i=@football.example.com;\n q=dns/txt; s=test; t=1528637909; h=from : to : subject :\n date : message-id : from : subject : date;\n bh=2jUSOH9NhtVGCQWNr9BrIAPreKQjO6Sn7XIkfJVOzv8=;\n b=F45dVWDfMbQDGHJFlXUNB2HKfbCeLRyhDXgFpEL8GwpsRe0IeIixNTe3\n DhCVlUrSjV4BwcVcOF6+FF3Zo9Rpo1tFOeS9mPYQTnGdaSGsgeefOsk2Jz\n dA+L10TeYt9BgDfQNZtKdN1WO//KgIqXP7OdEFE4LjFYNcUxZQ4FADY+8=\nFrom: Joe SixPack <joe@football.example.com>\nTo: Suzie Q <suzie@shopping.example.net>\nSubject: Is dinner ready?\nDate: Fri, 11 Jul 2003 21:00:37 -0700 (PDT)\nMessage-ID: <20030712040037.46341.5F8J@football.example.com>\n\nHi.\n\nWe lost the game.  Are you hungry yet?\n\nJoe."))

abbrev pub TestValidateEmailHeaderEd25519 : Type 0
TestValidateEmailHeaderEd25519 = is_ok (verify_first ed25519_email) ≡ true

test_validate_email_header_ed25519 : TestValidateEmailHeaderEd25519
unfolding program
test_validate_email_header_ed25519 = refl

abbrev rsa_email : ParsedMail
rsa_email = parse_mail (
    to_crlf (
      codes
        "DKIM-Signature: a=rsa-sha256; bh=2jUSOH9NhtVGCQWNr9BrIAPreKQjO6Sn7XIkfJVOzv8=;\n c=simple/simple; d=example.com;\n h=Received:From:To:Subject:Date:Message-ID; i=joe@football.example.com;\n s=newengland; t=1615825284; v=1;\n b=Xh4Ujb2wv5x54gXtulCiy4C0e+plRm6pZ4owF+kICpYzs/8WkTVIDBrzhJP0DAYCpnL62T0G\n k+0OH8pi/yqETVjKtKk+peMnNvKkut0GeWZMTze0bfq3/JUK3Ln3jTzzpXxrgVnvBxeY9EZIL4g\n s4wwFRRKz/1bksZGSjD8uuSU=\nReceived: from client1.football.example.com  [192.0.2.1]\n      by submitserver.example.com with SUBMISSION;\n      Fri, 11 Jul 2003 21:01:54 -0700 (PDT)\nFrom: Joe SixPack <joe@football.example.com>\nTo: Suzie Q <suzie@shopping.example.net>\nSubject: Is dinner ready?\nDate: Fri, 11 Jul 2003 21:00:37 -0700 (PDT)\nMessage-ID: <20030712040037.46341.5F8J@football.example.com>\n\nHi.\n\nWe lost the game. Are you hungry yet?\n\nJoe.\n"))

abbrev pub TestValidateEmailHeaderRsa : Type 0
TestValidateEmailHeaderRsa = is_ok (verify_first rsa_email) ≡ true

test_validate_email_header_rsa : TestValidateEmailHeaderRsa
unfolding program
test_validate_email_header_rsa = refl

abbrev rsa_data : Outcome Bytes
rsa_data = unwrap_right (
    crypto.base64_decode (
      codes
        "MIGJAoGBALVI635dLK4cJJAH3Lx6upo3X/Lm1tQz3mezcWTA3BUBnyIsdnRf57aD5BtNmhPrYYDlWlzw3UgnKisIxktkk5+iMQMlFtAS10JB8L3YadXNJY+JBcbeSi5TgJe4WFzNgW95FWDAuSTRXSWZfA/8xjflbTLDx0euFZOM7C4T0GwLAgMBAAE="))

abbrev ed25519_data : Outcome Bytes
ed25519_data =
    unwrap_right (crypto.base64_decode (codes "11qYAYKxCrfVS/7TyWQHOg7hcvPapiMlrwIaaPcHURo="))

abbrev pub TestKeyType : Type 0
TestKeyType =
    ((rsa_data >>= λ bytes.
    unwrap_right (crypto.from_pkcs1_der bytes) >>= λ key. ok (key_type crypto (rsa key)))
      ≡ ok (codes "rsa"))
    × ((ed25519_data >>= λ bytes. unwrap_right (crypto.verifying_key_from_bytes bytes) >>= λ key.
          ok (key_type crypto (ed25519 key)))
        ≡ ok (codes "ed25519"))

test_key_type : TestKeyType
unfolding program key_type
test_key_type = (refl, refl)

-- How the email verifies with a key, in words.
abbrev detail : Bytes → ParsedMail → Bytes → Outcome Bytes → Outcome Bytes
detail from_domain email key_type source = source >>= λ bytes.
    try_from_bytes crypto ascii bytes key_type >>= λ key.
    verify_email_with_key crates (λ i. 0) from_domain email key >>= λ result.
    ok (with_detail result)

abbrev pub TestVerifyEmailWithRsaKey : Type 0
TestVerifyEmailWithRsaKey =
    detail (codes "example.com") rsa_email (codes "rsa") rsa_data ≡ ok (codes "pass")

test_verify_email_with_rsa_key : TestVerifyEmailWithRsaKey
unfolding program try_from_bytes dkim.PublicKey.parse_rsa_key with_detail dkim.DkimResult.error
test_verify_email_with_rsa_key = refl

abbrev ed25519_email_with_key : ParsedMail
ed25519_email_with_key = parse_mail (
    to_crlf (
      codes
        "DKIM-Signature: v=1; a=ed25519-sha256; c=relaxed/relaxed;\n d=football.example.com; i=@football.example.com;\n q=dns/txt; s=brisbane; t=1528637909; h=from : to :\n subject : date : message-id : from : subject : date;\n bh=2jUSOH9NhtVGCQWNr9BrIAPreKQjO6Sn7XIkfJVOzv8=;\n b=/gCrinpcQOoIfuHNQIbq4pgh9kyIK3AQUdt9OdqQehSwhEIug4D11Bus\n Fa3bT3FY5OsU7ZbnKELq+eXdp1Q1Dw==\nFrom: Joe SixPack <joe@football.example.com>\nTo: Suzie Q <suzie@shopping.example.net>\nSubject: Is dinner ready?\nDate: Fri, 11 Jul 2003 21:00:37 -0700 (PDT)\nMessage-ID: <20030712040037.46341.5F8J@football.example.com>\n\nHi.\n\nWe lost the game. Are you hungry yet?\n\nJoe."))

abbrev pub TestVerifyEmailWithEd25519Key : Type 0
TestVerifyEmailWithEd25519Key =
    detail (codes "football.example.com") ed25519_email_with_key (codes "ed25519") ed25519_data
    ≡ ok (codes "pass")

test_verify_email_with_ed25519_key : TestVerifyEmailWithEd25519Key
unfolding program try_from_bytes dkim.PublicKey.parse_ed25519_key with_detail dkim.DkimResult.error
test_verify_email_with_ed25519_key = refl
