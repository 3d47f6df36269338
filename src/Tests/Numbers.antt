-- ===== src/Tests/Numbers.antt =====
-- Numbers that the program writes and reads: a body length, and an expiry.
use dkim.Prelude.{arith, ◌≡◌, refl, some, codes, not, ltb, take}
use dkim.Bytes.{get_all_after}
use dkim.Canonicalization.{relaxed, blank_line}
use dkim.Error.{ok, ◌>>=◌, guard, signature_expired}
use dkim.Hash.{compute_body_hash, canonicalize_body, hash_with}
use dkim.Header.{new, set_expiry, set_time, build}
use dkim.Hash.Length.{compute_body_hash-decimal}
use dkim.Parser.{rsa_sha256}
use dkim.Str.Decimal.{decimal}
use dkim.Tests.Combinators.{combinators}
use dkim.Tests.Crates.{ascii, clock, toy_crypto}
use dkim.Tests.Email.{email}
use dkim.Tests.Program.{program}
use dkim.Validate.Expiry.{check_expiry-set_expiry}
use dkim.Validate.{check_expiry}

compute_body_hash-decimal_example :
    compute_body_hash toy_crypto relaxed (some (decimal 3)) rsa_sha256 email
    ≡ ok (
        toy_crypto.base64_encode (
          hash_with toy_crypto rsa_sha256
            (take 3 (canonicalize_body relaxed (get_all_after email.raw_bytes blank_line)))))
compute_body_hash-decimal_example =
    compute_body_hash-decimal toy_crypto relaxed 3 rsa_sha256 email (omega arith)

-- The body is four bytes long, and the toy digest is the length of what it is given.
cut : compute_body_hash toy_crypto relaxed (some (decimal 3)) rsa_sha256 email ≡ ok (codes "3")
unfolding program
cut = refl

-- An hour after the signing, and fifteen minutes.
check_expiry-set_expiry_example :
    (set_expiry clock 3600 (set_time clock 1700000000 (new clock)) >>= λ b.
    build clock b >>= λ header. check_expiry combinators ascii clock 1700004500 header)
    ≡ guard (not (ltb 1700004500 1700004500)) signature_expired
check_expiry-set_expiry_example =
    check_expiry-set_expiry combinators ascii clock 1700004500 3600 1700000000 (new clock)
      1700003600 1700003600 1700004500 refl (omega arith) refl refl
