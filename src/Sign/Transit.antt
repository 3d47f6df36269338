-- ===== src/Sign/Transit.antt =====
-- The line that src/sign.rs writes, in an email that other software has passed on to the verifier of
-- src/lib.rs.
use dkim.Prelude.{ℕ, ◌≡◌, sym, ap, ◌∙◌, true, [], ◌∷◌, ◌++◌, inr, List, Bytes, codes, drop, length}
use dkim.Bytes.{get_all_after}
use dkim.Canonicalization.{CanonicalizationType, blank_line}
use dkim.Error.{ok}
use dkim.Externals.{MailHeader, ParsedMail, Platform}
use dkim.Hash.Prepend.{names_of}
use dkim.Hash.Transit.{SameLines}
use dkim.Hash.{canonicalize_body, truncate_to, get_body}
use dkim.Header.Line.{line-IsAscii}
use dkim.Header.{DkimHeader, header_name, get_tag}
use dkim.PublicKey.{DkimPublicKey}
use dkim.Sign.Accepted.{Visible, IsWritable, signed_header_verifies}
use dkim.Sign.Delivered.{raw_in_line, tags_read}
use dkim.Sign.Passes.{SignsOnce, own_pass, sign-signed_header}
use dkim.Sign.Steps.{names_text}
use dkim.Sign.Verifies.{IsKeyPair}
use dkim.Sign.{DkimSigner, sign, signed_header}
use dkim.Validate.{validate_header}
use dkim.Verify.Email.{verify_email_with_key_first}
use dkim.Verify.Same.{hashed_body}
use dkim.Verify.Signature.{verify_with_key_sound}
use dkim.Verify.Transit.{verify_with_key_kept}
use dkim.Verify.{Types, verify_with_key, verify_email_with_key, validated, same_domain}

-- What is behind `DKIM-Signature: ` in the line.
abbrev pub value_of : Bytes → Bytes
value_of line = drop (length (header_name ++ codes ": ")) line

-- The body of an email in its canonical form.
abbrev pub canonical_body : CanonicalizationType → ParsedMail → Bytes
canonical_body t email = canonicalize_body t (get_all_after email.raw_bytes blank_line)

module _ (p : Platform) (signer : DkimSigner p) (key : DkimPublicKey p.crypto)
    (pair : IsKeyPair p signer key) (w : IsWritable p signer)
    (base64 : (text : Bytes) → p.crypto.base64_decode (p.crypto.base64_encode text) ≡ inr text)
    (visible : (text : Bytes) → Visible (p.crypto.base64_encode text)) (now : p.chrono.Time)
    (email : ParsedMail) (once : SignsOnce p signer now email) (received : ParsedMail)
    (body : canonical_body signer.body_canonicalization email
      ≡ canonical_body signer.body_canonicalization received)
    (lines : SameLines p.unicode signer.header_canonicalization email.headers received.headers
      (names_of (names_text p signer)))
    (clock : ℕ → p.chrono.Time) (from_domain : Bytes)
    (same : same_domain p clock signer.signing_domain from_domain ≡ true) where
  abbrev types : Types
  types = (signer.header_canonicalization, signer.body_canonicalization)

  received_verified :
      (header : DkimHeader)
      → signed_header p signer now email ≡ ok header
      → verify_with_key p.crypto p.unicode header email key ≡ ok types
      → verify_with_key p.crypto p.unicode header received key ≡ ok types
  unfolding hashed_body get_body
  received_verified header made verified =
      let v = verify_with_key_sound p.crypto p.unicode header email key verified in
      sym (
        verify_with_key_kept p.crypto p.unicode header email received key types
          (names_text p signer) v.types_are (tags_read p signer now email header made).2
          (ap (truncate_to (get_tag header (codes "l"))) body) lines)
      ∙ verified

  header_valid :
      (header : DkimHeader) (name : Bytes)
      → signed_header p signer now email ≡ ok header
      → validate_header p.nom p.unicode p.chrono (clock 0) header.raw_bytes ≡ ok header
      → validated p clock 0 (record { key = name; value_raw = header.raw_bytes }) ≡ ok header
  header_valid header name made valid =
      let ascii =
        line-IsAscii header.raw_bytes (raw_in_line p signer now email header made w visible) in
      ap (validate_header p.nom p.unicode p.chrono (clock 0))
        (p.unicode.from_utf8_lossy_ascii header.raw_bytes ascii)
      ∙ valid

  header_received :
      (header : DkimHeader) (name : Bytes) (others : List MailHeader)
      → signed_header p signer now email ≡ ok header
      → p.mailparse.get_all_headers received.headers header_name
        ≡ record { key = name; value_raw = header.raw_bytes } ∷ others
      → verify_email_with_key p clock from_domain received key ≡ ok (own_pass p signer)
  header_received header name others made at =
      let accepted =
        signed_header_verifies p signer now (clock 0) email key header made w base64 visible pair
          (λ b e. once header b made e) in
      verify_email_with_key_first p clock from_domain received key [] others _ header
        signer.signing_domain at tt (header_valid header name made accepted.0)
        (tags_read p signer now email header made).0 same
      ∙ rw (received_verified header made accepted.1)

  -- An email that other software has passed on passes verify_email_with_key for the signing
  -- domain, at any time, if its first DKIM-Signature header has the value in the line that sign
  -- returned, its canonical body is that of the email that was signed, and for each signed name
  -- the headers of that name have the same canonical forms in the same order: if the domain, the
  -- selector and the header names are visible characters, From is among the names, none holds a
  -- colon, base64 decodes what it encodes and encodes to visible characters, the key verifies what
  -- the signer's key signs, the value of b= stands once in the header, and the sender's domain is
  -- the signing domain.
  pub received-email_passes :
      (line name : Bytes) (others : List MailHeader)
      → sign p signer now email ≡ ok line
      → p.mailparse.get_all_headers received.headers header_name
        ≡ record { key = name; value_raw = value_of line } ∷ others
      → verify_email_with_key p clock from_domain received key ≡ ok (own_pass p signer)
  received-email_passes line name others h at =
      let (header, made, is) = sign-signed_header p signer now email line h in
      let value : value_of line ≡ header.raw_bytes = ap value_of (sym is) in
      header_received header name others made
        (at ∙ ap (λ v. record { key = name; value_raw = v } ∷ others) value)
