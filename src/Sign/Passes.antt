-- ===== src/Sign/Passes.antt =====
-- The line that `DKIMSigner::sign` of src/sign.rs returns, on top of the email that it signs, before
-- the verification of src/lib.rs.
use dkim.Prelude.{ℕ, ◌≡◌, subst, true, false, ◌++◌, inr, Bytes, codes, starts_with}
use dkim.Canonicalization.{crlf}
use dkim.DkimResult.{DkimResult, pass}
use dkim.Error.Laws.{bind-eq-ok, ok-injective}
use dkim.Error.{ok}
use dkim.Externals.{KeepsMatches, ParsedMail, Platform}
use dkim.Hash.Prepend.{names_of}
use dkim.Header.{DkimHeader, header_name, get_required_tag}
use dkim.PublicKey.{DkimPublicKey, Lookup, retrieve_public_key}
use dkim.Sign.Accepted.{Visible, IsWritable}
use dkim.Sign.Delivered.{with_line, header_passes, header_passes_resolver}
use dkim.Sign.Steps.{names_text}
use dkim.Sign.Verifies.{IsKeyPair, IsOnce}
use dkim.Sign.{DkimSigner, signed_header, sign}
use dkim.Str.{All, eq_ignore_ascii_case}
use dkim.Verify.{verify_email_with_key, verify_email_with_resolver, same_domain}

module _ (p : Platform) (signer : DkimSigner p) where
  -- The value of `b=` stands once in the header that is signed.
  abbrev pub SignsOnce : p.chrono.Time → ParsedMail → Type 0
  SignsOnce now email =
      (header : DkimHeader) (b : Bytes)
      → signed_header p signer now email ≡ ok header
      → get_required_tag header (codes "b") ≡ ok b
      → IsOnce b header.raw_bytes

  -- `h=` does not name DKIM-Signature.
  abbrev pub LeavesSignatures : Type 0
  LeavesSignatures =
      All (λ name. eq_ignore_ascii_case header_name name ≡ false) (names_of (names_text p signer))

  abbrev pub own_pass : DkimResult
  own_pass = pass signer.signing_domain signer.header_canonicalization signer.body_canonicalization

  pub sign-signed_header :
      (now : p.chrono.Time) (email : ParsedMail) (line : Bytes)
      → sign p signer now email ≡ ok line
      → (header : DkimHeader) × (signed_header p signer now email ≡ ok header)
        × (header_name ++ (codes ": " ++ header.raw_bytes) ≡ line)
  unfolding sign
  sign-signed_header now email line h =
      let (header, made, is) = bind-eq-ok (signed_header p signer now email) _ h in
      (header, made, ok-injective is)

  module _ (key : DkimPublicKey p.crypto) (pair : IsKeyPair p signer key) (w : IsWritable p signer)
      (base64 : (text : Bytes) → p.crypto.base64_decode (p.crypto.base64_encode text) ≡ inr text)
      (visible : (text : Bytes) → Visible (p.crypto.base64_encode text))
      (mails : KeepsMatches p.mailparse) (now : p.chrono.Time) (email : ParsedMail)
      (once : SignsOnce now email) (leaves : LeavesSignatures)
      (head : starts_with email.raw_bytes crlf ≡ false) (clock : ℕ → p.chrono.Time)
      (from_domain : Bytes)
      (same : same_domain p clock signer.signing_domain from_domain ≡ true) where
    -- The line that sign returns, put on top of the email that it signs, makes
    -- verify_email_with_key pass for the signing domain, at any time: if the domain, the selector
    -- and the header names are visible characters, From is among the names, none holds a colon and
    -- none is DKIM-Signature, base64 decodes what it encodes and encodes to visible characters,
    -- the key verifies what the signer's key signs, the value of b= stands once in the header,
    -- mailparse gives the headers of a name in order, the email starts with a header, and the
    -- sender's domain is the signing domain.
    pub signed_email_passes :
        (line : Bytes)
        → sign p signer now email ≡ ok line
        → verify_email_with_key p clock from_domain (with_line line email) key ≡ ok own_pass
    signed_email_passes line h =
        let (header, made, is) = sign-signed_header now email line h in
        subst (λ l. verify_email_with_key p clock from_domain (with_line l email) key ≡ ok own_pass)
          is
          (header_passes p signer w base64 visible mails key pair now email header made
            (λ b e. once header b made e) leaves head clock from_domain same)

    -- The line that sign returns, put on top of the email that it signs, makes
    -- verify_email_with_resolver pass for the signing domain, at any time, with a resolver from
    -- which the key of the signing domain and the selector is retrieved: if the domain, the
    -- selector and the header names are visible characters, From is among the names, none holds a
    -- colon and none is DKIM-Signature, base64 decodes what it encodes and encodes to visible
    -- characters, the key verifies what the signer's key signs, the value of b= stands once in the
    -- header, mailparse gives the headers of a name in order, the email starts with a header, and
    -- the sender's domain is the signing domain.
    pub signed_email_passes_resolver :
        (resolver : Lookup) (line : Bytes)
        → retrieve_public_key p.crypto p.nom resolver signer.signing_domain signer.selector ≡ ok key
        → sign p signer now email ≡ ok line
        → verify_email_with_resolver p clock from_domain (with_line line email) resolver
          ≡ ok own_pass
    signed_email_passes_resolver resolver line retrieved h =
        let (header, made, is) = sign-signed_header now email line h in
        subst
          (λ l.
            verify_email_with_resolver p clock from_domain (with_line l email) resolver
            ≡ ok own_pass)
          is
          (header_passes_resolver p signer w base64 visible mails key pair now email header made
            (λ b e. once header b made e) leaves head clock from_domain same resolver retrieved)
