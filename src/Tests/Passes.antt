-- ===== src/Tests/Passes.antt =====
-- A signed email before the verifier.
use dkim.Prelude.{
  ◌≡◌, refl, sym, subst, ap, ◌∙◌, ◌++◌, true, false, inr, [], ◌∷◌, Bytes, codes, starts_with, beq,
}
use dkim.Error.{ok}
use dkim.Externals.{KeepsMatches, ParsedMail}
use dkim.Hash.Prepend.{names_of}
use dkim.Hash.Transit.{SameLines}
use dkim.Sign.Steps.{names_text}
use dkim.Sign.Transit.{value_of, canonical_body, received-email_passes}
use dkim.Tests.Crates.{ascii}
use dkim.Header.{DkimHeader, header_name, get_required_tag}
use dkim.PublicKey.{Lookup, retrieve_public_key}
use dkim.Sign.Delivered.{with_line}
use dkim.Sign.Passes.{
  SignsOnce, LeavesSignatures, own_pass, signed_email_passes, signed_email_passes_resolver,
}
use dkim.Sign.{sign}
use dkim.Tests.Program.{program}
use dkim.Tests.Combinators.{combinators}
use dkim.Error.Laws.{ok-injective}
use dkim.Canonicalization.{crlf, simple, relaxed}
use dkim.Sign.Verifies.{IsOnce}
use dkim.Tests.Unary.{unary_crates, unary_crypto, decode-encode, encode_visible}
use dkim.Tests.Signed.{
  signer, email, key, signature_text, signer_writable, key_pair, header, header_signed, b_value,
  signature-IsOnce,
}
use dkim.Verify.{verify_email_with_key, verify_email_with_resolver, same_domain}

keeps_matches : KeepsMatches (unary_crates.mailparse)
keeps_matches h hs name e = rw e

leaves : LeavesSignatures unary_crates signer
unfolding dkim.Str.join dkim.Str.to_ascii_lowercase dkim.Str.ascii_lower
    dkim.Str.eq_ignore_ascii_case dkim.Str.split dkim.Str.trim dkim.Str.trim_start dkim.Str.trim_end
    dkim.Str.strip dkim.Str.space_width dkim.Str.space_width_back beq
leaves = (refl, tt)

signs_once : SignsOnce unary_crates signer 0 email
signs_once h b made e =
    let is = ok-injective (sym header_signed ∙ made) in
    let b_is =
      ok-injective (sym b_value ∙ ap (λ (h : DkimHeader). get_required_tag h (codes "b")) is ∙ e) in
    subst (λ t. IsOnce t h.raw_bytes) b_is
      (subst (λ (h : DkimHeader). IsOnce signature_text h.raw_bytes) is signature-IsOnce)

head_ok : starts_with email.raw_bytes crlf ≡ false
unfolding starts_with
head_ok = refl

domain_same : same_domain unary_crates (λ i. 0) (codes "b.c") (codes "B.C") ≡ true
unfolding dkim.Str.to_ascii_lowercase dkim.Str.ascii_lower beq
domain_same = refl

abbrev line : Bytes
line = header_name ++ (codes ": " ++ header.raw_bytes)

line_signed : sign unary_crates signer 0 email ≡ ok line
unfolding sign
line_signed = rw (header_signed, sign)

signed_email_passes_example :
    verify_email_with_key unary_crates (λ i. 0) (codes "B.C") (with_line line email) key
    ≡ ok (own_pass unary_crates signer)
signed_email_passes_example =
    signed_email_passes unary_crates signer key key_pair signer_writable
      (λ text. ap inr (decode-encode text)) encode_visible keeps_matches 0 email signs_once leaves
      head_ok (λ i. 0) (codes "B.C") domain_same line line_signed

abbrev records : Lookup
records name = ok (codes "v=DKIM1; k=rsa; p=" ∷ [])

key_retrieved :
    retrieve_public_key unary_crypto combinators records (codes "b.c") (codes "k") ≡ ok key
unfolding program
key_retrieved = refl

signed_email_passes_resolver_example :
    verify_email_with_resolver unary_crates (λ i. 0) (codes "B.C") (with_line line email) records
    ≡ ok (own_pass unary_crates signer)
signed_email_passes_resolver_example =
    signed_email_passes_resolver unary_crates signer key key_pair signer_writable
      (λ text. ap inr (decode-encode text)) encode_visible keeps_matches 0 email signs_once leaves
      head_ok (λ i. 0) (codes "B.C") domain_same records line key_retrieved line_signed

-- The signed email with another header on top, more white space in its body and empty lines at its
-- end.
abbrev received : ParsedMail
received = record {
  raw_bytes = codes "X: 1\r\n" ++ (line ++ codes "\r\nFrom: a@b.c\r\n\r\nhi \t\r\n\r\n");
  headers =
      record { key = codes "X"; value_raw = codes "1" }
      ∷ record { key = codes "dkim-signature"; value_raw = value_of line }
      ∷ record { key = codes "From"; value_raw = codes "a@b.c" }
      ∷ [];
}

same_body : canonical_body relaxed email ≡ canonical_body relaxed received
unfolding program
same_body = refl

same_lines :
    SameLines ascii simple email.headers received.headers
      (names_of (names_text unary_crates signer))
unfolding program
same_lines = (refl, tt)

signature_found :
    unary_crates.mailparse.get_all_headers received.headers header_name
    ≡ record { key = codes "dkim-signature"; value_raw = value_of line } ∷ []
unfolding program
signature_found = refl

received-email_passes_example :
    verify_email_with_key unary_crates (λ i. 0) (codes "B.C") received key
    ≡ ok (own_pass unary_crates signer)
received-email_passes_example =
    received-email_passes unary_crates signer key key_pair signer_writable
      (λ text. ap inr (decode-encode text)) encode_visible 0 email signs_once received same_body
      same_lines (λ i. 0) (codes "B.C") domain_same line (codes "dkim-signature") [] line_signed
      signature_found
