-- ===== src/Sign/Delivered.antt =====
-- An email with the line that src/sign.rs writes put on top, verified by src/lib.rs.
use dkim.Prelude.{
  ℕ, ◌≡◌, refl, sym, ap, subst, ◌∙◌, true, false, [], ◌∷◌, ◌++◌, inr, Bytes, codes, beq, drop,
  starts_with, length,
}
use dkim.Bytes.Skip.{get_all_after-cons, get_all_after-skip}
use dkim.Canonicalization.{blank_line, crlf}
use dkim.DkimResult.{pass}
use dkim.Error.Laws.{ok-injective}
use dkim.Error.{ok, ◌>>=◌}
use dkim.Parser.{parse_canonicalization}
use dkim.Externals.{KeepsMatches, MailHeader, ParsedMail, Platform}
use dkim.Hash.Prepend.{names_of, select_headers_on_top}
use dkim.Hash.{truncate_to, canonicalize_body, signed_lines, get_body, select_headers}
use dkim.Header.Line.{is_line, printed_in_line, line-IsAscii, line-Lacks, AllPass-append}
use dkim.Header.Print.{tags_of, serialize-printed}
use dkim.Header.{DkimHeader, header_name, get_tag, get_required_tag}
use dkim.Map.{get}
use dkim.Nom.Scan.{AllPass, all_pass-AllPass}
use dkim.PublicKey.{DkimPublicKey, Lookup, retrieve_public_key}
use dkim.Sign.Accepted.{Visible, IsWritable, Signed-IsPlain, signed_header_verifies}
use dkim.Sign.Steps.{names_text, signed_header-Signed, signed_tags}
use dkim.Sign.Verifies.{IsKeyPair, IsOnce}
use dkim.Sign.{DkimSigner, signed_header}
use dkim.Str.Split.{Lacks}
use dkim.Str.{All, eq_ignore_ascii_case}
use dkim.Validate.{validate_header}
use dkim.Verify.Email.{verify_email_with_key_first, verify_email_with_resolver_complete}
use dkim.Verify.Same.{signed_body, signed_part, hashed_body, bind_same, verify_with_key-Same}
use dkim.Verify.{
  Types, verify_with_key, verify_email_header, verify_email_with_key, verify_email_with_resolver,
  validated, same_domain,
}

-- The email with a line on top, as mailparse reads it: the first header is what the line says.
abbrev pub with_line : Bytes → ParsedMail → ParsedMail
with_line line email = record {
  raw_bytes = line ++ (crlf ++ email.raw_bytes);
  headers =
      record { key = header_name; value_raw = drop (length (header_name ++ codes ": ")) line }
      ∷ email.headers;
}

-- The body is the one of the email, if the line holds no carriage return and the email does not
-- start with its body.
with_line-get_body :
    (line : Bytes) (email : ParsedMail)
    → Lacks b'\r' line
    → starts_with email.raw_bytes crlf ≡ false
    → get_body (with_line line email) ≡ get_body email
unfolding get_body starts_with
with_line-get_body line email lacks head = ap ok (
    get_all_after-skip line (crlf ++ email.raw_bytes) b'\r' (b'\n' ∷ crlf) lacks
    ∙ get_all_after-cons b'\r' (b'\n' ∷ email.raw_bytes) blank_line head
    ∙ get_all_after-cons b'\n' email.raw_bytes blank_line refl)

module _ (p : Platform) (signer : DkimSigner p) where
  pub raw_in_line :
      (now : p.chrono.Time) (email : ParsedMail) (header : DkimHeader)
      → signed_header p signer now email ≡ ok header
      → IsWritable p signer
      → ((text : Bytes) → Visible (p.crypto.base64_encode text))
      → AllPass is_line header.raw_bytes
  raw_in_line now email header h w visible =
      let s = signed_header-Signed p signer now email header h in
      let tags =
        signed_tags p signer s.body_hash s.time_text (p.crypto.base64_encode s.signature) in
      subst (λ (h : DkimHeader). AllPass is_line h.raw_bytes) (sym s.header_is)
        (subst (AllPass is_line)
          (sym (
            serialize-printed tags
              (refl, (refl, (refl, (refl, (refl, (refl, (refl, (refl, (refl, tt)))))))))))
          (printed_in_line (tags_of tags) (Signed-IsPlain p signer now email header s w visible)))

  abbrev types : Types
  types = (signer.header_canonicalization, signer.body_canonicalization)

  pub tags_read :
      (now : p.chrono.Time) (email : ParsedMail) (header : DkimHeader)
      → signed_header p signer now email ≡ ok header
      → (get_required_tag header (codes "d") ≡ ok signer.signing_domain)
        × (get_required_tag header (codes "s") ≡ ok signer.selector)
        × (get_required_tag header (codes "h") ≡ ok (names_text p signer))
  unfolding get_required_tag get beq
  tags_read now email header h =
      let s = signed_header-Signed p signer now email header h in
      (
        ap (λ h. get_required_tag h (codes "d")) s.header_is,
        ap (λ h. get_required_tag h (codes "s")) s.header_is,
        ap (λ h. get_required_tag h (codes "h")) s.header_is,
      )

  -- What the signer is given, and what the crates are taken to do.
  module _ (w : IsWritable p signer)
      (base64 : (text : Bytes) → p.crypto.base64_decode (p.crypto.base64_encode text) ≡ inr text)
      (visible : (text : Bytes) → Visible (p.crypto.base64_encode text))
      (mails : KeepsMatches p.mailparse) (key : DkimPublicKey p.crypto)
      (pair : IsKeyPair p signer key) (now : p.chrono.Time) (email : ParsedMail)
      (header : DkimHeader) (made : signed_header p signer now email ≡ ok header)
      (once : (b : Bytes) → get_required_tag header (codes "b") ≡ ok b → IsOnce b header.raw_bytes)
      (unsigned : All
        (λ name. eq_ignore_ascii_case header_name name ≡ false)
        (names_of (names_text p signer)))
      (head : starts_with email.raw_bytes crlf ≡ false) where
    abbrev line : Bytes
    line = header_name ++ (codes ": " ++ header.raw_bytes)

    line-Lacks_cr : Lacks b'\r' line
    line-Lacks_cr = line-Lacks line (
        AllPass-append is_line (codes "DKIM-Signature: ") header.raw_bytes
          (all_pass-AllPass is_line (codes "DKIM-Signature: ") refl)
          (raw_in_line now email header made w visible))

    abbrev delivered : ParsedMail
    delivered = with_line line email

    abbrev top : MailHeader
    top = record { key = header_name; value_raw = header.raw_bytes }

    body_kept : signed_body header email ≡ signed_body header delivered
    unfolding signed_body hashed_body
    body_kept =
        ap
          (λ m. parse_canonicalization (get_tag header (codes "c")) >>= λ types.
            m >>= λ body. truncate_to (get_tag header (codes "l")) (canonicalize_body types.1 body))
          (sym (with_line-get_body line email line-Lacks_cr head))

    lines_kept : signed_part p.unicode header email ≡ signed_part p.unicode header delivered
    unfolding signed_part
    lines_kept = bind_same (parse_canonicalization (get_tag header (codes "c"))) _ _ (λ types _.
        bind_same (get_required_tag header (codes "h")) _ _ (λ names e.
          let is = ok-injective (sym e ∙ (tags_read now email header made).2) in
          ap (λ hs. ok (signed_lines p.unicode types.0 hs))
            (subst (λ n. select_headers n email ≡ select_headers n delivered) (sym is)
              (sym
                (select_headers_on_top top (names_text p signer) email delivered refl unsigned)))))

    top-validated : (clock : ℕ → p.chrono.Time) → validated p clock 0 top ≡ ok header
    top-validated clock =
        let ascii = line-IsAscii header.raw_bytes (raw_in_line now email header made w visible) in
        ap (validate_header p.nom p.unicode p.chrono (clock 0))
          (p.unicode.from_utf8_lossy_ascii header.raw_bytes ascii)
        ∙ (signed_header_verifies p signer now (clock 0) email key header made w base64 visible pair
            once).0

    verified : verify_with_key p.crypto p.unicode header delivered key ≡ ok types
    verified =
        sym (
          verify_with_key-Same p.crypto p.unicode header email delivered key
            (body_kept, lines_kept))
        ∙ (signed_header_verifies p signer now now email key header made w base64 visible pair
            once).1

    header_name_matches : eq_ignore_ascii_case header_name header_name ≡ true
    unfolding eq_ignore_ascii_case
    header_name_matches = refl

    found :
        p.mailparse.get_all_headers delivered.headers header_name
        ≡ [] ++ (top ∷ p.mailparse.get_all_headers email.headers header_name)
    found = mails top email.headers header_name header_name_matches

    module _ (clock : ℕ → p.chrono.Time) (from_domain : Bytes)
        (same : same_domain p clock signer.signing_domain from_domain ≡ true) where
      pub header_passes :
          verify_email_with_key p clock from_domain delivered key
          ≡ ok (
              pass signer.signing_domain signer.header_canonicalization
                signer.body_canonicalization)
      header_passes =
          verify_email_with_key_first p clock from_domain delivered key [] _ top header
            signer.signing_domain found tt (top-validated clock) (tags_read now email header made).0
            same
          ∙ rw verified

      header_verified :
          (resolver : Lookup)
          → retrieve_public_key p.crypto p.nom resolver signer.signing_domain signer.selector
            ≡ ok key
          → verify_email_header p clock resolver header delivered ≡ ok types
      unfolding verify_email_header
      header_verified resolver retrieved =
          let (domain, selector, _) = tags_read now email header made in
          rw (domain, verify_email_header, selector, retrieved, verified)

      pub header_passes_resolver :
          (resolver : Lookup)
          → retrieve_public_key p.crypto p.nom resolver signer.signing_domain signer.selector
            ≡ ok key
          → verify_email_with_resolver p clock from_domain delivered resolver
            ≡ ok (
                pass signer.signing_domain signer.header_canonicalization
                  signer.body_canonicalization)
      header_passes_resolver resolver retrieved =
          verify_email_with_resolver_complete p clock from_domain delivered resolver _ (
            [],
            top,
            _,
            found,
            tt,
            record {
              header = header;
              domain = signer.signing_domain;
              types = types;
              valid = top-validated clock;
              domain_is = (tags_read now email header made).0;
              domain_same = same;
              verified = header_verified resolver retrieved;
              result_is = refl;
            },
          )
