-- ===== src/Sign/Accepted.antt =====
-- A header that src/sign.rs signs, read and validated by `validate_header` of src/lib.rs.
use dkim.Prelude.{
  ℕ, true, ◌≡◌, ◌≢◌, refl, sym, ap, subst, ◌∙◌, [], ◌∷◌, ◌++◌, map, inr, Option, none, some, Bytes,
  codes, beq,
}
use dkim.Canonicalization.{CanonicalizationType, simple, relaxed, to_string}
use dkim.Error.Laws.{ok-injective}
use dkim.Error.{ok}
use dkim.Externals.{ParsedMail, Platform}
use dkim.Hash.{compute_body_hash, get_body, truncate_to}
use dkim.Header.Print.{tags_of, serialize-printed}
use dkim.Header.{DkimHeader, get_tag, get_required_tag}
use dkim.Map.{get, insert}
use dkim.Nom.Scan.{AllPass, all_pass-AllPass}
use dkim.Nom.{done}
use dkim.Parser.RoundTrip.{IsPlain, tag_list-printed}
use dkim.Parser.{is_valchar, tag_list, HashAlgo, rsa_sha1, rsa_sha256, ed25519_sha256}
use dkim.PublicKey.{DkimPublicKey}
use dkim.Sign.From.{contains_lower, names_from-ne-nil}
use dkim.Sign.Steps.{
  entry, header_of, signed_tags, names_text, time_text_of, Signed, signed_header-Signed,
}
use dkim.Sign.Verifies.{IsKeyPair, IsOnce, Signed-verifies}
use dkim.Sign.{DkimSigner, signed_header, algo_name, names_from}
use dkim.Str.Digits.{int_to_string_visible}
use dkim.Str.Split.{Lacks, split-join}
use dkim.Str.{All}
use dkim.Validate.{
  validate_header, parse_tags, check_required, contains, tags_map, check_version, check_domain,
  check_from, check_query, check_expiry,
}
use dkim.Verify.{verify_with_key}

abbrev pub Visible : Bytes → Type 0
Visible = AllPass is_valchar

entry-IsPlain :
    (name value : Bytes)
    → name ≢ []
    → AllPass dkim.Nom.Scan.is_alpha name
    → Visible value
    → IsPlain ((entry name value).1)
entry-IsPlain name value ne alpha visible = record {
  name_ne_nil = ne;
  name_alpha = alpha;
  value_visible = visible;
  raw_is_value = refl;
}

cons-ne-nil : {c : ℕ} {s : Bytes} → c ∷ s ≢ []
cons-ne-nil h = cc

module _ (p : Platform) (signer : DkimSigner p) where
  algo-Visible : (algo : HashAlgo) → Visible (algo_name p algo)
  unfolding algo_name
  algo-Visible rsa_sha1 = all_pass-AllPass is_valchar (algo_name p rsa_sha1) refl
  algo-Visible rsa_sha256 = all_pass-AllPass is_valchar (algo_name p rsa_sha256) refl
  algo-Visible ed25519_sha256 = all_pass-AllPass is_valchar (algo_name p ed25519_sha256) refl

  types-Visible : (h b : CanonicalizationType) → Visible (to_string h ++ (codes "/" ++ to_string b))
  unfolding to_string
  types-Visible simple simple = all_pass-AllPass is_valchar (codes "simple/simple") refl
  types-Visible simple relaxed = all_pass-AllPass is_valchar (codes "simple/relaxed") refl
  types-Visible relaxed simple = all_pass-AllPass is_valchar (codes "relaxed/simple") refl
  types-Visible relaxed relaxed = all_pass-AllPass is_valchar (codes "relaxed/relaxed") refl

  parsed :
      (body_hash time_text b : Bytes)
      → All IsPlain (tags_of (signed_tags p signer body_hash time_text b))
      → tag_list p.nom ((header_of p signer body_hash time_text b).raw_bytes)
        ≡ done ([], tags_of (signed_tags p signer body_hash time_text b))
  parsed body_hash time_text b plain =
      ap (tag_list p.nom) (
        serialize-printed (signed_tags p signer body_hash time_text b)
          (refl, (refl, (refl, (refl, (refl, (refl, (refl, (refl, (refl, tt))))))))))
      ∙ tag_list-printed p.nom _ _ plain

  accepted :
      (body_hash time_text b : Bytes) (later : p.chrono.Time)
      → names_from p signer.signed_headers ≡ true
      → All (Lacks b':') (map p.unicode.to_lowercase signer.signed_headers)
      → All IsPlain (tags_of (signed_tags p signer body_hash time_text b))
      → validate_header p.nom p.unicode p.chrono later
          ((header_of p signer body_hash time_text b).raw_bytes)
        ≡ ok (header_of p signer body_hash time_text b)
  unfolding validate_header parse_tags check_required contains tags_map check_version check_domain
      check_from check_query check_expiry get_tag get_required_tag get insert beq
  accepted body_hash time_text b later named lacks plain = rw (
    parsed body_hash time_text b plain,
    validate_header,
    parse_tags,
    split-join b':' (map p.unicode.to_lowercase signer.signed_headers)
        (names_from-ne-nil p signer.signed_headers named) lacks,
    contains_lower p signer.signed_headers named,
  )

  -- What the signer is given can be written into tags, and From is among the signed headers.
  pub record IsWritable : Type 0 where
    pub domain_visible : Visible signer.signing_domain
    pub selector_visible : Visible signer.selector
    pub names_visible : Visible (names_text p signer)
    pub names_from_in : names_from p signer.signed_headers ≡ true
    pub no_colons : All (Lacks b':') (map p.unicode.to_lowercase signer.signed_headers)

  time-Visible :
      (time : Option p.chrono.Time) (now : p.chrono.Time) → Visible (time_text_of p signer time now)
  time-Visible (some time) now = int_to_string_visible (p.chrono.timestamp time)
  time-Visible none now = int_to_string_visible (p.chrono.timestamp now)

  body_hash-Visible :
      (email : ParsedMail) (body_hash : Bytes)
      → ((text : Bytes) → Visible (p.crypto.base64_encode text))
      → compute_body_hash p.crypto signer.body_canonicalization none signer.hash_algo email
        ≡ ok body_hash
      → Visible body_hash
  unfolding compute_body_hash get_body truncate_to
  body_hash-Visible email body_hash visible h = subst Visible (ok-injective h) (visible _)

  pub Signed-IsPlain :
      (now : p.chrono.Time) (email : ParsedMail) (header : DkimHeader)
      → (s : Signed p signer now email header) → IsWritable
      → ((text : Bytes) → Visible (p.crypto.base64_encode text))
      → All IsPlain (
          tags_of
            (signed_tags p signer s.body_hash s.time_text (p.crypto.base64_encode s.signature)))
  Signed-IsPlain now email header s w visible = (
    entry-IsPlain _ _ cons-ne-nil (refl, tt) (refl, tt),
    (
      entry-IsPlain _ _ cons-ne-nil (refl, tt) (algo-Visible signer.hash_algo),
      (
        entry-IsPlain _ _ cons-ne-nil (refl, tt) w.domain_visible,
        (
          entry-IsPlain _ _ cons-ne-nil (refl, tt) w.selector_visible,
          (
            entry-IsPlain _ _ cons-ne-nil (refl, tt)
                (types-Visible signer.header_canonicalization signer.body_canonicalization),
            (
              entry-IsPlain _ _ cons-ne-nil (refl, (refl, tt))
                  (body_hash-Visible email s.body_hash visible s.body_hashed),
              (
                entry-IsPlain _ _ cons-ne-nil (refl, tt) w.names_visible,
                (
                  entry-IsPlain _ _ cons-ne-nil (refl, tt)
                      (subst Visible (sym s.time_is) (time-Visible signer.time now)),
                  (entry-IsPlain _ _ cons-ne-nil (refl, tt) (visible s.signature), tt),
                ),
              ),
            ),
          ),
        ),
      ),
    ),
  )

  b_tag :
      (body_hash time_text b : Bytes)
      → get_required_tag (header_of p signer body_hash time_text b) (codes "b") ≡ ok b
  unfolding get_required_tag get beq
  b_tag body_hash time_text b = refl

  -- A header that the signer builds is accepted by validate_header from its text, at any time, and
  -- verifies with the key of the signer's key pair on the same email: if the domain, the selector
  -- and the header names are visible characters, From is among the names and none holds a colon,
  -- base64 decodes what it encodes and encodes to visible characters, the key verifies what the
  -- signer's key signs, and the value of b= stands nowhere else in the text.
  pub signed_header_verifies :
      (now later : p.chrono.Time) (email : ParsedMail) (key : DkimPublicKey p.crypto)
      (header : DkimHeader)
      → signed_header p signer now email ≡ ok header
      → IsWritable
      → ((text : Bytes) → p.crypto.base64_decode (p.crypto.base64_encode text) ≡ inr text)
      → ((text : Bytes) → Visible (p.crypto.base64_encode text))
      → IsKeyPair p signer key
      → ((b : Bytes) → get_required_tag header (codes "b") ≡ ok b → IsOnce b header.raw_bytes)
      → (validate_header p.nom p.unicode p.chrono later header.raw_bytes ≡ ok header)
        × (verify_with_key p.crypto p.unicode header email key
            ≡ ok (signer.header_canonicalization, signer.body_canonicalization))
  signed_header_verifies now later email key header h w base64 visible pair once =
      let s = signed_header-Signed p signer now email header h in
      let b = p.crypto.base64_encode s.signature in
      let built = header_of p signer s.body_hash s.time_text b in
      let b_is =
        ap (λ h. get_required_tag h (codes "b")) s.header_is ∙ b_tag s.body_hash s.time_text b in
      (
        subst
            (λ (h : DkimHeader). validate_header p.nom p.unicode p.chrono later h.raw_bytes ≡ ok h)
            (sym s.header_is)
            (accepted s.body_hash s.time_text b later w.names_from_in w.no_colons
              (Signed-IsPlain now email header s w visible)),
        Signed-verifies p signer now email key header s base64 pair (once b b_is),
      )
