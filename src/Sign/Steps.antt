-- ===== src/Sign/Steps.antt =====
-- The header that `DKIMSigner::sign` of src/sign.rs builds, tag by tag.
use dkim.Prelude.{
  ◌≡◌, ◌≢◌, refl, sym, ap, subst, ◌∙◌, Option, none, some, Option-cases, List, [], ◌∷◌, ◌++◌, map,
  ◌⊎◌, inl, inr, Bytes, codes,
}
use dkim.Canonicalization.{to_string}
use dkim.Error.Laws.{bind-eq-ok, ok-injective}
use dkim.Error.{DkimError, ok, err}
use dkim.Externals.{ParsedMail, Platform}
use dkim.Hash
use dkim.Header.{
  DkimHeader, DkimHeaderBuilder, TagMap, add_tag, set_signed_headers, set_time, serialize,
  build as build_header, get_required_tag,
}
use dkim.Map.{insert, get}
use dkim.Parser.{Tag}
use dkim.Sign.Laws.{signed_header_with_expiry}
use dkim.Sign.{
  DkimSigner, signed_header, compute_body_hash, compute_header_hash, dkim_header_builder,
  first_tags, expiry_tag, time_tag, signature_of, algo_name,
}
use dkim.Str.Decimal.{int_to_string}
use dkim.Str.{join}

abbrev pub entry : Bytes → Bytes → Bytes × Tag
entry name value = (name, record { name = name; value = value; raw_value = value })

module _ (p : Platform) (signer : DkimSigner p) where
  abbrev pub types_text : Bytes
  types_text =
      to_string signer.header_canonicalization
      ++ (codes "/" ++ to_string signer.body_canonicalization)

  abbrev pub names_text : Bytes
  names_text = join b':' (map p.unicode.to_lowercase signer.signed_headers)

  -- The tags before `b=`, and all of them.
  abbrev pub tags_before : Bytes → Bytes → TagMap
  tags_before body_hash time_text =
      entry (codes "v") (codes "1")
      ∷ entry (codes "a") (algo_name p signer.hash_algo)
      ∷ entry (codes "d") signer.signing_domain
      ∷ entry (codes "s") signer.selector
      ∷ entry (codes "c") types_text
      ∷ entry (codes "bh") body_hash
      ∷ entry (codes "h") names_text
      ∷ entry (codes "t") time_text
      ∷ []

  abbrev pub signed_tags : Bytes → Bytes → Bytes → TagMap
  signed_tags body_hash time_text signature_text =
      tags_before body_hash time_text ++ entry (codes "b") signature_text ∷ []

  abbrev pub header_of : Bytes → Bytes → Bytes → DkimHeader
  header_of body_hash time_text signature_text = record {
    tags = signed_tags body_hash time_text signature_text;
    raw_bytes = serialize (signed_tags body_hash time_text signature_text);
  }

  abbrev pub time_text_of : Option p.chrono.Time → p.chrono.Time → Bytes
  time_text_of (some time) now = int_to_string (p.chrono.timestamp time)
  time_text_of none now = int_to_string (p.chrono.timestamp now)

  built_lem :
      (time : Option p.chrono.Time) (now : p.chrono.Time) (body_hash b : Bytes)
      → build_header p.chrono
          (add_tag p.chrono (codes "b") b (time_tag p time now (first_tags p signer body_hash)))
        ≡ ok (header_of body_hash (time_text_of time now) b)
  unfolding build_header add_tag set_time time_tag first_tags set_signed_headers insert
      dkim.Prelude.beq
  built_lem (some time) now body_hash b = refl
  built_lem none now body_hash b = refl

  err-ne-ok : {e : DkimError} {b : DkimHeader} → err e ≢ ok b
  err-ne-ok h = cc

  no_expiry :
      (now : p.chrono.Time) (email : ParsedMail) (header : DkimHeader)
      → signed_header p signer now email ≡ ok header
      → signer.expiry ≡ none
  no_expiry now email header h = elim (Option-cases signer.expiry) [
    | inl e ↦ e
    | inr (expiry, e) ↦
        absurd (err-ne-ok (sym (signed_header_with_expiry p signer now email expiry e) ∙ h))
  ]

  builder_lem :
      (now : p.chrono.Time) (body_hash : Bytes) (builder : DkimHeaderBuilder p.chrono)
      → signer.expiry ≡ none
      → dkim_header_builder p signer now body_hash ≡ ok builder
      → builder ≡ time_tag p signer.time now (first_tags p signer body_hash)
  unfolding dkim_header_builder expiry_tag first_tags
  builder_lem now body_hash builder e h = sym (ok-injective (rw (e, dkim_header_builder) at h))

  header_hash_lem :
      (now : p.chrono.Time) (email : ParsedMail) (body_hash : Bytes)
      → compute_header_hash p signer email
          (time_tag p signer.time now (first_tags p signer body_hash))
        ≡ Hash.compute_headers_hash p.crypto p.unicode signer.header_canonicalization names_text
            signer.hash_algo
            (header_of body_hash (time_text_of signer.time now) [])
            email
  unfolding compute_header_hash get_required_tag get dkim.Prelude.beq
  header_hash_lem now email body_hash =
      rw (built_lem signer.time now body_hash [], compute_header_hash)

  -- What the steps of a successful signature computed.
  pub record Signed (now : p.chrono.Time) (email : ParsedMail) (header : DkimHeader) : Type 0 where
    pub body_hash : Bytes
    pub time_text : Bytes
    pub header_hash : Bytes
    pub signature : Bytes
    pub time_is : time_text ≡ time_text_of signer.time now
    pub body_hashed :
        Hash.compute_body_hash p.crypto signer.body_canonicalization none signer.hash_algo email
        ≡ ok body_hash
    pub headers_hashed :
        Hash.compute_headers_hash p.crypto p.unicode signer.header_canonicalization names_text
          signer.hash_algo
          (header_of body_hash time_text [])
          email
        ≡ ok header_hash
    pub signed : signature_of p signer.private_key signer.hash_algo header_hash ≡ ok signature
    pub header_is : header ≡ header_of body_hash time_text (p.crypto.base64_encode signature)

  pub signed_header-Signed :
      (now : p.chrono.Time) (email : ParsedMail) (header : DkimHeader)
      → signed_header p signer now email ≡ ok header
      → Signed now email header
  unfolding signed_header compute_body_hash
  signed_header-Signed now email header h =
      let (body_hash, b, h1) = bind-eq-ok (compute_body_hash p signer email) _ h in
      let (builder, d, h2) = bind-eq-ok (dkim_header_builder p signer now body_hash) _ h1 in
      let (header_hash, e, h3) = bind-eq-ok (compute_header_hash p signer email builder) _ h2 in
      let (signature, s, built) =
        bind-eq-ok (signature_of p signer.private_key signer.hash_algo header_hash) _ h3 in
      let is = builder_lem now body_hash builder (no_expiry now email header h) d in
      let b_text = p.crypto.base64_encode signature in
      record {
        body_hash = body_hash;
        time_text = time_text_of signer.time now;
        header_hash = header_hash;
        signature = signature;
        time_is = refl;
        body_hashed = b;
        headers_hashed =
            sym (header_hash_lem now email body_hash)
            ∙ ap (compute_header_hash p signer email) (sym is)
            ∙ e;
        signed = s;
        header_is = ok-injective (
            sym built
            ∙ ap (λ b. build_header p.chrono (add_tag p.chrono (codes "b") b_text b)) is
            ∙ built_lem signer.time now body_hash b_text);
      }
