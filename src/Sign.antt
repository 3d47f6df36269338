-- ===== src/Sign.antt =====
-- src/sign.rs: the signer and its builder. Of a logger only the presence matters.
pub mod From
pub mod Laws
pub mod Built
pub mod Steps
pub mod Erase
pub mod Verifies
pub mod Accepted
pub mod Delivered
pub mod Passes
pub mod Transit
pub mod Reach
use dkim.Prelude.{
  ℕ, Bool, true, false, List, [], ◌∷◌, ◌++◌, ◌⊎◌, inl, inr, Option, none, some, Bytes, codes, beq,
  if◌then◌else◌,
}
use dkim.Canonicalization.{CanonicalizationType, simple, to_string}
use dkim.Error.{
  Outcome, ok, err, ◌>>=◌, ok_or, builder_error, failed_to_sign, unsupported_hash_algorithm,
}
use dkim.Externals.{Crypto, Chrono, Digest, sha1, sha256, ParsedMail, Platform}
use dkim.Hash
use dkim.Header.{
  DkimHeader, DkimHeaderBuilder, header_name, get_required_tag, new, add_tag, set_signed_headers,
  set_expiry, set_time, build as build_header,
}
use dkim.Parser.{HashAlgo, rsa_sha1, rsa_sha256, ed25519_sha256}
use dkim.Str.{Unicode}

module _ (crypto : Crypto) where
  pub data DkimPrivateKey : Type 0 where
    rsa : crypto.RsaPrivateKey → DkimPrivateKey
    ed25519 : crypto.SigningKey → DkimPrivateKey

module _ (p : Platform) where
  pub record SignerBuilder : Type 0 where
    pub signed_headers : Option (List Bytes)
    pub private_key : Option (DkimPrivateKey p.crypto)
    pub selector : Option Bytes
    pub signing_domain : Option Bytes
    pub time : Option p.chrono.Time
    pub header_canonicalization : CanonicalizationType
    pub body_canonicalization : CanonicalizationType
    pub logger : Option (Unit {0})
    pub expiry : Option p.chrono.Duration

  pub record DkimSigner : Type 0 where
    pub signed_headers : List Bytes
    pub private_key : DkimPrivateKey p.crypto
    pub selector : Bytes
    pub signing_domain : Bytes
    pub header_canonicalization : CanonicalizationType
    pub body_canonicalization : CanonicalizationType
    pub logger : Unit {0}
    pub expiry : Option p.chrono.Duration
    pub hash_algo : HashAlgo
    pub time : Option p.chrono.Time

  abbrev pub new_signer : SignerBuilder
  new_signer = record {
    signed_headers = none;
    private_key = none;
    selector = none;
    signing_domain = none;
    time = none;
    header_canonicalization = simple;
    body_canonicalization = simple;
    logger = none;
    expiry = none;
  }

  -- `SignerBuilder::default`
  abbrev pub default : SignerBuilder
  default = new_signer

  unfoldable pub names_from : List Bytes → Bool
  names_from [] = false
  names_from (h ∷ headers) =
      if beq (p.unicode.to_lowercase h) (codes "from") then true else names_from headers

  unfoldable pub with_signed_headers : List Bytes → SignerBuilder → Outcome SignerBuilder
  with_signed_headers headers builder =
      if names_from headers
      then ok (record builder { signed_headers = some headers })
      else err (builder_error (codes "missing From in signed headers"))

  unfoldable pub with_private_key : DkimPrivateKey p.crypto → SignerBuilder → SignerBuilder
  with_private_key key builder = record builder { private_key = some key }

  unfoldable pub with_selector : Bytes → SignerBuilder → SignerBuilder
  with_selector value builder = record builder { selector = some value }

  unfoldable pub with_signing_domain : Bytes → SignerBuilder → SignerBuilder
  with_signing_domain value builder = record builder { signing_domain = some value }

  unfoldable pub with_header_canonicalization : CanonicalizationType → SignerBuilder → SignerBuilder
  with_header_canonicalization value builder = record builder { header_canonicalization = value }

  unfoldable pub with_body_canonicalization : CanonicalizationType → SignerBuilder → SignerBuilder
  with_body_canonicalization value builder = record builder { body_canonicalization = value }

  unfoldable pub with_logger : Unit {0} → SignerBuilder → SignerBuilder
  with_logger logger builder = record builder { logger = some logger }

  unfoldable pub with_time : p.chrono.Time → SignerBuilder → SignerBuilder
  with_time value builder = record builder { time = some value }

  unfoldable pub with_expiry : p.chrono.Duration → SignerBuilder → SignerBuilder
  with_expiry value builder = record builder { expiry = some value }

  unfoldable pub algo_of : DkimPrivateKey p.crypto → HashAlgo
  algo_of (rsa _) = rsa_sha256
  algo_of (ed25519 _) = ed25519_sha256

  unfoldable pub build : SignerBuilder → Outcome DkimSigner
  build builder = do
    private_key ← ok_or (builder_error (codes "missing required private key")) builder.private_key
    let hash_algo = algo_of private_key
    signed_headers ←
        ok_or (builder_error (codes "missing required signed headers")) builder.signed_headers
    selector ← ok_or (builder_error (codes "missing required selector")) builder.selector
    logger ← ok_or (builder_error (codes "missing required logger")) builder.logger
    signing_domain ← ok_or (builder_error (codes "missing required logger")) builder.signing_domain
    ok (record {
      signed_headers = signed_headers;
      private_key = private_key;
      selector = selector;
      signing_domain = signing_domain;
      header_canonicalization = builder.header_canonicalization;
      body_canonicalization = builder.body_canonicalization;
      logger = logger;
      expiry = builder.expiry;
      hash_algo = hash_algo;
      time = builder.time;
    })

  unfoldable pub algo_name : HashAlgo → Bytes
  algo_name rsa_sha1 = codes "rsa-sha1"
  algo_name rsa_sha256 = codes "rsa-sha256"
  algo_name ed25519_sha256 = codes "ed25519-sha256"

  abbrev Builder : Type 0
  Builder = DkimHeaderBuilder p.chrono

  -- The tags from `v=` to `h=`.
  unfoldable pub first_tags : DkimSigner → Bytes → Builder
  first_tags signer body_hash =
      let types =
        to_string signer.header_canonicalization
        ++ (codes "/" ++ to_string signer.body_canonicalization) in
      let b1 = add_tag p.chrono (codes "v") (codes "1") (new p.chrono) in
      let b2 = add_tag p.chrono (codes "a") (algo_name signer.hash_algo) b1 in
      let b3 = add_tag p.chrono (codes "d") signer.signing_domain b2 in
      let b4 = add_tag p.chrono (codes "s") signer.selector b3 in
      let b5 = add_tag p.chrono (codes "c") types b4 in
      let b6 = add_tag p.chrono (codes "bh") body_hash b5 in
      set_signed_headers p.chrono p.unicode signer.signed_headers b6

  unfoldable pub expiry_tag : Option p.chrono.Duration → Builder → Outcome Builder
  expiry_tag none builder = ok builder
  expiry_tag (some expiry) builder = set_expiry p.chrono expiry builder

  unfoldable pub time_tag : Option p.chrono.Time → p.chrono.Time → Builder → Builder
  time_tag (some time) now builder = set_time p.chrono time builder
  time_tag none now builder = set_time p.chrono now builder

  unfoldable pub dkim_header_builder : DkimSigner → p.chrono.Time → Bytes → Outcome Builder
  dkim_header_builder signer now body_hash = do
    builder ← expiry_tag signer.expiry (first_tags signer body_hash)
    ok (time_tag signer.time now builder)

  unfoldable pub compute_body_hash : DkimSigner → ParsedMail → Outcome Bytes
  compute_body_hash signer email =
      Hash.compute_body_hash p.crypto signer.body_canonicalization none signer.hash_algo email

  unfoldable pub compute_header_hash : DkimSigner → ParsedMail → Builder → Outcome Bytes
  compute_header_hash signer email builder = do
    dkim_header ← build_header p.chrono (add_tag p.chrono (codes "b") [] builder)
    signed_headers ← get_required_tag dkim_header (codes "h")
    Hash.compute_headers_hash p.crypto p.unicode signer.header_canonicalization signed_headers
        signer.hash_algo dkim_header email

  abbrev or_failed : Bytes ⊎ Bytes → Outcome Bytes
  or_failed (inl e) = err (failed_to_sign e)
  or_failed (inr signature) = ok signature

  unfoldable pub signature_of : DkimPrivateKey p.crypto → HashAlgo → Bytes → Outcome Bytes
  signature_of (rsa key) rsa_sha1 header_hash = or_failed (p.crypto.rsa_sign key sha1 header_hash)
  signature_of (rsa key) rsa_sha256 header_hash =
      or_failed (p.crypto.rsa_sign key sha256 header_hash)
  signature_of (rsa key) ed25519_sha256 header_hash =
      err (unsupported_hash_algorithm (codes "Ed25519Sha256"))
  signature_of (ed25519 key) _ header_hash = ok (p.crypto.signing_key_sign key header_hash)

  -- The header that `sign` writes out.
  unfoldable pub signed_header : DkimSigner → p.chrono.Time → ParsedMail → Outcome DkimHeader
  signed_header signer now email = do
    body_hash ← compute_body_hash signer email
    builder ← dkim_header_builder signer now body_hash
    header_hash ← compute_header_hash signer email builder
    signature ← signature_of signer.private_key signer.hash_algo header_hash
    build_header p.chrono (add_tag p.chrono (codes "b") (p.crypto.base64_encode signature) builder)

  unfoldable pub sign : DkimSigner → p.chrono.Time → ParsedMail → Outcome Bytes
  sign signer now email = do
    dkim_header ← signed_header signer now email
    ok (header_name ++ (codes ": " ++ dkim_header.raw_bytes))
