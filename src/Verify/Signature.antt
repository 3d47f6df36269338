-- ===== src/Verify/Signature.antt =====
-- What stands behind a signature that src/lib.rs accepts.
use dkim.Prelude.{◌≡◌, ◌↔◌, ap, subst, ◌∙◌, true, inr, Bytes, codes, beq_iff, arith}
use dkim.Error.Laws.{bind-eq-ok, guard-eq-ok, ok-injective}
use dkim.Error.{ok}
use dkim.Externals.{Crypto, ParsedMail}
use dkim.Hash.{compute_body_hash, compute_headers_hash}
use dkim.Header.{DkimHeader, get_tag, get_required_tag}
use dkim.Map.{beq_refl}
use dkim.Parser.{HashAlgo, parse_canonicalization, parse_hash_algo}
use dkim.PublicKey.{DkimPublicKey}
use dkim.Str.{Unicode}
use dkim.Verify.{Types, verify_signature, verify_with_key, decode_signature}

module _ (crypto : Crypto) (unicode : Unicode) where
  -- The body's hash is the one in `bh=`, and the key verifies the signature in `b=` over the hash of
  -- the signed headers.
  pub record Verified (header : DkimHeader) (email : ParsedMail) (key : DkimPublicKey crypto)
      (types : Types) : Type 0 where
    pub hash_algo : HashAlgo
    pub algo_text : Bytes
    pub body_hash : Bytes
    pub signed_headers : Bytes
    pub headers_hash : Bytes
    pub signature_text : Bytes
    pub signature : Bytes
    pub types_are : parse_canonicalization (get_tag header (codes "c")) ≡ ok types
    pub algo_tag : get_required_tag header (codes "a") ≡ ok algo_text
    pub algo_is : parse_hash_algo algo_text ≡ ok hash_algo
    pub body_hashed :
        compute_body_hash crypto types.1 (get_tag header (codes "l")) hash_algo email ≡ ok body_hash
    pub body_matches : get_required_tag header (codes "bh") ≡ ok body_hash
    pub names : get_required_tag header (codes "h") ≡ ok signed_headers
    pub headers_hashed :
        compute_headers_hash crypto unicode types.0 signed_headers hash_algo header email
        ≡ ok headers_hash
    pub signature_tag : get_required_tag header (codes "b") ≡ ok signature_text
    pub decoded : crypto.base64_decode signature_text ≡ inr signature
    pub signed : verify_signature crypto hash_algo headers_hash signature key ≡ ok true

  decode-eq-ok :
      (text : Bytes) {s : Bytes}
      → decode_signature crypto unicode text ≡ ok s
      → crypto.base64_decode text ≡ inr s
  unfolding decode_signature
  decode-eq-ok text h = ground arith

  -- If a signature is accepted with a key, the body's hash is the one in bh=, computed by the
  -- algorithm in a=, the canonicalization in c= and the length in l=, and the key verifies the
  -- decoded b= over the hash of the headers named in h=.
  pub verify_with_key_sound :
      (header : DkimHeader) (email : ParsedMail) (key : DkimPublicKey crypto) {types : Types}
      → verify_with_key crypto unicode header email key ≡ ok types
      → Verified header email key types
  unfolding verify_with_key
  verify_with_key_sound header email key {types} h =
      let (types', t, h1) = bind-eq-ok _ _ h in
      let (algo_text, at, h2) = bind-eq-ok _ _ h1 in
      let (algo, al, h3) = bind-eq-ok _ _ h2 in
      let (body, bo, h4) = bind-eq-ok _ _ h3 in
      let (names, na, h5) = bind-eq-ok _ _ h4 in
      let (headers, hs, h6) = bind-eq-ok _ _ h5 in
      let (body_tag, bt, h7) = bind-eq-ok _ _ h6 in
      let (_, same, h8) = bind-eq-ok _ _ h7 in
      let (text, te, h9) = bind-eq-ok _ _ h8 in
      let (signature, si, h10) = bind-eq-ok _ _ h9 in
      let (verified, ve, h11) = bind-eq-ok _ _ h10 in
      let (_, gu, last) = bind-eq-ok _ _ h11 in
      ap_types (ok-injective last) (record {
        hash_algo = algo;
        algo_text = algo_text;
        body_hash = body;
        signed_headers = names;
        headers_hash = headers;
        signature_text = text;
        signature = signature;
        types_are = t;
        algo_tag = at;
        algo_is = al;
        body_hashed = bo;
        body_matches = bt ∙ ap ok ((beq_iff body_tag body).0 (guard-eq-ok _ _ same));
        names = na;
        headers_hashed = hs;
        signature_tag = te;
        decoded = decode-eq-ok text si;
        signed = ve ∙ ap ok (guard-eq-ok verified _ gu);
      })
    where
      ap_types : {a b : Types} → a ≡ b → Verified header email key a → Verified header email key b
      ap_types e v = subst (Verified header email key) e v

  -- A signature behind which all of that stands is accepted.
  pub verify_with_key_complete :
      (header : DkimHeader) (email : ParsedMail) (key : DkimPublicKey crypto) {types : Types}
      → Verified header email key types
      → verify_with_key crypto unicode header email key ≡ ok types
  unfolding verify_with_key decode_signature
  verify_with_key_complete header email key v = rw (
    v.types_are,
    verify_with_key,
    v.algo_tag,
    v.algo_is,
    v.body_hashed,
    v.names,
    v.headers_hashed,
    v.body_matches,
    beq_refl v.body_hash,
    v.signature_tag,
    v.decoded,
    decode_signature,
    v.signed,
  )

  -- A signature is accepted with a key exactly if the body's hash is the one in bh=, computed by
  -- the algorithm in a=, the canonicalization in c= and the length in l=, and the key verifies the
  -- decoded b= over the hash of the headers named in h=.
  pub verify_with_key_iff :
      (header : DkimHeader) (email : ParsedMail) (key : DkimPublicKey crypto) (types : Types)
      → (verify_with_key crypto unicode header email key ≡ ok types)
        ↔ Verified header email key types
  verify_with_key_iff header email key types =
      (verify_with_key_sound header email key, verify_with_key_complete header email key)
