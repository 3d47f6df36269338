-- ===== src/Sign/Verifies.antt =====
-- A header that src/sign.rs signs, verified by src/lib.rs.
use dkim.Prelude.{
  ℕ, suc, ◌+◌, ◌<◌, ◌≡◌, ◌≢◌, refl, sym, ap, subst, ◌∙◌, true, false, [], ◌∷◌, ◌++◌, inr, none,
  Bytes, length, length-append, drop, beq, starts_with, arith,
}
use dkim.Error.{ok}
use dkim.Externals.{ParsedMail, Platform}
use dkim.Hash.{compute_body_hash, compute_headers_hash, signature_line}
use dkim.Header.{DkimHeader, get_tag, get_raw_tag, get_required_tag}
use dkim.Map.{get, beq_refl}
use dkim.PublicKey.{DkimPublicKey}
use dkim.Sign.Erase.{text_before, raw_bytes_lem, erase_all-append}
use dkim.Sign.Laws.{parse_canonicalization-to_string, parse_hash_algo-algo_name}
use dkim.Sign.Steps.{header_of, names_text, Signed}
use dkim.Sign.{DkimSigner, signature_of}
use dkim.Str.{erase_all}
use dkim.Verify.{Types, verify_with_key, verify_signature, decode_signature}

-- The value of `b=` stands nowhere in the header before its last place, which a semicolon follows.
abbrev pub IsOnce : Bytes → Bytes → Type 0
IsOnce b raw =
    (b ≢ [])
    × ((j : ℕ) → suc (j + length b) < length raw → starts_with (drop j raw) b ≡ false)
    × (starts_with (b';' ∷ []) b ≡ false)

module _ (p : Platform) (signer : DkimSigner p) where
  -- The key verifies what the signer's key signs.
  abbrev pub IsKeyPair : DkimPublicKey p.crypto → Type 0
  IsKeyPair key =
      (hash signature : Bytes)
      → signature_of p signer.private_key signer.hash_algo hash ≡ ok signature
      → verify_signature p.crypto signer.hash_algo hash signature key ≡ ok true

  erased :
      (body_hash time_text b : Bytes)
      → IsOnce b ((header_of p signer body_hash time_text b).raw_bytes)
      → erase_all ((header_of p signer body_hash time_text b).raw_bytes) b
        ≡ (header_of p signer body_hash time_text []).raw_bytes
  erased body_hash time_text b (ne, once, last) =
      let front = text_before p signer body_hash time_text in
      let whole = raw_bytes_lem p signer body_hash time_text b in
      let shape : length ((header_of p signer body_hash time_text b).raw_bytes)
          ≡ suc (length front + length b) =
        omega (
          arith,
          ap (λ (l : Bytes). length l) whole,
          length-append front (b ++ b';' ∷ []),
          length-append b (b';' ∷ []),
        ) in
      ap (λ l. erase_all l b) whole
      ∙ erase_all-append front b b';' ne
          (λ j lt.
            subst (λ l. starts_with (drop j l) b ≡ false) whole (once j (omega (arith, lt, shape))))
          last
      ∙ sym (raw_bytes_lem p signer body_hash time_text [])

  erased_nil :
      (body_hash time_text : Bytes)
      → erase_all ((header_of p signer body_hash time_text []).raw_bytes) []
        ≡ (header_of p signer body_hash time_text []).raw_bytes
  unfolding erase_all
  erased_nil body_hash time_text = refl

  headers_hash_same :
      (email : ParsedMail) (body_hash time_text b : Bytes)
      → IsOnce b ((header_of p signer body_hash time_text b).raw_bytes)
      → compute_headers_hash p.crypto p.unicode signer.header_canonicalization
          (names_text p signer)
          signer.hash_algo
          (header_of p signer body_hash time_text b)
          email
        ≡ compute_headers_hash p.crypto p.unicode signer.header_canonicalization
            (names_text p signer)
            signer.hash_algo
            (header_of p signer body_hash time_text [])
            email
  unfolding compute_headers_hash signature_line get_raw_tag get beq
  headers_hash_same email body_hash time_text b once =
      rw (erased body_hash time_text b once, erased_nil body_hash time_text)

  abbrev types : Types
  types = (signer.header_canonicalization, signer.body_canonicalization)

  verifies_of :
      (email : ParsedMail) (key : DkimPublicKey p.crypto)
      (body_hash time_text b header_hash signature : Bytes)
      → compute_body_hash p.crypto signer.body_canonicalization none signer.hash_algo email
        ≡ ok body_hash
      → compute_headers_hash p.crypto p.unicode signer.header_canonicalization
          (names_text p signer)
          signer.hash_algo
          (header_of p signer body_hash time_text b)
          email
        ≡ ok header_hash
      → p.crypto.base64_decode b ≡ inr signature
      → verify_signature p.crypto signer.hash_algo header_hash signature key ≡ ok true
      → verify_with_key p.crypto p.unicode (header_of p signer body_hash time_text b) email key
        ≡ ok types
  unfolding verify_with_key decode_signature get_tag get_required_tag get beq
  verifies_of email key body_hash time_text b header_hash signature hashed signed decoded verified =
      rw (
        parse_canonicalization-to_string signer.header_canonicalization
            signer.body_canonicalization,
        verify_with_key,
        parse_hash_algo-algo_name p signer.hash_algo,
        hashed,
        signed,
        beq_refl body_hash,
        decoded,
        decode_signature,
        verified,
      )

  pub Signed-verifies :
      (now : p.chrono.Time) (email : ParsedMail) (key : DkimPublicKey p.crypto)
      (header : DkimHeader)
      → (s : Signed p signer now email header)
      → ((text : Bytes) → p.crypto.base64_decode (p.crypto.base64_encode text) ≡ inr text)
      → IsKeyPair key
      → IsOnce (p.crypto.base64_encode s.signature) header.raw_bytes
      → verify_with_key p.crypto p.unicode header email key ≡ ok types
  Signed-verifies now email key header s base64 pair once =
      let b = p.crypto.base64_encode s.signature in
      let here = subst (λ (h : DkimHeader). IsOnce b h.raw_bytes) s.header_is once in
      ap (λ h. verify_with_key p.crypto p.unicode h email key) s.header_is
      ∙ verifies_of email key s.body_hash s.time_text b s.header_hash s.signature s.body_hashed
          (headers_hash_same email s.body_hash s.time_text b here ∙ s.headers_hashed)
          (base64 s.signature) (pair s.header_hash s.signature s.signed)
