-- ===== src/Verify/Integrity.antt =====
-- What two emails share that src/lib.rs accepts with one signature.
use dkim.Prelude.{◌≡◌, refl, ◌⊎◌, inl, inr, true, sym, ap, subst, ◌∙◌, ◌++◌, Bytes, codes}
use mathlib.Core.List.{append_cancel_right}
use dkim.Canonicalization.{CanonicalizationType}
use dkim.Error.Laws.{bind-eq-ok, ok-injective}
use dkim.Error.{Outcome, ok}
use dkim.Externals.{Crypto, ParsedMail}
use dkim.Hash.{
  compute_body_hash, compute_headers_hash, get_body, select_headers, signed_lines, hash_with,
  signature_line,
}
use dkim.Header.{DkimHeader, get_tag}
use dkim.Parser.{HashAlgo, parse_hash_algo}
use dkim.PublicKey.{DkimPublicKey}
use dkim.Str.{Unicode}
use dkim.Verify.Collision.{same_or_differ, Collision, TwoDigests, digest_agrees}
use dkim.Verify.Same.{hashed_body, Same, Same-intro}
use dkim.Verify.Signature.{Verified, verify_with_key_sound}
use dkim.Verify.{Types, verify_signature, verify_with_key}

unique_right : {m : Bytes ⊎ Bytes} {a b : Bytes} → m ≡ inr a → m ≡ inr b → a ≡ b
unique_right p q = cc

unique {ℓ} : {A : Type ℓ} {m : Outcome A} {a b : A} → m ≡ ok a → m ≡ ok b → a ≡ b
unique p q = ok-injective (sym p ∙ q)

module _ (crypto : Crypto) where
  module _ (unicode : Unicode) (header : DkimHeader) where
    body_hash_of :
        (t : CanonicalizationType) (algo : HashAlgo) (email : ParsedMail) {h : Bytes}
        → compute_body_hash crypto t (get_tag header (codes "l")) algo email ≡ ok h
        → (text : Bytes) × (hashed_body header t email ≡ ok text)
          × (crypto.base64_encode (hash_with crypto algo text) ≡ h)
    unfolding compute_body_hash hashed_body get_body
    body_hash_of t algo email h =
        let (text, is, made) = bind-eq-ok _ _ h in (text, is, ok-injective made)

    headers_hash_of :
        (t : CanonicalizationType) (names : Bytes) (algo : HashAlgo) (email : ParsedMail)
        {h : Bytes}
        → compute_headers_hash crypto unicode t names algo header email ≡ ok h
        → (last : Bytes) × (signature_line unicode t header ≡ ok last)
          × (hash_with crypto algo (signed_lines unicode t (select_headers names email) ++ last)
              ≡ h)
    unfolding compute_headers_hash
    headers_hash_of t names algo email h =
        let (last, is, made) = bind-eq-ok _ _ h in (last, is, ok-injective made)

    module _ (email email' : ParsedMail) (key : DkimPublicKey crypto) (types : Types) where
      algo_agrees :
          (v : Verified crypto unicode header email key types)
          (v' : Verified crypto unicode header email' key types)
          → v'.hash_algo ≡ v.hash_algo
      algo_agrees v v' =
          let text = unique v'.algo_tag v.algo_tag in
          unique (subst (λ t. parse_hash_algo t ≡ ok v'.hash_algo) text v'.algo_is) v.algo_is

      abbrev HashedBodies : Type 0
      HashedBodies = hashed_body header types.1 email ≡ hashed_body header types.1 email'

      abbrev SignedLines : Bytes → Type 0
      SignedLines names =
          signed_lines unicode types.0 (select_headers names email)
          ≡ signed_lines unicode types.0 (select_headers names email')

      bodies_agree :
          ((text : Bytes) → crypto.base64_decode (crypto.base64_encode text) ≡ inr text)
          → (v : Verified crypto unicode header email key types)
          → (v' : Verified crypto unicode header email' key types)
          → HashedBodies ⊎ Collision crypto unicode header types email email'
      bodies_agree base64 v v' =
          let (text, is, made) = body_hash_of types.1 v.hash_algo email v.body_hashed in
          let (text', is', made') = body_hash_of types.1 v.hash_algo email' (
            subst
              (λ a.
                compute_body_hash crypto types.1 (get_tag header (codes "l")) a email'
                ≡ ok v'.body_hash)
              (algo_agrees v v') v'.body_hashed) in
          let encoded = made ∙ unique v.body_matches v'.body_matches ∙ sym made' in
          let digests : hash_with crypto v.hash_algo text ≡ hash_with crypto v.hash_algo text' =
            unique_right (base64 _) (ap crypto.base64_decode encoded ∙ base64 _) in
          elim (digest_agrees crypto unicode header types email email' v.hash_algo text text'
            (inl (is, is')) digests) [
              | inl same ↦ inl (is ∙ ap ok same ∙ sym is')
              | inr collision ↦ inr collision
            ]

      lines_agree :
          (v : Verified crypto unicode header email key types)
          → (v' : Verified crypto unicode header email' key types)
          → SignedLines v.signed_headers
            ⊎ (Collision crypto unicode header types email email' ⊎ TwoDigests crypto key)
      lines_agree v v' =
          let algo = algo_agrees v v' in
          let names = unique v'.names v.names in
          let hashed' =
            subst
              (λ n.
                compute_headers_hash crypto unicode types.0 n v.hash_algo header email'
                ≡ ok v'.headers_hash)
              names
              (subst
                (λ a.
                  compute_headers_hash crypto unicode types.0 v'.signed_headers a header email'
                  ≡ ok v'.headers_hash)
                algo v'.headers_hashed) in
          let (last, is, made) =
            headers_hash_of types.0 v.signed_headers v.hash_algo email v.headers_hashed in
          let (last', is', made') =
            headers_hash_of types.0 v.signed_headers v.hash_algo email' hashed' in
          let signature' : v'.signature ≡ v.signature =
            unique_right
              (subst (λ t. crypto.base64_decode t ≡ inr v'.signature)
                (unique v'.signature_tag v.signature_tag) v'.decoded)
              v.decoded in
          let signed' =
            subst (λ s. verify_signature crypto v.hash_algo v'.headers_hash s key ≡ ok true)
              signature'
              (subst (λ a. verify_signature crypto a v'.headers_hash v'.signature key ≡ ok true)
                algo v'.signed) in
          elim (same_or_differ v.headers_hash v'.headers_hash) [
            | inl same ↦
                elim (digest_agrees crypto unicode header types email email' v.hash_algo _ _
                  (inr (
                    (v.signed_headers, last, v.names, is, refl),
                    (v.signed_headers, last', v.names, is', refl),
                  ))
                  (made ∙ same ∙ sym made')) [
                    | inl whole ↦ inl (
                        append_cancel_right _ _ last (
                          whole
                          ∙ ap
                              (λ l.
                                signed_lines unicode types.0
                                  (select_headers v.signed_headers email')
                                ++ l)
                              (unique is' is)))
                    | inr collision ↦ inr (inl collision)
                  ]
            | inr differ ↦ inr (
                inr (record {
                  algo = v.hash_algo;
                  one = v.headers_hash;
                  other = v'.headers_hash;
                  signature = v.signature;
                  differ = differ;
                  verifies_one = v.signed;
                  verifies_other = signed';
                }))
          ]

    -- If one header's signature is accepted with one key on two emails and base64 decodes what it
    -- encodes, the two emails have the same canonical body, cut as l= says, and the same canonical
    -- lines of the headers that h= names, or the texts that are hashed for the two emails, both
    -- bodies or both lines with that of the signature, differ and have one digest, or one
    -- signature is at hand that the key verifies over two different digests.
    pub accepted_agree :
        (email email' : ParsedMail) (key : DkimPublicKey crypto) (types types' : Types)
        → ((text : Bytes) → crypto.base64_decode (crypto.base64_encode text) ≡ inr text)
        → verify_with_key crypto unicode header email key ≡ ok types
        → verify_with_key crypto unicode header email' key ≡ ok types'
        → Same unicode header email email'
          ⊎ (Collision crypto unicode header types email email' ⊎ TwoDigests crypto key)
    accepted_agree email email' key types types' base64 h h' =
        let v = verify_with_key_sound crypto unicode header email key h in
        let v0 = verify_with_key_sound crypto unicode header email' key h' in
        let v' =
          subst (Verified crypto unicode header email' key) (unique v0.types_are v.types_are) v0 in
        elim (bodies_agree email email' key types base64 v v') [
          | inr collision ↦ inr (inl collision)
          | inl bodies ↦ elim (lines_agree email email' key types v v') [
            | inr broken ↦ inr broken
            | inl lines ↦
                inl (Same-intro unicode header email email' v.types_are v.names bodies lines)
          ]
        ]
