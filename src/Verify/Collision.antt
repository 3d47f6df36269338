-- ===== src/Verify/Collision.antt =====
-- The collisions that break the signatures of src/lib.rs.
use dkim.Prelude.{
  ◌≡◌, ◌≢◌, ◌⊎◌, inl, inr, true, false, sym, ◌∙◌, ◌++◌, Bytes, codes, beq, beq_iff, Bool-cases,
}
use dkim.Error.{ok}
use dkim.Externals.{Crypto, ParsedMail}
use dkim.Hash.{select_headers, signed_lines, hash_with, signature_line}
use dkim.Header.{DkimHeader, get_required_tag}
use dkim.Parser.{HashAlgo}
use dkim.PublicKey.{DkimPublicKey}
use dkim.Str.{Unicode}
use dkim.Verify.Same.{hashed_body}
use dkim.Verify.{Types, verify_signature}

pub same_or_differ : (a b : Bytes) → (a ≡ b) ⊎ (a ≢ b)
same_or_differ a b = elim (Bool-cases (beq a b)) [
  | inl same ↦ inl ((beq_iff a b).0 same)
  | inr other ↦ inr (λ e. absurd (true-ne-false (sym ((beq_iff a b).1 e) ∙ other)))
]
  where
    true-ne-false : true ≢ false
    true-ne-false h = cc

module _ (crypto : Crypto) where
  -- The canonical body of an email, cut as l= says.
  abbrev pub IsBody : DkimHeader → Types → ParsedMail → Bytes → Type 0
  IsBody header types email text = hashed_body header types.1 email ≡ ok text

  -- The canonical lines of an email's headers that h= names, and the line of the signature.
  abbrev pub IsLines : Unicode → DkimHeader → Types → ParsedMail → Bytes → Type 0
  IsLines unicode header types email text =
      (names : Bytes) × (last : Bytes) × (get_required_tag header (codes "h") ≡ ok names)
      × (signature_line unicode types.0 header ≡ ok last)
      × (text ≡ signed_lines unicode types.0 (select_headers names email) ++ last)

  -- The texts that are hashed for two emails are two, and have one digest.
  pub record Collision (unicode : Unicode) (header : DkimHeader) (types : Types)
      (email email' : ParsedMail) : Type 0 where
    pub algo : HashAlgo
    pub one : Bytes
    pub other : Bytes
    pub hashed :
        (IsBody header types email one × IsBody header types email' other)
        ⊎ (IsLines unicode header types email one × IsLines unicode header types email' other)
    pub differ : one ≢ other
    pub same_digest : hash_with crypto algo one ≡ hash_with crypto algo other

  -- One signature that the key verifies over two digests.
  pub record TwoDigests (key : DkimPublicKey crypto) : Type 0 where
    pub algo : HashAlgo
    pub one : Bytes
    pub other : Bytes
    pub signature : Bytes
    pub differ : one ≢ other
    pub verifies_one : verify_signature crypto algo one signature key ≡ ok true
    pub verifies_other : verify_signature crypto algo other signature key ≡ ok true

  pub digest_agrees :
      (unicode : Unicode) (header : DkimHeader) (types : Types) (email email' : ParsedMail)
      (algo : HashAlgo) (one other : Bytes)
      → (IsBody header types email one × IsBody header types email' other)
        ⊎ (IsLines unicode header types email one × IsLines unicode header types email' other)
      → hash_with crypto algo one ≡ hash_with crypto algo other
      → (one ≡ other) ⊎ Collision unicode header types email email'
  digest_agrees unicode header types email email' algo one other hashed e =
      elim (same_or_differ one other) [
        | inl same ↦ inl same
        | inr differ ↦ inr (record {
          algo = algo;
          one = one;
          other = other;
          hashed = hashed;
          differ = differ;
          same_digest = e;
        })
      ]
