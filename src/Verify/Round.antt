-- ===== src/Verify/Round.antt =====
-- One round of the loops of src/lib.rs: when it ends in a result.
use dkim.Prelude.{
  ℕ, ◌≡◌, ◌≢◌, refl, true, false, Bool-cases, List, ◌∷◌, ◌++◌, inl, inr, Bytes, codes, length,
}
use dkim.DkimResult.{DkimResult, pass}
use dkim.Error.{Outcome, ok, err, panic}
use dkim.Externals.{MailHeader, ParsedMail, Platform}
use dkim.Header.{DkimHeader, header_name, get_required_tag}
use dkim.PublicKey.{DkimPublicKey, Lookup}
use dkim.Verify.Loop.{AllGoOn}
use dkim.Verify.{
  Types, Flow, skip, returned, verify_email_header, validated, same_domain, of_domain, of_header,
  round, with_resolver, with_key,
}

pub true-ne-false : true ≢ false
true-ne-false h = cc

pub skip-ne-returned : {r : Outcome DkimResult} → skip ≢ returned r
skip-ne-returned e = cc

module _ (p : Platform) (clock : ℕ → p.chrono.Time) (from_domain : Bytes) where
  -- Header `h`, number `i`, is valid, of the sender's domain, and `verify` ends its round with `r`.
  pub record Chosen (verify : DkimHeader → Bytes → Flow) (i : ℕ) (h : MailHeader)
      (r : Outcome DkimResult) : Type 0 where
    pub header : DkimHeader
    pub domain : Bytes
    pub valid : validated p clock i h ≡ ok header
    pub domain_is : get_required_tag header (codes "d") ≡ ok domain
    pub domain_same : same_domain p clock domain from_domain ≡ true
    pub ends : verify header domain ≡ returned r

  of_domain_chosen :
      (verify : DkimHeader → Bytes → Flow) (header : DkimHeader) (o : Outcome Bytes)
      {result : DkimResult}
      → of_domain p clock from_domain header verify o ≡ returned (ok result)
      → (domain : Bytes) × (o ≡ ok domain)
        × (same_domain p clock domain from_domain ≡ true)
        × (verify header domain ≡ returned (ok result))
  of_domain_chosen verify header (ok domain) e =
      elim (Bool-cases (same_domain p clock domain from_domain)) [
        | inl t ↦ (domain, refl, t, rw t at e)
        | inr f ↦ absurd (skip-ne-returned (rw f at e))
      ]
  of_domain_chosen verify header (err x) e = cc
  of_domain_chosen verify header panic e = cc

  of_header_chosen :
      (verify : DkimHeader → Bytes → Flow) (m : Outcome DkimHeader) {result : DkimResult}
      → of_header p clock from_domain verify m ≡ returned (ok result)
      → (header : DkimHeader) × (m ≡ ok header)
        × (of_domain p clock from_domain header verify (get_required_tag header (codes "d"))
            ≡ returned (ok result))
  of_header_chosen verify (ok header) e = (header, refl, e)
  of_header_chosen verify (err x) e = cc
  of_header_chosen verify panic e = cc

  pub round-Chosen :
      (verify : DkimHeader → Bytes → Flow) (i : ℕ) (h : MailHeader) (result : DkimResult)
      → round p clock from_domain verify i h ≡ returned (ok result)
      → Chosen verify i h (ok result)
  unfolding round
  round-Chosen verify i h result e =
      let (header, valid, e1) = of_header_chosen verify (validated p clock i h) e in
      let (domain, domain_is, same, ends) = of_domain_chosen verify header _ e1 in
      record {
        header = header;
        domain = domain;
        valid = valid;
        domain_is = domain_is;
        domain_same = same;
        ends = ends;
      }

  pub Chosen-round :
      (verify : DkimHeader → Bytes → Flow) (i : ℕ) (h : MailHeader) {r : Outcome DkimResult}
      → Chosen verify i h r
      → round p clock from_domain verify i h ≡ returned r
  unfolding round
  Chosen-round verify i h c = rw (c.valid, c.domain_is, c.domain_same, c.ends)

  module _ (email : ParsedMail) where
    abbrev pub headers : List MailHeader
    headers = p.mailparse.get_all_headers email.headers header_name

    abbrev pub resolver_round : Lookup → ℕ → MailHeader → Flow
    resolver_round resolver =
        round p clock from_domain (with_resolver p clock from_domain email resolver)

    abbrev pub key_round : DkimPublicKey p.crypto → ℕ → MailHeader → Flow
    key_round key = round p clock from_domain (with_key p clock from_domain email key)

    -- A signature of the email in a valid header of the sender's domain.
    pub record Passed (verify : DkimHeader → Outcome Types) (i : ℕ) (h : MailHeader)
        (result : DkimResult) : Type 0 where
      pub header : DkimHeader
      pub domain : Bytes
      pub types : Types
      pub valid : validated p clock i h ≡ ok header
      pub domain_is : get_required_tag header (codes "d") ≡ ok domain
      pub domain_same : same_domain p clock domain from_domain ≡ true
      pub verified : verify header ≡ ok types
      pub result_is : result ≡ pass domain types.0 types.1

    abbrev pub FirstPass : Lookup → DkimResult → Type 0
    FirstPass resolver result =
        (before : List MailHeader) × (h : MailHeader) × (after : List MailHeader) × (headers
          ≡ before ++ (h ∷ after))
        × AllGoOn p clock from_domain (resolver_round resolver) 0 before
        × Passed (λ header. verify_email_header p clock resolver header email) (length before) h
            result
