-- ===== src/Verify/Panics.antt =====
-- Where the loops of src/lib.rs over the headers of an email can panic.
use dkim.Prelude.{
  ℕ, ◌+◌, ◌≡◌, ◌≢◌, refl, sym, ap, subst, ◌∙◌, arith, List, [], ◌∷◌, ◌++◌, ◌⊎◌, inl, inr, Option,
  none, some, Bytes, codes, length, Bool-cases,
}
use dkim.DkimResult.{DkimResult}
use dkim.Error.NoPanic.{NoPanic, NoPanic-ok, NoPanic-bind}
use dkim.Error.{DkimError, Outcome, ok, err, panic}
use dkim.Externals.{MailHeader, ParsedMail, Platform}
use dkim.Header.{DkimHeader, required_tags}
use dkim.Parser.{Tag}
use dkim.PublicKey.Refused.{retrieve_public_key-NoPanic, lookup_txt-NoPanic}
use dkim.PublicKey.{DkimPublicKey, Lookup, ResolveError, lookup_txt, from_tokio_resolver}
use dkim.Str.{All}
use dkim.Validate.Checks.{Has, validate_header_sound}
use dkim.Validate.Panics.{DriftOverflows, get_required_tag-NoPanic, validate_header-eq-panic}
use dkim.Validate.{parse_tags, tags_map}
use dkim.Verify.Loop.{run_rounds-Outcomes}
use dkim.Verify.Round.{skip-ne-returned, headers}
use dkim.Verify.Safe.{verify_with_key-NoPanic}
use dkim.Verify.{
  Types, Flow, skip, returned, verify_email_header, verify_with_key, validated, same_domain,
  last_result, resolved, of_domain, of_header, round, with_resolver, with_key,
  verify_email_with_resolver, verify_email_with_key, verify_email,
}

module _ (p : Platform) (clock : ℕ → p.chrono.Time) (from_domain : Bytes) (email : ParsedMail) where
  abbrev HasRequired : DkimHeader → Type 0
  HasRequired header = All (Has header.tags) required_tags

  validated-HasRequired :
      (i : ℕ) (h : MailHeader) (header : DkimHeader)
      → validated p clock i h ≡ ok header
      → HasRequired header
  validated-HasRequired i h header e =
      (validate_header_sound p.nom p.unicode p.chrono (clock i) _ e).0.required

  -- What a round does with a valid header ends in no panic.
  abbrev Safe : (DkimHeader → Bytes → Flow) → Type 0
  Safe verify =
      (header : DkimHeader) (domain : Bytes)
      → HasRequired header
      → verify header domain ≢ returned panic

  of_domain_panics :
      (verify : DkimHeader → Bytes → Flow) (header : DkimHeader) (o : Outcome Bytes)
      → Safe verify
      → HasRequired header
      → NoPanic o
      → of_domain p clock from_domain header verify o ≢ returned panic
  of_domain_panics verify header (ok domain) safe has calm h =
      elim (Bool-cases (same_domain p clock domain from_domain)) [
        | inl t ↦ safe header domain has (rw t at h)
        | inr f ↦ skip-ne-returned (rw f at h)
      ]
  of_domain_panics verify header (err x) safe has calm h = cc
  of_domain_panics verify header panic safe has calm h = calm.ne refl

  of_header_panics :
      (verify : DkimHeader → Bytes → Flow) (m : Outcome DkimHeader)
      → Safe verify
      → ((header : DkimHeader) → m ≡ ok header → HasRequired header)
      → of_header p clock from_domain verify m ≡ returned panic
      → m ≡ panic
  of_header_panics verify (ok header) safe has h =
      let all = has header refl in
      absurd (
        of_domain_panics verify header _ safe all
          (get_required_tag-NoPanic header (codes "d") all.1.1.1.1.0) h)
  of_header_panics verify (err x) safe has h = cc
  of_header_panics verify panic safe has h = refl

  round_panics :
      (verify : DkimHeader → Bytes → Flow) (i : ℕ) (h : MailHeader)
      → Safe verify
      → round p clock from_domain verify i h ≡ returned panic
      → validated p clock i h ≡ panic
  unfolding round
  round_panics verify i h safe e = of_header_panics verify _ safe (validated-HasRequired i h) e

  -- A header of the email whose text parses to tags whose `x=` names an instant to which the drift
  -- cannot be added.
  pub record HasOverflow : Type 0 where
    pub before : List MailHeader
    pub h : MailHeader
    pub after : List MailHeader
    pub tags : List Tag
    pub split_at : headers p clock from_domain email ≡ before ++ (h ∷ after)
    pub parsed :
        parse_tags p.nom p.unicode p.chrono
          (clock (length before))
          (p.unicode.from_utf8_lossy h.value_raw)
        ≡ ok tags
    pub overflows :
        DriftOverflows p.nom p.unicode p.chrono
          (clock (length before))
          (record { tags = tags_map [] tags; raw_bytes = p.unicode.from_utf8_lossy h.value_raw })

  last_result-ne-panic : (last : Option DkimError) → last_result p clock from_domain last ≢ panic
  last_result-ne-panic none h = cc
  last_result-ne-panic (some e) h = cc

  loop_panics :
      (verify : DkimHeader → Bytes → Flow)
      → Safe verify
      → dkim.Verify.run_rounds p clock from_domain
          (round p clock from_domain verify)
          0
          none
          (headers p clock from_domain email)
        ≡ panic
      → HasOverflow
  loop_panics verify safe h =
      elim (run_rounds-Outcomes p clock from_domain (round p clock from_domain verify) 0 none
        (headers p clock from_domain email)) [
          | inl d ↦
              let z : 0 + length d.before ≡ length d.before = omega arith in
              let ends =
                subst (λ n. round p clock from_domain verify n d.h ≡ returned panic) z
                  (d.returns ∙ ap returned h) in
              let (tags, parsed, over) =
                validate_header-eq-panic p.nom p.unicode p.chrono (clock (length d.before)) _
                  (round_panics verify _ d.h safe ends) in
              record {
                before = d.before;
                h = d.h;
                after = d.after;
                tags = tags;
                split_at = d.split_at;
                parsed = parsed;
                overflows = over;
              }
          | inr (_, last) ↦ absurd (last_result-ne-panic _ (sym last ∙ h))
        ]

  returned-ne-panic : {m : Outcome DkimResult} → NoPanic m → returned m ≢ returned panic
  returned-ne-panic calm h = calm.ne cc

  with_key-Safe : (key : DkimPublicKey p.crypto) → Safe (with_key p clock from_domain email key)
  unfolding with_key
  with_key-Safe key header domain has = returned-ne-panic (
      NoPanic-bind _ _ (verify_with_key-NoPanic p.crypto p.unicode header email key has)
        (λ types _. NoPanic-ok _))

  resolved_panics :
      (domain : Bytes) (m : Outcome Types)
      → NoPanic m
      → resolved p clock from_domain email domain m ≢ returned panic
  resolved_panics domain (ok types) calm = returned-ne-panic (NoPanic-ok _)
  resolved_panics domain (err e) calm = λ h. cc
  resolved_panics domain panic calm = absurd (calm.ne refl)

  verify_email_header-NoPanic :
      (resolver : Lookup) (header : DkimHeader)
      → ((name : Bytes) → NoPanic (resolver name))
      → HasRequired header
      → NoPanic (verify_email_header p clock resolver header email)
  unfolding verify_email_header
  verify_email_header-NoPanic resolver header calm has =
      NoPanic-bind _ _ (get_required_tag-NoPanic header (codes "d") has.1.1.1.1.0) (λ domain _.
        NoPanic-bind _ _ (get_required_tag-NoPanic header (codes "s") has.1.1.1.1.1.1.0)
          (λ selector _.
            NoPanic-bind _ _
              (retrieve_public_key-NoPanic p.crypto p.nom resolver domain selector calm)
              (λ key _. verify_with_key-NoPanic p.crypto p.unicode header email key has)))

  with_resolver-Safe :
      (resolver : Lookup)
      → ((name : Bytes) → NoPanic (resolver name))
      → Safe (with_resolver p clock from_domain email resolver)
  unfolding with_resolver
  with_resolver-Safe resolver calm header domain has =
      resolved_panics domain _ (verify_email_header-NoPanic resolver header calm has)

  -- verify_email_with_key panics only if a DKIM-Signature header of the email parses to tags whose
  -- x= names an instant to which the drift cannot be added.
  pub verify_email_with_key-eq-panic :
      (key : DkimPublicKey p.crypto)
      → verify_email_with_key p clock from_domain email key ≡ panic
      → HasOverflow
  unfolding verify_email_with_key
  verify_email_with_key-eq-panic key h = loop_panics _ (with_key-Safe key) h

  -- With a resolver that does not panic, only an x= that the drift overflows makes the loop panic.
  pub verify_email_with_resolver-eq-panic :
      (resolver : Lookup)
      → ((name : Bytes) → NoPanic (resolver name))
      → verify_email_with_resolver p clock from_domain email resolver ≡ panic
      → HasOverflow
  unfolding verify_email_with_resolver
  verify_email_with_resolver-eq-panic resolver calm h =
      loop_panics _ (with_resolver-Safe resolver calm) h

  -- verify_email panics only if a DKIM-Signature header of the email parses to tags whose x= names
  -- an instant to which the drift cannot be added.
  pub verify_email-eq-panic :
      (system : Bytes ⊎ (Bytes → ResolveError ⊎ List (List Bytes)))
      → verify_email p clock system from_domain email ≡ panic
      → HasOverflow
  unfolding verify_email from_tokio_resolver
  verify_email-eq-panic (inl e) h = cc
  verify_email-eq-panic (inr inner) h =
      verify_email_with_resolver-eq-panic (lookup_txt p.unicode inner)
        (lookup_txt-NoPanic p.unicode inner) h

  -- verify_email or verify_email_with_key panics only if a DKIM-Signature header of the email
  -- parses to tags whose x= names an instant to which the drift cannot be added.
  pub verify-eq-panic :
      (system : Bytes ⊎ (Bytes → ResolveError ⊎ List (List Bytes))) (key : DkimPublicKey p.crypto)
      → (verify_email p clock system from_domain email ≡ panic)
        ⊎ (verify_email_with_key p clock from_domain email key ≡ panic)
      → HasOverflow
  verify-eq-panic system key (inl h) = verify_email-eq-panic system h
  verify-eq-panic system key (inr h) = verify_email_with_key-eq-panic key h
