-- ===== src/Verify/Agree.antt =====
-- `verify_email_with_resolver` against `verify_email_with_key` of src/lib.rs.
use dkim.Prelude.{
  ℕ, suc, ◌≡◌, refl, sym, ap, ◌∙◌, true, List, [], ◌∷◌, Option, none, some, Bytes, codes,
}
use dkim.DkimResult.{DkimResult, pass}
use dkim.Error.{DkimError, Outcome, ok, err, panic, ◌>>=◌}
use dkim.Externals.{MailHeader, ParsedMail, Platform}
use dkim.Header.{DkimHeader, get_required_tag}
use dkim.PublicKey.{DkimPublicKey, Lookup, retrieve_public_key}
use dkim.Validate.Checks.{Has-get_required_tag, validate_header_sound}
use dkim.Verify.Loop.{after_flow, run_rounds-step}
use dkim.Verify.Round.{headers, resolver_round, key_round}
use dkim.Verify.Verdict.{
  AllFrom, Names, Verdict, invalid, other, sender, unread, no_domain, verdict, round_invalid,
  round_other, round_sender, round_panic, round_no_domain,
}
use dkim.Verify.{
  Types, Flow, skip, failed, returned, run_rounds, resolved, verify_email_header, verify_with_key,
  with_resolver, with_key, verify_email_with_resolver, verify_email_with_key,
}

module _ (p : Platform) (clock : ℕ → p.chrono.Time) (from_domain : Bytes) (email : ParsedMail)
    (resolver : Lookup) (key : DkimPublicKey p.crypto) where
  -- If header `h`, number `i`, is valid and of the sender's domain, the resolver has the key for it.
  abbrev pub Served : ℕ → MailHeader → Type 0
  Served i h =
      (header : DkimHeader) (domain selector : Bytes)
      → Names p clock from_domain i h header domain true
      → get_required_tag header (codes "s") ≡ ok selector
      → retrieve_public_key p.crypto p.nom resolver domain selector ≡ ok key

  abbrev resolver_body : ℕ → MailHeader → Flow
  resolver_body = resolver_round p clock from_domain email resolver

  abbrev key_body : ℕ → MailHeader → Flow
  key_body = key_round p clock from_domain email key

  -- The two rounds end alike, but for the errors of signatures.
  abbrev Alike : Flow → Flow → Type 0
  Alike f (returned (ok result)) = f ≡ returned (ok result)
  Alike f (returned r) = Unit
  Alike f skip = f ≡ skip
  Alike f (failed e) = f ≡ failed e

  same_verification :
      (i : ℕ) (h : MailHeader) (header : DkimHeader) (domain : Bytes)
      → Served i h
      → Names p clock from_domain i h header domain true
      → verify_email_header p clock resolver header email
        ≡ verify_with_key p.crypto p.unicode header email key
  unfolding verify_email_header
  same_verification i h header domain served n =
      let required =
        (validate_header_sound p.nom p.unicode p.chrono (clock i) _ n.valid).0.required in
      let (selector, is) = Has-get_required_tag header (codes "s") required.1.1.1.1.1.1.0 in
      rw (n.domain_is, is, served header domain selector n is)

  resolved-Alike :
      (domain : Bytes) (o : Outcome Types)
      → Alike
          (resolved p clock from_domain email domain o)
          (returned (o >>= λ types. ok (pass domain types.0 types.1)))
  resolved-Alike domain (ok types) = refl
  resolved-Alike domain (err e) = tt
  resolved-Alike domain panic = tt

  verify-Alike :
      (i : ℕ) (h : MailHeader) (header : DkimHeader) (domain : Bytes)
      → Served i h
      → Names p clock from_domain i h header domain true
      → Alike
          (with_resolver p clock from_domain email resolver header domain)
          (with_key p clock from_domain email key header domain)
  unfolding with_resolver with_key
  verify-Alike i h header domain served n =
      rw (same_verification i h header domain served n) (resolved-Alike domain _)

  round-Alike :
      (i : ℕ) (h : MailHeader)
      → Served i h
      → Verdict p clock from_domain i h
      → Alike (resolver_body i h) (key_body i h)
  round-Alike i h served (invalid e is) =
      rw
        (
          round_invalid p clock from_domain (with_resolver p clock from_domain email resolver) e i h
              is,
          round_invalid p clock from_domain (with_key p clock from_domain email key) e i h is,
        )
        refl
  round-Alike i h served (other header domain n) =
      rw
        (
          round_other p clock from_domain (with_resolver p clock from_domain email resolver) i h
              header domain n,
          round_other p clock from_domain (with_key p clock from_domain email key) i h header domain
              n,
        )
        refl
  round-Alike i h served (sender header domain n) =
      rw
        (
          round_sender p clock from_domain (with_resolver p clock from_domain email resolver) i h
              header domain n,
          round_sender p clock from_domain (with_key p clock from_domain email key) i h header
              domain n,
        )
        (verify-Alike i h header domain served n)
  round-Alike i h served (unread is) =
      rw
        (
          round_panic p clock from_domain (with_resolver p clock from_domain email resolver) i h is,
          round_panic p clock from_domain (with_key p clock from_domain email key) i h is,
        )
        tt
  round-Alike i h served (no_domain header valid is) =
      rw
        (
          round_no_domain p clock from_domain (with_resolver p clock from_domain email resolver) i h
              header valid is,
          round_no_domain p clock from_domain (with_key p clock from_domain email key) i h header
              valid is,
        )
        tt

  abbrev ResolverGives : ℕ → Option DkimError → List MailHeader → DkimResult → Type 0
  ResolverGives i last hs result =
      run_rounds p clock from_domain resolver_body i last hs ≡ ok result

  abbrev KeyGives : ℕ → Option DkimError → List MailHeader → DkimResult → Type 0
  KeyGives i last hs result = run_rounds p clock from_domain key_body i last hs ≡ ok result

  resolver_step :
      (i : ℕ) (last : Option DkimError) (h : MailHeader) (hs : List MailHeader) (f : Flow)
      → resolver_body i h ≡ f
      → run_rounds p clock from_domain resolver_body i last (h ∷ hs)
        ≡ after_flow p clock from_domain resolver_body i last hs f
  resolver_step i last h hs f is =
      run_rounds-step p clock from_domain resolver_body i last h hs
      ∙ ap (after_flow p clock from_domain resolver_body i last hs) is

  key_step :
      (i : ℕ) (last : Option DkimError) (h : MailHeader) (hs : List MailHeader) (f : Flow)
      → key_body i h ≡ f
      → run_rounds p clock from_domain key_body i last (h ∷ hs)
        ≡ after_flow p clock from_domain key_body i last hs f
  key_step i last h hs f is =
      run_rounds-step p clock from_domain key_body i last h hs
      ∙ ap (after_flow p clock from_domain key_body i last hs) is

  step-Alike :
      (i : ℕ) (last : Option DkimError) (h : MailHeader) (hs : List MailHeader)
      (result : DkimResult) (f : Flow)
      → key_body i h ≡ f
      → Alike (resolver_body i h) f
      → ((last : Option DkimError)
          → KeyGives (suc i) last hs result
          → ResolverGives (suc i) last hs result)
      → KeyGives i last (h ∷ hs) result
      → ResolverGives i last (h ∷ hs) result
  step-Alike i last h hs result skip is alike later e =
      resolver_step i last h hs skip alike ∙ later last (sym (key_step i last h hs skip is) ∙ e)
  step-Alike i last h hs result (failed x) is alike later e =
      resolver_step i last h hs (failed x) alike
      ∙ later (some x) (sym (key_step i last h hs (failed x) is) ∙ e)
  step-Alike i last h hs result (returned (ok made)) is alike later e =
      resolver_step i last h hs (returned (ok made)) alike
      ∙ sym (key_step i last h hs (returned (ok made)) is)
      ∙ e
  step-Alike i last h hs result (returned (err x)) is alike later e =
      let bad = sym (key_step i last h hs (returned (err x)) is) ∙ e in absurd (cc)
  step-Alike i last h hs result (returned panic) is alike later e =
      let bad = sym (key_step i last h hs (returned panic) is) ∙ e in absurd (cc)

  run-Alike :
      (i : ℕ) (last : Option DkimError) (hs : List MailHeader) (result : DkimResult)
      → AllFrom Served i hs
      → KeyGives i last hs result
      → ResolverGives i last hs result
  unfolding run_rounds
  run-Alike i last [] result served e = e
  run-Alike i last (h ∷ hs) result (served, rest) e =
      step-Alike i last h hs result (key_body i h) refl
        (round-Alike i h served (verdict p clock from_domain i h))
        (λ last. run-Alike (suc i) last hs result rest) e

  -- If for every DKIM-Signature header of the email that is valid and of the sender's domain the
  -- key retrieved through the resolver is the given key, any result that verify_email_with_key
  -- gives, be it a pass, a failure or neutral but no error, is the one that
  -- verify_email_with_resolver gives.
  pub verify_email_with_resolver-with_key :
      (result : DkimResult)
      → AllFrom Served 0 (headers p clock from_domain email)
      → verify_email_with_key p clock from_domain email key ≡ ok result
      → verify_email_with_resolver p clock from_domain email resolver ≡ ok result
  unfolding verify_email_with_resolver verify_email_with_key
  verify_email_with_resolver-with_key result served e =
      run-Alike 0 none (headers p clock from_domain email) result served e
