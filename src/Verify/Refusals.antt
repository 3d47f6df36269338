-- ===== src/Verify/Refusals.antt =====
-- `verify_email_with_resolver` of src/lib.rs makes each error a result.
use dkim.Prelude.{
  ℕ, ◌≢◌, refl, sym, ap, ◌∙◌, Bool-cases, inl, inr, Option, none, some, Bytes, codes, arith,
}
use dkim.Error.{DkimError, Outcome, ok, err, panic}
use dkim.Externals.{MailHeader, ParsedMail, Platform}
use dkim.Header.{DkimHeader, get_required_tag}
use dkim.PublicKey.{Lookup}
use dkim.Verify.Loop.{run_rounds-Outcomes}
use dkim.Verify.Round.{skip-ne-returned, headers, resolver_round}
use dkim.Verify.{
  Types, returned, validated, same_domain, last_result, resolved, of_domain, of_header, round,
  with_resolver, verify_email_with_resolver,
}

pub get_required_tag-ne-err :
    (header : DkimHeader) (name : Bytes) (e : DkimError) → get_required_tag header name ≢ err e
unfolding get_required_tag
get_required_tag-ne-err header name e h = ground arith

module _ (p : Platform) (clock : ℕ → p.chrono.Time) (from_domain : Bytes) where
  module _ (email : ParsedMail) where
    last_result-ne-err :
        (last : Option DkimError) (e : DkimError) → last_result p clock from_domain last ≢ err e
    last_result-ne-err none e h = cc
    last_result-ne-err (some x) e h = cc

    resolved-ne-err :
        (domain : Bytes) (m : Outcome Types) (e : DkimError)
        → resolved p clock from_domain email domain m ≢ returned (err e)
    resolved-ne-err domain (ok types) e h = cc
    resolved-ne-err domain (err x) e h = cc
    resolved-ne-err domain panic e h = cc

    of_domain-ne-err :
        (resolver : Lookup) (header : DkimHeader) (o : Outcome Bytes) (e : DkimError)
        → ((x : DkimError) → o ≢ err x)
        → of_domain p clock from_domain header (with_resolver p clock from_domain email resolver) o
          ≢ returned (err e)
    unfolding with_resolver
    of_domain-ne-err resolver header (ok domain) e n h =
        elim (Bool-cases (same_domain p clock domain from_domain)) [
          | inl t ↦ resolved-ne-err domain _ e (rw t at h)
          | inr f ↦ skip-ne-returned (rw f at h)
        ]
    of_domain-ne-err resolver header (err x) e n h = absurd (n x refl)
    of_domain-ne-err resolver header panic e n h = cc

    of_header-ne-err :
        (resolver : Lookup) (m : Outcome DkimHeader) (e : DkimError)
        → of_header p clock from_domain (with_resolver p clock from_domain email resolver) m
          ≢ returned (err e)
    of_header-ne-err resolver (ok header) e h =
        of_domain-ne-err resolver header _ e (get_required_tag-ne-err header (codes "d")) h
    of_header-ne-err resolver (err x) e h = cc
    of_header-ne-err resolver panic e h = cc

    resolver_round-ne-err :
        (resolver : Lookup) (i : ℕ) (h : MailHeader) (e : DkimError)
        → resolver_round p clock from_domain email resolver i h ≢ returned (err e)
    unfolding round
    resolver_round-ne-err resolver i h e = of_header-ne-err resolver (validated p clock i h) e

    -- verify_email_with_resolver never returns an error: the errors of headers and signatures are
    -- results or are passed over.
    pub verify_email_with_resolver-ne-err :
        (resolver : Lookup) (e : DkimError)
        → verify_email_with_resolver p clock from_domain email resolver ≢ err e
    unfolding verify_email_with_resolver
    verify_email_with_resolver-ne-err resolver e h =
        elim (run_rounds-Outcomes p clock from_domain
          (resolver_round p clock from_domain email resolver) 0 none
          (headers p clock from_domain email)) [
            | inl d ↦ resolver_round-ne-err resolver _ d.h e (d.returns ∙ ap returned h)
            | inr (go, last) ↦ last_result-ne-err _ e (sym last ∙ h)
          ]
