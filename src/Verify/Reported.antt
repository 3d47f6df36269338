-- ===== src/Verify/Reported.antt =====
-- All the results of `verify_email_with_resolver` of src/lib.rs.
use dkim.Prelude.{
  ℕ, ◌+◌, ◌≡◌, ◌≢◌, refl, ap, subst, ◌∙◌, ◌⊎◌, inl, inr, none, List, Bytes, length, arith,
}
use dkim.DkimResult.{DkimResult, fail, neutral}
use dkim.Error.NoPanic.{NoPanic}
use dkim.Error.{DkimError, Outcome, ok, err, panic}
use dkim.Externals.{MailHeader, ParsedMail, Platform}
use dkim.PublicKey.{Lookup}
use dkim.Verify.Email.{Chosen-Passed}
use dkim.Verify.Refusals.{verify_email_with_resolver-ne-err}
use dkim.Verify.Loop.{AllGoOn, Decides, remembered, run_rounds-Outcomes}
use dkim.Verify.Panics.{HasOverflow, verify_email_with_resolver-eq-panic}
use dkim.Verify.Remembered.{AllSkip, LastError, remembered_lem}
use dkim.Verify.Round.{headers, resolver_round, round-Chosen, FirstPass}
use dkim.Verify.{Flow, returned, last_result, verify_email_with_resolver}

module _ (p : Platform) (clock : ℕ → p.chrono.Time) (from_domain : Bytes) (email : ParsedMail)
    (resolver : Lookup) where
  abbrev body : ℕ → MailHeader → Flow
  body = resolver_round p clock from_domain email resolver

  abbrev signatures : List MailHeader
  signatures = headers p clock from_domain email

  -- A pass, or a failure by the last round that fails, or nothing to tell.
  abbrev pub Reports : DkimResult → Type 0
  Reports result =
      FirstPass p clock from_domain email resolver result
      ⊎ ((AllGoOn p clock from_domain body 0 signatures
            × ((e : DkimError) × LastError p clock from_domain body 0 signatures e
                × (result ≡ fail e from_domain)))
          ⊎ (AllSkip p clock from_domain body 0 signatures × (result ≡ neutral from_domain)))

  decided :
      (result : DkimResult)
      → Decides p clock from_domain body 0 signatures (ok result)
      → FirstPass p clock from_domain email resolver result
  decided result d =
      let z : 0 + length d.before ≡ length d.before = omega arith in
      let ends = subst (λ n. body n d.h ≡ returned (ok result)) z d.returns in
      (
        d.before,
        d.h,
        d.after,
        d.split_at,
        d.go_on,
        Chosen-Passed p clock from_domain email resolver _ d.h
            (round-Chosen p clock from_domain _ _ d.h result ends),
      )

  -- The value of `last_result`.
  last-Reports :
      (go : AllGoOn p clock from_domain body 0 signatures)
      → (result : DkimResult) × (last_result p clock from_domain
            (remembered p clock from_domain body 0 none signatures)
          ≡ ok result)
        × Reports result
  last-Reports go = elim (remembered_lem p clock from_domain body 0 none signatures go) [
    | inl (skips, r) ↦
        (neutral from_domain, ap (last_result p clock from_domain) r, inr (inr (skips, refl)))
    | inr (e, l, r) ↦
        (fail e from_domain, ap (last_result p clock from_domain) r, inr (inl (go, (e, l, refl))))
  ]

  result_or_panic :
      (m : Outcome DkimResult)
      → ((e : DkimError) → m ≢ err e)
      → ((result : DkimResult) × (m ≡ ok result)) ⊎ (m ≡ panic)
  result_or_panic (ok result) n = inl (result, refl)
  result_or_panic (err e) n = absurd (n e refl)
  result_or_panic panic n = inr refl

  -- If the resolver does not panic and no header's x= overflows the drift,
  -- verify_email_with_resolver gives a result: the pass of the first header that verifies, or a
  -- failure by the error of the last header whose round fails, or neutral if every round passes
  -- its header over.
  pub verify_email_with_resolver_total :
      ((name : Bytes) → NoPanic (resolver name))
      → (HasOverflow p clock from_domain email → ⊥)
      → (result : DkimResult) × (verify_email_with_resolver p clock from_domain email resolver
          ≡ ok result)
        × Reports result
  unfolding verify_email_with_resolver
  verify_email_with_resolver_total calm no_overflow =
      elim (run_rounds-Outcomes p clock from_domain body 0 none signatures) [
        | inl d ↦
            elim (result_or_panic _
              (λ e. verify_email_with_resolver-ne-err p clock from_domain email resolver e)) [
                | inl (result, e) ↦ (
                  result,
                  e,
                  inl (decided result (subst (Decides p clock from_domain body 0 signatures) e d)),
                )
                | inr e ↦ absurd (
                    no_overflow (
                      verify_email_with_resolver-eq-panic p clock from_domain email resolver calm
                        e))
              ]
        | inr (go, last) ↦ let (result, e, reports) = last-Reports go in (result, last ∙ e, reports)
      ]
