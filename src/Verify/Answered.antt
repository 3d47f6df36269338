-- ===== src/Verify/Answered.antt =====
-- All the results of `verify_email_with_key` of src/lib.rs.
use dkim.Prelude.{
  ℕ, suc, ◌+◌, ◌≡◌, ◌≢◌, refl, sym, ap, subst, ◌⊎◌, inl, inr, true, none, List, [], ◌∷◌, ◌++◌,
  Bytes, length, arith,
}
use dkim.DkimResult.{DkimResult, pass, fail, neutral}
use dkim.Error.{DkimError, Outcome, ok, err, panic, ◌>>=◌}
use dkim.Externals.{MailHeader, ParsedMail, Platform}
use dkim.Header.{DkimHeader}
use dkim.PublicKey.{DkimPublicKey}
use dkim.Verify.Loop.{GoesOn, AllGoOn, Decides, remembered, run_rounds-Outcomes}
use dkim.Verify.Panics.{HasOverflow, verify_email_with_key-eq-panic}
use dkim.Verify.Remembered.{AllSkip, LastError, remembered_lem}
use dkim.Verify.Round.{headers, key_round}
use dkim.Verify.Verdict.{
  AllFrom, Names, OfOther, NotValid, NotOfSender, LastInvalid, Result, Verdict, invalid, other,
  sender, unread, no_domain, verdict, round_invalid, round_other, round_sender, round_panic,
  round_no_domain,
}
use dkim.Verify.{
  Types, Flow, skip, failed, returned, last_result, with_key, verify_with_key,
  verify_email_with_key,
}

module _ (p : Platform) (clock : ℕ → p.chrono.Time) (from_domain : Bytes) (email : ParsedMail)
    (key : DkimPublicKey p.crypto) where
  abbrev verify : DkimHeader → Bytes → Flow
  verify = with_key p clock from_domain email key

  abbrev body : ℕ → MailHeader → Flow
  body = key_round p clock from_domain email key

  abbrev signatures : List MailHeader
  signatures = headers p clock from_domain email

  -- Header `h`, number `i`, is valid and of the sender's domain, and `r` is what its signature gives.
  abbrev pub OfSender : ℕ → MailHeader → Outcome DkimResult → Type 0
  OfSender i h r =
      (header : DkimHeader) × (domain : Bytes) × Names p clock from_domain i h header domain true
      × Result p clock from_domain (verify_with_key p.crypto p.unicode header email key) domain r

  -- The first valid header of the sender's domain decides.
  abbrev pub FirstOfSender : Outcome DkimResult → Type 0
  FirstOfSender r =
      (before : List MailHeader) × (h : MailHeader) × (after : List MailHeader) × (signatures
        ≡ before ++ (h ∷ after))
      × AllFrom (NotOfSender p clock from_domain) 0 before
      × OfSender (length before) h r

  -- The outcome of the first signature of the sender, or a failure by the last header that is not
  -- valid, or nothing to tell.
  abbrev pub Answers : Outcome DkimResult → Type 0
  Answers r =
      FirstOfSender r
      ⊎ ((AllFrom (NotOfSender p clock from_domain) 0 signatures
            × ((e : DkimError) × LastInvalid p clock from_domain signatures e
                × (r ≡ ok (fail e from_domain))))
          ⊎ (AllFrom (OfOther p clock from_domain) 0 signatures × (r ≡ ok (neutral from_domain))))

  -- What each way that a round ends tells of its header.
  abbrev Told : ℕ → MailHeader → Flow → Type 0
  Told i h skip = OfOther p clock from_domain i h
  Told i h (failed e) = NotValid p clock from_domain e i h
  Told i h (returned r) = (r ≡ panic) ⊎ OfSender i h r

  outcome_of : Bytes → Outcome Types → Outcome DkimResult
  outcome_of domain o = o >>= λ types. ok (pass domain types.0 types.1)

  outcome_of-Result :
      (domain : Bytes) (o : Outcome Types)
      → (outcome_of domain o ≡ panic) ⊎ Result p clock from_domain o domain (outcome_of domain o)
  unfolding outcome_of
  outcome_of-Result domain (ok types) = inr (inl (types, refl, refl))
  outcome_of-Result domain (err e) = inr (inr (e, refl, refl))
  outcome_of-Result domain panic = inl refl

  verify-Told :
      (i : ℕ) (h : MailHeader) (header : DkimHeader) (domain : Bytes)
      → Names p clock from_domain i h header domain true
      → Told i h (verify header domain)
  unfolding with_key outcome_of
  verify-Told i h header domain n =
      elim (outcome_of-Result domain (verify_with_key p.crypto p.unicode header email key)) [
        | inl e ↦ inl e
        | inr result ↦ inr (header, domain, n, result)
      ]

  told : (i : ℕ) (h : MailHeader) → Verdict p clock from_domain i h → Told i h (body i h)
  told i h (invalid e is) =
      subst (Told i h) (sym (round_invalid p clock from_domain verify e i h is)) is
  told i h (other header domain n) =
      subst (Told i h) (sym (round_other p clock from_domain verify i h header domain n))
        (header, domain, n)
  told i h (sender header domain n) =
      subst (Told i h) (sym (round_sender p clock from_domain verify i h header domain n))
        (verify-Told i h header domain n)
  told i h (unread is) =
      subst (Told i h) (sym (round_panic p clock from_domain verify i h is)) (inl refl)
  told i h (no_domain header valid is) =
      subst (Told i h) (sym (round_no_domain p clock from_domain verify i h header valid is))
        (inl refl)

  round-Told : (i : ℕ) (h : MailHeader) (f : Flow) → body i h ≡ f → Told i h f
  round-Told i h f is = subst (Told i h) is (told i h (verdict p clock from_domain i h))

  Told-NotOfSender :
      (i : ℕ) (h : MailHeader) (f : Flow)
      → Told i h f
      → GoesOn p clock from_domain f
      → NotOfSender p clock from_domain i h
  Told-NotOfSender i h skip t g = inl t
  Told-NotOfSender i h (failed e) t g = inr (e, t)
  Told-NotOfSender i h (returned r) t g = absurd g

  all_gone :
      (i : ℕ) (hs : List MailHeader)
      → AllGoOn p clock from_domain body i hs
      → AllFrom (NotOfSender p clock from_domain) i hs
  all_gone i [] go = tt
  all_gone i (h ∷ hs) (g, go) =
      (Told-NotOfSender i h (body i h) (round-Told i h _ refl) g, all_gone (suc i) hs go)

  all_skipped :
      (i : ℕ) (hs : List MailHeader)
      → AllSkip p clock from_domain body i hs
      → AllFrom (OfOther p clock from_domain) i hs
  all_skipped i [] skips = tt
  all_skipped i (h ∷ hs) (s, skips) = (round-Told i h skip s, all_skipped (suc i) hs skips)

  last_invalid :
      (hs : List MailHeader) (e : DkimError)
      → LastError p clock from_domain body 0 hs e
      → LastInvalid p clock from_domain hs e
  last_invalid hs e l =
      let z : 0 + length l.before ≡ length l.before = omega arith in
      record {
        earlier = l.before;
        h = l.h;
        later = l.after;
        split_at = l.split_at;
        invalid =
            round-Told (length l.before) l.h (failed e)
              (subst (λ n. body n l.h ≡ failed e) z l.fails);
        others =
            all_skipped (suc (length l.before)) l.after
              (subst (λ n. AllSkip p clock from_domain body (suc n) l.after) z l.skips);
      }

  first_of_sender :
      {r : Outcome DkimResult}
      → r ≢ panic
      → Decides p clock from_domain body 0 signatures r
      → FirstOfSender r
  first_of_sender {r} calm d =
      let z : 0 + length d.before ≡ length d.before = omega arith in
      let ends = subst (λ n. body n d.h ≡ returned r) z d.returns in
      elim (round-Told (length d.before) d.h (returned r) ends) [
        | inl e ↦ absurd (calm e)
        | inr of_sender ↦
            (d.before, d.h, d.after, d.split_at, all_gone 0 d.before d.go_on, of_sender)
      ]

  last-Answers :
      AllGoOn p clock from_domain body 0 signatures
      → Answers
          (last_result p clock from_domain (remembered p clock from_domain body 0 none signatures))
  last-Answers go = elim (remembered_lem p clock from_domain body 0 none signatures go) [
    | inl (skips, r) ↦
        inr (inr (all_skipped 0 signatures skips, ap (last_result p clock from_domain) r))
    | inr (e, l, r) ↦ inr (
        inl (
          all_gone 0 signatures go,
          (e, last_invalid signatures e l, ap (last_result p clock from_domain) r),
        ))
  ]

  -- If no header's x= overflows the drift, verify_email_with_key gives what the first header gives
  -- that is valid and whose d= is the sender's domain: its pass, with that domain and its
  -- canonicalization types, if its signature is accepted with the key, or the error by which it is
  -- refused. If there is no such header, it gives a failure by the error of the last header that
  -- is not valid, those behind it being valid and of other domains, or neutral if all headers are
  -- valid and of other domains.
  pub verify_email_with_key_total :
      (HasOverflow p clock from_domain email → ⊥)
      → Answers (verify_email_with_key p clock from_domain email key)
  unfolding verify_email_with_key
  verify_email_with_key_total no_overflow =
      elim (run_rounds-Outcomes p clock from_domain body 0 none signatures) [
        | inl d ↦ inl (
            first_of_sender
              (λ e. no_overflow (verify_email_with_key-eq-panic p clock from_domain email key e)) d)
        | inr (go, last) ↦ subst Answers (sym last) (last-Answers go)
      ]
