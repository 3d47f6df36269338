-- ===== src/Verify/Refines.antt =====
-- The loops of src/lib.rs over the headers, against their steps.
use dkim.Prelude.{
  ℕ, suc, ◌≡◌, ◌↔◌, refl, sym, subst, ◌∙◌, Bool, true, false, List, [], ◌∷◌, Option, none, some,
  Bytes,
}
use dkim.DkimResult.{DkimResult, pass}
use dkim.Error.{DkimError, Outcome, ok, err, panic, ◌>>=◌}
use dkim.Externals.{MailHeader, ParsedMail, Platform}
use dkim.Header.{DkimHeader}
use dkim.PublicKey.{DkimPublicKey, Lookup}
use dkim.Verify.Round.{headers}
use dkim.Verify.Steps.{
  State, before, finished, Step, not_valid, of_other, verified, retried, refused, not_read,
  without_domain, not_verified, ended_failed, ended_neutral, Runs, here, then, ResolverRuns,
  KeyRuns,
}
use dkim.Verify.Verdict.{
  Names, Verdict, invalid, other, sender, unread, no_domain, verdict, round_invalid, round_other,
  round_sender, round_panic, round_no_domain,
}
use dkim.Verify.{
  Types, Flow, skip, failed, returned, run_rounds, round, resolved, verify_email_header,
  verify_with_key, with_resolver, with_key, verify_email_with_resolver, verify_email_with_key,
}

module _ (p : Platform) (clock : ℕ → p.chrono.Time) (from_domain : Bytes) (email : ParsedMail)
    (verify : DkimHeader → Outcome Types) (retries : Bool) where
  -- The body of the loops.
  unfoldable pub flow_of : Bool → Bytes → Outcome Types → Flow
  flow_of true domain o = resolved p clock from_domain email domain o
  flow_of false domain o = returned (o >>= λ types. ok (pass domain types.0 types.1))

  abbrev body_of : DkimHeader → Bytes → Flow
  body_of header domain = flow_of retries domain (verify header)

  abbrev pub body : ℕ → MailHeader → Flow
  body = round p clock from_domain (λ header domain. flow_of retries domain (verify header))

  abbrev outcome : State → Outcome DkimResult
  outcome (before i last hs) = run_rounds p clock from_domain body i last hs
  outcome (finished r) = r

  flow_ok :
      (again : Bool) (domain : Bytes) (types : Types)
      → flow_of again domain (ok types) ≡ returned (ok (pass domain types.0 types.1))
  unfolding flow_of
  flow_ok true domain types = refl
  flow_ok false domain types = refl

  flow_panic : (again : Bool) (domain : Bytes) → flow_of again domain panic ≡ returned panic
  unfolding flow_of
  flow_panic true domain = refl
  flow_panic false domain = refl

  flow_err_true :
      (again : Bool) (domain : Bytes) (e : DkimError)
      → again ≡ true
      → flow_of again domain (err e) ≡ failed e
  unfolding flow_of
  flow_err_true true domain e is = refl
  flow_err_true false domain e is = absurd (cc)

  flow_err_false :
      (again : Bool) (domain : Bytes) (e : DkimError)
      → again ≡ false
      → flow_of again domain (err e) ≡ returned (err e)
  unfolding flow_of
  flow_err_false true domain e is = absurd (cc)
  flow_err_false false domain e is = refl

  sender_flow :
      (i : ℕ) (h : MailHeader) (header : DkimHeader) (domain : Bytes) (o : Outcome Types)
      → Names p clock from_domain i h header domain true
      → verify header ≡ o
      → body i h ≡ flow_of retries domain o
  sender_flow i h header domain o n is =
      rw (round_sender p clock from_domain body_of i h header domain n, is)

  after_skip :
      (i : ℕ) (last : Option DkimError) (h : MailHeader) (hs : List MailHeader)
      → body i h ≡ skip
      → outcome (before i last (h ∷ hs)) ≡ outcome (before (suc i) last hs)
  unfolding run_rounds
  after_skip i last h hs is = rw (is, run_rounds)

  after_failed :
      (i : ℕ) (last : Option DkimError) (h : MailHeader) (hs : List MailHeader) (e : DkimError)
      → body i h ≡ failed e
      → outcome (before i last (h ∷ hs)) ≡ outcome (before (suc i) (some e) hs)
  unfolding run_rounds
  after_failed i last h hs e is = rw (is, run_rounds)

  after_returned :
      (i : ℕ) (last : Option DkimError) (h : MailHeader) (hs : List MailHeader)
      (r : Outcome DkimResult)
      → body i h ≡ returned r
      → outcome (before i last (h ∷ hs)) ≡ r
  unfolding run_rounds
  after_returned i last h hs r is = rw (is, run_rounds)

  -- A step keeps the outcome.
  Step-outcome :
      {s t : State} → Step p clock from_domain email verify retries s t → outcome s ≡ outcome t
  unfolding run_rounds
  Step-outcome (not_valid i last h hs e is) =
      after_failed i last h hs e (round_invalid p clock from_domain body_of e i h is)
  Step-outcome (of_other i last h hs header domain n) =
      after_skip i last h hs (round_other p clock from_domain body_of i h header domain n)
  Step-outcome (verified i last h hs header domain types n is) =
      after_returned i last h hs _
        (sender_flow i h header domain (ok types) n is ∙ flow_ok retries domain types)
  Step-outcome (retried i last h hs header domain e n is again) =
      after_failed i last h hs e
        (sender_flow i h header domain (err e) n is ∙ flow_err_true retries domain e again)
  Step-outcome (refused i last h hs header domain e n is again) =
      after_returned i last h hs (err e)
        (sender_flow i h header domain (err e) n is ∙ flow_err_false retries domain e again)
  Step-outcome (not_read i last h hs is) =
      after_returned i last h hs panic (round_panic p clock from_domain body_of i h is)
  Step-outcome (without_domain i last h hs header valid is) =
      after_returned i last h hs panic
        (round_no_domain p clock from_domain body_of i h header valid is)
  Step-outcome (not_verified i last h hs header domain n is) =
      after_returned i last h hs panic
        (sender_flow i h header domain panic n is ∙ flow_panic retries domain)
  Step-outcome (ended_failed i e) = refl
  Step-outcome (ended_neutral i) = refl

  Runs-outcome :
      {s t : State} → Runs p clock from_domain email verify retries s t → outcome s ≡ outcome t
  Runs-outcome (here s) = refl
  Runs-outcome (then st r) = Step-outcome st ∙ Runs-outcome r

  abbrev Finishes : State → Type 0
  Finishes s = Runs p clock from_domain email verify retries s (finished (outcome s))

  -- A step to a state that finishes.
  step_on :
      {s t : State} → Step p clock from_domain email verify retries s t → Finishes t → Finishes s
  step_on {s} {t} st run = then st (
      subst (λ r. Runs p clock from_domain email verify retries t (finished r))
        (sym (Step-outcome st)) run)

  sender_Finishes :
      (i : ℕ) (last : Option DkimError) (h : MailHeader) (hs : List MailHeader)
      (header : DkimHeader) (domain : Bytes) (o : Outcome Types) (again : Bool)
      → Names p clock from_domain i h header domain true
      → verify header ≡ o
      → retries ≡ again
      → ((last : Option DkimError) → Finishes (before (suc i) last hs))
      → Finishes (before i last (h ∷ hs))
  sender_Finishes i last h hs header domain (ok types) again n is a later =
      step_on (verified i last h hs header domain types n is) (here _)
  sender_Finishes i last h hs header domain (err e) true n is a later =
      step_on (retried i last h hs header domain e n is a) (later (some e))
  sender_Finishes i last h hs header domain (err e) false n is a later =
      step_on (refused i last h hs header domain e n is a) (here _)
  sender_Finishes i last h hs header domain panic again n is a later =
      step_on (not_verified i last h hs header domain n is) (here _)

  Verdict-Finishes :
      (i : ℕ) (last : Option DkimError) (h : MailHeader) (hs : List MailHeader)
      → Verdict p clock from_domain i h
      → ((last : Option DkimError) → Finishes (before (suc i) last hs))
      → Finishes (before i last (h ∷ hs))
  Verdict-Finishes i last h hs (invalid e is) later =
      step_on (not_valid i last h hs e is) (later (some e))
  Verdict-Finishes i last h hs (other header domain n) later =
      step_on (of_other i last h hs header domain n) (later last)
  Verdict-Finishes i last h hs (sender header domain n) later =
      sender_Finishes i last h hs header domain (verify header) retries n refl refl later
  Verdict-Finishes i last h hs (unread is) later = step_on (not_read i last h hs is) (here _)
  Verdict-Finishes i last h hs (no_domain header valid is) later =
      step_on (without_domain i last h hs header valid is) (here _)

  -- The loop ends, in as many steps as there are headers and one more at most.
  Runs-finished :
      (i : ℕ) (last : Option DkimError) (hs : List MailHeader) → Finishes (before i last hs)
  Runs-finished i none [] = step_on (ended_neutral i) (here _)
  Runs-finished i (some e) [] = step_on (ended_failed i e) (here _)
  Runs-finished i last (h ∷ hs) =
      Verdict-Finishes i last h hs (verdict p clock from_domain i h)
        (λ last. Runs-finished (suc i) last hs)

  pub Runs-iff :
      (hs : List MailHeader) (r : Outcome DkimResult)
      → (run_rounds p clock from_domain body 0 none hs ≡ r)
        ↔ Runs p clock from_domain email verify retries (before 0 none hs) (finished r)
  Runs-iff hs r = (
    λ e.
        subst (λ r. Runs p clock from_domain email verify retries (before 0 none hs) (finished r)) e
          (Runs-finished 0 none hs),
    Runs-outcome,
  )

module _ (p : Platform) (clock : ℕ → p.chrono.Time) (from_domain : Bytes) (email : ParsedMail)
    (resolver : Lookup) (key : DkimPublicKey p.crypto) (r : Outcome DkimResult) where
  -- verify_email_with_resolver and verify_email_with_key give an outcome exactly if steps lead to
  -- it from the first header, with no error remembered. A header that is not valid has its error
  -- remembered; a valid one of another domain is passed over; a valid one of the sender's domain
  -- ends the run in a pass if its signature verifies, and otherwise in its error with a key, or
  -- has that error remembered with a resolver. A panic ends the run. After the last header the run
  -- ends in a failure by the error remembered last, or in neutral if there is none.
  pub loops-Runs :
      ((verify_email_with_resolver p clock from_domain email resolver ≡ r)
        ↔ ResolverRuns p clock from_domain email resolver key r)
      × ((verify_email_with_key p clock from_domain email key ≡ r)
          ↔ KeyRuns p clock from_domain email resolver key r)
  unfolding verify_email_with_resolver verify_email_with_key with_resolver with_key flow_of
  loops-Runs = (
    Runs-iff p clock from_domain email (λ header. verify_email_header p clock resolver header email)
        true (headers p clock from_domain email) r,
    Runs-iff p clock from_domain email
        (λ header. verify_with_key p.crypto p.unicode header email key) false
        (headers p clock from_domain email) r,
  )
