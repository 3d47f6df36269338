-- ===== src/Verify/Loop.antt =====
-- The loops of src/lib.rs over the DKIM-Signature headers of an email.
use dkim.Prelude.{
  ℕ, suc, ◌+◌, ◌≡◌, refl, sym, ap, subst, ◌∙◌, List, [], ◌∷◌, ◌++◌, ◌⊎◌, inl, inr, Option, none,
  some, Bytes, length, arith,
}
use dkim.DkimResult.{DkimResult}
use dkim.Error.{DkimError, Outcome}
use dkim.Externals.{MailHeader, Platform}
use dkim.Verify.{Flow, skip, failed, returned, last_result, run_rounds}

module _ (p : Platform) (clock : ℕ → p.chrono.Time) (from_domain : Bytes) where
  abbrev Body : Type 0
  Body = ℕ → MailHeader → Flow

  -- The rounds that go on to the next header.
  abbrev pub GoesOn : Flow → Type 0
  GoesOn skip = Unit
  GoesOn (failed _) = Unit
  GoesOn (returned _) = ⊥

  abbrev pub AllGoOn : Body → ℕ → List MailHeader → Type 0
  AllGoOn body i [] = Unit
  AllGoOn body i (h ∷ hs) = GoesOn (body i h) × AllGoOn body (suc i) hs

  -- The error that is remembered after one round, and after rounds that all go on.
  abbrev pub keep : Option DkimError → Flow → Option DkimError
  keep last skip = last
  keep last (failed e) = some e
  keep last (returned r) = last

  abbrev pub remembered : Body → ℕ → Option DkimError → List MailHeader → Option DkimError
  remembered body i last [] = last
  remembered body i last (h ∷ hs) = remembered body (suc i) (keep last (body i h)) hs

  abbrev pub run : Body → ℕ → Option DkimError → List MailHeader → Outcome DkimResult
  run = run_rounds p clock from_domain

  abbrev pub after_flow : Body → ℕ → Option DkimError → List MailHeader → Flow → Outcome DkimResult
  after_flow body i last hs skip = run body (suc i) last hs
  after_flow body i last hs (failed e) = run body (suc i) (some e) hs
  after_flow body i last hs (returned r) = r

  pub run_rounds-step :
      (body : Body) (i : ℕ) (last : Option DkimError) (h : MailHeader) (hs : List MailHeader)
      → run body i last (h ∷ hs) ≡ after_flow body i last hs (body i h)
  unfolding run_rounds
  run_rounds-step body i last h hs =
      elim (body i h)
        as (λ f.
          elim f [
            | skip ↦ run body (suc i) last hs
            | failed e ↦ run body (suc i) (some e) hs
            | returned r ↦ r
          ]
          ≡ after_flow body i last hs f) [ skip ↦ refl | failed e ↦ refl | returned r ↦ refl ]

  goes_on :
      (body : Body) (i : ℕ) (last : Option DkimError) (hs : List MailHeader) (f : Flow)
      → GoesOn f
      → after_flow body i last hs f ≡ run body (suc i) (keep last f) hs
  goes_on body i last hs skip g = refl
  goes_on body i last hs (failed e) g = refl
  goes_on body i last hs (returned r) g = absurd g

  -- Rounds that go on leave the headers behind them, with the error that they remember.
  run_rounds-append :
      (body : Body) (before after : List MailHeader) (i : ℕ) (last : Option DkimError)
      → AllGoOn body i before
      → run body i last (before ++ after)
        ≡ run body (i + length before) (remembered body i last before) after
  run_rounds-append body [] after i last g =
      let e : i ≡ i + 0 = omega arith in ap (λ n. run body n last after) e
  run_rounds-append body (x ∷ before) after i last (g, gs) =
      let shift : suc i + length before ≡ i + suc (length before) = omega arith in
      run_rounds-step body i last x (before ++ after)
      ∙ goes_on body i last (before ++ after) (body i x) g
      ∙ run_rounds-append body before after (suc i) (keep last (body i x)) gs
      ∙ ap (λ n. run body n (remembered body (suc i) (keep last (body i x)) before) after) shift

  -- The header that decides: every round before it goes on, and its round returns.
  pub record Decides (body : Body) (i : ℕ) (hs : List MailHeader) (r : Outcome DkimResult)
      : Type 0 where
    pub before : List MailHeader
    pub h : MailHeader
    pub after : List MailHeader
    pub split_at : hs ≡ before ++ (h ∷ after)
    pub go_on : AllGoOn body i before
    pub returns : body (i + length before) h ≡ returned r

  Decides-later :
      (body : Body) (i : ℕ) (x : MailHeader) {hs : List MailHeader} {r : Outcome DkimResult}
      → GoesOn (body i x)
      → Decides body (suc i) hs r
      → Decides body i (x ∷ hs) r
  Decides-later body i x {hs} {r} g d =
      let shift : suc i + length d.before ≡ i + suc (length d.before) = omega arith in
      record {
        before = x ∷ d.before;
        h = d.h;
        after = d.after;
        split_at = ap (λ l. x ∷ l) d.split_at;
        go_on = (g, d.go_on);
        returns = subst (λ n. body n d.h ≡ returned r) shift d.returns;
      }

  abbrev Outcomes : Body → ℕ → Option DkimError → List MailHeader → Type 0
  Outcomes body i last hs =
      Decides body i hs (run body i last hs)
      ⊎ (AllGoOn body i hs
          × (run body i last hs ≡ last_result p clock from_domain (remembered body i last hs)))

  Flow-cases : (f : Flow) → GoesOn f ⊎ ((r : Outcome DkimResult) × (f ≡ returned r))
  Flow-cases skip = inl tt
  Flow-cases (failed e) = inl tt
  Flow-cases (returned r) = inr (r, refl)

  run_rounds-nil :
      (body : Body) (i : ℕ) (last : Option DkimError)
      → run body i last [] ≡ last_result p clock from_domain last
  unfolding run_rounds
  run_rounds-nil body i last = refl

  Outcomes-later :
      (body : Body) (i : ℕ) (last : Option DkimError) (h : MailHeader) (hs : List MailHeader)
      → GoesOn (body i h)
      → Outcomes body (suc i) (keep last (body i h)) hs
      → Outcomes body i last (h ∷ hs)
  Outcomes-later body i last h hs g o =
      let step = run_rounds-step body i last h hs ∙ goes_on body i last hs (body i h) g in
      elim o [
        | inl d ↦ inl (subst (Decides body i (h ∷ hs)) (sym step) (Decides-later body i h g d))
        | inr (gs, e) ↦ inr ((g, gs), step ∙ e)
      ]

  -- Either one header decides the loop, or all rounds go on and the error remembered is the result.
  pub run_rounds-Outcomes :
      (body : Body) (i : ℕ) (last : Option DkimError) (hs : List MailHeader)
      → Outcomes body i last hs
  run_rounds-Outcomes body i last [] = inr (tt, run_rounds-nil body i last)
  run_rounds-Outcomes body i last (h ∷ hs) = elim (Flow-cases (body i h)) [
    | inl g ↦ Outcomes-later body i last h hs g (run_rounds-Outcomes body (suc i) _ hs)
    | inr (r, e) ↦ inl (record {
      before = [];
      h = h;
      after = hs;
      split_at = refl;
      go_on = tt;
      returns =
          let z : i ≡ i + 0 = omega arith in
          subst (λ n. body n h ≡ returned (run body i last (h ∷ hs))) z
            (e
              ∙ ap returned
                  (sym (run_rounds-step body i last h hs ∙ ap (after_flow body i last hs) e)));
    })
  ]

  -- After rounds that go on, a header whose round returns is the result.
  pub run_rounds_decided :
      (body : Body) (hs : List MailHeader) {r : Outcome DkimResult}
      → Decides body 0 hs r
      → run body 0 none hs ≡ r
  run_rounds_decided body hs d =
      ap (run body 0 none) d.split_at
      ∙ run_rounds-append body d.before (d.h ∷ d.after) 0 none d.go_on
      ∙ run_rounds-step body (0 + length d.before) _ d.h d.after
      ∙ ap (after_flow body (0 + length d.before) _ d.after) d.returns
