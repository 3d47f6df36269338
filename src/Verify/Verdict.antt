-- ===== src/Verify/Verdict.antt =====
-- What one header is to the loops of src/lib.rs: by its validation, its d= tag and its signature.
use dkim.Prelude.{
  ℕ, suc, ◌≡◌, refl, ◌⊎◌, inl, inr, Bool, true, false, Bool-cases, List, [], ◌∷◌, ◌++◌, Bytes,
  codes, length,
}
use dkim.DkimResult.{DkimResult, pass}
use dkim.Error.{DkimError, Outcome, ok, err, panic}
use dkim.Externals.{MailHeader, Platform}
use dkim.Header.{DkimHeader, get_required_tag}
use dkim.Verify.Refusals.{get_required_tag-ne-err}
use dkim.Verify.{Types, Flow, skip, failed, returned, validated, same_domain, round}

-- What holds of each header, from number `i` on.
abbrev pub AllFrom : (ℕ → MailHeader → Type 0) → ℕ → List MailHeader → Type 0
AllFrom P i [] = Unit
AllFrom P i (h ∷ hs) = P i h × AllFrom P (suc i) hs

module _ (p : Platform) (clock : ℕ → p.chrono.Time) (from_domain : Bytes) where
  -- Header `h`, number `i`, validates as `header`, whose d= is `domain`; `same` says whether that
  -- is the sender's domain.
  pub record Names (i : ℕ) (h : MailHeader) (header : DkimHeader) (domain : Bytes) (same : Bool)
      : Type 0 where
    pub valid : validated p clock i h ≡ ok header
    pub domain_is : get_required_tag header (codes "d") ≡ ok domain
    pub compared : same_domain p clock domain from_domain ≡ same

  -- Valid, and of another domain than the sender's.
  abbrev pub OfOther : ℕ → MailHeader → Type 0
  OfOther i h = (header : DkimHeader) × (domain : Bytes) × Names i h header domain false

  -- Not valid, by the error that validate_header gives.
  abbrev pub NotValid : DkimError → ℕ → MailHeader → Type 0
  NotValid e i h = validated p clock i h ≡ err e

  abbrev pub NotOfSender : ℕ → MailHeader → Type 0
  NotOfSender i h = OfOther i h ⊎ ((e : DkimError) × NotValid e i h)

  -- The last header that is not valid, with its error: those behind it are valid and of others.
  pub record LastInvalid (hs : List MailHeader) (e : DkimError) : Type 0 where
    pub earlier : List MailHeader
    pub h : MailHeader
    pub later : List MailHeader
    pub split_at : hs ≡ earlier ++ (h ∷ later)
    pub invalid : NotValid e (length earlier) h
    pub others : AllFrom OfOther (suc (length earlier)) later

  -- The result of a signature: its pass, or the error that refuses it.
  abbrev pub Result : Outcome Types → Bytes → Outcome DkimResult → Type 0
  Result verified domain r =
      ((types : Types) × (verified ≡ ok types) × (r ≡ ok (pass domain types.0 types.1)))
      ⊎ ((e : DkimError) × (verified ≡ err e) × (r ≡ err e))

  module _ (verify : DkimHeader → Bytes → Flow) where
    pub round_invalid :
        (e : DkimError) (i : ℕ) (h : MailHeader)
        → NotValid e i h
        → round p clock from_domain verify i h ≡ failed e
    unfolding round
    round_invalid e i h is = rw is

    pub round_other :
        (i : ℕ) (h : MailHeader) (header : DkimHeader) (domain : Bytes)
        → Names i h header domain false
        → round p clock from_domain verify i h ≡ skip
    unfolding round
    round_other i h header domain n = rw (n.valid, n.domain_is, n.compared)

    pub round_sender :
        (i : ℕ) (h : MailHeader) (header : DkimHeader) (domain : Bytes)
        → Names i h header domain true
        → round p clock from_domain verify i h ≡ verify header domain
    unfolding round
    round_sender i h header domain n = rw (n.valid, n.domain_is, n.compared)

    pub round_panic :
        (i : ℕ) (h : MailHeader)
        → validated p clock i h ≡ panic
        → round p clock from_domain verify i h ≡ returned panic
    unfolding round
    round_panic i h is = rw is

    pub round_no_domain :
        (i : ℕ) (h : MailHeader) (header : DkimHeader)
        → validated p clock i h ≡ ok header
        → get_required_tag header (codes "d") ≡ panic
        → round p clock from_domain verify i h ≡ returned panic
    unfolding round
    round_no_domain i h header valid is = rw (valid, is)

  -- What a header can be.
  pub data Verdict (i : ℕ) (h : MailHeader) : Type 0 where
    invalid : (e : DkimError) → NotValid e i h → Verdict i h
    other : (header : DkimHeader) (domain : Bytes) → Names i h header domain false → Verdict i h
    sender : (header : DkimHeader) (domain : Bytes) → Names i h header domain true → Verdict i h
    unread : validated p clock i h ≡ panic → Verdict i h
    no_domain :
        (header : DkimHeader)
        → validated p clock i h ≡ ok header
        → get_required_tag header (codes "d") ≡ panic
        → Verdict i h

  pub verdict : (i : ℕ) (h : MailHeader) → Verdict i h
  verdict i h = of_validation (validated p clock i h) refl
    where
      of_tag :
          (header : DkimHeader) (o : Outcome Bytes)
          → validated p clock i h ≡ ok header
          → get_required_tag header (codes "d") ≡ o
          → Verdict i h
      of_tag header (ok domain) valid is =
          elim (Bool-cases (same_domain p clock domain from_domain)) [
            | inl t ↦ sender header domain (record { valid = valid; domain_is = is; compared = t })
            | inr f ↦ other header domain (record { valid = valid; domain_is = is; compared = f })
          ]
      of_tag header (err x) valid is = absurd (get_required_tag-ne-err header (codes "d") x is)
      of_tag header panic valid is = no_domain header valid is

      of_validation : (m : Outcome DkimHeader) → validated p clock i h ≡ m → Verdict i h
      of_validation (ok header) is = of_tag header (get_required_tag header (codes "d")) is refl
      of_validation (err e) is = invalid e is
      of_validation panic is = unread is
