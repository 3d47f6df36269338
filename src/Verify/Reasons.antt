-- ===== src/Verify/Reasons.antt =====
-- The errors that src/lib.rs reports for an email have a status.
use dkim.Prelude.{
  ℕ, suc, ◌≡◌, ◌≢◌, refl, subst, Bool-cases, List, [], ◌∷◌, ◌⊎◌, inl, inr, Option, none, some,
  Bytes, codes,
}
use dkim.DkimResult.{DkimResult, pass, fail, neutral}
use dkim.Error.Statuses.{IsVerdict, IsVerdict-status, Verdicts, Verdicts-bind}
use dkim.Error.{DkimError, Outcome, ok, err, panic, ◌>>=◌, status}
use dkim.Externals.{MailHeader, ParsedMail, Platform}
use dkim.Header.{DkimHeader, header_name}
use dkim.PublicKey.Statuses.{retrieve_public_key-Verdicts, lookup_txt-Verdicts}
use dkim.PublicKey.{DkimPublicKey, Lookup, ResolveError, lookup_txt, from_tokio_resolver}
use dkim.Validate.Statuses.{validate_header-Verdicts, get_required_tag-Verdicts}
use dkim.Verify.Statuses.{verify_with_key-Verdicts}
use dkim.Verify.{
  Types, Flow, skip, failed, returned, verify_email_header, same_domain, last_result, resolved,
  of_domain, of_header, round, run_rounds, with_resolver, with_key, verify_email_with_resolver,
  verify_email_with_key, verify_email,
}

-- The reason that a result gives, if it gives one.
abbrev ReasonIsVerdict : Option DkimError → Type 0
ReasonIsVerdict none = Unit
ReasonIsVerdict (some e) = IsVerdict e

abbrev Result : Outcome DkimResult → Type 0
Result (ok result) = ReasonIsVerdict result.error
Result (err e) = IsVerdict e
Result panic = Unit

abbrev Fine : Flow → Type 0
Fine skip = Unit
Fine (failed e) = IsVerdict e
Fine (returned m) = Result m

-- An error that is returned, or that is the reason in a result.
abbrev pub Gives : Outcome DkimResult → DkimError → Type 0
Gives m e = (m ≡ err e) ⊎ ((result : DkimResult) × (m ≡ ok result) × (result.error ≡ some e))

Result-Gives : (m : Outcome DkimResult) (e : DkimError) → Result m → Gives m e → status e ≢ panic
Result-Gives m e good (inl is) = IsVerdict-status e (subst Result is good)
Result-Gives m e good (inr (result, is, reason)) =
    IsVerdict-status e (subst ReasonIsVerdict reason (subst Result is good))

module _ (p : Platform) (clock : ℕ → p.chrono.Time) (from_domain : Bytes) (email : ParsedMail) where
  of_domain-Fine :
      (verify : DkimHeader → Bytes → Flow) (header : DkimHeader) (o : Outcome Bytes)
      → ((header : DkimHeader) (domain : Bytes) → Fine (verify header domain))
      → Verdicts o
      → Fine (of_domain p clock from_domain header verify o)
  of_domain-Fine verify header (ok domain) fine v =
      elim (Bool-cases (same_domain p clock domain from_domain)) [
        | inl t ↦
            subst (λ b. Fine (dkim.Prelude.if◌then◌else◌ b (verify header domain) skip))
              (dkim.Prelude.sym t) (fine header domain)
        | inr f ↦
            subst (λ b. Fine (dkim.Prelude.if◌then◌else◌ b (verify header domain) skip))
              (dkim.Prelude.sym f) tt
      ]
  of_domain-Fine verify header (err e) fine v = v.at e refl
  of_domain-Fine verify header panic fine v = tt

  of_header-Fine :
      (verify : DkimHeader → Bytes → Flow) (m : Outcome DkimHeader)
      → ((header : DkimHeader) (domain : Bytes) → Fine (verify header domain))
      → Verdicts m
      → Fine (of_header p clock from_domain verify m)
  of_header-Fine verify (ok header) fine v =
      of_domain-Fine verify header _ fine (get_required_tag-Verdicts header (codes "d"))
  of_header-Fine verify (err e) fine v = v.at e refl
  of_header-Fine verify panic fine v = tt

  round-Fine :
      (verify : DkimHeader → Bytes → Flow)
      → ((header : DkimHeader) (domain : Bytes) → Fine (verify header domain))
      → (i : ℕ) (h : MailHeader) → Fine (round p clock from_domain verify i h)
  unfolding round
  round-Fine verify fine i h =
      of_header-Fine verify _ fine (validate_header-Verdicts p.nom p.unicode p.chrono (clock i) _)

  last_result-Result :
      (last : Option DkimError)
      → ReasonIsVerdict last
      → Result (last_result p clock from_domain last)
  unfolding fail neutral
  last_result-Result none v = tt
  last_result-Result (some e) v = v

  run_rounds-Result :
      (body : ℕ → MailHeader → Flow)
      → ((i : ℕ) (h : MailHeader) → Fine (body i h))
      → (i : ℕ) (last : Option DkimError) (hs : List MailHeader) → ReasonIsVerdict last
      → Result (run_rounds p clock from_domain body i last hs)
  unfolding run_rounds
  run_rounds-Result body fine i last [] v = last_result-Result last v
  run_rounds-Result body fine i last (h ∷ hs) v =
      (elim (body i h)
          as (λ f.
            Fine f
            → Result (elim f [
              | skip ↦ run_rounds p clock from_domain body (suc i) last hs
              | failed e ↦ run_rounds p clock from_domain body (suc i) (some e) hs
              | returned r ↦ r
            ])) [
              | skip ↦ λ g. run_rounds-Result body fine (suc i) last hs v
              | failed e ↦ λ g. run_rounds-Result body fine (suc i) (some e) hs g
              | returned r ↦ λ g. g
            ])
        (fine i h)

  passed-Result :
      (domain : Bytes) (m : Outcome Types)
      → Verdicts m
      → Result (m >>= λ types. ok (pass domain types.0 types.1))
  unfolding pass
  passed-Result domain (ok types) v = tt
  passed-Result domain (err e) v = v.at e refl
  passed-Result domain panic v = tt

  with_key-Fine :
      (key : DkimPublicKey p.crypto) (header : DkimHeader) (domain : Bytes)
      → Fine (with_key p clock from_domain email key header domain)
  unfolding with_key
  with_key-Fine key header domain =
      passed-Result domain _ (verify_with_key-Verdicts p.crypto p.unicode header email key)

  resolved-Fine :
      (domain : Bytes) (m : Outcome Types)
      → Verdicts m
      → Fine (resolved p clock from_domain email domain m)
  unfolding pass
  resolved-Fine domain (ok types) v = tt
  resolved-Fine domain (err e) v = v.at e refl
  resolved-Fine domain panic v = tt

  verify_email_header-Verdicts :
      (resolver : Lookup) (header : DkimHeader)
      → ((name : Bytes) → Verdicts (resolver name))
      → Verdicts (verify_email_header p clock resolver header email)
  unfolding verify_email_header
  verify_email_header-Verdicts resolver header v =
      Verdicts-bind _ _ (get_required_tag-Verdicts header (codes "d")) (λ domain.
        Verdicts-bind _ _ (get_required_tag-Verdicts header (codes "s")) (λ selector.
          Verdicts-bind _ _ (retrieve_public_key-Verdicts p.crypto p.nom resolver domain selector v)
            (λ key. verify_with_key-Verdicts p.crypto p.unicode header email key)))

  -- An error that verify_email_with_key returns or gives as a reason has a status.
  pub verify_email_with_key-status :
      (key : DkimPublicKey p.crypto) (e : DkimError)
      → Gives (verify_email_with_key p clock from_domain email key) e
      → status e ≢ panic
  unfolding verify_email_with_key
  verify_email_with_key-status key e gives =
      Result-Gives _ e
        (run_rounds-Result _ (round-Fine _ (with_key-Fine key)) 0 none
          (p.mailparse.get_all_headers email.headers header_name) tt)
        gives

  -- With a resolver whose errors have a status, the error that the loop gives has one.
  pub verify_email_with_resolver-status :
      (resolver : Lookup) (e : DkimError)
      → ((name : Bytes) → Verdicts (resolver name))
      → Gives (verify_email_with_resolver p clock from_domain email resolver) e
      → status e ≢ panic
  unfolding verify_email_with_resolver with_resolver
  verify_email_with_resolver-status resolver e v gives =
      Result-Gives _ e
        (run_rounds-Result _
          (round-Fine _ (λ header domain.
            resolved-Fine domain _ (verify_email_header-Verdicts resolver header v)))
          0 none (p.mailparse.get_all_headers email.headers header_name) tt)
        gives

  -- An error that verify_email returns, or gives as the reason of its result, has a status:
  -- DKIMError::status does not panic on it.
  pub verify_email-status :
      (system : Bytes ⊎ (Bytes → ResolveError ⊎ List (List Bytes))) (e : DkimError)
      → Gives (verify_email p clock system from_domain email) e
      → status e ≢ panic
  unfolding verify_email from_tokio_resolver
  verify_email-status (inl text) e gives = Result-Gives _ e tt gives
  verify_email-status (inr inner) e gives =
      verify_email_with_resolver-status (lookup_txt p.unicode inner) e
        (lookup_txt-Verdicts p.unicode inner) gives
