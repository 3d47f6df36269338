-- ===== src/Verify/Steps.antt =====
-- The loops of src/lib.rs over the headers of an email, one header at a time.
use dkim.Prelude.{ℕ, suc, ◌≡◌, Bool, true, false, List, [], ◌∷◌, Option, none, some, Bytes, codes}
use dkim.DkimResult.{DkimResult, pass, fail, neutral}
use dkim.Error.{DkimError, Outcome, ok, err, panic}
use dkim.Externals.{MailHeader, ParsedMail, Platform}
use dkim.Header.{DkimHeader, get_required_tag}
use dkim.PublicKey.{DkimPublicKey, Lookup}
use dkim.Verify.Round.{headers}
use dkim.Verify.Verdict.{Names, NotValid}
use dkim.Verify.{Types, validated, verify_email_header, verify_with_key}

-- Before the header with number `i`, with the last error and the headers that are left, or at the end.
pub data State : Type 0 where
  before : ℕ → Option DkimError → List MailHeader → State
  finished : Outcome DkimResult → State

module _ (p : Platform) (clock : ℕ → p.chrono.Time) (from_domain : Bytes) (email : ParsedMail)
    (verify : DkimHeader → Outcome Types) (retries : Bool) where
  -- What becomes of each header: `verify` reads the signature, and `retries` says whether the loop
  -- tries the next header when that fails.
  pub data Step : State → State → Type 0 where
    not_valid :
        (i : ℕ) (last : Option DkimError) (h : MailHeader) (hs : List MailHeader) (e : DkimError)
        → NotValid p clock from_domain e i h
        → Step (before i last (h ∷ hs)) (before (suc i) (some e) hs)
    of_other :
        (i : ℕ) (last : Option DkimError) (h : MailHeader) (hs : List MailHeader)
        (header : DkimHeader) (domain : Bytes)
        → Names p clock from_domain i h header domain false
        → Step (before i last (h ∷ hs)) (before (suc i) last hs)
    verified :
        (i : ℕ) (last : Option DkimError) (h : MailHeader) (hs : List MailHeader)
        (header : DkimHeader) (domain : Bytes) (types : Types)
        → Names p clock from_domain i h header domain true
        → verify header ≡ ok types
        → Step (before i last (h ∷ hs)) (finished (ok (pass domain types.0 types.1)))
    retried :
        (i : ℕ) (last : Option DkimError) (h : MailHeader) (hs : List MailHeader)
        (header : DkimHeader) (domain : Bytes) (e : DkimError)
        → Names p clock from_domain i h header domain true
        → verify header ≡ err e
        → retries ≡ true
        → Step (before i last (h ∷ hs)) (before (suc i) (some e) hs)
    refused :
        (i : ℕ) (last : Option DkimError) (h : MailHeader) (hs : List MailHeader)
        (header : DkimHeader) (domain : Bytes) (e : DkimError)
        → Names p clock from_domain i h header domain true
        → verify header ≡ err e
        → retries ≡ false
        → Step (before i last (h ∷ hs)) (finished (err e))
    -- A panic of the validation, of the d= tag or of the signature's verification.
    not_read :
        (i : ℕ) (last : Option DkimError) (h : MailHeader) (hs : List MailHeader)
        → validated p clock i h ≡ panic
        → Step (before i last (h ∷ hs)) (finished panic)
    without_domain :
        (i : ℕ) (last : Option DkimError) (h : MailHeader) (hs : List MailHeader)
        (header : DkimHeader)
        → validated p clock i h ≡ ok header
        → get_required_tag header (codes "d") ≡ panic
        → Step (before i last (h ∷ hs)) (finished panic)
    not_verified :
        (i : ℕ) (last : Option DkimError) (h : MailHeader) (hs : List MailHeader)
        (header : DkimHeader) (domain : Bytes)
        → Names p clock from_domain i h header domain true
        → verify header ≡ panic
        → Step (before i last (h ∷ hs)) (finished panic)
    ended_failed :
        (i : ℕ) (e : DkimError) → Step (before i (some e) []) (finished (ok (fail e from_domain)))
    ended_neutral : (i : ℕ) → Step (before i none []) (finished (ok (neutral from_domain)))

  pub data Runs : State → State → Type 0 where
    here : (s : State) → Runs s s
    then : {s t u : State} → Step s t → Runs t u → Runs s u

module _ (p : Platform) (clock : ℕ → p.chrono.Time) (from_domain : Bytes) (email : ParsedMail)
    (resolver : Lookup) (key : DkimPublicKey p.crypto) (r : Outcome DkimResult) where
  -- The steps of the two loops, from the first header of an email.
  abbrev pub ResolverRuns : Type 0
  ResolverRuns =
      Runs p clock from_domain email (λ header. verify_email_header p clock resolver header email)
        true (before 0 none (headers p clock from_domain email)) (finished r)

  abbrev pub KeyRuns : Type 0
  KeyRuns =
      Runs p clock from_domain email (λ header. verify_with_key p.crypto p.unicode header email key)
        false (before 0 none (headers p clock from_domain email)) (finished r)
