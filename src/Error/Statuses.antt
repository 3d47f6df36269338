-- ===== src/Error/Statuses.antt =====
-- Results whose error `DKIMError::status` of src/errors.rs knows, by one rule for each way to build a
-- result.
use dkim.Prelude.{◌≡◌, ◌≢◌, subst, refl, Bool, true, false, Option, none, some, if◌then◌else◌}
use dkim.Error.{
  DkimError, Outcome, ok, err, panic, ◌>>=◌, ok_or, unwrap, guard, status, builder_error,
  failed_to_sign,
}

-- The errors that are not the signer's own.
abbrev pub IsVerdict : DkimError → Type 0
IsVerdict (builder_error _) = ⊥
IsVerdict (failed_to_sign _) = ⊥
IsVerdict _ = Unit

pub IsVerdict-status : (e : DkimError) → IsVerdict e → status e ≢ panic
unfolding status
IsVerdict-status (builder_error _) v h = absurd v
IsVerdict-status (failed_to_sign _) v h = absurd v
IsVerdict-status _ v h = cc

pub record Verdicts {ℓ} {A : Type ℓ} (m : Outcome A) : Type ℓ where
  pub at : (e : DkimError) → m ≡ err e → IsVerdict e

module _ {ℓ} {A : Type ℓ} where
  pub Verdicts-ok : (a : A) → Verdicts (ok a)
  Verdicts-ok a = record { at = λ e h. cc }

  pub Verdicts-panic : Verdicts {A = A} panic
  Verdicts-panic = record { at = λ e h. cc }

  pub Verdicts-err : (e : DkimError) → IsVerdict e → Verdicts {A = A} (err e)
  Verdicts-err e v = record { at = λ d h. let same : e ≡ d = cc in subst IsVerdict same v }

  pub Verdicts-ok_or : (e : DkimError) (o : Option A) → IsVerdict e → Verdicts (ok_or e o)
  Verdicts-ok_or e none v = Verdicts-err e v
  Verdicts-ok_or e (some a) v = Verdicts-ok a

  pub Verdicts-unwrap : (o : Option A) → Verdicts (unwrap o)
  Verdicts-unwrap none = Verdicts-panic
  Verdicts-unwrap (some a) = Verdicts-ok a

  pub Verdicts-if :
      (b : Bool) (m n : Outcome A) → Verdicts m → Verdicts n → Verdicts (if b then m else n)
  Verdicts-if true m n vm vn = vm
  Verdicts-if false m n vm vn = vn

pub Verdicts-guard : (b : Bool) (e : DkimError) → IsVerdict e → Verdicts (guard b e)
Verdicts-guard true e v = Verdicts-ok tt
Verdicts-guard false e v = Verdicts-err e v

pub Verdicts-bind {ℓ κ} :
    {A : Type ℓ} {B : Type κ} (m : Outcome A) (f : A → Outcome B)
    → Verdicts m
    → ((a : A) → Verdicts (f a))
    → Verdicts (m >>= f)
Verdicts-bind (ok a) f vm vf = vf a
Verdicts-bind (err e) f vm vf = Verdicts-err e (vm.at e refl)
Verdicts-bind panic f vm vf = Verdicts-panic

pub ruleset verdict_rules = (
  Verdicts-ok, Verdicts-panic, Verdicts-err, Verdicts-ok_or, Verdicts-unwrap, Verdicts-if,
  Verdicts-guard, Verdicts-bind,
)
