-- ===== src/Error/NoPanic.antt =====
-- Results of src/errors.rs that are not a panic, by one rule for each way to build a result.
use dkim.Prelude.{◌≡◌, ◌≢◌, Bool, true, false, Option, if◌then◌else◌}
use dkim.Error.Laws.{bind-ne-panic, ok_or-ne-panic, guard-ne-panic}
use dkim.Error.{DkimError, Outcome, ok, err, panic, ◌>>=◌, ok_or, guard}

pub record NoPanic {ℓ} {A : Type ℓ} (m : Outcome A) : Type ℓ where
  pub ne : m ≢ panic

module _ {ℓ} {A : Type ℓ} where
  pub NoPanic-ok : (a : A) → NoPanic (ok a)
  NoPanic-ok a = record { ne = λ h. cc }

  pub NoPanic-err : (e : DkimError) → NoPanic {A = A} (err e)
  NoPanic-err e = record { ne = λ h. cc }

  pub NoPanic-ok_or : (e : DkimError) (o : Option A) → NoPanic (ok_or e o)
  NoPanic-ok_or e o = record { ne = ok_or-ne-panic e o }

  pub NoPanic-if :
      (b : Bool) (m n : Outcome A) → NoPanic m → NoPanic n → NoPanic (if b then m else n)
  NoPanic-if true m n km kn = km
  NoPanic-if false m n km kn = kn

pub NoPanic-guard : (b : Bool) (e : DkimError) → NoPanic (guard b e)
NoPanic-guard b e = record { ne = guard-ne-panic b e }

module _ {ℓ κ} {A : Type ℓ} {B : Type κ} where
  -- The rest may use that the first step gave a result.
  pub NoPanic-bind :
      (m : Outcome A) (f : A → Outcome B)
      → NoPanic m
      → ((a : A) → m ≡ ok a → NoPanic (f a))
      → NoPanic (m >>= f)
  NoPanic-bind m f km kf = record { ne = bind-ne-panic m f km.ne (λ a e. (kf a e).ne) }

pub ruleset no_panic_rules =
    (NoPanic-ok, NoPanic-err, NoPanic-ok_or, NoPanic-if, NoPanic-guard, NoPanic-bind)
