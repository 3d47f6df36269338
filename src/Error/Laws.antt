-- ===== src/Error/Laws.antt =====
-- Chains of the results of src/errors.rs.
use dkim.Prelude.{◌≡◌, refl, ◌≢◌, Bool, true, false, Option, none, some}
use dkim.Error.{DkimError, Outcome, ok, err, panic, ◌>>=◌, ok_or, unwrap, guard}

module _ {ℓ κ} {A : Type ℓ} {B : Type κ} where
  pub bind-eq-ok :
      (m : Outcome A) (f : A → Outcome B) {b : B}
      → (m >>= f) ≡ ok b
      → (a : A) × (m ≡ ok a) × (f a ≡ ok b)
  bind-eq-ok (ok a) f h = (a, refl, h)
  bind-eq-ok (err e) f h = cc
  bind-eq-ok panic f h = cc

  -- A chain does not panic if its first step does not, and its second does not on any result.
  pub bind-ne-panic :
      (m : Outcome A) (f : A → Outcome B)
      → m ≢ panic
      → ((a : A) → m ≡ ok a → f a ≢ panic)
      → (m >>= f) ≢ panic
  bind-ne-panic (ok a) f hm hf = hf a refl
  bind-ne-panic (err e) f hm hf = λ h. cc
  bind-ne-panic panic f hm hf = absurd (hm refl)

  -- A chain that panics panics behind its first step, if that does not.
  pub bind-eq-panic :
      (m : Outcome A) (f : A → Outcome B)
      → m ≢ panic
      → (m >>= f) ≡ panic
      → (a : A) × (m ≡ ok a) × (f a ≡ panic)
  bind-eq-panic (ok a) f hm h = (a, refl, h)
  bind-eq-panic (err e) f hm h = cc
  bind-eq-panic panic f hm h = absurd (hm refl)

pub ok_or-ne-panic {ℓ} : {A : Type ℓ} (e : DkimError) (o : Option A) → ok_or e o ≢ panic
ok_or-ne-panic e none = λ h. cc
ok_or-ne-panic e (some a) = λ h. cc

pub ok_or-eq-ok {ℓ} :
    {A : Type ℓ} (e : DkimError) (o : Option A) {a : A} → ok_or e o ≡ ok a → o ≡ some a
ok_or-eq-ok e none h = cc
ok_or-eq-ok e (some b) h = cc

pub unwrap-eq-ok {ℓ} : {A : Type ℓ} (o : Option A) {a : A} → unwrap o ≡ ok a → o ≡ some a
unwrap-eq-ok none h = cc
unwrap-eq-ok (some b) h = cc

pub guard-eq-ok : (b : Bool) (e : DkimError) {u : Unit {0}} → guard b e ≡ ok u → b ≡ true
guard-eq-ok true e h = refl
guard-eq-ok false e h = cc

pub guard-ne-panic : (b : Bool) (e : DkimError) → guard b e ≢ panic
guard-ne-panic true e = λ h. cc
guard-ne-panic false e = λ h. cc

pub ok-injective {ℓ} : {A : Type ℓ} {a b : A} → ok a ≡ ok b → a ≡ b
ok-injective h = cc

pub unwrap-ne-panic {ℓ} : {A : Type ℓ} (o : Option A) → o ≢ none → unwrap o ≢ panic
unwrap-ne-panic none h = absurd (h refl)
unwrap-ne-panic (some a) h = λ e. cc

pub err-injective {ℓ} :
    {A : Type ℓ} {e e' : DkimError} → ◌≡◌ {A = Outcome A} (err e) (err e') → e ≡ e'
err-injective h = cc
