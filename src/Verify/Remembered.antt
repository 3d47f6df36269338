-- ===== src/Verify/Remembered.antt =====
-- Which error the loops of src/lib.rs over the headers remember.
use dkim.Prelude.{
  ℕ, suc, ◌+◌, ◌≡◌, refl, ap, subst, List, [], ◌∷◌, ◌++◌, ◌⊎◌, inl, inr, Option, some, Bytes,
  length, arith,
}
use dkim.Error.{DkimError}
use dkim.Externals.{MailHeader, Platform}
use dkim.Verify.Loop.{GoesOn, AllGoOn, keep, remembered}
use dkim.Verify.{Flow, skip, failed, returned}

module _ (p : Platform) (clock : ℕ → p.chrono.Time) (from_domain : Bytes)
    (body : ℕ → MailHeader → Flow) where
  abbrev pub AllSkip : ℕ → List MailHeader → Type 0
  AllSkip i [] = Unit
  AllSkip i (h ∷ hs) = (body i h ≡ skip) × AllSkip (suc i) hs

  -- The last header whose round fails, with its error.
  pub record LastError (i : ℕ) (hs : List MailHeader) (e : DkimError) : Type 0 where
    pub before : List MailHeader
    pub h : MailHeader
    pub after : List MailHeader
    pub split_at : hs ≡ before ++ (h ∷ after)
    pub fails : body (i + length before) h ≡ failed e
    pub skips : AllSkip (suc (i + length before)) after

  LastError-later :
      (i : ℕ) (x : MailHeader) {hs : List MailHeader} {e : DkimError}
      → LastError (suc i) hs e
      → LastError i (x ∷ hs) e
  LastError-later i x {hs} {e} l =
      let shift : suc i + length l.before ≡ i + suc (length l.before) = omega arith in
      record {
        before = x ∷ l.before;
        h = l.h;
        after = l.after;
        split_at = ap (λ t. x ∷ t) l.split_at;
        fails = subst (λ n. body n l.h ≡ failed e) shift l.fails;
        skips = subst (λ n. AllSkip (suc n) l.after) shift l.skips;
      }

  abbrev Remembers : ℕ → Option DkimError → List MailHeader → Type 0
  Remembers i last hs =
      (AllSkip i hs × (remembered p clock from_domain body i last hs ≡ last))
      ⊎ ((e : DkimError) × LastError i hs e
          × (remembered p clock from_domain body i last hs ≡ some e))

  now_or_later :
      (i : ℕ) (last : Option DkimError) (h : MailHeader) (hs : List MailHeader) (f : Flow)
      → body i h ≡ f
      → GoesOn p clock from_domain f
      → AllSkip (suc i) hs
      → remembered p clock from_domain body (suc i) (keep p clock from_domain last f) hs
        ≡ keep p clock from_domain last f
      → Remembers i last (h ∷ hs)
  now_or_later i last h hs skip is g skips r = inl ((is, skips), rw is r)
  now_or_later i last h hs (failed e) is g skips r =
      let z : i ≡ i + 0 = omega arith in
      inr (
        e,
        record {
          before = [];
          h = h;
          after = hs;
          split_at = refl;
          fails = subst (λ n. body n h ≡ failed e) z is;
          skips = subst (λ n. AllSkip (suc n) hs) z skips;
        },
        rw is r,
      )
  now_or_later i last h hs (returned m) is g skips r = absurd g

  -- If all rounds go on, the error that is remembered is that of the last round that fails.
  pub remembered_lem :
      (i : ℕ) (last : Option DkimError) (hs : List MailHeader)
      → AllGoOn p clock from_domain body i hs
      → Remembers i last hs
  remembered_lem i last [] go = inl (tt, refl)
  remembered_lem i last (h ∷ hs) (g, go) =
      elim (remembered_lem (suc i) (keep p clock from_domain last (body i h)) hs go) [
        | inl (skips, r) ↦ now_or_later i last h hs (body i h) refl g skips r
        | inr (e, l, r) ↦ inr (e, LastError-later i h l, r)
      ]
