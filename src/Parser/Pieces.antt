-- ===== src/Parser/Pieces.antt =====
-- What the small parsers of src/parser.rs take from a text.
use dkim.Prelude.{ℕ, ◌≡◌, Bool, true, false, [], ◌∷◌, ◌++◌, none, some, arith, Bytes}
use dkim.Nom.Scan.{Stops, AllPass, IsAsciiTest, is_alpha, take_while-append, drop_while-append}
use dkim.Nom.{Nom, IResult, done, ◌>>=◌, Fails}
use dkim.Parser.{is_valchar, is_fws, fws, tag_value, raw_tag_value}

pub is_valchar-IsAsciiTest : IsAsciiTest is_valchar
is_valchar-IsAsciiTest c h = ground arith

pub is_fws-IsAsciiTest : IsAsciiTest is_fws
is_fws-IsAsciiTest c h = ground arith

pub valchar_not_fws : (c : ℕ) → is_valchar c ≡ true → is_fws c ≡ false
valchar_not_fws c h = ground arith

pub fws_not_valchar : (c : ℕ) → is_fws c ≡ true → is_valchar c ≡ false
fws_not_valchar c h = ground arith

pub alpha_not_fws : (c : ℕ) → is_alpha c ≡ true → is_fws c ≡ false
alpha_not_fws c h = ground arith

module _ (nom : Nom) where
  pub take_while1-append :
      (p : ℕ → Bool) (c : ℕ) (s t : Bytes)
      → IsAsciiTest p
      → AllPass p (c ∷ s)
      → Stops p t
      → nom.take_while1 p (c ∷ (s ++ t)) ≡ done (t, c ∷ s)
  take_while1-append p c s t ascii (hc, hs) ht = rw (
    nom.take_while1_match p c (s ++ t) ascii hc,
    take_while-append p s t hs ht,
    drop_while-append p s t hs ht,
  )

  pub alpha1-append :
      (c : ℕ) (s t : Bytes)
      → AllPass is_alpha (c ∷ s)
      → Stops is_alpha t
      → nom.alpha1 (c ∷ (s ++ t)) ≡ done (t, c ∷ s)
  alpha1-append c s t (hc, hs) ht = rw (
    nom.alpha1_match c (s ++ t) hc,
    take_while-append is_alpha s t hs ht,
    drop_while-append is_alpha s t hs ht,
  )

  pub opt_fws-none : (s : Bytes) → Stops is_fws s → nom.opt (fws nom) s ≡ done (s, none)
  unfolding fws
  opt_fws-none s h = nom.opt_error _ s (nom.take_while1_miss is_fws s is_fws-IsAsciiTest h)

  pub opt_fws-some :
      (c : ℕ) (w s : Bytes)
      → AllPass is_fws (c ∷ w)
      → Stops is_fws s
      → nom.opt (fws nom) (c ∷ (w ++ s)) ≡ done (s, some (c ∷ w))
  unfolding fws
  opt_fws-some c w s hw hs =
      nom.opt_done _ (c ∷ (w ++ s)) (take_while1-append is_fws c w s is_fws-IsAsciiTest hw hs)

  pub fws-Fails : (s : Bytes) → Stops is_fws s → Fails (fws nom s)
  unfolding fws
  fws-Fails s h = nom.take_while1_miss is_fws s is_fws-IsAsciiTest h

  pub bind-Fails :
      {A B : Type 0} (m : IResult nom.Error A) (f : Bytes × A → IResult nom.Error B)
      → Fails m
      → Fails (m >>= f)
  bind-Fails m f (e, h) = (e, rw h)

  opt_valchar_none :
      (s : Bytes) → Stops is_valchar s → nom.opt (nom.take_while1 is_valchar) s ≡ done (s, none)
  opt_valchar_none s h =
      nom.opt_error _ s (nom.take_while1_miss is_valchar s is_valchar-IsAsciiTest h)

  opt_valchar_some :
      (c : ℕ) (v t : Bytes)
      → AllPass is_valchar (c ∷ v)
      → Stops is_valchar t
      → nom.opt (nom.take_while1 is_valchar) (c ∷ (v ++ t)) ≡ done (t, some (c ∷ v))
  opt_valchar_some c v t hv ht =
      nom.opt_done _ (c ∷ (v ++ t))
        (take_while1-append is_valchar c v t is_valchar-IsAsciiTest hv ht)

  preceded_fws-Fails :
      (s : Bytes) → Stops is_fws s → Fails (nom.preceded (fws nom) (nom.take_while1 is_valchar) s)
  preceded_fws-Fails s h = rw nom.preceded_lem (bind-Fails (fws nom s) _ (fws-Fails s h))

  pair_fws-Fails :
      (s : Bytes) → Stops is_fws s → Fails (nom.pair (fws nom) (nom.take_while1 is_valchar) s)
  pair_fws-Fails s h = rw nom.pair_lem (bind-Fails (fws nom s) _ (fws-Fails s h))

  -- A value of visible characters, up to something that is neither visible nor white space.
  pub tag_value_lem :
      (v t : Bytes)
      → AllPass is_valchar v
      → Stops is_valchar t
      → Stops is_fws t
      → tag_value nom (v ++ t) ≡ done (t, v)
  unfolding tag_value
  tag_value_lem [] t hv ht hf = rw (opt_valchar_none t ht, tag_value)
  tag_value_lem (c ∷ v) t hv ht hf =
      rw (opt_valchar_some c v t hv ht, tag_value)
        (nom.fold_many0_stop _ (c ∷ v) _ t (preceded_fws-Fails t hf))

  pub raw_tag_value_lem :
      (v t : Bytes)
      → AllPass is_valchar v
      → Stops is_valchar t
      → Stops is_fws t
      → raw_tag_value nom (v ++ t) ≡ done (t, v)
  unfolding raw_tag_value
  raw_tag_value_lem [] t hv ht hf = rw (opt_valchar_none t ht, raw_tag_value)
  raw_tag_value_lem (c ∷ v) t hv ht hf =
      rw (opt_valchar_some c v t hv ht, raw_tag_value)
        (nom.fold_many0_stop _ (c ∷ v) _ t (pair_fws-Fails t hf))

  -- Text that holds no white space is read through `delimited(opt(fws), …, opt(fws))` as it is.
  pub delimited_bare :
      {A : Type 0} (g : Bytes → IResult nom.Error A) (s t : Bytes) (a : A)
      → Stops is_fws s
      → Stops is_fws t
      → g s ≡ done (t, a)
      → nom.delimited (nom.opt (fws nom)) g (nom.opt (fws nom)) s ≡ done (t, a)
  delimited_bare g s t a hs ht e = rw (nom.delimited_lem, opt_fws-none s hs, e, opt_fws-none t ht)

  -- With white space in front.
  pub delimited_after :
      {A : Type 0} (g : Bytes → IResult nom.Error A) (c : ℕ) (w s t : Bytes) (a : A)
      → AllPass is_fws (c ∷ w)
      → Stops is_fws s
      → Stops is_fws t
      → g s ≡ done (t, a)
      → nom.delimited (nom.opt (fws nom)) g (nom.opt (fws nom)) (c ∷ (w ++ s)) ≡ done (t, a)
  delimited_after g c w s t a hw hs ht e =
      rw (nom.delimited_lem, opt_fws-some c w s hw hs, e, opt_fws-none t ht)
