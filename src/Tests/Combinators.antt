-- ===== src/Tests/Combinators.antt =====
-- The parser combinators of nom that src/parser.rs uses, by executable definitions.
use dkim.Prelude.{
  ◌⊎◌, inl, inr, ℕ, zero, suc, ◌<◌, ◌≡◌, refl, ◌∙◌, Bool, true, false, Bool-cases, [], ◌∷◌, ◌++◌,
  Option, none, some, Bytes, codes, length, drop, drop-append, starts_with, starts_with-append, ltb,
  arith, if◌then◌else◌,
}
use dkim.Nom.Scan.{take_while, drop_while, is_alpha, Stops}
use dkim.Nom.{Nom, IResult, done, error, ◌>>=◌, Fails}

abbrev Parser : Type 0 → Type 0
Parser A = Bytes → IResult Unit A

abbrev tag : Bytes → Parser Bytes
tag t s = if starts_with s t then done (drop (length t) s, t) else error tt

abbrev one_or_more : Bytes → Bytes → IResult Unit Bytes
one_or_more [] rest = error tt
one_or_more (c ∷ s) rest = done (rest, c ∷ s)

abbrev take_while1 : (ℕ → Bool) → Parser Bytes
take_while1 p s = one_or_more (take_while p s) (drop_while p s)

abbrev opt : {A : Type 0} → Parser A → Parser (Option A)
opt f s = elim (f s) [ done (r, a) ↦ done (r, some a) | error e ↦ done (s, none) ]

abbrev fold_fuel : {A B : Type 0} → ℕ → Parser A → B → (B → A → B) → Parser B
fold_fuel zero f b g s = error tt
fold_fuel (suc n) f b g s = elim (f s) [
  | error e ↦ done (s, b)
  | done (r, a) ↦ if ltb (length r) (length s) then fold_fuel n f (g b a) g r else error tt
]

abbrev fold_many0 : {A B : Type 0} → Parser A → B → (B → A → B) → Parser B
fold_many0 f b g s = fold_fuel (suc (length s)) f b g s

pub fold_fuel_stop :
    {A B : Type 0} (n : ℕ) (f : Parser A) (b : B) (g : B → A → B) (s : Bytes)
    → Fails (f s)
    → fold_fuel (suc n) f b g s ≡ done (s, b)
fold_fuel_stop n f b g s (e, h) = rw (h, fold_fuel)

fold_fuel_step :
    {A B : Type 0} (n : ℕ) (f : Parser A) (b : B) (g : B → A → B) (s : Bytes) {r : Bytes} {a : A}
    → f s ≡ done (r, a)
    → length r < length s
    → fold_fuel (suc n) f b g s ≡ fold_fuel n f (g b a) g r
fold_fuel_step n f b g s {r} {a} h lt =
    let t : ltb (length r) (length s) ≡ true = ground arith in rw (h, fold_fuel, t)

result_cases :
    {A : Type 0} (o : IResult Unit A) → Fails o ⊎ ((r : Bytes) × (a : A) × (o ≡ done (r, a)))
result_cases (done (r, a)) = inr (r, a, refl)
result_cases (error e) = inl (e, refl)

ltb_lt : (a b : ℕ) → ltb a b ≡ true → a < b
ltb_lt a b h = ground arith

-- More fuel than the length changes nothing.
fold_fuel_enough :
    {A B : Type 0} (n m : ℕ) (f : Parser A) (b : B) (g : B → A → B) (s : Bytes)
    → length s < n
    → length s < m
    → fold_fuel n f b g s ≡ fold_fuel m f b g s
fold_fuel_enough zero m f b g s hn hm = absurd (omega (arith, hn))
fold_fuel_enough (suc n) zero f b g s hn hm = absurd (omega (arith, hm))
fold_fuel_enough (suc n) (suc m) f b g s hn hm = elim (result_cases (f s)) [
  | inl (e, h) ↦ rw (h, fold_fuel)
  | inr (r, a, h) ↦ elim (Bool-cases (ltb (length r) (length s))) [
    | inl t ↦
        let lt = ltb_lt (length r) (length s) t in
        rw (h, fold_fuel, t)
          (fold_fuel_enough n m f (g b a) g r (omega (arith, lt, hn)) (omega (arith, lt, hm)))
    | inr t ↦ rw (h, fold_fuel, t)
  ]
]

pub tag_match : (t rest : Bytes) → tag t (t ++ rest) ≡ done (rest, t)
tag_match t rest = rw (starts_with-append t rest, drop-append t rest)

pub tag_miss : (t s : Bytes) → starts_with s t ≡ false → Fails (tag t s)
tag_miss t s h = (tt, rw h)

pub take_while1_match :
    (p : ℕ → Bool) (c : ℕ) (s : Bytes)
    → p c ≡ true
    → take_while1 p (c ∷ s) ≡ done (drop_while p s, c ∷ take_while p s)
take_while1_match p c s h = rw h

pub take_while1_miss : (p : ℕ → Bool) (s : Bytes) → Stops p s → Fails (take_while1 p s)
take_while1_miss p [] h = (tt, refl)
take_while1_miss p (c ∷ s) h = (tt, rw h)

pub opt_done :
    {A : Type 0} (f : Parser A) (s : Bytes) {r : Bytes} {a : A}
    → f s ≡ done (r, a)
    → opt f s ≡ done (r, some a)
opt_done f s h = rw (h, opt)

pub opt_error : {A : Type 0} (f : Parser A) (s : Bytes) → Fails (f s) → opt f s ≡ done (s, none)
opt_error f s (e, h) = rw (h, opt)

pub fold_many0_step :
    {A B : Type 0} (f : Parser A) (b : B) (g : B → A → B) (s : Bytes) {r : Bytes} {a : A}
    → f s ≡ done (r, a)
    → length r < length s
    → fold_many0 f b g s ≡ fold_many0 f (g b a) g r
fold_many0_step f b g s {r} {a} h lt =
    fold_fuel_step (length s) f b g s h lt
    ∙ fold_fuel_enough (length s) (suc (length r)) f (g b a) g r lt (omega arith)

abbrev pub combinators : Nom
combinators = record {
  Error = Unit;
  error_text = λ e. codes "Parsing Error";
  tag = tag;
  take_while1 = take_while1;
  alpha1 = take_while1 is_alpha;
  opt = opt;
  fold_many0 = fold_many0;
  delimited = λ f g h s. f s >>= λ x. g x.0 >>= λ y. h y.0 >>= λ z. done (z.0, y.1);
  preceded = λ f g s. f s >>= λ x. g x.0;
  terminated = λ f g s. f s >>= λ x. g x.0 >>= λ y. done (y.0, x.1);
  pair = λ f g s. f s >>= λ x. g x.0 >>= λ y. done (y.0, (x.1, y.1));
  tag_match = tag_match;
  tag_miss = tag_miss;
  take_while1_match = λ p c s a h. take_while1_match p c s h;
  take_while1_miss = λ p s a h. take_while1_miss p s h;
  alpha1_match = take_while1_match is_alpha;
  alpha1_miss = take_while1_miss is_alpha;
  opt_done = opt_done;
  opt_error = opt_error;
  fold_many0_stop = λ f b g s h. fold_fuel_stop (length s) f b g s h;
  fold_many0_step = fold_many0_step;
  delimited_lem = λ f g h s. refl;
  preceded_lem = λ f g s. refl;
  terminated_lem = λ f g s. refl;
  pair_lem = λ f g s. refl;
}
