-- ===== src/Nom.antt =====
-- The parser combinators that src/parser.rs takes from the crate nom (version 7), as an interface:
-- each with the behaviour that the crate documents. A parser returns the rest of its input.
pub mod Scan
use dkim.Prelude.{
  ℕ, ◌<◌, ◌≡◌, Bool, true, false, [], ◌∷◌, ◌++◌, Option, none, some, Bytes, length, starts_with,
}
use dkim.Nom.Scan.{take_while, drop_while, is_alpha, IsAsciiTest, Stops}

pub data IResult (E A : Type 0) : Type 0 where
  done : Bytes × A → IResult E A
  error : E → IResult E A

infixl 5 ◌>>=◌
abbrev pub ◌>>=◌ : {E A B : Type 0} → IResult E A → (Bytes × A → IResult E B) → IResult E B
done r >>= f = f r
error e >>= f = error e

abbrev pub Fails : {E A : Type 0} → IResult E A → Type 0
Fails {E} r = (e : E) × (r ≡ error e)

pub record Nom : Type 1 where
  pub Error : Type 0
  -- The text of `nom::Err<nom::error::Error<&str>>`.
  pub error_text : Error → Bytes
  pub tag : Bytes → Bytes → IResult Error Bytes
  pub take_while1 : (ℕ → Bool) → Bytes → IResult Error Bytes
  pub alpha1 : Bytes → IResult Error Bytes
  pub opt : {A : Type 0} → (Bytes → IResult Error A) → Bytes → IResult Error (Option A)
  pub fold_many0 :
      {A B : Type 0} → (Bytes → IResult Error A) → B → (B → A → B) → Bytes → IResult Error B
  pub delimited :
      {A B C : Type 0}
      → (Bytes → IResult Error A)
      → (Bytes → IResult Error B)
      → (Bytes → IResult Error C)
      → Bytes
      → IResult Error B
  pub preceded :
      {A B : Type 0}
      → (Bytes → IResult Error A)
      → (Bytes → IResult Error B)
      → Bytes
      → IResult Error B
  pub terminated :
      {A B : Type 0}
      → (Bytes → IResult Error A)
      → (Bytes → IResult Error B)
      → Bytes
      → IResult Error A
  pub pair :
      {A B : Type 0}
      → (Bytes → IResult Error A)
      → (Bytes → IResult Error B)
      → Bytes
      → IResult Error (A × B)
  -- `tag` recognises its text, and nothing else.
  pub tag_match : (t rest : Bytes) → tag t (t ++ rest) ≡ done (rest, t)
  pub tag_miss : (t s : Bytes) → starts_with s t ≡ false → Fails (tag t s)
  -- `take_while1` takes the longest stretch that passes, which must not be empty.
  pub take_while1_match :
      (p : ℕ → Bool) (c : ℕ) (s : Bytes)
      → IsAsciiTest p
      → p c ≡ true
      → take_while1 p (c ∷ s) ≡ done (drop_while p s, c ∷ take_while p s)
  pub take_while1_miss :
      (p : ℕ → Bool) (s : Bytes) → IsAsciiTest p → Stops p s → Fails (take_while1 p s)
  -- `alpha1` takes one or more ASCII letters.
  pub alpha1_match :
      (c : ℕ) (s : Bytes)
      → is_alpha c ≡ true
      → alpha1 (c ∷ s) ≡ done (drop_while is_alpha s, c ∷ take_while is_alpha s)
  pub alpha1_miss : (s : Bytes) → Stops is_alpha s → Fails (alpha1 s)
  -- `opt` turns an error into an absent value, and takes nothing then.
  pub opt_done :
      {A : Type 0} (f : Bytes → IResult Error A) (s : Bytes) {r : Bytes} {a : A}
      → f s ≡ done (r, a)
      → opt f s ≡ done (r, some a)
  pub opt_error :
      {A : Type 0} (f : Bytes → IResult Error A) (s : Bytes)
      → Fails (f s)
      → opt f s ≡ done (s, none)
  -- `fold_many0` repeats a parser until it fails. (It fails itself where the parser takes nothing.)
  pub fold_many0_stop :
      {A B : Type 0} (f : Bytes → IResult Error A) (b : B) (g : B → A → B) (s : Bytes)
      → Fails (f s)
      → fold_many0 f b g s ≡ done (s, b)
  pub fold_many0_step :
      {A B : Type 0} (f : Bytes → IResult Error A) (b : B) (g : B → A → B) (s : Bytes) {r : Bytes}
      {a : A}
      → f s ≡ done (r, a)
      → length r < length s
      → fold_many0 f b g s ≡ fold_many0 f (g b a) g r
  -- The sequences run their parsers one after the other.
  pub delimited_lem :
      {A B C : Type 0} (f : Bytes → IResult Error A) (g : Bytes → IResult Error B)
      (h : Bytes → IResult Error C) (s : Bytes)
      → delimited f g h s ≡ (f s >>= λ x. g x.0 >>= λ y. h y.0 >>= λ z. done (z.0, y.1))
  pub preceded_lem :
      {A B : Type 0} (f : Bytes → IResult Error A) (g : Bytes → IResult Error B) (s : Bytes)
      → preceded f g s ≡ (f s >>= λ x. g x.0)
  pub terminated_lem :
      {A B : Type 0} (f : Bytes → IResult Error A) (g : Bytes → IResult Error B) (s : Bytes)
      → terminated f g s ≡ (f s >>= λ x. g x.0 >>= λ y. done (y.0, x.1))
  pub pair_lem :
      {A B : Type 0} (f : Bytes → IResult Error A) (g : Bytes → IResult Error B) (s : Bytes)
      → pair f g s ≡ (f s >>= λ x. g x.0 >>= λ y. done (y.0, (x.1, y.1)))
