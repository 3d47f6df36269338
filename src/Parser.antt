-- ===== src/Parser.antt =====
-- src/parser.rs: the grammar of tag lists, and the values of two tags.
pub mod Pieces
pub mod RoundTrip
use dkim.Prelude.{
  ℕ, Bool, ◌&&◌, ◌||◌, List, [], ◌∷◌, ◌++◌, Option, none, some, Bytes, codes, beq, ◌==◌, leb,
  if◌then◌else◌,
}
use dkim.Canonicalization.{CanonicalizationType, simple, relaxed}
use dkim.Error.{Outcome, ok, err, unsupported_hash_algorithm, unsupported_canonicalization_type}
use dkim.Nom.{Nom, IResult, done, error, ◌>>=◌}
use dkim.Str.{within}

pub record Tag : Type 0 where
  pub name : Bytes
  pub value : Bytes
  pub raw_value : Bytes

abbrev pub is_valchar : ℕ → Bool
is_valchar c = within b'!' b':' c || within b'<' b'~' c

abbrev pub is_fws : ℕ → Bool
is_fws c = c == b' ' || c == b'\t' || c == b'\r' || c == b'\n'

module _ (nom : Nom) where
  open nom use {
    Error, tag, take_while1, alpha1, opt, fold_many0, delimited, preceded, terminated, pair,
  }

  unfoldable pub fws : Bytes → IResult Error Bytes
  fws = take_while1 is_fws

  unfoldable pub tag_name : Bytes → IResult Error Bytes
  tag_name = alpha1

  unfoldable pub tag_value : Bytes → IResult Error Bytes
  tag_value input = do
    (input, first) ← opt (take_while1 is_valchar) input
    elim first [
      | some start ↦
          fold_many0 (preceded fws (take_while1 is_valchar)) start (λ acc item. acc ++ item) input
      | none ↦ done (input, [])
    ]

  unfoldable pub raw_tag_value : Bytes → IResult Error Bytes
  raw_tag_value input = do
    (input, first) ← opt (take_while1 is_valchar) input
    elim first [
      | some start ↦
          fold_many0 (pair fws (take_while1 is_valchar)) start
            (λ acc item. acc ++ (item.0 ++ item.1)) input
      | none ↦ done (input, [])
    ]

  unfoldable pub tag_spec : Bytes → IResult Error Tag
  tag_spec input = do
    (input, name) ← delimited (opt fws) tag_name (opt fws) input
    (value_input, _) ← tag (codes "=") input
    (_, raw_value) ← delimited (opt fws) raw_tag_value (opt fws) value_input
    (input, value) ← delimited (opt fws) tag_value (opt fws) value_input
    done (input, record { name = name; value = value; raw_value = raw_value })

  unfoldable pub tag_list : Bytes → IResult Error (List Tag)
  tag_list input = do
    (input, start) ← tag_spec input
    terminated
        (fold_many0 (preceded (tag (codes ";")) tag_spec) (start ∷ [])
          (λ acc item. acc ++ item ∷ []))
        (opt (tag (codes ";"))) input

pub data HashAlgo : Type 0 where
  rsa_sha1 rsa_sha256 ed25519_sha256 : HashAlgo

unfoldable pub parse_hash_algo : Bytes → Outcome HashAlgo
unfolding beq
parse_hash_algo value =
    if beq value (codes "rsa-sha1")
    then ok rsa_sha1
    else if beq value (codes "rsa-sha256")
    then ok rsa_sha256
    else if beq value (codes "ed25519-sha256")
    then ok ed25519_sha256
    else err (unsupported_hash_algorithm value)

abbrev canonicalization_of : Bytes → Outcome (CanonicalizationType × CanonicalizationType)
canonicalization_of v =
    if beq v (codes "simple/simple")
    then ok (simple, simple)
    else if beq v (codes "relaxed/simple")
    then ok (relaxed, simple)
    else if beq v (codes "simple/relaxed")
    then ok (simple, relaxed)
    else if beq v (codes "relaxed/relaxed")
    then ok (relaxed, relaxed)
    else if beq v (codes "relaxed")
    then ok (relaxed, simple)
    else if beq v (codes "simple")
    then ok (simple, simple)
    else err (unsupported_canonicalization_type v)

-- For the header and for the body.
unfoldable pub parse_canonicalization :
    Option Bytes → Outcome (CanonicalizationType × CanonicalizationType)
unfolding beq
parse_canonicalization none = ok (simple, simple)
parse_canonicalization (some value) = canonicalization_of value
