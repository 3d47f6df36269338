-- ===== src/Sign/Reach.antt =====
-- The signers that the builder of src/sign.rs makes, by any calls of its setters.
use dkim.Prelude.{◌≡◌, refl, subst, true, ◌⊎◌, inl, inr, List, map, none, some, Bytes}
use dkim.Canonicalization.{CanonicalizationType}
use dkim.Error.Laws.{ok-injective}
use dkim.Error.{ok}
use dkim.Externals.{ParsedMail, Platform}
use dkim.Header.{DkimHeader}
use dkim.Sign.Delivered.{tags_read}
use dkim.Sign.From.{check_from-lowered, with_signed_headers-names_from}
use dkim.Sign.Built.{build_sound}
use dkim.Sign.{
  DkimPrivateKey, SignerBuilder, DkimSigner, new_signer, names_from, with_signed_headers,
  with_private_key, with_selector, with_signing_domain, with_header_canonicalization,
  with_body_canonicalization, with_logger, with_time, with_expiry, build, signed_header,
}
use dkim.Str.Split.{Lacks}
use dkim.Str.{All}
use dkim.Validate.{check_from}

module _ (p : Platform) where
  -- A call of one setter that returns.
  pub data Step : SignerBuilder p → SignerBuilder p → Type 0 where
    headers :
        (b b' : SignerBuilder p) (names : List Bytes)
        → with_signed_headers p names b ≡ ok b'
        → Step b b'
    key : (b : SignerBuilder p) (k : DkimPrivateKey p.crypto) → Step b (with_private_key p k b)
    selector : (b : SignerBuilder p) (text : Bytes) → Step b (with_selector p text b)
    domain : (b : SignerBuilder p) (text : Bytes) → Step b (with_signing_domain p text b)
    header_type :
        (b : SignerBuilder p) (t : CanonicalizationType)
        → Step b (with_header_canonicalization p t b)
    body_type :
        (b : SignerBuilder p) (t : CanonicalizationType) → Step b (with_body_canonicalization p t b)
    logger : (b : SignerBuilder p) (l : Unit {0}) → Step b (with_logger p l b)
    time : (b : SignerBuilder p) (t : p.chrono.Time) → Step b (with_time p t b)
    expiry : (b : SignerBuilder p) (d : p.chrono.Duration) → Step b (with_expiry p d b)

  pub data Reachable : SignerBuilder p → Type 0 where
    start : Reachable (new_signer p)
    next : {b b' : SignerBuilder p} → Reachable b → Step b b' → Reachable b'

  -- From is among the header names, if they are set.
  abbrev NamesFrom : SignerBuilder p → Type 0
  NamesFrom b =
      (b.signed_headers ≡ none)
      ⊎ ((names : List Bytes) × (b.signed_headers ≡ some names) × (names_from p names ≡ true))

  headers-NamesFrom :
      (b b' : SignerBuilder p) (names : List Bytes)
      → with_signed_headers p names b ≡ ok b'
      → NamesFrom b'
  unfolding with_signed_headers
  headers-NamesFrom b b' names made =
      let from = with_signed_headers-names_from p names b b' made in
      subst NamesFrom (ok-injective (rw (from, with_signed_headers) at made))
        (inr (names, refl, from))

  Step-NamesFrom : {b b' : SignerBuilder p} → Step b b' → NamesFrom b → NamesFrom b'
  unfolding with_private_key with_selector with_signing_domain with_header_canonicalization
      with_body_canonicalization with_logger with_time with_expiry
  Step-NamesFrom (headers b b' names made) h = headers-NamesFrom b b' names made
  Step-NamesFrom (key b k) h = h
  Step-NamesFrom (selector b text) h = h
  Step-NamesFrom (domain b text) h = h
  Step-NamesFrom (header_type b t) h = h
  Step-NamesFrom (body_type b t) h = h
  Step-NamesFrom (logger b l) h = h
  Step-NamesFrom (time b t) h = h
  Step-NamesFrom (expiry b d) h = h

  Reachable-NamesFrom : {b : SignerBuilder p} → Reachable b → NamesFrom b
  Reachable-NamesFrom start = inl refl
  Reachable-NamesFrom (next r s) = Step-NamesFrom s (Reachable-NamesFrom r)

  none_or_same :
      (b : SignerBuilder p) (names : List Bytes)
      → b.signed_headers ≡ some names
      → NamesFrom b
      → names_from p names ≡ true
  none_or_same b names is (inl unset) = cc
  none_or_same b names is (inr (names', set, from)) = cc

  -- Whatever setters are called, a header that a signer of the builder signs passes the verifier's
  -- check that From is among the signed headers, if no header name has a colon in its lower case.
  pub check_from-Reachable :
      {builder : SignerBuilder p} (signer : DkimSigner p) (now : p.chrono.Time) (email : ParsedMail)
      (header : DkimHeader)
      → Reachable builder
      → build p builder ≡ ok signer
      → signed_header p signer now email ≡ ok header
      → All (Lacks b':') (map p.unicode.to_lowercase signer.signed_headers)
      → check_from p.unicode header ≡ ok tt
  check_from-Reachable {builder} signer now email header reached built made lacks =
      let b = build_sound p builder signer built in
      check_from-lowered p signer.signed_headers header
        (none_or_same builder signer.signed_headers b.headers_set (Reachable-NamesFrom reached))
        lacks (tags_read p signer now email header made).2
