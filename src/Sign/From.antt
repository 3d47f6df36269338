-- ===== src/Sign/From.antt =====
-- The signed headers of src/sign.rs and the check of `validate_header` in src/lib.rs that From is
-- among them.
use dkim.Prelude.{
  ◌≡◌, ◌≢◌, ap, ◌∙◌, Bool, true, Bool-cases, ◌||◌, List, [], ◌∷◌, inl, inr, map, Bytes, codes,
  arith, beq, beq_iff,
}
use dkim.Error.{ok}
use dkim.Externals.{Platform}
use dkim.Header.{DkimHeader, DkimHeaderBuilder, get_required_tag, add_tag, set_signed_headers}
use dkim.Map.{get-insert, beq_refl}
use dkim.Sign.{SignerBuilder, names_from, with_signed_headers}
use dkim.Str.Split.{Lacks, split-join}
use dkim.Str.{All, join, ascii_lower, to_ascii_lowercase}
use dkim.Validate.{contains, check_from}

module _ (p : Platform) where
  lower_from : p.unicode.to_lowercase (codes "from") ≡ codes "from"
  unfolding to_ascii_lowercase ascii_lower
  lower_from =
      p.unicode.to_lowercase_ascii (codes "from")
        ((omega arith), ((omega arith), ((omega arith), ((omega arith), tt))))

  lower_lower_from :
      (x : Bytes)
      → beq (p.unicode.to_lowercase x) (codes "from") ≡ true
      → beq (p.unicode.to_lowercase (p.unicode.to_lowercase x)) (codes "from") ≡ true
  lower_lower_from x h =
      let e = (beq_iff (p.unicode.to_lowercase x) (codes "from")).0 h in
      (beq_iff _ _).1 (ap p.unicode.to_lowercase e ∙ lower_from)

  or_true : (a b : Bool) → b ≡ true → (a || b) ≡ true
  or_true a b h = ground arith

  pub names_from-ne-nil :
      (headers : List Bytes) → names_from p headers ≡ true → map p.unicode.to_lowercase headers ≢ []
  unfolding names_from
  names_from-ne-nil [] h e = cc
  names_from-ne-nil (x ∷ headers) h e = cc

  pub with_signed_headers-names_from :
      (headers : List Bytes) (signer signer' : SignerBuilder p)
      → with_signed_headers p headers signer ≡ ok signer'
      → names_from p headers ≡ true
  unfolding with_signed_headers
  with_signed_headers-names_from headers signer signer' h = ground arith

  h_tag :
      (headers : List Bytes) (builder : DkimHeaderBuilder p.chrono)
      → get_required_tag
          ((set_signed_headers p.chrono p.unicode headers builder).header)
          (codes "h")
        ≡ ok (join b':' (map p.unicode.to_lowercase headers))
  unfolding set_signed_headers add_tag get_required_tag
  h_tag headers builder = rw (get-insert, beq_refl (codes "h"))

  pub contains_lower :
      (headers : List Bytes)
      → names_from p headers ≡ true
      → contains (map p.unicode.to_lowercase (map p.unicode.to_lowercase headers)) (codes "from")
        ≡ true
  unfolding contains names_from
  contains_lower [] h = h
  contains_lower (x ∷ headers) h =
      elim (Bool-cases (beq (p.unicode.to_lowercase x) (codes "from"))) [
        | inl e ↦ rw (lower_lower_from x e)
        | inr e ↦ or_true _ _ (contains_lower headers (rw (e, names_from) at h))
      ]

  -- A header whose h= holds the names in lower case, From among them, passes the check.
  pub check_from-lowered :
      (headers : List Bytes) (header : DkimHeader)
      → names_from p headers ≡ true
      → All (Lacks b':') (map p.unicode.to_lowercase headers)
      → get_required_tag header (codes "h") ≡ ok (join b':' (map p.unicode.to_lowercase headers))
      → check_from p.unicode header ≡ ok tt
  unfolding check_from
  check_from-lowered headers header named lacks h =
      let parts = map p.unicode.to_lowercase headers in
      rw (
        h,
        check_from,
        split-join b':' parts (names_from-ne-nil headers named) lacks,
        contains_lower headers named,
      )

  -- Header names that the signer's builder takes, none with a colon in its lower case, are written
  -- into h= so that the verifier's check finds From.
  pub check_from-set_signed_headers :
      (headers : List Bytes) (signer signer' : SignerBuilder p)
      (builder : DkimHeaderBuilder p.chrono)
      → with_signed_headers p headers signer ≡ ok signer'
      → All (Lacks b':') (map p.unicode.to_lowercase headers)
      → check_from p.unicode ((set_signed_headers p.chrono p.unicode headers builder).header)
        ≡ ok tt
  check_from-set_signed_headers headers signer signer' builder h lacks =
      check_from-lowered headers ((set_signed_headers p.chrono p.unicode headers builder).header)
        (with_signed_headers-names_from headers signer signer' h) lacks (h_tag headers builder)
