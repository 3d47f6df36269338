-- ===== src/Verify/Same.antt =====
-- What of an email a signature of src/lib.rs depends on.
use dkim.Prelude.{◌≡◌, refl, sym, ap, ◌∙◌, ◌++◌, Bytes, codes}
use dkim.Canonicalization.{CanonicalizationType}
use dkim.Error.{Outcome, ok, err, panic, ◌>>=◌}
use dkim.Error.Laws.{ok-injective}
use dkim.Externals.{Crypto, ParsedMail}
use dkim.Hash.{
  compute_body_hash, compute_headers_hash, get_body, select_headers, truncate_to, canonicalize_body,
  signed_lines, hash_with, signature_line,
}
use dkim.Header.{DkimHeader, get_tag, get_required_tag}
use dkim.Parser.{HashAlgo, parse_canonicalization, parse_hash_algo}
use dkim.PublicKey.{DkimPublicKey}
use dkim.Str.{Unicode}
use dkim.Verify.{Types, verify_with_key}

-- The bytes of a body that are hashed, as the header says.
unfoldable pub hashed_body : DkimHeader → CanonicalizationType → ParsedMail → Outcome Bytes
hashed_body header t email =
    get_body email >>= λ body. truncate_to (get_tag header (codes "l")) (canonicalize_body t body)

-- The body that a header's signature is about: canonicalized as c= says, cut as l= says.
unfoldable pub signed_body : DkimHeader → ParsedMail → Outcome Bytes
signed_body header email = parse_canonicalization (get_tag header (codes "c")) >>= λ types.
    hashed_body header types.1 email

-- The header lines that a header's signature is about: those h= names, canonicalized as c= says.
unfoldable pub signed_part : Unicode → DkimHeader → ParsedMail → Outcome Bytes
signed_part unicode header email = parse_canonicalization (get_tag header (codes "c")) >>= λ types.
    get_required_tag header (codes "h") >>= λ names.
    ok (signed_lines unicode types.0 (select_headers names email))

pub bind_same {ℓ κ} :
    {A : Type ℓ} {B : Type κ} (m : Outcome A) (f g : A → Outcome B)
    → ((a : A) → m ≡ ok a → f a ≡ g a)
    → (m >>= f) ≡ (m >>= g)
bind_same (ok a) f g h = h a refl
bind_same (err e) f g h = refl
bind_same panic f g h = refl

pub bind-at {ℓ κ} :
    {A : Type ℓ} {B : Type κ} {m : Outcome A} (f g : A → Outcome B) {a : A}
    → m ≡ ok a
    → (m >>= f) ≡ (m >>= g)
    → f a ≡ g a
bind-at f g is h = sym (ap (λ m. m >>= f) is) ∙ h ∙ ap (λ m. m >>= g) is

module _ (unicode : Unicode) (header : DkimHeader) (email email' : ParsedMail) where
  -- The same body and the same header lines, for the signature of the header.
  abbrev pub Same : Type 0
  Same =
      (signed_body header email ≡ signed_body header email')
      × (signed_part unicode header email ≡ signed_part unicode header email')

  pub Same-bodies :
      {types : Types}
      → parse_canonicalization (get_tag header (codes "c")) ≡ ok types
      → Same
      → hashed_body header types.1 email ≡ hashed_body header types.1 email'
  unfolding signed_body
  Same-bodies types_are same = bind-at _ _ types_are same.0

  pub Same-lines :
      {types : Types} {names : Bytes}
      → parse_canonicalization (get_tag header (codes "c")) ≡ ok types
      → get_required_tag header (codes "h") ≡ ok names
      → Same
      → signed_lines unicode types.0 (select_headers names email)
        ≡ signed_lines unicode types.0 (select_headers names email')
  unfolding signed_part
  Same-lines types_are names_are same =
      ok-injective (bind-at _ _ names_are (bind-at _ _ types_are same.1))

  pub Same-intro :
      {types : Types} {names : Bytes}
      → parse_canonicalization (get_tag header (codes "c")) ≡ ok types
      → get_required_tag header (codes "h") ≡ ok names
      → hashed_body header types.1 email ≡ hashed_body header types.1 email'
      → signed_lines unicode types.0 (select_headers names email)
        ≡ signed_lines unicode types.0 (select_headers names email')
      → Same
  unfolding signed_body signed_part
  Same-intro types_are names_are bodies lines =
      ((rw types_are bodies), (rw types_are (rw names_are (ap ok lines))))

module _ (crypto : Crypto) (unicode : Unicode) (header : DkimHeader) where
  module _ (email email' : ParsedMail) (key : DkimPublicKey crypto) where
    body_hash_same :
        (types : Types) (algo : HashAlgo)
        → Same unicode header email email'
        → parse_canonicalization (get_tag header (codes "c")) ≡ ok types
        → compute_body_hash crypto types.1 (get_tag header (codes "l")) algo email
          ≡ compute_body_hash crypto types.1 (get_tag header (codes "l")) algo email'
    unfolding compute_body_hash hashed_body get_body
    body_hash_same types algo same types_are =
        ap (λ m. m >>= λ c. ok (crypto.base64_encode (hash_with crypto algo c)))
          (Same-bodies unicode header email email' types_are same)

    headers_hash_same :
        (types : Types) (names : Bytes) (algo : HashAlgo)
        → Same unicode header email email'
        → parse_canonicalization (get_tag header (codes "c")) ≡ ok types
        → get_required_tag header (codes "h") ≡ ok names
        → compute_headers_hash crypto unicode types.0 names algo header email
          ≡ compute_headers_hash crypto unicode types.0 names algo header email'
    unfolding compute_headers_hash
    headers_hash_same types names algo same types_are names_are =
        ap
          (λ lines. signature_line unicode types.0 header >>= λ last.
            ok (hash_with crypto algo (lines ++ last)))
          (Same-lines unicode header email email' types_are names_are same)

    pub verify_with_key-Same :
        Same unicode header email email'
        → verify_with_key crypto unicode header email key
          ≡ verify_with_key crypto unicode header email' key
    unfolding verify_with_key
    verify_with_key-Same same =
        bind_same (parse_canonicalization (get_tag header (codes "c"))) _ _ (λ types types_are.
          bind_same (get_required_tag header (codes "a")) _ _ (λ algo_text _.
            bind_same (parse_hash_algo algo_text) _ _ (λ algo _.
              rw (body_hash_same types algo same types_are) (
                bind_same
                  (compute_body_hash crypto types.1 (get_tag header (codes "l")) algo email') _ _
                  (λ body_hash _.
                    bind_same (get_required_tag header (codes "h")) _ _ (λ names names_are.
                      rw (headers_hash_same types names algo same types_are names_are)))))))
