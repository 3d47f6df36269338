-- ===== src/Sign/Built.antt =====
-- What the builder of src/sign.rs requires, and what it builds.
use dkim.Prelude.{
  ◌≡◌, ◌↔◌, refl, sym, ap, subst, ◌∙◌, ◌⊎◌, inl, inr, Bytes, codes, Option, none, some,
}
use dkim.Error.Laws.{bind-eq-ok, ok_or-eq-ok, ok-injective, err-injective}
use dkim.Error.{DkimError, ok, err, builder_error}
use dkim.Externals.{Platform}
use dkim.Parser.{HashAlgo, rsa_sha256, ed25519_sha256}
use dkim.Sign.{DkimPrivateKey, rsa, ed25519, SignerBuilder, DkimSigner, build, algo_of}

abbrev pub IsGiven {ℓ} : {A : Type ℓ} → Option A → Type ℓ
IsGiven {A = A} o = (x : A) × (o ≡ some x)

is_given {ℓ} : {A : Type ℓ} (o : Option A) → (o ≡ none) ⊎ IsGiven o
is_given none = inl refl
is_given (some x) = inr (x, refl)

module _ (p : Platform) where
  -- The algorithms that the two types of keys sign with.
  abbrev pub SignsWith : DkimPrivateKey p.crypto → HashAlgo → Type 0
  SignsWith (rsa _) algo = algo ≡ rsa_sha256
  SignsWith (ed25519 _) algo = algo ≡ ed25519_sha256

  -- Every field of a signer is the builder's, and the algorithm is one that the key signs with.
  pub record BuiltFrom (builder : SignerBuilder p) (signer : DkimSigner p) : Type 0 where
    pub headers_set : builder.signed_headers ≡ some signer.signed_headers
    pub key_set : builder.private_key ≡ some signer.private_key
    pub selector_set : builder.selector ≡ some signer.selector
    pub domain_set : builder.signing_domain ≡ some signer.signing_domain
    pub logger_set : builder.logger ≡ some signer.logger
    pub header_type : signer.header_canonicalization ≡ builder.header_canonicalization
    pub body_type : signer.body_canonicalization ≡ builder.body_canonicalization
    pub expiry_is : signer.expiry ≡ builder.expiry
    pub time_is : signer.time ≡ builder.time
    pub algo_is : SignsWith signer.private_key signer.hash_algo

  algo_of-SignsWith : (key : DkimPrivateKey p.crypto) → SignsWith key (algo_of p key)
  unfolding algo_of
  algo_of-SignsWith (rsa _) = refl
  algo_of-SignsWith (ed25519 _) = refl

  SignsWith-algo_of :
      (key : DkimPrivateKey p.crypto) (algo : HashAlgo) → SignsWith key algo → algo ≡ algo_of p key
  unfolding algo_of
  SignsWith-algo_of (rsa _) algo e = e
  SignsWith-algo_of (ed25519 _) algo e = e

  pub build_sound :
      (builder : SignerBuilder p) (signer : DkimSigner p)
      → build p builder ≡ ok signer
      → BuiltFrom builder signer
  unfolding build
  build_sound builder signer h =
      let (key, k, h1) = bind-eq-ok _ _ h in
      let (headers, hs, h2) = bind-eq-ok _ _ h1 in
      let (selector, s, h3) = bind-eq-ok _ _ h2 in
      let (logger, l, h4) = bind-eq-ok _ _ h3 in
      let (domain, d, made) = bind-eq-ok _ _ h4 in
      subst (BuiltFrom builder) (ok-injective made) (record {
        headers_set = ok_or-eq-ok _ _ hs;
        key_set = ok_or-eq-ok _ _ k;
        selector_set = ok_or-eq-ok _ _ s;
        domain_set = ok_or-eq-ok _ _ d;
        logger_set = ok_or-eq-ok _ _ l;
        header_type = refl;
        body_type = refl;
        expiry_is = refl;
        time_is = refl;
        algo_is = algo_of-SignsWith key;
      })

  build_complete :
      (builder : SignerBuilder p) (signer : DkimSigner p)
      → BuiltFrom builder signer
      → build p builder ≡ ok signer
  unfolding build
  build_complete builder signer b = rw (
    b.key_set,
    b.headers_set,
    b.selector_set,
    b.logger_set,
    b.domain_set,
    build,
    b.header_type,
    b.body_type,
    b.expiry_is,
    b.time_is,
    SignsWith-algo_of signer.private_key _ b.algo_is,
  )

  -- The first required field that is not set, in the order of the checks, and what is said of it.
  abbrev pub FirstMissing : SignerBuilder p → Bytes → Type 0
  FirstMissing builder text =
      ((builder.private_key ≡ none) × (text ≡ codes "missing required private key"))
      ⊎ (IsGiven builder.private_key
          × (((builder.signed_headers ≡ none) × (text ≡ codes "missing required signed headers"))
              ⊎ (IsGiven builder.signed_headers
                  × (((builder.selector ≡ none) × (text ≡ codes "missing required selector"))
                      ⊎ (IsGiven builder.selector
                          × (((builder.logger ≡ none) × (text ≡ codes "missing required logger"))
                              ⊎ (IsGiven builder.logger
                                  × ((builder.signing_domain ≡ none)
                                      × (text ≡ codes "missing required logger")))))))))

  refused :
      (builder : SignerBuilder p) (text : Bytes)
      → FirstMissing builder text
      → build p builder ≡ err (builder_error text)
  unfolding build
  refused builder text (inl (no_key, t)) = rw (no_key, t)
  refused builder text (inr ((_, key), inl (no_headers, t))) = rw (key, no_headers, t)
  refused builder text (inr ((_, key), inr ((_, headers), inl (no_selector, t)))) =
      rw (key, headers, no_selector, t)
  refused builder text
        (inr ((_, key), inr ((_, headers), inr ((_, selector), inl (no_logger, t))))) =
      rw (key, headers, selector, no_logger, t)
  refused builder text
        (inr
          ((_, key), inr ((_, headers), inr ((_, selector), inr ((_, logger), (no_domain, t)))))) =
      rw (key, headers, selector, logger, no_domain, t)

  -- Either all the required fields are set, or one is the first that is not.
  build_cases :
      (builder : SignerBuilder p)
      → ((signer : DkimSigner p) × BuiltFrom builder signer)
        ⊎ ((text : Bytes) × FirstMissing builder text)
  build_cases builder = elim (is_given builder.private_key) [
    | inl no_key ↦ inr (_, inl (no_key, refl))
    | inr (key, k) ↦ elim (is_given builder.signed_headers) [
      | inl no_headers ↦ inr (_, inr ((key, k), inl (no_headers, refl)))
      | inr (headers, hs) ↦ elim (is_given builder.selector) [
        | inl no_selector ↦ inr (_, inr ((key, k), inr ((headers, hs), inl (no_selector, refl))))
        | inr (selector, s) ↦ elim (is_given builder.logger) [
          | inl no_logger ↦
              inr
                (_, inr ((key, k), inr ((headers, hs), inr ((selector, s), inl (no_logger, refl)))))
          | inr (logger, l) ↦ elim (is_given builder.signing_domain) [
            | inl no_domain ↦ inr (
              _,
              inr (
                (key, k),
                inr ((headers, hs), inr ((selector, s), inr ((logger, l), (no_domain, refl)))),
              ),
            )
            | inr (domain, d) ↦ inl (
              _,
              record {
                headers_set = hs;
                key_set = k;
                selector_set = s;
                domain_set = d;
                logger_set = l;
                header_type = refl;
                body_type = refl;
                expiry_is = refl;
                time_is = refl;
                algo_is = algo_of-SignsWith key;
              },
            )
          ]
        ]
      ]
    ]
  ]

  -- Build gives a signer exactly if every required field is set and is the signer's, the other
  -- fields are the builder's, and the algorithm is rsa-sha256 for an RSA key and ed25519-sha256
  -- for an Ed25519 key; and it gives an error exactly if a required field is missing, the
  -- builder's error for the first of private key, signed headers, selector, logger and signing
  -- domain, where a missing signing domain is reported as a missing logger.
  pub build_iff :
      (builder : SignerBuilder p) (signer : DkimSigner p) (e : DkimError)
      → ((build p builder ≡ ok signer) ↔ BuiltFrom builder signer)
        × ((build p builder ≡ err e)
            ↔ ((text : Bytes) × FirstMissing builder text × (e ≡ builder_error text)))
  build_iff builder signer e = (
    (build_sound builder signer, build_complete builder signer),
    (
      λ h. elim (build_cases builder) [
        | inl (made, b) ↦ let good = sym (build_complete builder made b) ∙ h in absurd (cc)
        | inr (text, missing) ↦
            (text, missing, sym (err-injective (sym (refused builder text missing) ∙ h)))
      ],
      λ (text, missing, is). refused builder text missing ∙ ap err (sym is),
    ),
  )
