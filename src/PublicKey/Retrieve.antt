-- ===== src/PublicKey/Retrieve.antt =====
-- What `retrieve_public_key` of src/public_key.rs returns.
use dkim.Prelude.{
  ◌≡◌, ◌≢◌, sym, ap, subst, ◌∙◌, true, false, not, ◌&&◌, Bool-cases, Option-cases, List, [], ◌∷◌,
  ◌++◌, ◌⊎◌, inl, inr, none, some, Bytes, codes, beq, beq_iff, arith, if◌then◌else◌,
}
use dkim.Error.Laws.{bind-eq-ok, ok_or-eq-ok, ok-injective}
use dkim.Error.{
  DkimError, Outcome, ok, err, ok_or, inappropriate_key_algorithm, key_unavailable,
  key_syntax_error, no_key_for_signature,
}
use dkim.Externals.{Crypto}
use dkim.Map.{Map, get}
use dkim.Nom.{Nom, IResult, done, error}
use dkim.Parser.{Tag, tag_list}
use dkim.PublicKey.{
  Lookup, dns_namespace, rsa_key_type, ed25519_key_type, first, key_tags, check_key_version,
  key_type_of, DkimPublicKey, rsa, rsa_from, decode_rsa, decode_ed25519, decode_key,
  retrieve_public_key, key_type,
}
use dkim.Str.{erase_all}

-- The record names the type, `rsa` if it names none.
abbrev pub NamesType : Map Tag → Bytes → Type 0
NamesType tags t =
    ((get tags (codes "k") ≡ none) × (t ≡ rsa_key_type))
    ⊎ ((v : Tag) × (get tags (codes "k") ≡ some v) × (t ≡ v.value))

inappropriate : {t : Bytes} → err inappropriate_key_algorithm ≢ ok t
inappropriate h = cc

abbrev named_type : Bytes → Outcome Bytes
named_type value =
    if not (beq value rsa_key_type) && not (beq value ed25519_key_type)
    then err inappropriate_key_algorithm
    else ok value

named_type_sound :
    (value t : Bytes)
    → named_type value ≡ ok t
    → (t ≡ value) × ((t ≡ rsa_key_type) ⊎ (t ≡ ed25519_key_type))
named_type_sound value t h = elim (Bool-cases (beq value rsa_key_type)) [
  | inl r ↦
      let is : t ≡ value = sym (ok-injective (rw r at h)) in
      (is, inl (is ∙ (beq_iff value rsa_key_type).0 r))
  | inr r ↦ elim (Bool-cases (beq value ed25519_key_type)) [
    | inl d ↦
        let is : t ≡ value = sym (ok-injective (rw (r, d) at h)) in
        (is, inr (is ∙ (beq_iff value ed25519_key_type).0 d))
    | inr d ↦ absurd (inappropriate (rw (r, d) at h))
  ]
]

key_type_of_sound :
    (tags : Map Tag) (t : Bytes)
    → key_type_of tags ≡ ok t
    → NamesType tags t × ((t ≡ rsa_key_type) ⊎ (t ≡ ed25519_key_type))
unfolding key_type_of
key_type_of_sound tags t h = elim (Option-cases (get tags (codes "k"))) [
  | inl e ↦
      let is : t ≡ rsa_key_type = sym (ok-injective (rw (e, key_type_of) at h)) in
      (inl (e, is), inl is)
  | inr (v, e) ↦
      let (is, known) = named_type_sound v.value t (rw (e, key_type_of) at h) in
      (inr (v, e, is), known)
]

check_key_version_sound :
    (tags : Map Tag) (v : Tag)
    → check_key_version tags ≡ ok tt
    → get tags (codes "v") ≡ some v
    → v.value ≡ codes "DKIM1"
unfolding check_key_version
check_key_version_sound tags v h e = ground (arith, beq_iff v.value (codes "DKIM1"))

true-ne-false : true ≢ false
true-ne-false h = cc

other :
    {t : Bytes}
    → (t ≡ rsa_key_type) ⊎ (t ≡ ed25519_key_type)
    → beq t rsa_key_type ≡ false
    → t ≡ ed25519_key_type
other {t} (inl e) r = absurd (true-ne-false (sym ((beq_iff t rsa_key_type).1 e) ∙ r))
other (inr e) r = e

first_sound :
    (records : List Bytes) (x : Bytes)
    → first records ≡ some x
    → (xs : List Bytes) × (records ≡ x ∷ xs)
unfolding first
first_sound [] x h = cc
first_sound (y ∷ records) x h = (records, cc)

module _ (crypto : Crypto) where
  unavailable : {e : DkimError} {key : DkimPublicKey crypto} → err e ≢ ok key
  unavailable h = cc

  rsa_of :
      (o : Bytes ⊎ crypto.RsaPublicKey) (key : DkimPublicKey crypto)
      → (elim o [
        | inr k ↦ ok (rsa k)
        | inl e ↦ err (key_unavailable (codes "failed to parse public key: " ++ e))
      ])
        ≡ ok key
      → key_type crypto key ≡ rsa_key_type
  unfolding key_type
  rsa_of (inr k) key h = ap (key_type crypto) (sym (ok-injective h))
  rsa_of (inl e) key h = cc

  decode_rsa-key_type :
      (bytes : Bytes) (key : DkimPublicKey crypto)
      → decode_rsa crypto bytes ≡ ok key
      → key_type crypto key ≡ rsa_key_type
  unfolding decode_rsa key_type
  decode_rsa-key_type bytes key h = rsa_of (rsa_from crypto bytes) key h

  decode_ed25519-key_type :
      (bytes : Bytes) (key : DkimPublicKey crypto)
      → decode_ed25519 crypto bytes ≡ ok key
      → key_type crypto key ≡ ed25519_key_type
  unfolding decode_ed25519 key_type
  decode_ed25519-key_type bytes key h = ground arith

  decode_key-key_type :
      (t text : Bytes) (key : DkimPublicKey crypto)
      → (t ≡ rsa_key_type) ⊎ (t ≡ ed25519_key_type)
      → decode_key crypto t text ≡ ok key
      → key_type crypto key ≡ t
  unfolding decode_key
  decode_key-key_type t text key known h = decoded_type (crypto.base64_decode text) h
    where
      by_test :
          (bytes : Bytes)
          → (if beq t rsa_key_type then decode_rsa crypto bytes else decode_ed25519 crypto bytes)
            ≡ ok key
          → key_type crypto key ≡ t
      by_test bytes h = elim (Bool-cases (beq t rsa_key_type)) [
        | inl r ↦ decode_rsa-key_type bytes key (rw r at h) ∙ sym ((beq_iff t rsa_key_type).0 r)
        | inr r ↦ decode_ed25519-key_type bytes key (rw r at h) ∙ sym (other known r)
      ]

      decoded_type :
          (o : Bytes ⊎ Bytes)
          → (elim o [
            | inr bytes ↦
                if beq t rsa_key_type then decode_rsa crypto bytes else decode_ed25519 crypto bytes
            | inl e ↦ err (key_unavailable (codes "failed to decode public key: " ++ e))
          ])
            ≡ ok key
          → key_type crypto key ≡ t
      decoded_type (inr bytes) h = by_test bytes h
      decoded_type (inl e) h = absurd (unavailable h)

  module _ (nom : Nom) (resolver : Lookup) (domain selector : Bytes) where
    -- The first record of the domain's name is a tag list of version DKIM1, if it names one, that
    -- names the key's type, and its `p=` is the key.
    pub record Retrieved (key : DkimPublicKey crypto) : Type 0 where
      pub record_text : Bytes
      pub others : List Bytes
      pub left_over : Bytes
      pub tags : List Tag
      pub p_tag : Tag
      pub looked_up :
          resolver (selector ++ (codes "." ++ (dns_namespace ++ (codes "." ++ domain))))
          ≡ ok (record_text ∷ others)
      pub parsed : tag_list nom (erase_all record_text (codes "\" \"")) ≡ done (left_over, tags)
      pub version_is :
          (v : Tag) → get (key_tags [] tags) (codes "v") ≡ some v → v.value ≡ codes "DKIM1"
      pub type_named : NamesType (key_tags [] tags) (key_type crypto key)
      pub p_is : get (key_tags [] tags) (codes "p") ≡ some p_tag
      pub decoded : decode_key crypto (key_type crypto key) p_tag.value ≡ ok key

    tags_sound :
        (o : IResult nom.Error (List Tag)) (tags : List Tag)
        → (elim o [ done (_, tags) ↦ ok tags | error _ ↦ err key_syntax_error ]) ≡ ok tags
        → (rest : Bytes) × (o ≡ done (rest, tags))
    tags_sound (done (rest, found)) tags h = (rest, ap (λ t. done (rest, t)) (ok-injective h))
    tags_sound (error e) tags h = cc

    -- If retrieve_public_key returns a key, the first TXT record of the selector's name parses to
    -- tags whose v= is DKIM1 if there is one, whose k= is the type of the key, rsa if there is
    -- none, and whose p= decodes to the key.
    pub retrieve_public_key_sound :
        (key : DkimPublicKey crypto)
        → retrieve_public_key crypto nom resolver domain selector ≡ ok key
        → Retrieved key
    unfolding retrieve_public_key
    retrieve_public_key_sound key h =
        let (records, looked_up, h1) = bind-eq-ok (resolver _) _ h in
        let (record_text, is_first, h2) =
          bind-eq-ok (ok_or no_key_for_signature (first records)) _ h1 in
        let (tags, read, h3) = bind-eq-ok _ _ h2 in
        let (_, version, h4) = bind-eq-ok (check_key_version (key_tags [] tags)) _ h3 in
        let (t, type_is, h5) = bind-eq-ok (key_type_of (key_tags [] tags)) _ h4 in
        let (p_tag, p_is, decoded) =
          bind-eq-ok (ok_or no_key_for_signature (get (key_tags [] tags) (codes "p"))) _ h5 in
        let (others, at) = first_sound records record_text (ok_or-eq-ok _ _ is_first) in
        let (left_over, parsed) =
          tags_sound (tag_list nom (erase_all record_text (codes "\" \""))) tags read in
        let (named, known) = key_type_of_sound (key_tags [] tags) t type_is in
        let same = decode_key-key_type t p_tag.value key known decoded in
        record {
          record_text = record_text;
          others = others;
          left_over = left_over;
          tags = tags;
          p_tag = p_tag;
          looked_up = looked_up ∙ ap ok at;
          parsed = parsed;
          version_is = λ v e. check_key_version_sound (key_tags [] tags) v version e;
          type_named = subst (NamesType (key_tags [] tags)) (sym same) named;
          p_is = ok_or-eq-ok _ _ p_is;
          decoded = ap (λ t. decode_key crypto t p_tag.value) same ∙ decoded;
        }
