-- ===== src/PublicKey/Complete.antt =====
-- When `retrieve_public_key` of src/public_key.rs returns a key.
use dkim.Prelude.{
  ◌≡◌, ◌↔◌, ◌⊎◌, refl, sym, Option-cases, [], inl, inr, some, Bytes, codes, beq, beq_iff,
}
use dkim.Error.{ok}
use dkim.Externals.{Crypto}
use dkim.Map.{Map, get}
use dkim.Nom.{Nom}
use dkim.Parser.{Tag}
use dkim.PublicKey.Retrieve.{NamesType, Retrieved, retrieve_public_key_sound}
use dkim.PublicKey.{
  Lookup, rsa_key_type, ed25519_key_type, first, key_tags, check_key_version, key_type_of,
  DkimPublicKey, rsa, ed25519, retrieve_public_key, key_type,
}

version_passes :
    (tags : Map Tag)
    → ((v : Tag) → get tags (codes "v") ≡ some v → v.value ≡ codes "DKIM1")
    → check_key_version tags ≡ ok tt
unfolding check_key_version
version_passes tags h = elim (Option-cases (get tags (codes "v"))) [
  | inl absent ↦ rw (absent, check_key_version)
  | inr (v, e) ↦ rw (e, check_key_version, (beq_iff v.value (codes "DKIM1")).1 (h v e))
]

abbrev Known : Bytes → Type 0
Known t = (t ≡ rsa_key_type) ⊎ (t ≡ ed25519_key_type)

type_passes : (tags : Map Tag) (t : Bytes) → Known t → NamesType tags t → key_type_of tags ≡ ok t
unfolding key_type_of beq
type_passes tags t known (inl (absent, is)) = rw (absent, key_type_of, is)
type_passes tags t (inl e) (inr (v, at, is)) = rw (at, key_type_of, sym is, e)
type_passes tags t (inr e) (inr (v, at, is)) = rw (at, key_type_of, sym is, e)

module _ (crypto : Crypto) (nom : Nom) (resolver : Lookup) (domain selector : Bytes) where
  key_type-Known : (key : DkimPublicKey crypto) → Known (key_type crypto key)
  unfolding key_type
  key_type-Known (rsa key) = inl refl
  key_type-Known (ed25519 key) = inr refl

  retrieve_public_key_complete :
      (key : DkimPublicKey crypto)
      → Retrieved crypto nom resolver domain selector key
      → retrieve_public_key crypto nom resolver domain selector ≡ ok key
  unfolding retrieve_public_key first
  retrieve_public_key_complete key r = rw (
    r.looked_up,
    retrieve_public_key,
    r.parsed,
    version_passes (key_tags [] r.tags) r.version_is,
    type_passes (key_tags [] r.tags) (key_type crypto key) (key_type-Known key) r.type_named,
    r.p_is,
    r.decoded,
  )

  -- retrieve_public_key returns a key exactly if the first TXT record of the selector's name
  -- parses to tags whose v= is DKIM1 if there is one, whose k= is the type of the key, rsa if
  -- there is none, and whose p= decodes to the key.
  pub retrieve_public_key_iff :
      (key : DkimPublicKey crypto)
      → (retrieve_public_key crypto nom resolver domain selector ≡ ok key)
        ↔ Retrieved crypto nom resolver domain selector key
  retrieve_public_key_iff key = (
    retrieve_public_key_sound crypto nom resolver domain selector key,
    retrieve_public_key_complete key,
  )
