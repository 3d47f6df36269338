-- ===== src/PublicKey.antt =====
-- src/public_key.rs, src/dns.rs and the public keys of src/lib.rs. The futures are awaited where they
-- are made, so the model calls them.
pub mod Retrieve
pub mod Complete
pub mod Refused
pub mod Statuses
pub mod Stored
use dkim.Prelude.{
  not, ◌&&◌, List, [], ◌∷◌, ◌++◌, ◌⊎◌, inl, inr, map, Option, none, some, Bytes, codes, beq, length,
  ◌==◌, if◌then◌else◌,
}
use dkim.Error.{
  DkimError, Outcome, ok, err, ◌>>=◌, ◌>>◌, guard, ok_or, unwrap, no_key_for_signature,
  key_unavailable, key_syntax_error, key_incompatible_version, inappropriate_key_algorithm,
}
use dkim.Externals.{Crypto}
use dkim.Map.{Map, get, insert}
use dkim.Nom.{Nom, done, error}
use dkim.Parser.{Tag, tag_list}
use dkim.Str.{Unicode, erase_all}

-- `Lookup::lookup_txt`: the TXT records of a name.
abbrev pub Lookup : Type 0
Lookup = Bytes → Outcome (List Bytes)

-- What the resolver's error says.
pub data ResolveError : Type 0 where
  no_records_found : ResolveError
  other : Bytes → ResolveError

unfoldable pub to_lookup_error : ResolveError → DkimError
to_lookup_error no_records_found = no_key_for_signature
to_lookup_error (other text) = key_unavailable (codes "failed to query DNS: " ++ text)

abbrev concat : List Bytes → Bytes
concat [] = []
concat (x ∷ xs) = x ++ concat xs

-- `TokioAsyncResolverWrapper`: each record is the concatenation of its strings.
unfoldable pub lookup_txt : Unicode → (Bytes → ResolveError ⊎ List (List Bytes)) → Lookup
lookup_txt unicode inner name = elim (inner name) [
  | inl e ↦ err (to_lookup_error e)
  | inr records ↦ ok (map (λ txt. concat (map unicode.from_utf8_lossy txt)) records)
]

-- The resolver that the program makes of the system's.
unfoldable pub from_tokio_resolver : Unicode → (Bytes → ResolveError ⊎ List (List Bytes)) → Lookup
from_tokio_resolver unicode resolver = lookup_txt unicode resolver

abbrev pub dns_namespace : Bytes
dns_namespace = codes "_domainkey"

abbrev pub rsa_key_type : Bytes
rsa_key_type = codes "rsa"

abbrev pub ed25519_key_type : Bytes
ed25519_key_type = codes "ed25519"

-- `first()` of the records.
unfoldable pub first : List Bytes → Option Bytes
first [] = none
first (x ∷ xs) = some x

unfoldable pub key_tags : Map Tag → List Tag → Map Tag
key_tags m [] = m
key_tags m (tag ∷ tags) = key_tags (insert m tag.name tag) tags

unfoldable pub check_key_version : Map Tag → Outcome (Unit {0})
check_key_version tags = elim (get tags (codes "v")) [
  | some version ↦ guard (beq version.value (codes "DKIM1")) key_incompatible_version
  | none ↦ ok tt
]

unfoldable pub key_type_of : Map Tag → Outcome Bytes
key_type_of tags = elim (get tags (codes "k")) [
  | some v ↦
      if not (beq v.value rsa_key_type) && not (beq v.value ed25519_key_type)
      then err inappropriate_key_algorithm
      else ok v.value
  | none ↦ ok rsa_key_type
]

module _ (crypto : Crypto) where
  pub data DkimPublicKey : Type 0 where
    rsa : crypto.RsaPublicKey → DkimPublicKey
    ed25519 : crypto.VerifyingKey → DkimPublicKey

  abbrev slice_error : Bytes
  slice_error = codes "could not convert slice to array"

  -- `or_else`: the key is read as PKCS #8, and if that fails as PKCS #1.
  abbrev rsa_from : Bytes → Bytes ⊎ crypto.RsaPublicKey
  rsa_from bytes = elim (crypto.from_public_key_der bytes) [
    | inr key ↦ inr key
    | inl _ ↦ crypto.from_pkcs1_der bytes
  ]

  unfoldable pub decode_rsa : Bytes → Outcome DkimPublicKey
  decode_rsa bytes = elim (rsa_from bytes) [
    | inr key ↦ ok (rsa key)
    | inl e ↦ err (key_unavailable (codes "failed to parse public key: " ++ e))
  ]

  unfoldable pub decode_ed25519 : Bytes → Outcome DkimPublicKey
  decode_ed25519 bytes =
      let convert_error =
        err (key_unavailable (codes "failed to convert public key: " ++ slice_error)) in
      let parsed : Outcome DkimPublicKey = elim (crypto.verifying_key_from_bytes bytes) [
        | inr key ↦ ok (ed25519 key)
        | inl e ↦ err (key_unavailable (codes "failed to parse public key: " ++ e))
      ] in
      if length bytes == 32 then parsed else convert_error

  unfoldable pub decode_key : Bytes → Bytes → Outcome DkimPublicKey
  decode_key key_type text = elim (crypto.base64_decode text) [
    | inr bytes ↦ if beq key_type rsa_key_type then decode_rsa bytes else decode_ed25519 bytes
    | inl e ↦ err (key_unavailable (codes "failed to decode public key: " ++ e))
  ]

  unfoldable pub retrieve_public_key : Nom → Lookup → Bytes → Bytes → Outcome DkimPublicKey
  retrieve_public_key nom resolver domain subdomain = do
    let dns_name = subdomain ++ (codes "." ++ (dns_namespace ++ (codes "." ++ domain)))
    res ← resolver dns_name
    record_text ← ok_or no_key_for_signature (first res)
    let txt = erase_all record_text (codes "\" \"")
    tags ← (elim (tag_list nom txt) [ done (_, tags) ↦ ok tags | error _ ↦ err key_syntax_error ])
    let tags_map = key_tags [] tags
    check_key_version tags_map
    key_type ← key_type_of tags_map
    tag ← ok_or no_key_for_signature (get tags_map (codes "p"))
    decode_key key_type tag.value

  -- `DkimPublicKey::to_vec`, `key_type` and `try_from_bytes`.
  unfoldable pub to_vec : DkimPublicKey → Outcome Bytes
  to_vec (ed25519 key) = ok (crypto.verifying_key_bytes key)
  to_vec (rsa key) = unwrap (crypto.to_pkcs1_der key)

  unfoldable pub key_type : DkimPublicKey → Bytes
  key_type (ed25519 _) = codes "ed25519"
  key_type (rsa _) = codes "rsa"

  unfoldable pub parse_rsa_key : Bytes → Outcome DkimPublicKey
  parse_rsa_key bytes = elim (crypto.from_pkcs1_der bytes) [
    | inr key ↦ ok (rsa key)
    | inl e ↦ err (key_unavailable (codes "failed to parse RSA key: " ++ e))
  ]

  unfoldable pub parse_ed25519_key : Bytes → Outcome DkimPublicKey
  parse_ed25519_key bytes =
      let length_error =
        err (key_unavailable (codes "invalid Ed25519 key length: " ++ slice_error)) in
      let parsed : Outcome DkimPublicKey = elim (crypto.verifying_key_from_bytes bytes) [
        | inr key ↦ ok (ed25519 key)
        | inl e ↦ err (key_unavailable (codes "failed to parse Ed25519 key: " ++ e))
      ] in
      if length bytes == 32 then parsed else length_error

  unfoldable pub try_from_bytes : Unicode → Bytes → Bytes → Outcome DkimPublicKey
  try_from_bytes unicode bytes key_type =
      let lower = unicode.to_lowercase key_type in
      if beq lower (codes "rsa")
      then parse_rsa_key bytes
      else if beq lower (codes "ed25519")
      then parse_ed25519_key bytes
      else err (key_unavailable (codes "unsupported key type: " ++ lower))

  -- `TryFrom<(&[u8], &str)>`.
  unfoldable pub try_from : Unicode → Bytes × Bytes → Outcome DkimPublicKey
  try_from unicode (bytes, key_type) = try_from_bytes unicode bytes key_type
