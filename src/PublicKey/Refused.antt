-- ===== src/PublicKey/Refused.antt =====
-- How `retrieve_public_key` of src/public_key.rs fails.
use dkim.Prelude.{List, [], ◌⊎◌, Bytes, codes, arith}
use dkim.Error.NoPanic.{NoPanic, NoPanic-bind, NoPanic-ok_or, no_panic_rules}
use dkim.Error.{ok, err, key_syntax_error, no_key_for_signature, ok_or, ◌>>=◌, ◌>>◌}
use dkim.Externals.{Crypto}
use dkim.Map.{Map, get}
use dkim.Nom.{Nom, IResult, done, error}
use dkim.Parser.{Tag, tag_list}
use dkim.Str.{Unicode, erase_all}
use dkim.PublicKey.{
  ResolveError, lookup_txt, first, Lookup, key_tags, check_key_version, key_type_of, decode_rsa,
  decode_ed25519, decode_key, retrieve_public_key,
}

check_key_version-NoPanic : (tags : Map Tag) → NoPanic (check_key_version tags)
unfolding check_key_version
check_key_version-NoPanic tags = ground arith

key_type_of-NoPanic : (tags : Map Tag) → NoPanic (key_type_of tags)
unfolding key_type_of
key_type_of-NoPanic tags = ground arith

pub lookup_txt-NoPanic :
    (unicode : Unicode) (inner : Bytes → ResolveError ⊎ List (List Bytes)) (name : Bytes)
    → NoPanic (lookup_txt unicode inner name)
unfolding lookup_txt
lookup_txt-NoPanic unicode inner name = ground arith

module _ (crypto : Crypto) where
  decode_rsa-NoPanic : (bytes : Bytes) → NoPanic (decode_rsa crypto bytes)
  unfolding decode_rsa
  decode_rsa-NoPanic bytes = ground arith

  decode_ed25519-NoPanic : (bytes : Bytes) → NoPanic (decode_ed25519 crypto bytes)
  unfolding decode_ed25519
  decode_ed25519-NoPanic bytes = ground arith

  decode_key-NoPanic : (t text : Bytes) → NoPanic (decode_key crypto t text)
  unfolding decode_key
  decode_key-NoPanic t text = grind (arith, decode_rsa-NoPanic, decode_ed25519-NoPanic)

  checks-NoPanic :
      (tags : Map Tag)
      → NoPanic (
          check_key_version tags
          >> (key_type_of tags >>= λ t. ok_or no_key_for_signature (get tags (codes "p")) >>= λ tag.
              decode_key crypto t tag.value))
  checks-NoPanic tags =
      search (no_panic_rules, check_key_version-NoPanic, key_type_of-NoPanic, decode_key-NoPanic)

  tags_of-NoPanic :
      {E : Type 0} (r : IResult E (List Tag))
      → NoPanic {A = List Tag}
          (elim r [ done (_, tags) ↦ ok tags | error _ ↦ err key_syntax_error ])
  tags_of-NoPanic r = ground arith

  -- A lookup panics only where its resolver does.
  pub retrieve_public_key-NoPanic :
      (nom : Nom) (resolver : Lookup) (domain subdomain : Bytes)
      → ((name : Bytes) → NoPanic (resolver name))
      → NoPanic (retrieve_public_key crypto nom resolver domain subdomain)
  unfolding retrieve_public_key
  retrieve_public_key-NoPanic nom resolver domain subdomain safe =
      NoPanic-bind _ _ (safe _) (λ records _.
        NoPanic-bind (ok_or no_key_for_signature (first records)) _ (NoPanic-ok_or _ _) (λ text _.
          NoPanic-bind _ _ (tags_of-NoPanic (tag_list nom (erase_all text (codes "\" \""))))
            (λ tags _. checks-NoPanic (key_tags [] tags))))
