-- ===== src/PublicKey/Statuses.antt =====
-- The errors of `retrieve_public_key` of src/public_key.rs have a status.
use dkim.Prelude.{List, [], ◌⊎◌, Bytes, codes, arith}
use dkim.Error.Statuses.{Verdicts, Verdicts-bind, Verdicts-ok_or, verdict_rules}
use dkim.Error.{ok, err, key_syntax_error, no_key_for_signature, ok_or, ◌>>=◌, ◌>>◌}
use dkim.Externals.{Crypto}
use dkim.Map.{Map, get}
use dkim.Nom.{Nom, IResult, done, error}
use dkim.Parser.{Tag, tag_list}
use dkim.Str.{Unicode, erase_all}
use dkim.PublicKey.{
  ResolveError, lookup_txt, to_lookup_error, first, Lookup, key_tags, check_key_version,
  key_type_of, decode_rsa, decode_ed25519, decode_key, retrieve_public_key,
}

check_key_version-Verdicts : (tags : Map Tag) → Verdicts (check_key_version tags)
unfolding check_key_version
check_key_version-Verdicts tags = ground arith

key_type_of-Verdicts : (tags : Map Tag) → Verdicts (key_type_of tags)
unfolding key_type_of
key_type_of-Verdicts tags = ground arith

pub lookup_txt-Verdicts :
    (unicode : Unicode) (inner : Bytes → ResolveError ⊎ List (List Bytes)) (name : Bytes)
    → Verdicts (lookup_txt unicode inner name)
unfolding lookup_txt to_lookup_error
lookup_txt-Verdicts unicode inner name = ground arith

module _ (crypto : Crypto) where
  decode_rsa-Verdicts : (bytes : Bytes) → Verdicts (decode_rsa crypto bytes)
  unfolding decode_rsa
  decode_rsa-Verdicts bytes = ground arith

  decode_ed25519-Verdicts : (bytes : Bytes) → Verdicts (decode_ed25519 crypto bytes)
  unfolding decode_ed25519
  decode_ed25519-Verdicts bytes = ground arith

  decode_key-Verdicts : (t text : Bytes) → Verdicts (decode_key crypto t text)
  unfolding decode_key
  decode_key-Verdicts t text = grind (arith, decode_rsa-Verdicts, decode_ed25519-Verdicts)

  checks-Verdicts :
      (tags : Map Tag)
      → Verdicts (
          check_key_version tags
          >> (key_type_of tags >>= λ t. ok_or no_key_for_signature (get tags (codes "p")) >>= λ tag.
              decode_key crypto t tag.value))
  checks-Verdicts tags =
      search (verdict_rules, check_key_version-Verdicts, key_type_of-Verdicts, decode_key-Verdicts)

  tags_of-Verdicts :
      {E : Type 0} (r : IResult E (List Tag))
      → Verdicts {A = List Tag}
          (elim r [ done (_, tags) ↦ ok tags | error _ ↦ err key_syntax_error ])
  tags_of-Verdicts r = ground arith

  -- A lookup has the errors of its resolver, and its own.
  pub retrieve_public_key-Verdicts :
      (nom : Nom) (resolver : Lookup) (domain subdomain : Bytes)
      → ((name : Bytes) → Verdicts (resolver name))
      → Verdicts (retrieve_public_key crypto nom resolver domain subdomain)
  unfolding retrieve_public_key
  retrieve_public_key-Verdicts nom resolver domain subdomain safe =
      Verdicts-bind _ _ (safe _) (λ records.
        Verdicts-bind (ok_or no_key_for_signature (first records)) _ (Verdicts-ok_or _ _ tt)
          (λ text.
            Verdicts-bind _ _ (tags_of-Verdicts (tag_list nom (erase_all text (codes "\" \""))))
              (λ tags. checks-Verdicts (key_tags [] tags))))
