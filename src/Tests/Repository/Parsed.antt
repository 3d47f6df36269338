-- ===== src/Tests/Repository/Parsed.antt =====
-- The tests of src/parser.rs and src/public_key.rs.
use dkim.Prelude.{◌≡◌, refl, true, [], ◌∷◌, none, some, Bytes, codes, beq, if◌then◌else◌}
use dkim.Canonicalization.{simple, relaxed}
use dkim.Error.{ok, err, panic, key_incompatible_version, inappropriate_key_algorithm}
use dkim.Nom.{done}
use dkim.Parser.{Tag, tag_list, tag_spec, parse_canonicalization}
use dkim.PublicKey.{Lookup, retrieve_public_key}
use dkim.Tests.Combinators.{combinators}
use dkim.Tests.Real.{crypto}
use dkim.Tests.Repository.{is_ok}
use dkim.Tests.Program.{program}

abbrev pub TestCanonicalizationEmpty : Type 0
TestCanonicalizationEmpty = parse_canonicalization none ≡ ok (simple, simple)

test_canonicalization_empty : TestCanonicalizationEmpty
unfolding program
test_canonicalization_empty = refl

abbrev pub TestCanonicalizationOneAlgo : Type 0
TestCanonicalizationOneAlgo =
    (parse_canonicalization (some (codes "simple")) ≡ ok (simple, simple))
    × (parse_canonicalization (some (codes "relaxed")) ≡ ok (relaxed, simple))

test_canonicalization_one_algo : TestCanonicalizationOneAlgo
unfolding program
test_canonicalization_one_algo = (refl, refl)

abbrev tag : Bytes → Bytes → Bytes → Tag
tag name value raw_value = record { name = name; value = value; raw_value = raw_value }

abbrev pub TestTagList : Type 0
TestTagList =
    (tag_list combinators (codes "a = a/1@.-:= ")
      ≡ done ([], tag (codes "a") (codes "a/1@.-:=") (codes "a/1@.-:=") ∷ []))
    × (tag_list combinators (codes "a= a ; b = a\n    bc")
        ≡ done (
          [],
          tag (codes "a") (codes "a") (codes "a")
              ∷ tag (codes "b") (codes "abc") (codes "a\n    bc")
              ∷ [],
        ))

test_tag_list : TestTagList
unfolding program
test_tag_list = (refl, refl)

abbrev pub TestTagSpec : Type 0
TestTagSpec =
    (tag_spec combinators (codes "a=b") ≡ done ([], tag (codes "a") (codes "b") (codes "b")))
    × (tag_spec combinators (codes "a=b c d e f")
        ≡ done ([], tag (codes "a") (codes "bcdef") (codes "b c d e f")))

test_tag_spec : TestTagSpec
unfolding program
test_tag_spec = (refl, refl)

abbrev pub TestTagListDns : Type 0
TestTagListDns =
    tag_list combinators (codes "k=rsa; p=kEy+/")
    ≡ done (
      [],
      tag (codes "k") (codes "rsa") (codes "rsa")
          ∷ tag (codes "p") (codes "kEy+/") (codes "kEy+/")
          ∷ [],
    )

test_tag_list_dns : TestTagListDns
unfolding program
test_tag_list_dns = refl

-- The resolver of the tests, which answers one name only.
abbrev test_resolver : Bytes → Lookup
test_resolver text name =
    if beq name (codes "dkim._domainkey.cloudflare.com") then ok (text ∷ []) else panic

abbrev pub TestRetrievePublicKey : Type 0
TestRetrievePublicKey =
    is_ok (
      retrieve_public_key crypto combinators
        (test_resolver (
          codes
            "v=DKIM1; k=rsa; p=MIIBIjANBgkqhkiG9w0BAQEFAAOCAQ8AMIIBCgKCAQEA6gmVDBSBJ0l1/33uAF0gwIsrjQV6nnYjL9DMX6+ez4NNJ2um0InYy128Rd+OlIhmdSld6g3tj3O6R+BwsYsQgU8RWE8VJaRybvPw2P3Asgms4uPrFWHSFiWMPH0P9i/oPwnUO9jZKHiz4+MzFC3bG8BacX7YIxCuWnDU8XNmNsRaLmrv9CHX4/3GHyoHSmDA1ETtyz9JHRCOC8ho8C7b4f2Auwedlau9Lid9LGBhozhgRFhrFwFMe93y34MO1clPbY6HwxpudKWBkMQCTlmXVRnkKxHlJ+fYCyC2jjpCIbGWj2oLxBtFOASWMESR4biW0ph2bsZXslcUSPMTVTkFxQIDAQAB"))
        (codes "cloudflare.com") (codes "dkim"))
    ≡ true

test_retrieve_public_key : TestRetrievePublicKey
unfolding program
test_retrieve_public_key = refl

abbrev pub TestRetrievePublicSplit : Type 0
TestRetrievePublicSplit =
    is_ok (
      retrieve_public_key crypto combinators
        (test_resolver (
          codes
            "v=DKIM1; k=rsa; p=MIIBIjANBgkqhkiG9w0BAQEFAAOCAQ8AMIIBCgK\" \"CAQEA6gmVDBSBJ0l1/33uAF0gwIsrjQV6nnYjL9DMX6+ez4NNJ2um0InYy128Rd+OlIhmdSld6g3tj3O6R+BwsYsQgU8RWE8VJaRybvPw2P3Asgms4uPrFWHSFiWMPH0P9i/oPwnUO9jZKHiz4+MzFC3bG8BacX7YIxCuWnDU8XNmNsRaLmrv9CHX4/3GHyoHSmDA1ETtyz9JHRCOC8ho8C7b4f2Auwedlau9Lid9LGBhozhgRFhrFwFMe93y34MO1clPbY6HwxpudKWBkMQCTlmXVRnkKxHlJ+fYCyC2jjpCIbGWj2oLxBtFOASWMESR4biW0ph2bsZXslcUSPMTVTkFxQIDAQAB"))
        (codes "cloudflare.com") (codes "dkim"))
    ≡ true

test_retrieve_public_split : TestRetrievePublicSplit
unfolding program
test_retrieve_public_split = refl

abbrev pub TestRetrievePublicKeyIncompatibleVersion : Type 0
TestRetrievePublicKeyIncompatibleVersion =
    retrieve_public_key crypto combinators (test_resolver (codes "v=DKIM6; p=key"))
      (codes "cloudflare.com") (codes "dkim")
    ≡ err key_incompatible_version

test_retrieve_public_key_incompatible_version : TestRetrievePublicKeyIncompatibleVersion
unfolding program
test_retrieve_public_key_incompatible_version = refl

abbrev pub TestRetrievePublicKeyInappropriateKeyAlgorithm : Type 0
TestRetrievePublicKeyInappropriateKeyAlgorithm =
    retrieve_public_key crypto combinators (test_resolver (codes "v=DKIM1; p=key; k=foo"))
      (codes "cloudflare.com") (codes "dkim")
    ≡ err inappropriate_key_algorithm

test_retrieve_public_key_inappropriate_key_algorithm :
    TestRetrievePublicKeyInappropriateKeyAlgorithm
unfolding program
test_retrieve_public_key_inappropriate_key_algorithm = refl
