-- ===== src/Tests/Signer.antt =====
-- A signer, and the headers that it writes, at concrete inputs.
use dkim.Prelude.{
  ◌↔◌, ℕ, ◌≡◌, ◌≢◌, refl, Bool, true, false, List, [], ◌∷◌, ◌++◌, map, Option, none, some, Bytes,
  codes, arith, ◌<◌,
}
use dkim.Canonicalization.{simple, relaxed}
use dkim.Error.{DkimError, ok, err, builder_error}
use dkim.Externals.{MailHeader, ParsedMail}
use dkim.Hash.Select.{from_bottom, select_headers-from_bottom}
use dkim.Hash.{select_headers}
use dkim.Header.ReadBack.{IsHeader, build_read_back}
use dkim.Header.Print.{tags_of}
use dkim.Header.{
  DkimHeader, DkimHeaderBuilder, TagMap, new, add_tag, set_signed_headers, build as build_header,
}
use dkim.Nom.{done}
use dkim.Parser.RoundTrip.{IsPlain, printed, tag_list-printed}
use dkim.Parser.{Tag, tag_list, rsa_sha256}
use dkim.Sign.Built.{BuiltFrom, FirstMissing, build_iff}
use dkim.Sign.Laws.{sign_with_expiry}
use dkim.Sign.{
  DkimPrivateKey, rsa, SignerBuilder, DkimSigner, new_signer, with_signed_headers, build, algo_name,
  sign,
}
use dkim.Str.{All, split, trim, to_ascii_lowercase}
use dkim.Tests.Program.{program}
use dkim.Tests.Combinators.{combinators}
use dkim.Tests.Crates.{clock, crates}
use dkim.Validate.{tags_map}

abbrev plain_tag : Bytes → Bytes → Tag
plain_tag name value = record { name = name; value = value; raw_value = value }

v_tag_IsPlain : IsPlain (plain_tag (codes "v") (codes "1"))
v_tag_IsPlain = record {
  name_ne_nil = λ h. cc;
  name_alpha = (refl, tt);
  value_visible = (refl, tt);
  raw_is_value = refl;
}

d_tag_IsPlain : IsPlain (plain_tag (codes "d") (codes "b.c"))
d_tag_IsPlain = record {
  name_ne_nil = λ h. cc;
  name_alpha = (refl, tt);
  value_visible = (refl, (refl, (refl, tt)));
  raw_is_value = refl;
}

abbrev two_tags : List Tag
two_tags = plain_tag (codes "v") (codes "1") ∷ plain_tag (codes "d") (codes "b.c") ∷ []

tag_list-printed_example : tag_list combinators (printed two_tags) ≡ done ([], two_tags)
tag_list-printed_example =
    tag_list-printed combinators (plain_tag (codes "v") (codes "1"))
      (plain_tag (codes "d") (codes "b.c") ∷ []) (v_tag_IsPlain, (d_tag_IsPlain, tt))

run_printed : printed two_tags ≡ codes "v=1; d=b.c;"
run_printed = refl

abbrev builder : DkimHeaderBuilder clock
builder = record {
  header = record {
    tags =
        (codes "v", plain_tag (codes "v") (codes "1"))
        ∷ (codes "d", plain_tag (codes "d") (codes "b.c"))
        ∷ [];
    raw_bytes = [];
  };
  time = none;
}

run_add_tags :
    add_tag clock (codes "d") (codes "b.c") (add_tag clock (codes "v") (codes "1") (new clock))
    ≡ builder
unfolding add_tag dkim.Map.insert dkim.Prelude.beq
run_add_tags = refl

builder_IsHeader : IsHeader builder.header
unfolding dkim.Map.get dkim.Prelude.beq
builder_IsHeader = ((refl, (refl, tt)), (refl, (refl, tt)))

abbrev built : DkimHeader
built = record { tags = builder.header.tags; raw_bytes = codes "v=1; d=b.c;" }

build_built : build_header clock builder ≡ ok built
unfolding build_header dkim.Header.serialize
build_built = refl

builder-ne-nil : builder.header.tags ≢ []
builder-ne-nil h = cc

build_read_back_example :
    (tag_list combinators built.raw_bytes ≡ done ([], tags_of built.tags))
    × (tags_map [] (tags_of built.tags) ≡ built.tags)
build_read_back_example =
    build_read_back clock combinators builder built builder_IsHeader builder-ne-nil
      (v_tag_IsPlain, (d_tag_IsPlain, tt)) build_built

abbrev header_of : Bytes → Bytes → MailHeader
header_of key value = record { key = key; value_raw = value }

abbrev email : ParsedMail
email = record {
  raw_bytes = codes "To: 1\r\nFrom: a@b.c\r\nto: 2\r\n\r\nhi\r\n";
  headers =
      header_of (codes "To") (codes "1")
      ∷ header_of (codes "From") (codes "a@b.c")
      ∷ header_of (codes "to") (codes "2")
      ∷ [];
}

select_headers-from_bottom_example :
    select_headers (codes "to: From :TO:to") email
    ≡ from_bottom email.headers []
        (map (λ h. to_ascii_lowercase (trim h)) (split b':' (codes "to: From :TO:to")))
select_headers-from_bottom_example = select_headers-from_bottom (codes "to: From :TO:to") email

run_select_headers :
    select_headers (codes "to: From :TO:to") email
    ≡ (codes "to", codes "2") ∷ (codes "From", codes "a@b.c") ∷ (codes "To", codes "1") ∷ []
unfolding select_headers dkim.Hash.select_loop dkim.Hash.find_header dkim.Map.get dkim.Map.insert
    dkim.Prelude.beq split trim to_ascii_lowercase dkim.Str.ascii_lower
    dkim.Str.eq_ignore_ascii_case dkim.Str.trim_start dkim.Str.trim_end dkim.Str.strip
    dkim.Str.space_width dkim.Str.space_width_back
run_select_headers = refl

abbrev signer_builder : SignerBuilder crates
signer_builder = record {
  signed_headers = some (codes "From" ∷ codes "To" ∷ []);
  private_key = some (rsa []);
  selector = some (codes "k");
  signing_domain = some (codes "b.c");
  time = some 7;
  header_canonicalization = simple;
  body_canonicalization = relaxed;
  logger = some tt;
  expiry = none;
}

abbrev signer : DkimSigner crates
signer = record {
  signed_headers = codes "From" ∷ codes "To" ∷ [];
  private_key = rsa [];
  selector = codes "k";
  signing_domain = codes "b.c";
  header_canonicalization = simple;
  body_canonicalization = relaxed;
  logger = tt;
  expiry = none;
  hash_algo = rsa_sha256;
  time = some 7;
}

built_signer : build crates signer_builder ≡ ok signer
unfolding build dkim.Sign.algo_of
built_signer = refl

abbrev no_selector : DkimError
no_selector = builder_error (codes "missing required selector")

build_iff_example :
    ((build crates signer_builder ≡ ok signer) ↔ BuiltFrom crates signer_builder signer)
    × ((build crates signer_builder ≡ err no_selector) ↔ (
        (text : Bytes) × FirstMissing crates signer_builder text
        × (no_selector ≡ builder_error text)))
build_iff_example = build_iff crates signer_builder signer no_selector

abbrev expiring : DkimSigner crates
expiring = record signer { expiry = some 60 }

sign_with_expiry_example :
    sign crates expiring 0 email ≡ err (builder_error (codes "missing require time"))
sign_with_expiry_example = sign_with_expiry crates expiring 0 email 60 refl

run_sign :
    sign crates signer 0 email
    ≡ ok (
        codes
          "DKIM-Signature: v=1; a=rsa-sha256; d=b.c; s=k; c=simple/relaxed; bh=4; h=from:to; t=7; b=110;")
unfolding program sign
run_sign = refl
