-- ===== src/Header.antt =====
-- src/header.rs: the DKIM-Signature header, and its builder. The `IndexMap` of the tags is an
-- association list in insertion order.
pub mod Print
pub mod ReadBack
pub mod Line
pub mod Reach
use dkim.Prelude.{
  ℕ, Bool, List, [], ◌∷◌, ◌++◌, map, Option, none, some, Bytes, codes, beq, if◌then◌else◌,
}
use mathlib.Core.Option
use dkim.Error.{Outcome, ok, ◌>>=◌, ok_or, unwrap, builder_error}
use dkim.Externals.{Chrono}
use dkim.Map.{Map, get, insert}
use dkim.Parser.{Tag}
use dkim.Str.Decimal.{int_to_string}
use dkim.Str.{Unicode, join}

abbrev pub TagMap : Type 0
TagMap = Map Tag

abbrev pub header_name : Bytes
header_name = codes "DKIM-Signature"

abbrev pub required_tags : List Bytes
required_tags =
    codes "v" ∷ codes "a" ∷ codes "b" ∷ codes "bh" ∷ codes "d" ∷ codes "h" ∷ codes "s" ∷ []

pub record DkimHeader : Type 0 where
  pub tags : TagMap
  pub raw_bytes : Bytes

unfoldable pub get_tag : DkimHeader → Bytes → Option Bytes
get_tag header name = Option.map (λ tag. tag.value) (get header.tags name)

unfoldable pub get_raw_tag : DkimHeader → Bytes → Option Bytes
get_raw_tag header name = Option.map (λ tag. tag.raw_value) (get header.tags name)

-- `unwrap`: a panic if the tag is not there. The `debug_assert!` that the name is among `required_tags`
-- is left out: every caller passes one of them.
unfoldable pub get_required_tag : DkimHeader → Bytes → Outcome Bytes
get_required_tag header name = do tag ← unwrap (get header.tags name); ok tag.value

-- `out.pop()`; the last character is a space.
pub pop : Bytes → Bytes
pop [] = []
pop (x ∷ []) = []
pop (x ∷ y ∷ s) = x ∷ pop (y ∷ s)

pub serialize_loop : Bytes → TagMap → Bytes
serialize_loop out [] = out
serialize_loop out ((key, tag) ∷ tags) =
    serialize_loop ((out ++ (key ++ (codes "=" ++ (tag.value ++ codes ";")))) ++ codes " ") tags

unfoldable pub serialize : TagMap → Bytes
unfolding serialize_loop pop
serialize tags = pop (serialize_loop [] tags)

module _ (chrono : Chrono) where
  pub record DkimHeaderBuilder : Type 0 where
    pub header : DkimHeader
    pub time : Option chrono.Time

  abbrev pub new : DkimHeaderBuilder
  new = record { header = record { tags = []; raw_bytes = [] }; time = none }

  unfoldable pub add_tag : Bytes → Bytes → DkimHeaderBuilder → DkimHeaderBuilder
  add_tag name value builder =
      let tag : Tag = record { name = name; value = value; raw_value = value } in
      let header = builder.header in
      record builder { header = record header { tags = insert header.tags name tag } }

  unfoldable pub set_signed_headers : Unicode → List Bytes → DkimHeaderBuilder → DkimHeaderBuilder
  set_signed_headers unicode headers builder =
      add_tag (codes "h") (join b':' (map unicode.to_lowercase headers)) builder

  unfoldable pub set_expiry : chrono.Duration → DkimHeaderBuilder → Outcome DkimHeaderBuilder
  set_expiry duration builder = do
    time ← ok_or (builder_error (codes "missing require time")) builder.time
    expiry ← unwrap (chrono.plus time duration)
    ok (add_tag (codes "x") (int_to_string (chrono.timestamp expiry)) builder)

  unfoldable pub set_time : chrono.Time → DkimHeaderBuilder → DkimHeaderBuilder
  set_time time builder =
      add_tag (codes "t") (int_to_string (chrono.timestamp time))
        (record builder { time = some time })

  unfoldable pub build : DkimHeaderBuilder → Outcome DkimHeader
  build builder =
      let header = builder.header in ok (record header { raw_bytes = serialize header.tags })
