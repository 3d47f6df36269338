-- ===== src/Validate/Checks.antt =====
-- What `validate_header` of src/lib.rs accepts, and with which error it refuses.
use dkim.Prelude.{
  ◌≡◌, refl, ap, subst, ◌∙◌, inl, inr, Bool, true, false, not, List, [], ◌∷◌, map, some, Bytes,
  codes, beq, beq_iff, ends_with, arith, Bool-cases,
}
use dkim.Error.Laws.{bind-eq-ok, ok_or-eq-ok, unwrap-eq-ok, guard-eq-ok, ok-injective}
use dkim.Error.{ok, err, signature_missing_required_tag}
use dkim.Externals.{Chrono}
use dkim.Header.{DkimHeader, TagMap, required_tags, get_tag, get_required_tag}
use dkim.Map.{get, insert, get-insert}
use dkim.Nom.{Nom}
use dkim.Parser.{Tag}
use dkim.Str.Numbers.{parse_i64}
use dkim.Str.{Unicode, split, All}
use dkim.Validate.{
  contains, check_required, tags_map, check_version, check_domain, check_from, check_query,
  check_expiry, parse_tags, validate_header, or_zero,
}

abbrev pub Has : TagMap → Bytes → Type 0
Has m name = (tag : Tag) × (get m name ≡ some tag)

missing_err : (r : Bytes) {u : Unit {0}} → err (signature_missing_required_tag r) ≡ ok u → ⊥
missing_err r h = cc

-- Every required name is there, if the check passes.
pub check_required_sound :
    (names required : List Bytes)
    → check_required names required ≡ ok tt
    → All (λ r. contains names r ≡ true) required
unfolding check_required
check_required_sound names [] h = tt
check_required_sound names (r ∷ required) h = elim (Bool-cases (contains names r)) [
  | inl found ↦ (found, check_required_sound names required (rw found at h))
  | inr missing ↦ absurd (missing_err r (rw missing at h))
]

tag_names : List Tag → List Bytes
tag_names = map (λ tag. tag.name)

get-tags_map_keeps :
    (tags : List Tag) (m : TagMap) (name : Bytes) → Has m name → Has (tags_map m tags) name
unfolding tags_map
get-tags_map_keeps [] m name h = h
get-tags_map_keeps (t ∷ tags) m name (old, e) =
    get-tags_map_keeps tags (insert m t.name t) name (elim (Bool-cases (beq t.name name)) [
      | inl same ↦ (t, rw (get-insert m t.name t name, same))
      | inr other ↦ (old, rw (get-insert m t.name t name, other) e)
    ])

-- A name among the tags is bound in their map.
get-tags_map :
    (tags : List Tag) (m : TagMap) (name : Bytes)
    → contains (map (λ (tag : Tag). tag.name) tags) name ≡ true
    → Has (tags_map m tags) name
unfolding contains tags_map
get-tags_map [] m name h = cc
get-tags_map (t ∷ tags) m name h = elim (Bool-cases (beq t.name name)) [
  | inl same ↦
      get-tags_map_keeps tags (insert m t.name t) name (t, rw (get-insert m t.name t name, same))
  | inr other ↦ get-tags_map tags (insert m t.name t) name (rw other at h)
]

pub tags_map-Has_each :
    (tags : List Tag) (names : List Bytes)
    → All (λ r. contains (map (λ (tag : Tag). tag.name) tags) r ≡ true) names
    → All (Has (tags_map [] tags)) names
tags_map-Has_each tags [] h = tt
tags_map-Has_each tags (r ∷ names) (found, h) =
    (get-tags_map tags [] r found, tags_map-Has_each tags names h)

pub get_required_tag-Has :
    (header : DkimHeader) (name : Bytes) {value : Bytes}
    → get_required_tag header name ≡ ok value
    → Has header.tags name
unfolding get_required_tag
get_required_tag-Has header name h = ground arith

pub Has-get_required_tag :
    (header : DkimHeader) (name : Bytes)
    → Has header.tags name
    → (value : Bytes) × (get_required_tag header name ≡ ok value)
unfolding get_required_tag
Has-get_required_tag header name (tag, e) = (tag.value, rw e)

not-true : (b : Bool) → not b ≡ true → b ≡ false
not-true b h = ground arith

module _ (nom : Nom) (unicode : Unicode) (chrono : Chrono) (now : chrono.Time) where
  -- What holds of every header that is accepted.
  pub record IsValid (header : DkimHeader) : Type 0 where
    pub required : All (Has header.tags) required_tags
    pub version_is : get_required_tag header (codes "v") ≡ ok (codes "1")
    pub domain_matches :
        (user domain : Bytes)
        → get_tag header (codes "i") ≡ some user
        → get_required_tag header (codes "d") ≡ ok domain
        → ends_with user domain ≡ true
    pub from_signed :
        (value : Bytes)
        → get_required_tag header (codes "h") ≡ ok value
        → contains (map unicode.to_lowercase (split b':' value)) (codes "from") ≡ true
    pub query_is :
        (query : Bytes) → get_tag header (codes "q") ≡ some query → query ≡ codes "dns/txt"
    pub not_expired :
        (text : Bytes)
        → get_tag header (codes "x") ≡ some text
        → (t limit : chrono.Time) × (chrono.from_timestamp_opt (or_zero (parse_i64 text)) ≡ some t)
          × (chrono.plus t (chrono.minutes 15) ≡ some limit)
          × (chrono.later now limit ≡ false)

  version_sound :
      (header : DkimHeader)
      → check_version header ≡ ok tt
      → get_required_tag header (codes "v") ≡ ok (codes "1")
  unfolding check_version
  version_sound header h =
      let (v, e, test) = bind-eq-ok (get_required_tag header (codes "v")) _ h in
      e ∙ ap ok ((beq_iff v (codes "1")).0 (guard-eq-ok (beq v (codes "1")) _ test))

  domain_sound :
      (header : DkimHeader) (user domain : Bytes)
      → check_domain header ≡ ok tt
      → get_tag header (codes "i") ≡ some user
      → get_required_tag header (codes "d") ≡ ok domain
      → ends_with user domain ≡ true
  unfolding check_domain
  domain_sound header user domain h eu ed = ground arith

  from_sound :
      (header : DkimHeader) (value : Bytes)
      → check_from unicode header ≡ ok tt
      → get_required_tag header (codes "h") ≡ ok value
      → contains (map unicode.to_lowercase (split b':' value)) (codes "from") ≡ true
  unfolding check_from
  from_sound header value h e = ground arith

  query_sound :
      (header : DkimHeader) (query : Bytes)
      → check_query header ≡ ok tt
      → get_tag header (codes "q") ≡ some query
      → query ≡ codes "dns/txt"
  unfolding check_query
  query_sound header query h e = ground (arith, beq_iff query (codes "dns/txt"))

  expiry_sound :
      (header : DkimHeader) (text : Bytes)
      → check_expiry nom unicode chrono now header ≡ ok tt
      → get_tag header (codes "x") ≡ some text
      → (t limit : chrono.Time) × (chrono.from_timestamp_opt (or_zero (parse_i64 text)) ≡ some t)
        × (chrono.plus t (chrono.minutes 15) ≡ some limit)
        × (chrono.later now limit ≡ false)
  unfolding check_expiry
  expiry_sound header text h e =
      let (t, read, h1) = bind-eq-ok _ _ (rw (e, check_expiry) at h) in
      let (limit, added, h2) = bind-eq-ok _ _ h1 in
      (
        t,
        limit,
        ok_or-eq-ok _ _ read,
        unwrap-eq-ok _ added,
        not-true _ (guard-eq-ok (not (chrono.later now limit)) _ h2),
      )

  -- The header holds the text and the tags parsed from it, a later tag in place of an earlier one.
  abbrev pub Accepted : Bytes → DkimHeader → Type 0
  Accepted value header =
      IsValid header
      × (header.raw_bytes ≡ value)
      × ((tags : List Tag) × (parse_tags nom unicode chrono now value ≡ ok tags)
          × (header.tags ≡ tags_map [] tags))

  -- If validate_header accepts a text, the header holds the text and the map of its tags, has
  -- every required tag, version 1, a d= that ends i=, From in h=, q=dns/txt if it has q=, and an
  -- x= that is not past by more than the drift if it has x=.
  pub validate_header_sound :
      (value : Bytes) {header : DkimHeader}
      → validate_header nom unicode chrono now value ≡ ok header
      → Accepted value header
  unfolding validate_header
  validate_header_sound value {header} h =
      let (tags, parsed, h1) = bind-eq-ok _ _ h in
      let (_, required, h2) = bind-eq-ok _ _ h1 in
      let (_, version, h3) = bind-eq-ok _ _ h2 in
      let (_, domain, h4) = bind-eq-ok _ _ h3 in
      let (_, from, h5) = bind-eq-ok _ _ h4 in
      let (_, query, h6) = bind-eq-ok _ _ h5 in
      let (_, expiry, made) = bind-eq-ok _ _ h6 in
      subst (Accepted value) (ok-injective made) (
        record {
          required =
              tags_map-Has_each tags required_tags (check_required_sound _ required_tags required);
          version_is = version_sound _ version;
          domain_matches = λ user d eu ed. domain_sound _ user d domain eu ed;
          from_signed = λ v e. from_sound _ v from e;
          query_is = λ q e. query_sound _ q query e;
          not_expired = λ text e. expiry_sound _ text expiry e;
        },
        refl,
        (tags, parsed, refl),
      )
