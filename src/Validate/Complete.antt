-- ===== src/Validate/Complete.antt =====
-- That `validate_header` of src/lib.rs accepts every valid header.
use dkim.Prelude.{
  ◌≡◌, ◌↔◌, refl, subst, inl, inr, true, List, [], ◌∷◌, map, none, Bytes, codes, beq, beq_iff,
  Bool-cases, Option-cases,
}
use dkim.Error.{ok}
use dkim.Externals.{Chrono}
use dkim.Header.{DkimHeader, TagMap, required_tags, get_tag}
use dkim.Map.{get, insert, get-insert}
use dkim.Nom.{Nom}
use dkim.Parser.{Tag}
use dkim.Str.{Unicode, All}
use dkim.Validate.Checks.{Has, IsValid, Accepted, Has-get_required_tag, validate_header_sound}
use dkim.Validate.{
  contains, check_required, tags_map, check_version, check_domain, check_from, check_query,
  check_expiry, validate_header,
}

-- A name that is bound in the map of the tags stands among them.
contains_of_get :
    (tags : List Tag) (m : TagMap) (name : Bytes)
    → get m name ≡ none
    → Has (tags_map m tags) name
    → contains (map (λ (tag : Tag). tag.name) tags) name ≡ true
unfolding contains tags_map
contains_of_get [] m name absent (tag, e) = cc
contains_of_get (t ∷ tags) m name absent h = elim (Bool-cases (beq t.name name)) [
  | inl same ↦ rw same
  | inr other ↦ rw other (
      contains_of_get tags (insert m t.name t) name (rw (get-insert m t.name t name, other) absent)
        h)
]

All-required :
    (tags : List Tag) (required : List Bytes)
    → All (Has (tags_map [] tags)) required
    → check_required (map (λ (tag : Tag). tag.name) tags) required ≡ ok tt
unfolding check_required get
All-required tags [] h = refl
All-required tags (r ∷ required) (has, h) =
    rw (contains_of_get tags [] r refl has) (All-required tags required h)

module _ (nom : Nom) (unicode : Unicode) (chrono : Chrono) (now : chrono.Time) where
  module _ (header : DkimHeader) (v : IsValid nom unicode chrono now header) where
    version_passes : check_version header ≡ ok tt
    unfolding check_version beq
    version_passes = rw (v.version_is, check_version)

    domain_passes : check_domain header ≡ ok tt
    unfolding check_domain
    domain_passes = elim (Option-cases (get_tag header (codes "i"))) [
      | inl absent ↦ rw (absent, check_domain)
      | inr (user, e) ↦
          let (domain, d) = Has-get_required_tag header (codes "d") v.required.1.1.1.1.0 in
          rw (e, check_domain, d, v.domain_matches user domain e d)
    ]

    from_passes : check_from unicode header ≡ ok tt
    unfolding check_from
    from_passes =
        let (value, e) = Has-get_required_tag header (codes "h") v.required.1.1.1.1.1.0 in
        rw (e, check_from, v.from_signed value e)

    query_passes : check_query header ≡ ok tt
    unfolding check_query
    query_passes = elim (Option-cases (get_tag header (codes "q"))) [
      | inl absent ↦ rw (absent, check_query)
      | inr (query, e) ↦
          rw (e, check_query, (beq_iff query (codes "dns/txt")).1 (v.query_is query e))
    ]

    expiry_passes : check_expiry nom unicode chrono now header ≡ ok tt
    unfolding check_expiry
    expiry_passes = elim (Option-cases (get_tag header (codes "x"))) [
      | inl absent ↦ rw (absent, check_expiry)
      | inr (text, e) ↦
          let (t, limit, read, added, later) = v.not_expired text e in
          rw (e, check_expiry, read, added, later)
    ]

  -- A text that parses to the tags of a valid header is accepted.
  pub validate_header_complete :
      (value : Bytes) {header : DkimHeader}
      → Accepted nom unicode chrono now value header
      → validate_header nom unicode chrono now value ≡ ok header
  unfolding validate_header
  validate_header_complete value {header} (v, raw, (tags, parsed, tags_are)) =
      let is : header ≡ record { tags = tags_map [] tags; raw_bytes = value } = cc in
      let v' = subst (IsValid nom unicode chrono now) is v in
      rw (
        parsed,
        validate_header,
        All-required tags required_tags v'.required,
        version_passes _ v',
        domain_passes _ v',
        from_passes _ v',
        query_passes _ v',
        expiry_passes _ v',
        is,
      )

  -- validate_header accepts a text with a header exactly if the header holds the text and the map
  -- of its tags, has every required tag, version 1, a d= that ends i= if it has i=, From in h=,
  -- q=dns/txt if it has q=, and an x= that is not past by more than the drift if it has x=.
  pub validate_header_iff :
      (value : Bytes) (header : DkimHeader)
      → (validate_header nom unicode chrono now value ≡ ok header)
        ↔ Accepted nom unicode chrono now value header
  validate_header_iff value header =
      (validate_header_sound nom unicode chrono now value, validate_header_complete value)
