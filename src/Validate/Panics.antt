-- ===== src/Validate/Panics.antt =====
-- Where `validate_header` of src/lib.rs can panic.
use dkim.Prelude.{
  ◌≡◌, ◌≢◌, refl, inl, inr, not, List, [], ◌∷◌, map, Option, none, some, Bytes, codes, arith,
  Option-cases,
}
use dkim.Error.NoPanic.{NoPanic, NoPanic-if, NoPanic-err, no_panic_rules}
use dkim.Error.Laws.{bind-eq-panic, ok_or-ne-panic, ok_or-eq-ok, guard-ne-panic}
use dkim.Error.{Outcome, ok, err, panic, ◌>>=◌, ◌>>◌, guard, ok_or, unwrap, signature_expired}
use dkim.Externals.{Chrono}
use dkim.Header.{DkimHeader, required_tags, get_tag, get_required_tag}
use dkim.Nom.{Nom}
use dkim.Parser.{Tag}
use dkim.Str.Numbers.{parse_i64}
use dkim.Str.{Unicode}
use dkim.Validate.Checks.{Has, tags_map-Has_each, check_required_sound, Has-get_required_tag}
use dkim.Validate.{
  contains, check_required, tags_map, check_version, check_domain, check_from, check_query,
  check_expiry, or_zero, parse_tags, validate_header,
}

check_required-NoPanic : (names required : List Bytes) → NoPanic (check_required names required)
unfolding check_required
check_required-NoPanic names [] = search no_panic_rules
check_required-NoPanic names (r ∷ required) =
    NoPanic-if (contains names r) _ _ (check_required-NoPanic names required) (NoPanic-err _)

pub get_required_tag-NoPanic :
    (header : DkimHeader) (name : Bytes)
    → Has header.tags name
    → NoPanic (get_required_tag header name)
unfolding get_required_tag
get_required_tag-NoPanic header name (tag, e) = ground arith

module _ (nom : Nom) (unicode : Unicode) (chrono : Chrono) (now : chrono.Time) where
  parse_tags-NoPanic : (value : Bytes) → NoPanic (parse_tags nom unicode chrono now value)
  unfolding parse_tags
  parse_tags-NoPanic value = ground arith

  check_version-NoPanic :
      (header : DkimHeader) → Has header.tags (codes "v") → NoPanic (check_version header)
  unfolding check_version
  check_version-NoPanic header h = search (no_panic_rules, get_required_tag-NoPanic)

  check_from-NoPanic :
      (header : DkimHeader) → Has header.tags (codes "h") → NoPanic (check_from unicode header)
  unfolding check_from
  check_from-NoPanic header h = search (no_panic_rules, get_required_tag-NoPanic)

  check_domain-NoPanic :
      (header : DkimHeader) → Has header.tags (codes "d") → NoPanic (check_domain header)
  unfolding check_domain
  check_domain-NoPanic header h =
      let (d, e) = Has-get_required_tag header (codes "d") h in ground arith

  check_query-NoPanic : (header : DkimHeader) → NoPanic (check_query header)
  unfolding check_query
  check_query-NoPanic header = ground arith

  ok-ne-panic {ℓ} : {A : Type ℓ} {a : A} → ok a ≢ panic
  ok-ne-panic h = cc

  expiry_last :
      (header : DkimHeader) (m : Outcome (Unit {0})) → (m >> ok header) ≡ panic → m ≡ panic
  expiry_last header (ok u) h = cc
  expiry_last header (err e) h = cc
  expiry_last header panic h = refl

  -- The drift cannot be added to the instant in `x=`.
  abbrev pub DriftOverflows : DkimHeader → Type 0
  DriftOverflows header =
      (text : Bytes) × (t : chrono.Time) × (get_tag header (codes "x") ≡ some text)
      × (chrono.from_timestamp_opt (or_zero (parse_i64 text)) ≡ some t)
      × (chrono.plus t (chrono.minutes 15) ≡ none)

  drift_panic :
      (o : Option chrono.Time)
      → (unwrap o >>= λ limit. guard (not (chrono.later now limit)) signature_expired) ≡ panic
      → o ≡ none
  drift_panic none h = refl
  drift_panic (some limit) h =
      absurd (guard-ne-panic (not (chrono.later now limit)) signature_expired h)

  check_expiry-eq-panic :
      (header : DkimHeader)
      → check_expiry nom unicode chrono now header ≡ panic
      → DriftOverflows header
  unfolding check_expiry
  check_expiry-eq-panic header h = elim (Option-cases (get_tag header (codes "x"))) [
    | inl absent ↦ absurd (ok-ne-panic (rw (absent, check_expiry) at h))
    | inr (text, e) ↦
        let (t, read, overflow) =
          bind-eq-panic
            (ok_or signature_expired (chrono.from_timestamp_opt (or_zero (parse_i64 text)))) _
            (ok_or-ne-panic _ _) (rw (e, check_expiry) at h) in
        (text, t, e, ok_or-eq-ok _ _ read, drift_panic (chrono.plus t (chrono.minutes 15)) overflow)
  ]

  -- validate_header panics only if the text parses to tags whose x= names an instant to which the
  -- drift cannot be added.
  pub validate_header-eq-panic :
      (value : Bytes)
      → validate_header nom unicode chrono now value ≡ panic
      → (tags : List Tag) × (parse_tags nom unicode chrono now value ≡ ok tags)
        × DriftOverflows (record { tags = tags_map [] tags; raw_bytes = value })
  unfolding validate_header
  validate_header-eq-panic value h =
      let (tags, parsed, h1) =
        bind-eq-panic (parse_tags nom unicode chrono now value) _ (parse_tags-NoPanic value).ne h in
      let (_, required, h2) =
        bind-eq-panic (check_required _ required_tags) _
          (check_required-NoPanic (map (λ (tag : Tag). tag.name) tags) required_tags).ne h1 in
      let all =
        tags_map-Has_each tags required_tags (check_required_sound _ required_tags required) in
      let header : DkimHeader = record { tags = tags_map [] tags; raw_bytes = value } in
      let (_, _, h3) =
        bind-eq-panic (check_version header) _ (check_version-NoPanic header all.0).ne h2 in
      let (_, _, h4) =
        bind-eq-panic (check_domain header) _ (check_domain-NoPanic header all.1.1.1.1.0).ne h3 in
      let (_, _, h5) =
        bind-eq-panic (check_from unicode header) _ (check_from-NoPanic header all.1.1.1.1.1.0).ne
          h4 in
      let (_, _, h6) = bind-eq-panic (check_query header) _ (check_query-NoPanic header).ne h5 in
      (
        tags,
        parsed,
        check_expiry-eq-panic header
            (expiry_last header (check_expiry nom unicode chrono now header) h6),
      )
