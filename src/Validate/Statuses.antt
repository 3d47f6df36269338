-- ===== src/Validate/Statuses.antt =====
-- The errors of `validate_header` in src/lib.rs have a status.
use dkim.Prelude.{Bytes, List, [], ◌∷◌, arith}
use dkim.Error.Statuses.{Verdicts, Verdicts-if, Verdicts-err, verdict_rules}
use dkim.Externals.{Chrono}
use dkim.Header.{DkimHeader, get_required_tag}
use dkim.Nom.{Nom}
use dkim.Str.{Unicode}
use dkim.Validate.{
  contains, check_required, check_version, check_domain, check_from, check_query, check_expiry,
  parse_tags, validate_header,
}

pub get_required_tag-Verdicts :
    (header : DkimHeader) (name : Bytes) → Verdicts (get_required_tag header name)
unfolding get_required_tag
get_required_tag-Verdicts header name = search verdict_rules

check_required-Verdicts : (names required : List Bytes) → Verdicts (check_required names required)
unfolding check_required
check_required-Verdicts names [] = search verdict_rules
check_required-Verdicts names (r ∷ required) =
    Verdicts-if (contains names r) _ _ (check_required-Verdicts names required) (Verdicts-err _ tt)

check_version-Verdicts : (header : DkimHeader) → Verdicts (check_version header)
unfolding check_version
check_version-Verdicts header = search (verdict_rules, get_required_tag-Verdicts)

check_domain-Verdicts : (header : DkimHeader) → Verdicts (check_domain header)
unfolding check_domain get_required_tag
check_domain-Verdicts header = ground arith

check_query-Verdicts : (header : DkimHeader) → Verdicts (check_query header)
unfolding check_query
check_query-Verdicts header = ground arith

check_from-Verdicts :
    (unicode : Unicode) (header : DkimHeader) → Verdicts (check_from unicode header)
unfolding check_from
check_from-Verdicts unicode header = search (verdict_rules, get_required_tag-Verdicts)

module _ (nom : Nom) (unicode : Unicode) (chrono : Chrono) (now : chrono.Time) where
  parse_tags-Verdicts : (value : Bytes) → Verdicts (parse_tags nom unicode chrono now value)
  unfolding parse_tags
  parse_tags-Verdicts value = ground arith

  check_expiry-Verdicts :
      (header : DkimHeader) → Verdicts (check_expiry nom unicode chrono now header)
  unfolding check_expiry
  check_expiry-Verdicts header = ground arith

  ruleset header_rules = (
    verdict_rules, parse_tags-Verdicts, check_required-Verdicts, check_version-Verdicts,
    check_domain-Verdicts, check_from-Verdicts, check_query-Verdicts, check_expiry-Verdicts,
  )

  pub validate_header-Verdicts :
      (value : Bytes) → Verdicts (validate_header nom unicode chrono now value)
  unfolding validate_header
  validate_header-Verdicts value = search header_rules depth 12
