-- ===== src/Validate.antt =====
-- `validate_header` of src/lib.rs.
pub mod Expiry
pub mod Checks
pub mod Complete
pub mod Domain
pub mod Panics
pub mod Statuses
use dkim.Prelude.{
  ℕ, Bool, true, false, not, ◌||◌, List, [], ◌∷◌, ◌++◌, ◌⊎◌, inl, inr, map, Option, none, some,
  Bytes, codes, beq, ends_with, if◌then◌else◌,
}
use dkim.Error.{
  Outcome, ok, err, ◌>>=◌, ◌>>◌, guard, ok_or, unwrap, signature_syntax_error,
  signature_missing_required_tag, incompatible_version, domain_mismatch, from_field_not_signed,
  unsupported_query_method, signature_expired,
}
use dkim.Externals.{Chrono}
use dkim.Header.{DkimHeader, TagMap, required_tags, get_tag, get_required_tag}
use dkim.Map.{insert}
use dkim.Nom.{Nom, done, error}
use dkim.Parser.{Tag, tag_list}
use dkim.Str.Numbers.{ℤ, pos, parse_i64}
use dkim.Str.{Unicode, split}

abbrev sign_expiration_drift_mins : ℕ
sign_expiration_drift_mins = 15

unfoldable pub contains : List Bytes → Bytes → Bool
contains [] name = false
contains (x ∷ xs) name = beq x name || contains xs name

-- The first required tag that is not among the names ends the loop.
unfoldable pub check_required : List Bytes → List Bytes → Outcome (Unit {0})
check_required tag_names [] = ok tt
check_required tag_names (required ∷ rest) =
    let others = check_required tag_names rest in
    if contains tag_names required then others else err (signature_missing_required_tag required)

unfoldable pub tags_map : TagMap → List Tag → TagMap
tags_map m [] = m
tags_map m (tag ∷ tags) = tags_map (insert m tag.name tag) tags

unfoldable pub check_version : DkimHeader → Outcome (Unit {0})
check_version header = do
  version ← get_required_tag header (codes "v")
  guard (beq version (codes "1")) incompatible_version

unfoldable pub check_domain : DkimHeader → Outcome (Unit {0})
check_domain header = elim (get_tag header (codes "i")) [
  | some user ↦ get_required_tag header (codes "d") >>= λ signing_domain.
      guard (ends_with user signing_domain) domain_mismatch
  | none ↦ ok tt
]

unfoldable pub check_from : Unicode → DkimHeader → Outcome (Unit {0})
check_from unicode header = do
  value ← get_required_tag header (codes "h")
  guard (contains (map unicode.to_lowercase (split b':' value)) (codes "from"))
      from_field_not_signed

unfoldable pub check_query : DkimHeader → Outcome (Unit {0})
check_query header = elim (get_tag header (codes "q")) [
  | some query_method ↦ guard (beq query_method (codes "dns/txt")) unsupported_query_method
  | none ↦ ok tt
]

-- `parse::<i64>().unwrap_or_default()`
abbrev pub or_zero {ℓ} : {E : Type ℓ} → E ⊎ ℤ → ℤ
or_zero (inl _) = pos 0
or_zero (inr n) = n

module _ (nom : Nom) (unicode : Unicode) (chrono : Chrono) (now : chrono.Time) where
  unfoldable pub check_expiry : DkimHeader → Outcome (Unit {0})
  check_expiry header = elim (get_tag header (codes "x")) [
    | some text ↦
        ok_or signature_expired (chrono.from_timestamp_opt (or_zero (parse_i64 text)))
        >>= λ expiration.
            unwrap (chrono.plus expiration (chrono.minutes sign_expiration_drift_mins)) >>= λ limit.
            guard (not (chrono.later now limit)) signature_expired
    | none ↦ ok tt
  ]

  unfoldable pub parse_tags : Bytes → Outcome (List Tag)
  parse_tags value = elim (tag_list nom value) [
    | done (_, tags) ↦ ok tags
    | error e ↦ err (signature_syntax_error (nom.error_text e))
  ]

  unfoldable pub validate_header : Bytes → Outcome DkimHeader
  validate_header value = do
    tags ← parse_tags value
    check_required (map (λ tag. tag.name) tags) required_tags
    let header : DkimHeader = record { tags = tags_map [] tags; raw_bytes = value }
    check_version header
    check_domain header
    check_from unicode header
    check_query header
    check_expiry header
    ok header
