-- ===== src/DkimResult.antt =====
-- src/result.rs: the result of a verification.
use dkim.Prelude.{◌++◌, Option, none, some, Bytes, codes}
use dkim.Canonicalization.{CanonicalizationType}
use dkim.Error.{DkimError, display}
use dkim.Str.{Unicode}

pub record DkimResult : Type 0 where
  pub value : Bytes
  pub error : Option DkimError
  pub domain : Bytes
  pub header_canonicalization_type : Option CanonicalizationType
  pub body_canonicalization_type : Option CanonicalizationType

unfoldable pub pass : Bytes → CanonicalizationType → CanonicalizationType → DkimResult
pass domain header_type body_type = record {
  value = codes "pass";
  error = none;
  domain = domain;
  header_canonicalization_type = some header_type;
  body_canonicalization_type = some body_type;
}

unfoldable pub neutral : Bytes → DkimResult
neutral domain = record {
  value = codes "neutral";
  error = none;
  domain = domain;
  header_canonicalization_type = none;
  body_canonicalization_type = none;
}

unfoldable pub fail : DkimError → Bytes → DkimResult
fail reason domain = record {
  value = codes "fail";
  error = some reason;
  domain = domain;
  header_canonicalization_type = none;
  body_canonicalization_type = none;
}

unfoldable pub error : DkimResult → Option DkimError
error result = result.error

unfoldable pub header_canonicalization_type : DkimResult → Option CanonicalizationType
header_canonicalization_type result = result.header_canonicalization_type

unfoldable pub body_canonicalization_type : DkimResult → Option CanonicalizationType
body_canonicalization_type result = result.body_canonicalization_type

unfoldable pub domain_used : Unicode → DkimResult → Bytes
domain_used unicode result = unicode.to_lowercase result.domain

unfoldable pub summary : DkimResult → Bytes
summary result = result.value

unfoldable pub with_detail : DkimResult → Bytes
unfolding error
with_detail result = elim (error result) [
  | some e ↦ result.value ++ (codes " (" ++ (display e ++ codes ")"))
  | none ↦ result.value
]
