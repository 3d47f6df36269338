-- ===== src/Hash.antt =====
-- src/hash.rs: the hash of a body, the headers that a signature covers, and their hash. Logging is
-- left out.
pub mod Numbered
pub mod Select
pub mod Prepend
pub mod Transit
pub mod Bounds
pub mod Length
use dkim.Prelude.{
  ℕ, zero, suc, ◌+◌, ◌-◌, Bool, true, false, List, [], ◌∷◌, ◌++◌, ◌⊎◌, inl, inr, map, reverse,
  Option, none, some, Bytes, codes, length, take, drop, if◌then◌else◌,
}
use mathlib.Core.Option.{get_or}
use dkim.Bytes.{get_all_after}
use dkim.Canonicalization.{
  CanonicalizationType, is_simple, canonicalize_body_simple, canonicalize_body_relaxed,
  canonicalize_header_simple, canonicalize_header_relaxed, blank_line,
}
use dkim.Error.{Outcome, ok, err, ◌>>=◌, unwrap, signature_syntax_error}
use dkim.Externals.{Crypto, MailHeader, ParsedMail}
use dkim.Header.{DkimHeader, header_name, get_raw_tag}
use dkim.Map.{Map, get, insert}
use dkim.Parser.{HashAlgo, rsa_sha1, rsa_sha256, ed25519_sha256}
use dkim.Str.Numbers.{parse_usize, int_error}
use dkim.Str.{Unicode, split, trim, to_ascii_lowercase, eq_ignore_ascii_case, erase_all}

unfoldable pub get_body : ParsedMail → Outcome Bytes
get_body email = ok (get_all_after email.raw_bytes blank_line)

unfoldable pub hash_sha1 : Crypto → Bytes → Bytes
hash_sha1 crypto = crypto.hash_sha1

unfoldable pub hash_sha256 : Crypto → Bytes → Bytes
hash_sha256 crypto = crypto.hash_sha256

unfoldable pub hash_with : Crypto → HashAlgo → Bytes → Bytes
unfolding hash_sha1 hash_sha256
hash_with crypto rsa_sha1 = hash_sha1 crypto
hash_with crypto rsa_sha256 = hash_sha256 crypto
hash_with crypto ed25519_sha256 = hash_sha256 crypto

-- `truncate` by the `l=` tag.
unfoldable pub truncate_to : Option Bytes → Bytes → Outcome Bytes
truncate_to none body = ok body
truncate_to (some text) body = elim (parse_usize text) [
  | inl e ↦ err (signature_syntax_error (codes "invalid length: " ++ int_error e))
  | inr n ↦ ok (take n body)
]

unfoldable pub canonicalize_body : CanonicalizationType → Bytes → Bytes
canonicalize_body t body =
    if is_simple t then canonicalize_body_simple body else canonicalize_body_relaxed body

unfoldable pub compute_body_hash :
    Crypto → CanonicalizationType → Option Bytes → HashAlgo → ParsedMail → Outcome Bytes
compute_body_hash crypto canonicalization_type len hash_algo email = do
  body ← get_body email
  canonicalized_body ← truncate_to len (canonicalize_body canonicalization_type body)
  ok (crypto.base64_encode (hash_with crypto hash_algo canonicalized_body))

abbrev pub enumerate {ℓ} : {A : Type ℓ} → ℕ → List A → List (ℕ × A)
enumerate i [] = []
enumerate i (x ∷ xs) = (i, x) ∷ enumerate (suc i) xs

-- The first of the headers that has the name, with its index.
unfoldable pub find_header : Bytes → List (ℕ × MailHeader) → Option (ℕ × MailHeader)
find_header name [] = none
find_header name ((i, header) ∷ rest) =
    if eq_ignore_ascii_case header.key name then some (i, header) else find_header name rest

-- The loop over the names of `h=`; `last_index` says below which index to go on for a name.
unfoldable pub select_loop : List MailHeader → Map ℕ → List Bytes → List (Bytes × Bytes)
select_loop email_headers last_index [] = []
select_loop email_headers last_index (name ∷ names) =
    let num_headers = length email_headers in
    let index = get_or (get last_index name) num_headers in
    elim (find_header name (drop (num_headers - index) (reverse (enumerate 0 email_headers)))) [
      | some (i, header) ↦
          (header.key, header.value_raw)
          ∷ select_loop email_headers (insert last_index name i) names
      | none ↦ select_loop email_headers (insert last_index name 0) names
    ]

unfoldable pub select_headers : Bytes → ParsedMail → List (Bytes × Bytes)
select_headers dkim_header email =
    select_loop email.headers [] (map (λ h. to_ascii_lowercase (trim h)) (split b':' dkim_header))

unfoldable pub canonicalize_header : Unicode → CanonicalizationType → Bytes → Bytes → Bytes
canonicalize_header unicode t key value =
    if is_simple t
    then canonicalize_header_simple key value
    else canonicalize_header_relaxed unicode key value

unfoldable pub signed_lines : Unicode → CanonicalizationType → List (Bytes × Bytes) → Bytes
signed_lines unicode t [] = []
signed_lines unicode t ((key, value) ∷ headers) =
    canonicalize_header unicode t key value ++ signed_lines unicode t headers

-- The DKIM-Signature header with the value of its `b=` tag taken out, without the CRLF at its end.
unfoldable pub signature_line : Unicode → CanonicalizationType → DkimHeader → Outcome Bytes
signature_line unicode t dkim_header = do
  sign ← unwrap (get_raw_tag dkim_header (codes "b"))
  let value = erase_all dkim_header.raw_bytes sign
  let canonicalized_value = canonicalize_header unicode t header_name value
  ok (take (length canonicalized_value - 2) canonicalized_value)

unfoldable pub compute_headers_hash :
    Crypto
    → Unicode
    → CanonicalizationType
    → Bytes
    → HashAlgo
    → DkimHeader
    → ParsedMail
    → Outcome Bytes
compute_headers_hash crypto unicode t headers hash_algo dkim_header email = do
  last ← signature_line unicode t dkim_header
  ok (hash_with crypto hash_algo (signed_lines unicode t (select_headers headers email) ++ last))
