-- ===== src/Hash/Length.antt =====
-- The body length that src/hash.rs reads from `l=`.
use dkim.Prelude.{ℕ, ◌≡◌, ◌≤◌, some, refl, Bytes, take}
use dkim.Bytes.{get_all_after}
use dkim.Canonicalization.{CanonicalizationType, blank_line}
use dkim.Error.{ok}
use dkim.Externals.{Crypto, ParsedMail}
use dkim.Hash.{compute_body_hash, truncate_to, canonicalize_body, get_body, hash_with}
use dkim.Parser.{HashAlgo}
use dkim.Str.Decimal.{decimal}
use dkim.Str.Numbers.ReadBack.{parse_usize-decimal}
use dkim.Str.Numbers.{usize_max}

truncate_to-decimal :
    (n : ℕ) (body : Bytes) → n ≤ usize_max → truncate_to (some (decimal n)) body ≡ ok (take n body)
unfolding truncate_to
truncate_to-decimal n body fits = rw (truncate_to, parse_usize-decimal n fits)

-- With a number of 64 bits written in decimal in l=, the hash of the body is the hash of so many
-- bytes of the canonical body from its front, or of all of it if it is shorter.
pub compute_body_hash-decimal :
    (crypto : Crypto) (t : CanonicalizationType) (n : ℕ) (algo : HashAlgo) (email : ParsedMail)
    → n ≤ usize_max
    → compute_body_hash crypto t (some (decimal n)) algo email
      ≡ ok (
          crypto.base64_encode (
            hash_with crypto algo
              (take n (canonicalize_body t (get_all_after email.raw_bytes blank_line)))))
unfolding compute_body_hash get_body
compute_body_hash-decimal crypto t n algo email fits =
    rw (truncate_to-decimal n (canonicalize_body t (get_all_after email.raw_bytes blank_line)) fits)
      refl
