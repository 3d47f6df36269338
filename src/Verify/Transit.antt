-- ===== src/Verify/Transit.antt =====
-- A signature of src/lib.rs on an email that other software has passed on.
use dkim.Prelude.{◌≡◌, Bytes, codes}
use dkim.Error.{ok}
use dkim.Externals.{Crypto, ParsedMail}
use dkim.Hash.Prepend.{names_of}
use dkim.Hash.Transit.{SameLines, signed_lines_kept}
use dkim.Header.{DkimHeader, get_tag, get_required_tag}
use dkim.Parser.{parse_canonicalization}
use dkim.PublicKey.{DkimPublicKey}
use dkim.Str.{Unicode}
use dkim.Verify.Same.{hashed_body, Same-intro, verify_with_key-Same}
use dkim.Verify.{Types, verify_with_key}

-- A header's signature has the same outcome with a key, its error included, on two emails with the
-- same canonical body, cut as l= says, if for each name in h= the headers of that name have the
-- same canonical forms in the same order: other headers, and the order of headers of different
-- names, do not count.
pub verify_with_key_kept :
    (crypto : Crypto) (unicode : Unicode) (header : DkimHeader) (email email' : ParsedMail)
    (key : DkimPublicKey crypto) (types : Types) (names : Bytes)
    → parse_canonicalization (get_tag header (codes "c")) ≡ ok types
    → get_required_tag header (codes "h") ≡ ok names
    → hashed_body header types.1 email ≡ hashed_body header types.1 email'
    → SameLines unicode types.0 email.headers email'.headers (names_of names)
    → verify_with_key crypto unicode header email key
      ≡ verify_with_key crypto unicode header email' key
verify_with_key_kept crypto unicode header email email' key types names types_are names_are bodies
      lines =
    let kept = signed_lines_kept unicode types.0 names email email' lines in
    verify_with_key-Same crypto unicode header email email' key
      (Same-intro unicode header email email' types_are names_are bodies kept)
