-- ===== src/Tests/Bounds.antt =====
-- The loops of canonicalization, and what is cut off, at concrete inputs.
use dkim.Prelude.{
  ◌+◌, ◌≤◌, ◌≡◌, refl, false, ◌++◌, inr, some, Bytes, codes, length, starts_with, ends_with, ℕ,
  arith,
}
use dkim.Canonicalization.Ends.{loops_end}
use dkim.Canonicalization.Spaces.{Absent}
use dkim.Canonicalization.Value.{sp}
use dkim.Canonicalization.{
  relaxed, simple, crlf, blank_line, space_crlf, strip_line_ends, drop_blank_lines, pop_blank_lines,
  drop_back, drop_front,
}
use dkim.Error.{ok}
use dkim.Hash.Bounds.{truncate_to_bounds, signature_line-append_crlf}
use dkim.Hash.{truncate_to, canonicalize_body, canonicalize_header, signature_line}
use dkim.Header.{header_name, get_raw_tag}
use dkim.Str.Numbers.{parse_usize, usize_max}
use dkim.Str.{erase_all}
use dkim.Tests.Crates.{ascii}
use dkim.Tests.Email.{header}
use dkim.Tests.Program.{program}

abbrev spaced : Bytes
spaced = codes " a \r\n\r\n\r\n "

loops_end_example :
    Absent space_crlf (strip_line_ends 10 spaced)
    × (ends_with (drop_blank_lines 10 spaced) blank_line ≡ false)
    × (ends_with (pop_blank_lines 10 spaced) blank_line ≡ false)
    × (ends_with (drop_back 10 spaced) sp ≡ false)
    × (starts_with (drop_front 10 spaced) sp ≡ false)
loops_end_example = loops_end 10 spaced (omega arith)

body_cut :
    truncate_to (some (codes "2")) (canonicalize_body relaxed (codes "a  b \r\n")) ≡ ok (codes "a ")
unfolding program
body_cut = refl

truncate_to_bounds_example :
    (n : ℕ) × (parse_usize (codes "2") ≡ inr n)
    × (n ≤ usize_max)
    × (length (codes "a ") ≤ n)
    × (length (codes "a ") ≤ length (codes "a  b \r\n") + 2)
    × ((rest : Bytes) × (canonicalize_body relaxed (codes "a  b \r\n") ≡ codes "a " ++ rest))
truncate_to_bounds_example =
    truncate_to_bounds relaxed (codes "2") (codes "a  b \r\n") (codes "a ") body_cut

abbrev line : Bytes
line = codes "DKIM-Signature: v=1; a=rsa-sha256; d=b.com; s=k; c=relaxed/relaxed; bh=4; h=from; b=;"

line_made : signature_line ascii simple header ≡ ok line
unfolding program
line_made = refl

signature_line-append_crlf_example :
    (sign : Bytes) × (get_raw_tag header (codes "b") ≡ some sign)
    × (line ++ crlf
        ≡ canonicalize_header ascii simple header_name (erase_all header.raw_bytes sign))
signature_line-append_crlf_example = signature_line-append_crlf ascii simple header line line_made
