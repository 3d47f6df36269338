-- ===== src/Tests/Real/Mail.antt =====
-- `parse_mail` of the crate mailparse, for the headers of the tests' emails.
use dkim.Prelude.{
  ℕ, zero, suc, Bool, true, false, ◌||◌, List, [], ◌∷◌, ◌++◌, reverse, Bytes, codes, length, ◌==◌,
  if◌then◌else◌, ◌≡◌, refl,
}
use dkim.Externals.{MailHeader, ParsedMail}

-- The value up to the line end that no space or tab follows, and what is behind it. Line ends at its
-- end are not in the value; the texts are collected backwards, `pending` since the last other byte.
abbrev value : Bool → Bytes → Bytes → Bytes → Bytes × Bytes
value after_line kept pending [] = (reverse kept, [])
value after_line kept pending (c ∷ s) =
    let newline = value true kept (c ∷ pending) s in
    let return = value false kept (c ∷ pending) s in
    let more = value false (c ∷ (pending ++ kept)) [] s in
    let inside = if c == b'\n' then newline else if c == b'\r' then return else more in
    if after_line then if c == b' ' || c == b'\t' then inside else (reverse kept, c ∷ s) else inside

abbrev skip_spaces : Bytes → Bytes
skip_spaces [] = []
skip_spaces (c ∷ s) = let rest = skip_spaces s in if c == b' ' then rest else c ∷ s

abbrev header : Bytes → Bytes → MailHeader × Bytes
header key [] = (record { key = reverse key; value_raw = [] }, [])
header key (c ∷ s) =
    let later = header (c ∷ key) s in
    let (text, rest) = value false [] [] (skip_spaces s) in
    if c == b':' then (record { key = reverse key; value_raw = text }, rest) else later

-- An empty line ends the headers.
abbrev headers : ℕ → Bytes → List MailHeader
headers zero s = []
headers (suc fuel) [] = []
headers (suc fuel) (c ∷ s) =
    let (h, rest) = header [] (c ∷ s) in
    let later = headers fuel rest in if c == b'\n' || c == b'\r' then [] else h ∷ later

abbrev pub parse_mail : Bytes → ParsedMail
parse_mail s = record { raw_bytes = s; headers = headers (length s) s }

run_parse_mail :
    (parse_mail (codes "A: b\r\n c\r\nD:e \n\nf: g\n")).headers
    ≡ record { key = codes "A"; value_raw = codes "b\r\n c" }
      ∷ record { key = codes "D"; value_raw = codes "e " }
      ∷ []
run_parse_mail = refl
