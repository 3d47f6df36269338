-- ===== src/Canonicalization.antt =====
-- src/canonicalization.rs: the simple and the relaxed form of a body and of a header.
pub mod Blank
pub mod Spaces
pub mod Body
pub mod Form
pub mod Open
pub mod Visible
pub mod Value
pub mod Ends
use dkim.Prelude.{
  ℕ, zero, suc, ◌-◌, Bool, true, false, not, ◌&&◌, [], ◌∷◌, ◌++◌, none, some, Bytes, codes, length,
  take, remove, starts_with, ends_with, ◌==◌, if◌then◌else◌,
}
use dkim.Bytes.{find, replace, replace_slice}
use dkim.Str.{Unicode, trim_end}

pub data CanonicalizationType : Type 0 where
  simple relaxed : CanonicalizationType

unfoldable pub to_string : CanonicalizationType → Bytes
to_string simple = codes "simple"
to_string relaxed = codes "relaxed"

-- `canonicalization_type == Type::Simple`
abbrev pub is_simple : CanonicalizationType → Bool
is_simple simple = true
is_simple relaxed = false

abbrev pub space : ℕ
space = b' '

abbrev pub crlf : Bytes
crlf = b'\r' ∷ b'\n' ∷ []

abbrev pub blank_line : Bytes
blank_line = b'\r' ∷ b'\n' ∷ b'\r' ∷ b'\n' ∷ []

abbrev pub space_crlf : Bytes
space_crlf = space ∷ crlf

-- The `while` loop of the simple body.
pub drop_blank_lines : ℕ → Bytes → Bytes
drop_blank_lines zero body = body
drop_blank_lines (suc fuel) body =
    let rest = drop_blank_lines fuel (take (length body - 2) body) in
    if ends_with body blank_line then rest else body

unfoldable pub canonicalize_body_simple : Bytes → Bytes
unfolding drop_blank_lines
canonicalize_body_simple [] = crlf
canonicalize_body_simple (c ∷ s) = drop_blank_lines (length (c ∷ s)) (c ∷ s)

-- `retain` with the closure over `previous`: of a run of spaces the first is kept.
pub collapse : Bool → Bytes → Bytes
collapse previous [] = []
collapse previous (c ∷ s) = elim (c == space) [
  | true ↦ elim previous [ true ↦ collapse true s | false ↦ c ∷ collapse true s ]
  | false ↦ c ∷ collapse false s
]

-- `while let Some(idx) = find(" \r\n") { remove(idx) }`
pub strip_line_ends : ℕ → Bytes → Bytes
strip_line_ends zero body = body
strip_line_ends (suc fuel) body = elim (find body space_crlf) [
  | some idx ↦ strip_line_ends fuel (remove body idx)
  | none ↦ body
]

abbrev pub remove_last : Bytes → Bytes
remove_last body = remove body (length body - 1)

-- The loop of the relaxed body that removes the last byte twice.
pub pop_blank_lines : ℕ → Bytes → Bytes
pop_blank_lines zero body = body
pop_blank_lines (suc fuel) body =
    let rest = pop_blank_lines fuel (remove_last (remove_last body)) in
    if ends_with body blank_line then rest else body

pub is_empty : Bytes → Bool
is_empty [] = true
is_empty (_ ∷ _) = false

-- The CRLF that a body without one at its end is given.
pub terminate : Bytes → Bytes
unfolding is_empty
terminate body = if not (is_empty body) && not (ends_with body crlf) then body ++ crlf else body

unfoldable pub canonicalize_body_relaxed : Bytes → Bytes
unfolding collapse strip_line_ends pop_blank_lines terminate
canonicalize_body_relaxed body =
    let one_space = collapse false (replace body b'\t' space) in
    let lines = strip_line_ends (length one_space) one_space in
    terminate (pop_blank_lines (length lines) lines)

unfoldable pub canonicalize_header_simple : Bytes → Bytes → Bytes
canonicalize_header_simple key value = key ++ (codes ": " ++ (value ++ crlf))

-- The two `while` loops over the ends of a header's value.
pub drop_back : ℕ → Bytes → Bytes
drop_back zero value = value
drop_back (suc fuel) value =
    let rest = drop_back fuel (remove_last value) in
    if ends_with value (space ∷ []) then rest else value

pub drop_front : ℕ → Bytes → Bytes
drop_front zero value = value
drop_front (suc fuel) value =
    let rest = drop_front fuel (remove value 0) in
    if starts_with value (space ∷ []) then rest else value

unfoldable pub canonicalize_header_value_relaxed : Bytes → Bytes
unfolding collapse drop_back drop_front
canonicalize_header_value_relaxed value =
    let unfolded = replace_slice (replace value b'\t' space) crlf [] in
    let back = drop_back (length unfolded) unfolded in
    collapse false (drop_front (length back) back)

unfoldable pub canonicalize_header_relaxed : Unicode → Bytes → Bytes → Bytes
canonicalize_header_relaxed unicode key value =
    trim_end (unicode.to_lowercase key)
    ++ (codes ":" ++ (canonicalize_header_value_relaxed value ++ crlf))
