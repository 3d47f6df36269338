-- ===== src/Tests/Text.antt =====
-- Byte strings and canonicalization at concrete inputs.
use dkim.Prelude.{
  ℕ, ◌≡◌, ◌≢◌, refl, ◌⊎◌, inr, true, false, [], ◌∷◌, ◌++◌, some, Bytes, codes, beq, starts_with,
  ends_with,
}
use dkim.Bytes.Replace.{replaced, replace_slice-replaced}
use dkim.Bytes.{find, get_all_after, replace, replace_slice}
use dkim.Canonicalization.Blank.{DropsTo, canonicalize_body_simple-DropsTo, crlfs}
use dkim.Canonicalization.Body.{
  IsTerminated, canonicalize_body_relaxed-Absent_space, canonicalize_body_relaxed_idem,
}
use dkim.Canonicalization.Form.{LastLine, canonicalize_body_relaxed_form}
use dkim.Canonicalization.Open.{relaxed_keeps_space}
use dkim.Canonicalization.Spaces.Absence.{tab, two_spaces}
use dkim.Canonicalization.Spaces.{Absent}
use dkim.Canonicalization.Value.Folding.{relaxed_fold, visible-value}
use dkim.Canonicalization.Value.{IsRelaxedValue, value-IsRelaxedValue}
use dkim.Canonicalization.Visible.{visible, visible-relaxed}
use dkim.Canonicalization.{
  space, crlf, space_crlf, canonicalize_body_simple, canonicalize_body_relaxed,
  canonicalize_header_value_relaxed, canonicalize_header_relaxed,
}
use dkim.Tests.Crates.{ascii}

abbrev text : Bytes
text = codes "aab aab"

find-text : find text (codes "ab") ≡ some 1
unfolding find beq
find-text = refl

ab-ne-nil : codes "ab" ≢ []
ab-ne-nil h = cc

replace_slice-replaced_example :
    replace_slice text (codes "ab") (codes "abab") ≡ replaced (codes "ab") (codes "abab") 0 text
replace_slice-replaced_example = replace_slice-replaced text (codes "ab") (codes "abab") ab-ne-nil

run_replace_slice : replace_slice text (codes "ab") (codes "x") ≡ codes "ax ax"
unfolding replace_slice starts_with
run_replace_slice = refl

run_get_all_after : get_all_after (codes "a\r\n\r\nb") (codes "\r\n\r\n") ≡ codes "b"
unfolding get_all_after beq
run_get_all_after = refl

abbrev body : Bytes
body = codes " a\t b \r\nc\r\n\r\n\r\n"

run_relaxed : canonicalize_body_relaxed body ≡ codes " a b\r\nc\r\n"
unfolding canonicalize_body_relaxed replace find beq ends_with starts_with
run_relaxed = refl

run_simple : canonicalize_body_simple body ≡ codes " a\t b \r\nc\r\n"
unfolding canonicalize_body_simple ends_with starts_with
run_simple = refl

run_value : canonicalize_header_value_relaxed (codes "\t a  b\r\n c ") ≡ codes "a b c"
unfolding canonicalize_header_value_relaxed replace replace_slice starts_with ends_with
run_value = refl

body-IsTerminated : IsTerminated body
unfolding ends_with starts_with
body-IsTerminated = inr refl

canonicalize_body_relaxed_form_example :
    Absent tab (canonicalize_body_relaxed body)
    × Absent two_spaces (canonicalize_body_relaxed body)
    × LastLine (canonicalize_body_relaxed body)
    × (canonicalize_body_relaxed (crlfs 3) ≡ crlf)
canonicalize_body_relaxed_form_example = canonicalize_body_relaxed_form body 2

canonicalize_body_relaxed_idem_example :
    canonicalize_body_relaxed (canonicalize_body_relaxed body) ≡ canonicalize_body_relaxed body
canonicalize_body_relaxed_idem_example = canonicalize_body_relaxed_idem body body-IsTerminated

canonicalize_body_relaxed-Absent_space_example : Absent space_crlf (canonicalize_body_relaxed body)
canonicalize_body_relaxed-Absent_space_example =
    canonicalize_body_relaxed-Absent_space body body-IsTerminated

visible-relaxed_example :
    (k : ℕ) × (visible body ≡ visible (canonicalize_body_relaxed body) ++ crlfs k)
visible-relaxed_example = visible-relaxed body body-IsTerminated

relaxed_keeps_space_example :
    ends_with (canonicalize_body_relaxed (codes "a" ++ space ∷ [])) space_crlf ≡ true
relaxed_keeps_space_example = relaxed_keeps_space (codes "a")

canonicalize_body_simple-DropsTo_example :
    ((body ≡ []) × (canonicalize_body_simple body ≡ crlf))
    ⊎ ((body ≢ []) × DropsTo body (canonicalize_body_simple body))
canonicalize_body_simple-DropsTo_example = canonicalize_body_simple-DropsTo body

abbrev value : Bytes
value = codes "\t a  b\r\n c "

value-IsRelaxedValue_example : IsRelaxedValue (canonicalize_header_value_relaxed value)
value-IsRelaxedValue_example = value-IsRelaxedValue value

visible-value_example :
    visible (canonicalize_header_value_relaxed value) ≡ visible (replaced crlf [] 0 value)
visible-value_example = visible-value value

no_line_feed : starts_with (codes " b") (b'\n' ∷ []) ≡ false
unfolding starts_with
no_line_feed = refl

relaxed_fold_example :
    canonicalize_header_relaxed ascii (codes "Subject") (codes "a" ++ (crlf ++ codes " b"))
    ≡ canonicalize_header_relaxed ascii (codes "Subject") (codes "a" ++ codes " b")
relaxed_fold_example = relaxed_fold ascii (codes "Subject") (codes "a") (codes " b") no_line_feed
