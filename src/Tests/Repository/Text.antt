-- ===== src/Tests/Repository/Text.antt =====
-- The tests of src/bytes.rs and src/canonicalization.rs.
use dkim.Prelude.{◌≡◌, refl, [], ◌∷◌, none, some, codes}
use dkim.Bytes.{find, replace_slice}
use dkim.Canonicalization.{canonicalize_header_relaxed, canonicalize_body_relaxed}
use dkim.Tests.Crates.{ascii}
use dkim.Tests.Program.{program}

abbrev pub ItFind : Type 0
ItFind =
    (find (97 ∷ 98 ∷ 99 ∷ []) (1 ∷ []) ≡ none)
    × (find (97 ∷ 98 ∷ 99 ∷ []) (97 ∷ []) ≡ some 0)
    × (find (97 ∷ 98 ∷ 99 ∷ []) (97 ∷ 98 ∷ []) ≡ some 0)

it_find : ItFind
unfolding program
it_find = (refl, refl, refl)

abbrev pub ItReplaceSlice : Type 0
ItReplaceSlice =
    (replace_slice (codes "aba") (97 ∷ []) (99 ∷ []) ≡ codes "cbc")
    × (replace_slice (codes "aba") (97 ∷ 98 ∷ []) [] ≡ codes "a")

it_replace_slice : ItReplaceSlice
unfolding program
it_replace_slice = (refl, refl)

abbrev pub TestCanonicalizeHeaderRelaxed : Type 0
TestCanonicalizeHeaderRelaxed =
    (canonicalize_header_relaxed ascii (codes "SUBJect") (codes " AbC\r\n")
      ≡ codes "subject:AbC\r\n")
    × (canonicalize_header_relaxed ascii (codes "Subject \t") (codes "\t Your Name\t \r\n")
        ≡ codes "subject:Your Name\r\n")
    × (canonicalize_header_relaxed ascii (codes "Subject \t")
          (codes "\t Kimi \t \r\n No \t\r\n Na Wa\r\n")
        ≡ codes "subject:Kimi No Na Wa\r\n")

test_canonicalize_header_relaxed : TestCanonicalizeHeaderRelaxed
unfolding program
test_canonicalize_header_relaxed = (refl, refl, refl)

abbrev pub TestCanonicalizeBodyRelaxed : Type 0
TestCanonicalizeBodyRelaxed =
    (canonicalize_body_relaxed (codes "\r\n") ≡ codes "\r\n")
    × (canonicalize_body_relaxed (codes "hey        \r\n") ≡ codes "hey\r\n")

test_canonicalize_body_relaxed : TestCanonicalizeBodyRelaxed
unfolding program
test_canonicalize_body_relaxed = (refl, refl)
