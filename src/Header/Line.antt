-- ===== src/Header/Line.antt =====
-- The characters of the text that src/header.rs writes.
use dkim.Prelude.{ℕ, refl, Bool, ◌&&◌, leb, List, [], ◌∷◌, ◌++◌, Bytes, arith}
use dkim.Nom.Scan.{AllPass, is_alpha}
use dkim.Parser.RoundTrip.{IsPlain, printed, printed_rest, printed_tag}
use dkim.Parser.{Tag, is_valchar}
use dkim.Str.Split.{Lacks}
use dkim.Str.{All, IsAscii}

-- The characters of a printed header: spaces and what is visible.
abbrev pub is_line : ℕ → Bool
is_line c = leb b' ' c && leb c b'~'

alpha_in_line : (s : Bytes) → AllPass is_alpha s → AllPass is_line s
alpha_in_line [] h = tt
alpha_in_line (c ∷ s) (hc, h) = (ground arith, alpha_in_line s h)

visible_in_line : (s : Bytes) → AllPass is_valchar s → AllPass is_line s
visible_in_line [] h = tt
visible_in_line (c ∷ s) (hc, h) = (ground arith, visible_in_line s h)

pub AllPass-append : (f : ℕ → Bool) (s t : Bytes) → AllPass f s → AllPass f t → AllPass f (s ++ t)
AllPass-append f [] t hs ht = ht
AllPass-append f (c ∷ s) t (hc, hs) ht = (hc, AllPass-append f s t hs ht)

tag_in_line :
    (t : Tag) (rest : Bytes)
    → IsPlain t
    → AllPass is_line rest
    → AllPass is_line (printed_tag t rest)
tag_in_line t rest plain h =
    AllPass-append is_line t.name _ (alpha_in_line t.name plain.name_alpha)
      (refl, AllPass-append is_line t.value rest (visible_in_line t.value plain.value_visible) h)

rest_in_line : (ts : List Tag) → All IsPlain ts → AllPass is_line (printed_rest ts)
rest_in_line [] h = (refl, tt)
rest_in_line (t ∷ ts) (plain, h) = (refl, (refl, tag_in_line t _ plain (rest_in_line ts h)))

pub printed_in_line : (ts : List Tag) → All IsPlain ts → AllPass is_line (printed ts)
printed_in_line [] h = tt
printed_in_line (t ∷ ts) (plain, h) = tag_in_line t _ plain (rest_in_line ts h)

pub line-IsAscii : (s : Bytes) → AllPass is_line s → IsAscii s
line-IsAscii [] h = tt
line-IsAscii (c ∷ s) (hc, h) = (ground arith, line-IsAscii s h)

pub line-Lacks : (s : Bytes) → AllPass is_line s → Lacks b'\r' s
line-Lacks [] h = tt
line-Lacks (c ∷ s) (hc, h) = (ground arith, line-Lacks s h)
