-- ===== src/Nom/Scan.antt =====
-- The longest stretch of bytes that pass a test, for the parsers of src/parser.rs.
use dkim.Prelude.{
  ℕ, ◌<◌, ◌≡◌, refl, ap, Bool, true, false, ◌||◌, ◌&&◌, [], ◌∷◌, ◌++◌, Bytes, leb, and_parts,
  if◌then◌else◌,
}

abbrev pub take_while : (ℕ → Bool) → Bytes → Bytes
take_while p [] = []
take_while p (c ∷ s) = let more = c ∷ take_while p s in if p c then more else []

abbrev pub drop_while : (ℕ → Bool) → Bytes → Bytes
drop_while p [] = []
drop_while p (c ∷ s) = if p c then drop_while p s else c ∷ s

-- `p` fails at the head of the text, or the text is empty.
abbrev pub Stops : (ℕ → Bool) → Bytes → Type 0
Stops p [] = Unit
Stops p (c ∷ s) = p c ≡ false

-- A test that only ASCII characters pass reads bytes as it reads characters.
abbrev pub IsAsciiTest : (ℕ → Bool) → Type 0
IsAsciiTest p = (c : ℕ) → p c ≡ true → c < 128

abbrev pub AllPass : (ℕ → Bool) → Bytes → Type 0
AllPass p [] = Unit
AllPass p (c ∷ s) = (p c ≡ true) × AllPass p s

-- The same as a test.
abbrev pub all_pass : (ℕ → Bool) → Bytes → Bool
all_pass p [] = true
all_pass p (c ∷ s) = p c && all_pass p s

pub all_pass-AllPass : (p : ℕ → Bool) (s : Bytes) → all_pass p s ≡ true → AllPass p s
all_pass-AllPass p [] h = tt
all_pass-AllPass p (c ∷ s) h =
    let (hc, hs) = and_parts (p c) (all_pass p s) h in (hc, all_pass-AllPass p s hs)

-- An ASCII letter.
abbrev pub is_alpha : ℕ → Bool
is_alpha c = (leb b'a' c && leb c b'z') || (leb b'A' c && leb c b'Z')

pub take_while-append :
    (p : ℕ → Bool) (s t : Bytes) → AllPass p s → Stops p t → take_while p (s ++ t) ≡ s
take_while-append p [] [] hs ht = refl
take_while-append p [] (c ∷ t) hs ht = rw ht
take_while-append p (c ∷ s) t (hc, hs) ht = rw hc (ap (◌∷◌ c) (take_while-append p s t hs ht))

pub drop_while-append :
    (p : ℕ → Bool) (s t : Bytes) → AllPass p s → Stops p t → drop_while p (s ++ t) ≡ t
drop_while-append p [] [] hs ht = refl
drop_while-append p [] (c ∷ t) hs ht = rw ht
drop_while-append p (c ∷ s) t (hc, hs) ht = rw hc (drop_while-append p s t hs ht)
