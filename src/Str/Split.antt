-- ===== src/Str/Split.antt =====
-- `split` and `join`, on which h= rests in src/lib.rs and src/header.rs.
use dkim.Prelude.{ℕ, List, [], ◌∷◌, ◌++◌, ◌≡◌, ◌≢◌, refl, ap, ◌∙◌, arith, Bytes}
use dkim.Str.{split, join, All}

abbrev pub Lacks : ℕ → Bytes → Type 0
Lacks b = All (λ c. c ≢ b)

split-ne-nil : (sep : ℕ) (s : Bytes) → split sep s ≢ []
unfolding split
split-ne-nil sep [] = λ h. cc
split-ne-nil sep (c ∷ s) = ground (arith, split-ne-nil sep s)

pub split-Lacks : (sep : ℕ) (p : Bytes) → Lacks sep p → split sep p ≡ p ∷ []
unfolding split
split-Lacks sep [] h = refl
split-Lacks sep (c ∷ p) (hc, hp) = ground (arith, split-Lacks sep p hp)

split-append :
    (sep : ℕ) (p rest : Bytes) → Lacks sep p → split sep (p ++ (sep ∷ rest)) ≡ p ∷ split sep rest
unfolding split
split-append sep [] rest h = ground (arith, split-ne-nil sep rest)
split-append sep (c ∷ p) rest (hc, hp) = ground (arith, split-append sep p rest hp)

-- Splitting a join gives the parts back, if there is a part and none holds the separator.
pub split-join :
    (sep : ℕ) (parts : List Bytes)
    → parts ≢ []
    → All (Lacks sep) parts
    → split sep (join sep parts) ≡ parts
unfolding join
split-join sep [] ne h = absurd (ne refl)
split-join sep (p ∷ []) ne (hp, _) = split-Lacks sep p hp
split-join sep (p ∷ q ∷ parts) ne (hp, hs) =
    split-append sep p (join sep (q ∷ parts)) hp
    ∙ ap (◌∷◌ p) (split-join sep (q ∷ parts) (λ e. cc) hs)
