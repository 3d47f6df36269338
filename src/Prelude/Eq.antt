-- ===== src/Prelude/Eq.antt =====
-- Equality of byte strings, and the tests on their two ends.
use Prim.Native.Nat.{◌-◌}
use mathlib.Core.Path.{◌≡◌, refl, sym, ap, ◌∙◌}
use mathlib.Core.Bool.{Bool, true, false, ◌&&◌}
use mathlib.Core.List.{[], ◌∷◌, ◌++◌}
use mathlib.Core.Logic.{◌↔◌}
use native.Mathlib.Omega.{arith}
use dkim.Prelude.Tests.{◌==◌, leb, and_parts}
use dkim.Prelude.Lists.{Bytes, length, take, drop, length-append, take-append-drop, drop-append}

unfoldable pub beq : Bytes → Bytes → Bool
beq [] [] = true
beq (x ∷ xs) (y ∷ ys) = x == y && beq xs ys
beq _ _ = false

pub beq_iff : (a b : Bytes) → (beq a b ≡ true) ↔ (a ≡ b)
unfolding beq
beq_iff (x ∷ a) (y ∷ b) = ground (arith, beq_iff a b)
beq_iff _ _ = ground arith

-- `slice::starts_with` and `str::starts_with`: the bytes first, then the prefix.
unfoldable pub starts_with : Bytes → Bytes → Bool
starts_with s [] = true
starts_with [] (y ∷ ys) = false
starts_with (x ∷ xs) (y ∷ ys) = x == y && starts_with xs ys

-- `slice::ends_with` and `str::ends_with`.
unfoldable pub ends_with : Bytes → Bytes → Bool
unfolding beq
ends_with s suffix =
    leb (length suffix) (length s) && beq (drop (length s - length suffix) s) suffix

pub starts_with-append : (p s : Bytes) → starts_with (p ++ s) p ≡ true
unfolding starts_with
starts_with-append [] s = refl
starts_with-append (x ∷ p) s = ground (arith, starts_with-append p s)

pub starts_with_split : (s p : Bytes) → starts_with s p ≡ true → s ≡ p ++ drop (length p) s
unfolding starts_with
starts_with_split s [] h = refl
starts_with_split [] (y ∷ p) h = cc
starts_with_split (x ∷ s) (y ∷ p) h = ground (arith, starts_with_split s p)

pub ends_with_split : (s t : Bytes) → ends_with s t ≡ true → (p : Bytes) × (s ≡ p ++ t)
unfolding ends_with
ends_with_split s t h =
    let (_, same) = and_parts _ _ h in
    let n = length s - length t in
    (take n s, sym (take-append-drop n s) ∙ ap (λ r. take n s ++ r) ((beq_iff _ t).0 same))

pub ends_with-append : (p t : Bytes) → ends_with (p ++ t) t ≡ true
unfolding ends_with
ends_with-append p t =
    let e : length (p ++ t) - length t ≡ length p = omega (arith, length-append p t) in
    rw (e, drop-append p t) (ground (arith, length-append p t, beq_iff t t))
