-- ===== src/Tests/Real/Ed25519.antt =====
-- Ed25519 (RFC 8032), with the checks of `verify_strict`.
use dkim.Prelude.{
  ℕ, zero, suc, ◌+◌, ◌-◌, ◌*◌, ◌/◌, ◌%◌, ◌^◌, Bool, false, not, [], ◌∷◌, ◌++◌, ◌⊎◌, inl, inr,
  Option, none, some, Bytes, codes, take, drop, beq, ltb, ◌==◌, ◌&&◌, ◌≡◌, refl, if◌then◌else◌,
}
use dkim.Tests.Real.Numbers.{big_endian, little_endian, from_little_endian, number, power}
use dkim.Tests.Real.Sha2.{sha512}

-- The prime of the field and the order of the group.
abbrev prime : ℕ
prime = 2 ^ 255 - 19

abbrev order : ℕ
order = 2 ^ 252 + 27742317777372353535851937790883648493

abbrev minus : ℕ → ℕ → ℕ
minus x y = (x + prime - y) % prime

abbrev inverse : ℕ → ℕ
inverse x = power 256 x (prime - 2) prime 1

-- -121665 / 121666, and the root of -1.
abbrev curve : ℕ
curve = 37095705934669439343138083508754565189542113879843219016388785533085940283555

abbrev root : ℕ
root = 19681161376707505956807079304988542015446066515923890162744021073123829784752

-- (x / z, y / z), with t = x y / z.
pub record Point : Type 0 where
  pub x : ℕ
  pub y : ℕ
  pub z : ℕ
  pub t : ℕ

abbrev neutral : Point
neutral = record { x = 0; y = 1; z = 1; t = 0 }

abbrev add : Point → Point → Point
add p q =
    let a = minus p.y p.x * minus q.y q.x % prime in
    let b = (p.y + p.x) * (q.y + q.x) % prime in
    let c = p.t * 2 * curve * q.t % prime in
    let d = p.z * 2 * q.z % prime in
    let e = minus b a in
    let f = minus d c in
    let g = d + c in
    let h = b + a in
    record { x = e * f % prime; y = g * h % prime; z = f * g % prime; t = e * h % prime }

abbrev negated : Point → Point
negated p = record { x = minus 0 p.x; y = p.y; z = p.z; t = minus 0 p.t }

-- `n` times `p` and `out`, by the binary digits of `n`, of which there are `fuel` at most.
abbrev times : ℕ → ℕ → Point → Point → Point
times zero n p out = out
times (suc fuel) n p out = times fuel (n / 2) (add p p) (if n % 2 == 1 then add out p else out)

abbrev base : Point
base = record {
  x = 15112221349535400772501151409588531511454012693041857206046113283949847762202;
  y = 46316835694926478169428394003475163141307993866256225615783033603165251855960;
  z = 1;
  t = 46827403850823179245072216630277197565144205554125654976674165829533817101731;
}

abbrev encoded : Point → Bytes
encoded p =
    let z = inverse p.z in little_endian 32 (p.y * z % prime + p.x * z % prime % 2 * 2 ^ 255)

abbrev with_sign : ℕ → ℕ → ℕ → Option Point
with_sign sign y x =
    let x' = if x % 2 == sign then x else minus 0 x in
    if x == 0 && sign == 1 then none else some (record { x = x'; y = y; z = 1; t = x' * y % prime })

abbrev decoded : Bytes → Option Point
decoded s =
    let n = from_little_endian s in
    let y = n % 2 ^ 255 % prime in
    let u = minus (y * y % prime) 1 in
    let v = (curve * (y * y % prime) + 1) % prime in
    let v3 = v * v * v % prime in
    let x = u * v3 * power 256 (u * v3 * v3 * v % prime) ((prime - 5) / 8) prime 1 % prime in
    let vxx = v * x * x % prime in
    if vxx == u
    then with_sign (n / 2 ^ 255) y x
    else if vxx == minus 0 u
    then with_sign (n / 2 ^ 255) y (x * root % prime)
    else none

-- Eight times the point is neutral.
abbrev is_small : Point → Bool
is_small p = let q = times 4 8 p neutral in q.x == 0 && q.y == q.z

pub record VerifyingKey : Type 0 where
  pub bytes : Bytes
  pub point : Point

abbrev pub verifying_key_from_bytes : Bytes → Bytes ⊎ VerifyingKey
verifying_key_from_bytes s = elim (decoded s) [
  | none ↦ inl (codes "Cannot decompress Edwards point")
  | some p ↦ inr (record { bytes = s; point = p })
]

abbrev challenge : Bytes → Bytes → Bytes → ℕ
challenge r key message = from_little_endian (sha512 (r ++ (key ++ message))) % order

-- The point of the signature has to be the one that the rest of it gives, and neither it nor the key
-- may be small.
abbrev checked : Bool → Option Point → Bool
checked small none = false
checked small (some p) = not small && not (is_small p)

abbrev pub verify_strict : VerifyingKey → Bytes → Bytes → Bool
verify_strict key message signature =
    let r = take 32 signature in
    let s = from_little_endian (drop 32 signature) in
    let k = challenge r key.bytes message in
    let sum = times 253 s base (times 253 k (negated key.point) neutral) in
    ltb s order && (beq (encoded sum) r && checked (is_small key.point) (decoded r))

-- The scalar that a secret key stands for: the three lowest bits and the highest are cleared, and
-- the next is set.
abbrev scalar : Bytes → ℕ
scalar hash = from_little_endian (take 32 hash) % 2 ^ 254 / 8 * 8 + 2 ^ 254

abbrev pub sign : Bytes → Bytes → Bytes
sign secret message =
    let hash = sha512 secret in
    let a = scalar hash in
    let key = encoded (times 256 a base neutral) in
    let r = from_little_endian (sha512 (drop 32 hash ++ message)) % order in
    let point = encoded (times 256 r base neutral) in
    point ++ little_endian 32 ((r + challenge point key message * a) % order)

abbrev pub public_key : Bytes → Bytes
public_key secret = encoded (times 256 (scalar (sha512 secret)) base neutral)

-- The second example of the standard.
abbrev example_secret : Bytes
example_secret = big_endian 32 0x4ccd089b28ff96da9db6c346ec114e0f5b8a319f35aba624da8cf6ed4fb8a6fb []

run_public_key :
    number 0 (public_key example_secret)
    ≡ 0x3d4017c3e843895a92b70aa74d1b7ebc9c982ccf2ec4968cc0cd55f12af4660c
run_public_key = refl

run_sign :
    number 0 (sign example_secret (0x72 ∷ []))
    ≡ 0x92a009a9f0d4cab8720e820b5f642540a2b27b5416503f8fb3762223ebdb69da085ac1e43e15996e458f3613d0f11d8c387b2eaeb4302aeeb00d291612bb0c00
run_sign = refl
