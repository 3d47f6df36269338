-- ===== src/Hash/Bounds.antt =====
-- What src/hash.rs cuts off: the body at `l=`, and the CRLF of the signature's header.
use dkim.Prelude.{
  ℕ, ◌+◌, ◌-◌, ◌≤◌, ◌≡◌, refl, sym, ap, ◌∙◌, ◌⊎◌, inl, inr, ◌++◌, append_assoc, some, Bytes, codes,
  length, length-append, length-take, take, drop, take-append, take-append-drop, arith, min,
}
use dkim.Canonicalization.Ends.{length-relaxed, length-simple}
use dkim.Canonicalization.{
  CanonicalizationType, simple, relaxed, crlf, canonicalize_header_simple,
  canonicalize_header_relaxed, canonicalize_header_value_relaxed,
}
use dkim.Error.Laws.{bind-eq-ok, unwrap-eq-ok, ok-injective}
use dkim.Error.{ok, err, signature_syntax_error}
use dkim.Hash.{truncate_to, canonicalize_body, canonicalize_header, signature_line}
use dkim.Header.{DkimHeader, header_name, get_raw_tag}
use dkim.Str.Numbers.{IntError, int_error, parse_usize, parse_usize_bound, usize_max}
use dkim.Str.{Unicode, erase_all, trim_end}

length-canonicalize_body :
    (t : CanonicalizationType) (body : Bytes) → length (canonicalize_body t body) ≤ length body + 2
unfolding canonicalize_body
length-canonicalize_body simple body = length-simple body
length-canonicalize_body relaxed body = length-relaxed body

-- The body is cut to a prefix of at most the length read.
record Cut (text body out : Bytes) : Type 0 where
  n : ℕ
  reads : parse_usize text ≡ inr n
  is : out ≡ take n body

truncate_to-Cut :
    (text body out : Bytes) → truncate_to (some text) body ≡ ok out → Cut text body out
unfolding truncate_to
truncate_to-Cut text body out h = of_number (parse_usize text) refl h
  where
    of_number :
        (r : IntError ⊎ ℕ)
        → parse_usize text ≡ r
        → (elim r [
          | inl e ↦ err (signature_syntax_error (codes "invalid length: " ++ int_error e))
          | inr n ↦ ok (take n body)
        ])
          ≡ ok out
        → Cut text body out
    of_number (inl e) at h = cc
    of_number (inr n) at h = record { n = n; reads = at; is = sym (ok-injective h) }

-- If l= is read, it is a number of 64 bits, and what is hashed is a prefix of the canonical body
-- of at most that length and at most two bytes longer than the body.
pub truncate_to_bounds :
    (t : CanonicalizationType) (text body out : Bytes)
    → truncate_to (some text) (canonicalize_body t body) ≡ ok out
    → (n : ℕ) × (parse_usize text ≡ inr n)
      × (n ≤ usize_max)
      × (length out ≤ n)
      × (length out ≤ length body + 2)
      × ((rest : Bytes) × (canonicalize_body t body ≡ out ++ rest))
truncate_to_bounds t text body out h =
    let c = truncate_to-Cut text (canonicalize_body t body) out h in
    let whole = canonicalize_body t body in
    let size : length out ≡ min c.n (length whole) =
      ap (λ (l : Bytes). length l) c.is ∙ length-take c.n whole in
    (
      c.n,
      c.reads,
      parse_usize_bound text c.n c.reads,
      omega (arith, size),
      omega (arith, size, length-canonicalize_body t body),
      (drop c.n whole, sym (take-append-drop c.n whole) ∙ ap (λ l. l ++ drop c.n whole) (sym c.is)),
    )

without_crlf : (s : Bytes) → take (length (s ++ crlf) - 2) (s ++ crlf) ++ crlf ≡ s ++ crlf
without_crlf s =
    let e : length (s ++ crlf) - 2 ≡ length s = omega (arith, length-append s crlf) in
    ap (λ n. take n (s ++ crlf) ++ crlf) e ∙ ap (λ l. l ++ crlf) (take-append s crlf)

-- A canonicalized header ends in CRLF.
header_ends :
    (unicode : Unicode) (t : CanonicalizationType) (key value : Bytes)
    → (s : Bytes) × (canonicalize_header unicode t key value ≡ s ++ crlf)
unfolding canonicalize_header canonicalize_header_simple canonicalize_header_relaxed
header_ends unicode simple key value =
    (key ++ (codes ": " ++ value), sym (append_assoc key (codes ": " ++ value) crlf))
header_ends unicode relaxed key value =
    let name = trim_end (unicode.to_lowercase key) in
    let v = canonicalize_header_value_relaxed value in
    (name ++ (codes ":" ++ v), sym (append_assoc name (codes ":" ++ v) crlf))

-- Taking two bytes off the canonical DKIM-Signature header takes off its CRLF and nothing else, so
-- the subtraction does not underflow.
pub signature_line-append_crlf :
    (unicode : Unicode) (t : CanonicalizationType) (header : DkimHeader) (line : Bytes)
    → signature_line unicode t header ≡ ok line
    → (sign : Bytes) × (get_raw_tag header (codes "b") ≡ some sign)
      × (line ++ crlf ≡ canonicalize_header unicode t header_name (erase_all header.raw_bytes sign))
unfolding signature_line
signature_line-append_crlf unicode t header line h =
    let (sign, raw, is) = bind-eq-ok _ _ h in
    let (s, ends) = header_ends unicode t header_name (erase_all header.raw_bytes sign) in
    (
      sign,
      unwrap-eq-ok _ raw,
      ap (λ l. l ++ crlf) (sym (ok-injective is))
          ∙ ap (λ l. take (length l - 2) l ++ crlf) ends
          ∙ without_crlf s
          ∙ sym ends,
    )
