-- ===== src/Tests/Repository.antt =====
-- The repository's own tests, each as the type of what it asserts, under its name in the source.
mod Text
mod Parsed
mod Headers
mod Digests
mod Keys
mod Signers
mod Roundtrip
use dkim.Prelude.{Bool, true, false, ◌⊎◌, inl, inr, Bytes, codes}
use dkim.Bytes.Replace.{replaced}
use dkim.Error.{Outcome, ok, err, panic}

-- `unwrap` succeeds.
abbrev pub is_ok {ℓ} : {A : Type ℓ} → Outcome A → Bool
is_ok (ok a) = true
is_ok (err e) = false
is_ok panic = false

abbrev pub unwrap_right {ℓ} : {A : Type ℓ} → Bytes ⊎ A → Outcome A
unwrap_right (inl e) = panic
unwrap_right (inr a) = ok a

-- `replace('\n', "\r\n")`
abbrev pub to_crlf : Bytes → Bytes
to_crlf = replaced (codes "\n") (codes "\r\n") 0
