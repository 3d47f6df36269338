-- ===== src/Sign/Erase.antt =====
-- The value of `b=` in the header that src/sign.rs writes, and its removal in src/hash.rs.
use dkim.Prelude.{
  ℕ, suc, ◌<◌, ◌≡◌, ◌≢◌, refl, ap, ◌∙◌, false, [], ◌∷◌, ◌++◌, append_assoc, Bytes, codes, length,
  drop, starts_with, arith,
}
use dkim.Bytes.Replace.{replaced, replaced_match, replaced_miss}
use dkim.Externals.{Platform}
use dkim.Header.Print.{tags_of, serialize-printed}
use dkim.Parser.RoundTrip.{printed}
use dkim.Sign.Steps.{tags_before, signed_tags, header_of}
use dkim.Sign.{DkimSigner}
use dkim.Str.{erase_all}

-- A text behind a front in which it does not start is taken out, and the front stays.
replaced_first :
    (front sign rest : Bytes)
    → sign ≢ []
    → ((j : ℕ) → j < length front → starts_with (drop j (front ++ (sign ++ rest))) sign ≡ false)
    → replaced sign [] 0 (front ++ (sign ++ rest)) ≡ front ++ replaced sign [] 0 rest
replaced_first [] sign rest ne h = replaced_match sign [] rest ne
replaced_first (x ∷ front) sign rest ne h =
    replaced_miss sign [] x (front ++ (sign ++ rest)) (h 0 (omega arith))
    ∙ ap (λ l. x ∷ l) (replaced_first front sign rest ne (λ j lt. h (suc j) (omega (arith, lt))))

pub erase_all-append :
    (front sign : Bytes) (c : ℕ)
    → sign ≢ []
    → ((j : ℕ) → j < length front → starts_with (drop j (front ++ (sign ++ c ∷ []))) sign ≡ false)
    → starts_with (c ∷ []) sign ≡ false
    → erase_all (front ++ (sign ++ c ∷ [])) sign ≡ front ++ c ∷ []
unfolding erase_all replaced
erase_all-append front [] c ne h last = absurd (ne refl)
erase_all-append front (x ∷ sign) c ne h last =
    replaced_first front (x ∷ sign) (c ∷ []) ne h
    ∙ ap (λ l. front ++ l) (replaced_miss (x ∷ sign) [] c [] last)

module _ (p : Platform) (signer : DkimSigner p) where
  -- The text of the header up to the value of `b=`.
  abbrev pub text_before : Bytes → Bytes → Bytes
  text_before body_hash time_text =
      printed (tags_of (tags_before p signer body_hash time_text)) ++ codes " b="

  pub raw_bytes_lem :
      (body_hash time_text b : Bytes)
      → (header_of p signer body_hash time_text b).raw_bytes
        ≡ text_before body_hash time_text ++ (b ++ b';' ∷ [])
  raw_bytes_lem body_hash time_text b =
      serialize-printed (signed_tags p signer body_hash time_text b)
        (refl, (refl, (refl, (refl, (refl, (refl, (refl, (refl, (refl, tt)))))))))
      ∙ simp append_assoc
