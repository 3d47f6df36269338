-- ===== src/Tests/Signed.antt =====
-- A signed header that verifies.
use dkim.Prelude.{
  ℕ, zero, suc, ◌<◌, ◌≡◌, ◌≢◌, refl, ap, ◌∙◌, Bool, true, false, not, ◌&&◌, and_parts, [], ◌∷◌, inl,
  inr, none, some, Bytes, codes, length, drop, starts_with, beq, ◌==◌, ==_iff, Bool-cases, sym,
  ◌++◌, ◌-◌, arith,
}
use dkim.Canonicalization.{simple, relaxed}
use dkim.Error.Laws.{ok-injective}
use dkim.Error.{ok}
use dkim.Externals.{Crypto, ParsedMail}
use dkim.Header.{DkimHeader, get_required_tag}
use dkim.Map.{beq_refl}
use dkim.Parser.{Tag, rsa_sha256}
use dkim.PublicKey.Stored.{KeysReadBack, try_from_bytes-to_vec}
use dkim.PublicKey.{DkimPublicKey, to_vec, key_type, try_from_bytes}
use dkim.Sign.Accepted.{IsWritable}
use dkim.Sign.Verifies.{IsKeyPair, IsOnce}
use dkim.Sign.{DkimPrivateKey, DkimSigner, signed_header, signature_of}
use dkim.Tests.Program.{program}
use dkim.Tests.Crates.{ascii}
use dkim.Tests.Unary.{unary_crypto, unary_crates, encode}
use dkim.Verify.{verify_signature}

abbrev pub signer : DkimSigner unary_crates
signer = record {
  signed_headers = codes "From" ∷ [];
  private_key = DkimPrivateKey.rsa [];
  selector = codes "k";
  signing_domain = codes "b.c";
  header_canonicalization = simple;
  body_canonicalization = relaxed;
  logger = tt;
  expiry = none;
  hash_algo = rsa_sha256;
  time = some 7;
}

abbrev pub email : ParsedMail
email = record {
  raw_bytes = codes "From: a@b.c\r\n\r\nhi\r\n";
  headers = record { key = codes "From"; value_raw = codes "a@b.c" } ∷ [];
}

abbrev pub key : DkimPublicKey unary_crypto
key = DkimPublicKey.rsa []

abbrev pub signature_text : Bytes
signature_text = encode (104 ∷ [])

abbrev entry : Bytes → Bytes → Bytes × Tag
entry name value = (name, record { name = name; value = value; raw_value = value })

abbrev pub header : DkimHeader
header = record {
  tags =
      entry (codes "v") (codes "1")
      ∷ entry (codes "a") (codes "rsa-sha256")
      ∷ entry (codes "d") (codes "b.c")
      ∷ entry (codes "s") (codes "k")
      ∷ entry (codes "c") (codes "simple/relaxed")
      ∷ entry (codes "bh") (codes "aaaab")
      ∷ entry (codes "h") (codes "from")
      ∷ entry (codes "t") (codes "7")
      ∷ entry (codes "b") signature_text
      ∷ [];
  raw_bytes =
      codes "v=1; a=rsa-sha256; d=b.c; s=k; c=simple/relaxed; bh=aaaab; h=from; t=7; b="
      ++ (signature_text ++ codes ";");
}

pub header_signed : signed_header unary_crates signer 0 email ≡ ok header
unfolding program signed_header signature_of
header_signed = refl

pub signer_writable : IsWritable unary_crates signer
unfolding dkim.Sign.names_from dkim.Str.to_ascii_lowercase dkim.Str.ascii_lower dkim.Str.join beq
signer_writable = record {
  domain_visible = (refl, (refl, (refl, tt)));
  selector_visible = (refl, tt);
  names_visible = (refl, (refl, (refl, (refl, tt))));
  names_from_in = refl;
  no_colons = (((omega arith), ((omega arith), ((omega arith), ((omega arith), tt)))), tt);
}

pub key_pair : IsKeyPair unary_crates signer key
unfolding signature_of verify_signature
key_pair hash signature h = ap ok (ap (λ s. beq hash s) (sym (ok-injective h)) ∙ beq_refl hash)

abbrev below : ℕ → (ℕ → Bool) → Bool
below zero test = true
below (suc n) test = test n && below n test

below_sound : (n : ℕ) (test : ℕ → Bool) (j : ℕ) → below n test ≡ true → j < n → test j ≡ true
below_sound zero test j h lt = absurd (omega (arith, lt))
below_sound (suc n) test j h lt =
    let (here, later) = and_parts (test n) (below n test) h in
    elim (Bool-cases (j == n)) [
      | inl e ↦ ap test ((==_iff j n).0 e) ∙ here
      | inr e ↦ below_sound n test j later (ground arith)
    ]

abbrev absent_at : ℕ → Bool
absent_at j = not (starts_with (drop j header.raw_bytes) signature_text)

absent_below : below (length header.raw_bytes - length signature_text - 1) absent_at ≡ true
unfolding starts_with
absent_below = refl

not-true : (b : Bool) → not b ≡ true → b ≡ false
not-true b h = ground arith

text-ne-nil : signature_text ≢ []
text-ne-nil h = cc

last_differs : starts_with (b';' ∷ []) signature_text ≡ false
unfolding starts_with
last_differs = refl

pub signature-IsOnce : IsOnce signature_text header.raw_bytes
signature-IsOnce = (
  text-ne-nil,
  λ j lt. not-true _ (
      below_sound (length header.raw_bytes - length signature_text - 1) absent_at j absent_below
        (omega (arith, lt))),
  last_differs,
)

pub b_value : get_required_tag header (codes "b") ≡ ok signature_text
unfolding get_required_tag dkim.Map.get beq
b_value = refl

some-injective : {a b : Bytes} → some a ≡ some b → a ≡ b
some-injective h = cc

-- The only Ed25519 key, in 32 bytes.
abbrev key_bytes : Bytes
key_bytes = codes "0123456789abcdef0123456789abcdef"

abbrev one_key_crypto : Crypto
one_key_crypto = record unary_crypto {
  VerifyingKey = Unit;
  verifying_key_from_bytes = λ s. inr tt;
  verifying_key_bytes = λ k. key_bytes;
  verify_strict = λ k hash signature. beq hash signature;
}

keys_read_back : KeysReadBack one_key_crypto ascii
keys_read_back = record {
  rsa_read = λ k der e. ap inr (sym (some-injective e));
  ed25519_length = λ k. refl;
  ed25519_read = λ k. refl;
}

to_vec_key : to_vec one_key_crypto (DkimPublicKey.ed25519 tt) ≡ ok key_bytes
unfolding to_vec
to_vec_key = refl

try_from_bytes-to_vec_example :
    try_from_bytes one_key_crypto ascii key_bytes
      (key_type one_key_crypto (DkimPublicKey.ed25519 tt))
    ≡ ok (DkimPublicKey.ed25519 tt)
try_from_bytes-to_vec_example =
    try_from_bytes-to_vec one_key_crypto ascii (DkimPublicKey.ed25519 tt) key_bytes keys_read_back
      to_vec_key
