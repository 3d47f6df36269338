-- ===== src/Validate/Expiry.antt =====
-- The expiry that src/header.rs writes and `validate_header` of src/lib.rs checks.
use dkim.Prelude.{◌≡◌, ap, not, some, Bytes, codes}
use dkim.Error.{ok, ◌>>=◌, guard, unwrap, signature_expired}
use dkim.Externals.{Chrono}
use dkim.Header.{DkimHeader, DkimHeaderBuilder, get_tag, add_tag, set_expiry, set_time, build}
use dkim.Map.{get-insert, beq_refl}
use dkim.Nom.{Nom}
use dkim.Str.Decimal.{int_to_string}
use dkim.Str.Numbers.ReadBack.{Fits, parse_i64-int_to_string}
use dkim.Str.{Unicode}
use dkim.Validate.{check_expiry, sign_expiration_drift_mins}

module _ (nom : Nom) (unicode : Unicode) (chrono : Chrono) (now : chrono.Time) where
  -- A header with a time in x= is judged by that time, in whole seconds, with the drift.
  check_expiry-timestamp :
      (header : DkimHeader) (expiry read limit : chrono.Time)
      → get_tag header (codes "x") ≡ some (int_to_string (chrono.timestamp expiry))
      → Fits (chrono.timestamp expiry)
      → chrono.from_timestamp_opt (chrono.timestamp expiry) ≡ some read
      → chrono.plus read (chrono.minutes sign_expiration_drift_mins) ≡ some limit
      → check_expiry nom unicode chrono now header
        ≡ guard (not (chrono.later now limit)) signature_expired
  unfolding check_expiry
  check_expiry-timestamp header expiry read limit tag fits is later =
      rw (tag, check_expiry, parse_i64-int_to_string _ fits, is, later)

  get_tag-add_tag :
      (name value : Bytes) (builder : DkimHeaderBuilder chrono) (raw_bytes : Bytes)
      → get_tag
          (record { tags = (add_tag chrono name value builder).header.tags; raw_bytes = raw_bytes })
          name
        ≡ some value
  unfolding get_tag add_tag
  get_tag-add_tag name value builder raw_bytes =
      rw (get-insert builder.header.tags name _ name, beq_refl name)

  set_expiry_made :
      (duration : chrono.Duration) (time expiry : chrono.Time) (builder : DkimHeaderBuilder chrono)
      → chrono.plus time duration ≡ some expiry
      → set_expiry chrono duration (set_time chrono time builder)
        ≡ ok (
            add_tag chrono
              (codes "x")
              (int_to_string (chrono.timestamp expiry))
              (set_time chrono time builder))
  unfolding set_expiry set_time add_tag
  set_expiry_made duration time expiry builder sum =
      ap
        (λ o. unwrap o >>= λ e. ok (
          add_tag chrono (codes "x") (int_to_string (chrono.timestamp e))
            (set_time chrono time builder)))
        sum

  -- The expiry that the builder writes into x= is the one that the verifier checks: if the time of
  -- the signing plus the duration is an instant, whose timestamp has 64 bits and is read as an
  -- instant to which the drift can be added, a header built with set_time and set_expiry passes
  -- the check of its expiry exactly as long as it is not later than that sum, and the error after
  -- it is that the signature has expired.
  pub check_expiry-set_expiry :
      (duration : chrono.Duration) (time : chrono.Time) (builder : DkimHeaderBuilder chrono)
      (expiry read limit : chrono.Time)
      → chrono.plus time duration ≡ some expiry
      → Fits (chrono.timestamp expiry)
      → chrono.from_timestamp_opt (chrono.timestamp expiry) ≡ some read
      → chrono.plus read (chrono.minutes sign_expiration_drift_mins) ≡ some limit
      → (set_expiry chrono duration (set_time chrono time builder) >>= λ b.
          build chrono b >>= λ header. check_expiry nom unicode chrono now header)
        ≡ guard (not (chrono.later now limit)) signature_expired
  unfolding build
  check_expiry-set_expiry duration time builder expiry read limit sum fits is later =
      rw (set_expiry_made duration time expiry builder sum) (
        check_expiry-timestamp _ expiry read limit (get_tag-add_tag (codes "x") _ _ _) fits is
          later)
