-- ===== src/Verify/Email.antt =====
-- The results of `verify_email_with_resolver` and `verify_email_with_key` of src/lib.rs.
use dkim.Prelude.{
  ℕ, ◌+◌, ◌≡◌, ◌≢◌, refl, sym, ap, subst, ◌∙◌, true, List, ◌∷◌, ◌++◌, inl, inr, Option, none, some,
  Bytes, codes, beq, beq_iff, length, arith,
}
use dkim.DkimResult.{DkimResult, pass, fail, neutral, summary}
use dkim.Error.Laws.{ok-injective}
use dkim.Error.{DkimError, Outcome, ok, err, panic, ◌>>=◌}
use dkim.Externals.{MailHeader, ParsedMail, Platform}
use dkim.Header.{DkimHeader, get_required_tag}
use dkim.PublicKey.{DkimPublicKey, Lookup}
use dkim.Verify.Loop.{AllGoOn, run_rounds-Outcomes, run_rounds_decided}
use dkim.Verify.Round.{
  Chosen, true-ne-false, round-Chosen, Chosen-round, headers, resolver_round, key_round, Passed,
  FirstPass,
}
use dkim.Verify.{
  Types, returned, verify_email_header, verify_with_key, validated, same_domain, last_result,
  resolved, with_resolver, with_key, verify_email_with_resolver, verify_email_with_key,
}

module _ (p : Platform) (clock : ℕ → p.chrono.Time) (from_domain : Bytes) where
  module _ (email : ParsedMail) where
    resolved_ok :
        (domain : Bytes) (m : Outcome Types) {result : DkimResult}
        → resolved p clock from_domain email domain m ≡ returned (ok result)
        → (types : Types) × (m ≡ ok types) × (result ≡ pass domain types.0 types.1)
    resolved_ok domain (ok types) e = (types, refl, cc)
    resolved_ok domain (err x) e = cc
    resolved_ok domain panic e = cc

    pub Chosen-Passed :
        (resolver : Lookup) (i : ℕ) (h : MailHeader) {result : DkimResult}
        → Chosen p clock from_domain
            (with_resolver p clock from_domain email resolver)
            i
            h
            (ok result)
        → Passed p clock from_domain email
            (λ header. verify_email_header p clock resolver header email)
            i
            h
            result
    unfolding with_resolver
    Chosen-Passed resolver i h c =
        let (types, verified, result_is) = resolved_ok c.domain _ c.ends in
        record {
          header = c.header;
          domain = c.domain;
          types = types;
          valid = c.valid;
          domain_is = c.domain_is;
          domain_same = c.domain_same;
          verified = verified;
          result_is = result_is;
        }

    Passed-Chosen :
        (resolver : Lookup) (i : ℕ) (h : MailHeader) {result : DkimResult}
        → Passed p clock from_domain email
            (λ header. verify_email_header p clock resolver header email)
            i
            h
            result
        → Chosen p clock from_domain
            (with_resolver p clock from_domain email resolver)
            i
            h
            (ok result)
    unfolding with_resolver
    Passed-Chosen resolver i h d = record {
      header = d.header;
      domain = d.domain;
      valid = d.valid;
      domain_is = d.domain_is;
      domain_same = d.domain_same;
      ends = rw (d.verified, d.result_is);
    }

    -- If behind headers whose rounds all go on stands one that validates, names the sender's
    -- domain and verifies, the result is its pass, whatever errors the headers before it had.
    pub verify_email_with_resolver_complete :
        (resolver : Lookup) (result : DkimResult)
        → FirstPass p clock from_domain email resolver result
        → verify_email_with_resolver p clock from_domain email resolver ≡ ok result
    unfolding verify_email_with_resolver
    verify_email_with_resolver_complete resolver result (before, h, after, at, go, passed) =
        run_rounds_decided p clock from_domain (resolver_round p clock from_domain email resolver)
          (headers p clock from_domain email)
          (record {
            before = before;
            h = h;
            after = after;
            split_at = at;
            go_on = go;
            returns =
                let z : length before ≡ 0 + length before = omega arith in
                subst
                  (λ n.
                    resolver_round p clock from_domain email resolver n h ≡ returned (ok result))
                  z (Chosen-round p clock from_domain _ _ h (Passed-Chosen resolver _ h passed));
          })

    neutral-ne-pass : summary (neutral from_domain) ≢ codes "pass"
    unfolding summary neutral beq
    neutral-ne-pass h =
        let t : beq (codes "neutral") (codes "pass") ≡ true = (beq_iff _ _).1 h in
        true-ne-false (sym t)

    fail-ne-pass : (x : DkimError) → summary (fail x from_domain) ≢ codes "pass"
    unfolding summary fail beq
    fail-ne-pass x h =
        let t : beq (codes "fail") (codes "pass") ≡ true = (beq_iff _ _).1 h in
        true-ne-false (sym t)

    last_result-summary :
        (last : Option DkimError) {result : DkimResult}
        → last_result p clock from_domain last ≡ ok result
        → summary result ≢ codes "pass"
    last_result-summary none e h = neutral-ne-pass (ap summary (ok-injective e) ∙ h)
    last_result-summary (some x) e h = fail-ne-pass x (ap summary (ok-injective e) ∙ h)

    -- If the result of verify_email_with_resolver says "pass", it is the pass of the first header,
    -- behind headers whose rounds all go on, that validates, names the sender's domain and
    -- verifies with the key of its domain.
    pub verify_email_with_resolver_sound :
        (resolver : Lookup) (result : DkimResult)
        → verify_email_with_resolver p clock from_domain email resolver ≡ ok result
        → summary result ≡ codes "pass"
        → FirstPass p clock from_domain email resolver result
    unfolding verify_email_with_resolver
    verify_email_with_resolver_sound resolver result e passes =
        elim (run_rounds-Outcomes p clock from_domain
          (resolver_round p clock from_domain email resolver) 0 none
          (headers p clock from_domain email)) [
            | inl d ↦
                let z : 0 + length d.before ≡ length d.before = omega arith in
                let ends : resolver_round p clock from_domain email resolver (length d.before) d.h
                    ≡ returned (ok result) =
                  subst
                    (λ n.
                      resolver_round p clock from_domain email resolver n d.h
                      ≡ returned (ok result))
                    z (d.returns ∙ ap returned e) in
                (
                  d.before,
                  d.h,
                  d.after,
                  d.split_at,
                  d.go_on,
                  Chosen-Passed resolver _ d.h
                      (round-Chosen p clock from_domain _ _ d.h result ends),
                )
            | inr (go, last) ↦ absurd (last_result-summary _ (sym last ∙ e) passes)
          ]

    pub verify_email_with_key_first :
        (key : DkimPublicKey p.crypto) (before after : List MailHeader) (h : MailHeader)
        (header : DkimHeader) (domain : Bytes)
        → (headers p clock from_domain email) ≡ before ++ (h ∷ after)
        → AllGoOn p clock from_domain (key_round p clock from_domain email key) 0 before
        → validated p clock (length before) h ≡ ok header
        → get_required_tag header (codes "d") ≡ ok domain
        → same_domain p clock domain from_domain ≡ true
        → verify_email_with_key p clock from_domain email key ≡ (
            verify_with_key p.crypto p.unicode header email key >>= λ types.
            ok (pass domain types.0 types.1))
    unfolding verify_email_with_key with_key
    verify_email_with_key_first key before after h header domain at go valid domain_is same =
        let z : length before ≡ 0 + length before = omega arith in
        run_rounds_decided p clock from_domain (key_round p clock from_domain email key)
          (headers p clock from_domain email)
          (record {
            before = before;
            h = h;
            after = after;
            split_at = at;
            go_on = go;
            returns =
                subst
                  (λ n.
                    key_round p clock from_domain email key n h
                    ≡ returned (
                        verify_with_key p.crypto p.unicode header email key >>= λ types.
                        ok (pass domain types.0 types.1)))
                  z
                  (Chosen-round p clock from_domain (with_key p clock from_domain email key) _ h
                    (record {
                      header = header;
                      domain = domain;
                      valid = valid;
                      domain_is = domain_is;
                      domain_same = same;
                      ends = refl;
                    }));
          })
