-- ===== src/Tests/Reach.antt =====
-- Builders and loops, step by step.
use dkim.Prelude.{◌≡◌, ◌↔◌, ◌⊎◌, refl, List, [], ◌∷◌, none, some, Bytes, codes}
use dkim.Canonicalization.{relaxed}
use dkim.DkimResult.{DkimResult, pass}
use dkim.Error.{ok}
use dkim.Header.{new, set_time, add_tag, DkimHeaderBuilder}
use dkim.Header.Reach as HeaderReach
use dkim.Header.Reach.{Kept, Reachable-Kept}
use dkim.PublicKey.{rsa}
use dkim.Sign
use dkim.Sign.Reach as SignReach
use dkim.Sign.Reach.{check_from-Reachable}
use dkim.Sign.{SignerBuilder}
use dkim.Tests.Crates.{ascii, clock, crates}
use dkim.Tests.Email.{email, lookup}
use dkim.Tests.Program.{program}
use dkim.Tests.Signed.{email as signed_email, signer, header, header_signed, signer_writable}
use dkim.Tests.Unary.{unary_crates}
use dkim.Validate.{check_from}
use dkim.Verify.Agree.{Served, verify_email_with_resolver-with_key}
use dkim.Verify.Refines.{loops-Runs}
use dkim.Verify.Round.{headers}
use dkim.Verify.Steps.{ResolverRuns, KeyRuns}
use dkim.Verify.Verdict.{AllFrom}
use dkim.Verify.{verify_email_with_key, verify_email_with_resolver}

abbrev timed_builder : DkimHeaderBuilder clock
timed_builder = set_time clock 7 (add_tag clock (codes "v") (codes "1") (new clock))

timed_reached : HeaderReach.Reachable clock ascii timed_builder
timed_reached =
    HeaderReach.next
      (HeaderReach.next HeaderReach.start (HeaderReach.tagged _ (codes "v") (codes "1")))
      (HeaderReach.timed _ 7)

Reachable-Kept_example : Kept clock ascii timed_builder
Reachable-Kept_example = Reachable-Kept clock ascii timed_reached

abbrev named : SignerBuilder unary_crates
named = record (Sign.new_signer unary_crates) { signed_headers = some (codes "From" ∷ []) }

names_taken :
    Sign.with_signed_headers unary_crates (codes "From" ∷ []) (Sign.new_signer unary_crates)
    ≡ ok named
unfolding dkim.Sign.with_signed_headers dkim.Sign.names_from dkim.Str.to_ascii_lowercase
    dkim.Str.ascii_lower dkim.Prelude.beq
names_taken = refl

-- The calls of the setters.
abbrev chained : SignerBuilder unary_crates
chained = Sign.with_time unary_crates 7 (
    Sign.with_body_canonicalization unary_crates relaxed (
      Sign.with_logger unary_crates tt (
        Sign.with_signing_domain unary_crates (codes "b.c") (
          Sign.with_selector unary_crates (codes "k")
            (Sign.with_private_key unary_crates (Sign.DkimPrivateKey.rsa []) named)))))

chained_reached : SignReach.Reachable unary_crates chained
chained_reached =
    let r0 = SignReach.next SignReach.start (SignReach.headers _ _ _ names_taken) in
    let r1 = SignReach.next r0 (SignReach.key _ (Sign.DkimPrivateKey.rsa [])) in
    let r2 = SignReach.next r1 (SignReach.selector _ (codes "k")) in
    let r3 = SignReach.next r2 (SignReach.domain _ (codes "b.c")) in
    let r4 = SignReach.next r3 (SignReach.logger _ tt) in
    SignReach.next (SignReach.next r4 (SignReach.body_type _ relaxed)) (SignReach.time _ 7)

chained_built : Sign.build unary_crates chained ≡ ok signer
unfolding dkim.Sign.build dkim.Sign.algo_of dkim.Sign.with_time dkim.Sign.with_body_canonicalization
    dkim.Sign.with_logger dkim.Sign.with_signing_domain dkim.Sign.with_selector
    dkim.Sign.with_private_key
chained_built = refl

check_from-Reachable_example : check_from ascii header ≡ ok tt
check_from-Reachable_example =
    check_from-Reachable unary_crates signer 0 signed_email header chained_reached chained_built
      header_signed signer_writable.no_colons

abbrev passed : DkimResult
passed = pass (codes "b.com") relaxed relaxed

loops-Runs_example :
    ((verify_email_with_resolver crates (λ i. 0) (codes "b.com") email lookup ≡ ok passed)
      ↔ ResolverRuns crates (λ i. 0) (codes "b.com") email lookup (rsa []) (ok passed))
    × ((verify_email_with_key crates (λ i. 0) (codes "b.com") email (rsa []) ≡ ok passed)
        ↔ KeyRuns crates (λ i. 0) (codes "b.com") email lookup (rsa []) (ok passed))
loops-Runs_example = loops-Runs crates (λ i. 0) (codes "b.com") email lookup (rsa []) (ok passed)

all-Served :
    AllFrom
      (Served crates (λ i. 0) (codes "b.com") email lookup (rsa (codes "key")))
      0
      (headers crates (λ i. 0) (codes "b.com") email)
unfolding program
all-Served = (λ header domain selector n s. refl, tt)

key_passes :
    verify_email_with_key crates (λ i. 0) (codes "b.com") email (rsa (codes "key")) ≡ ok passed
unfolding program
key_passes = refl

verify_email_with_resolver-with_key_example :
    verify_email_with_resolver crates (λ i. 0) (codes "b.com") email lookup ≡ ok passed
verify_email_with_resolver-with_key_example =
    verify_email_with_resolver-with_key crates (λ i. 0) (codes "b.com") email lookup
      (rsa (codes "key")) passed all-Served key_passes
