-- ===== src/Validate/Domain.antt =====
-- Which `i=` the check of `validate_header` in src/lib.rs lets pass.
use dkim.Prelude.{
  ◌≡◌, ◌↔◌, sym, ap, ◌∙◌, ◌++◌, some, Bytes, codes, ends_with, ends_with_split, ends_with-append,
}
use dkim.Error.{ok, guard}
use dkim.Error.Laws.{guard-eq-ok}
use dkim.Header.{DkimHeader, get_tag, get_required_tag}
use dkim.Validate.{check_domain}

module _ (header : DkimHeader) (user domain : Bytes)
    (user_is : get_tag header (codes "i") ≡ some user)
    (domain_is : get_required_tag header (codes "d") ≡ ok domain) where
  check_domain_lem : check_domain header ≡ guard (ends_with user domain) dkim.Error.domain_mismatch
  unfolding check_domain
  check_domain_lem = rw (user_is, check_domain, domain_is)

  -- For a header with i= and d=, the domain check passes exactly if i= ends in the text of d=,
  -- whatever stands before it.
  pub check_domain_iff :
      (check_domain header ≡ ok tt) ↔ ((before : Bytes) × (user ≡ before ++ domain))
  check_domain_iff = (
    λ h. ends_with_split user domain (guard-eq-ok _ _ (sym check_domain_lem ∙ h)),
    λ (before, is).
        check_domain_lem
        ∙ ap (λ u. guard (ends_with u domain) dkim.Error.domain_mismatch) is
        ∙ ap (λ b. guard b dkim.Error.domain_mismatch) (ends_with-append before domain),
  )
