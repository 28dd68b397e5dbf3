-- ===== src/Core/EvidenceVault/Retirements/Laws.antt =====
-- Which claim ids a retirement certificate may hold.
use auditspec.Prelude.{String, Bool, true, List, every, ◌≡◌, refl, every-member, every_of_member}
use auditspec.Prelude.Text.{text_order}
use auditspec.Prelude.Order.{sort_by-member}
use auditspec.Prelude.Sets.{to_set, to_set-member}
use auditspec.Prelude.Sorting.{sorted_set-fixed}
use auditspec.Prelude.Result.{ok}
use auditspec.Core.EvidenceVault.Checks.{is_identifier}
use auditspec.Core.EvidenceVault.Retirements.{sorted_set, check_claim_ids}
use auditspec.Core.EvidenceVault.Commits.Laws.{same_texts_refl}

every-sorted_set :
    (test : String → Bool) (xs : List String)
    → every test xs ≡ true
    → every test (sorted_set xs) ≡ true
unfolding sorted_set
every-sorted_set test xs h = every_of_member test (sorted_set xs) λ a m.
    every-member test xs h a
      (to_set-member xs a (sort_by-member text_order (λ s. s) a (to_set xs) m))

sorted_set-sorted_set : (xs : List String) → sorted_set (sorted_set xs) ≡ sorted_set xs
unfolding sorted_set
sorted_set-sorted_set xs = sorted_set-fixed xs

-- The sorted set of identifiers passes the certificate's check.
pub check_claim_ids-sorted_set :
    (xs : List String) → every is_identifier xs ≡ true → check_claim_ids (sorted_set xs) ≡ ok tt
unfolding check_claim_ids
check_claim_ids-sorted_set xs h =
    rw
      (
        sorted_set-sorted_set xs,
        same_texts_refl (sorted_set xs),
        every-sorted_set is_identifier xs h,
      )
      refl
