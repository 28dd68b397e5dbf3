-- ===== src/Core/EvidenceVault/Retirements.antt =====
-- src/auditspec/core/evidence_vault.py: `_validate_retirement`.
pub mod Laws
use auditspec.Prelude.{
  String, Bool, true, false, not, ◌&&◌, ◌||◌, Option, none, some, List, [], ◌∷◌, ◌==◌, every,
  if◌then◌else◌,
}
use auditspec.Prelude.Text.{◌≟◌, text_order}
use auditspec.Prelude.Order.{sort_by}
use auditspec.Prelude.Sets.{to_set}
use auditspec.Prelude.Dict.{Dict, is_some, find}
use auditspec.Prelude.Result.{Result, ok, err, vault_error, require, ◌>>=◌, ◌>>◌}
use auditspec.Core.EvidenceVault.Records.{World, Component, Retirement}
use auditspec.Core.EvidenceVault.Checks.{is_identifier, instant}
use auditspec.Core.EvidenceVault.Tables.{Rooted}

-- `sorted(set(ids))`
unfoldable pub sorted_set : List String → List String
sorted_set ids = sort_by text_order (λ s. s) (to_set ids)

abbrev pub same_texts : List String → List String → Bool
same_texts [] [] = true
same_texts (x ∷ xs) (y ∷ ys) = x ≟ y && same_texts xs ys
same_texts [] (y ∷ ys) = false
same_texts (x ∷ xs) [] = false

-- `value == text` where the value may be absent.
abbrev pub is_text : Option String → String → Bool
is_text none text = false
is_text (some value) text = value ≟ text

abbrev pub retirement_v1 : String
retirement_v1 = "AuditSpec-evidence-vault-retirement-certificate-v1"

abbrev pub retirement_v2 : String
retirement_v2 = "AuditSpec-evidence-vault-retirement-certificate-v2"

-- `values == sorted(set(values))`, with identifiers only.
unfoldable pub check_claim_ids : List String → Result (Unit {0})
unfolding sorted_set is_identifier
check_claim_ids values = do
  require (same_texts values (sorted_set values))
      (vault_error "retirement claim ids are not canonical")
  require (every is_identifier values) (vault_error "is invalid")
  ok tt

abbrev pub is_replacement :
    String → String → Option (Rooted Component) → Option (Rooted Component) → Bool
is_replacement replacement_ref component_ref (some replacement) (some component) =
    not (replacement_ref ≟ component_ref) && replacement.body.kind ≟ component.body.kind
is_replacement replacement_ref component_ref (some replacement) none = false
is_replacement replacement_ref component_ref none component = false

-- Without a replacement there is nothing to check.
unfoldable pub replacement_is_valid : Dict (Rooted Component) → String → Option String → Bool
replacement_is_valid components component_ref none = true
replacement_is_valid components component_ref (some replacement_ref) =
    is_replacement replacement_ref component_ref (find replacement_ref components)
      (find component_ref components)

module _ (world : World) where
  abbrev checked_retired_at : Option String → Result (Unit {0})
  checked_retired_at none = err (vault_error "timestamp must be an RFC3339 UTC string")
  checked_retired_at (some at) = instant world at >>= λ retired. ok tt

  unfoldable pub checked_v2 : Retirement → Result (Unit {0})
  checked_v2 body = do
    require (is_text body.future_capture_policy "reject_retired_reference")
        (vault_error "retirement future-capture policy mismatch")
    checked_retired_at body.retired_at

  -- The keys that the certificate's schema wants.
  unfoldable pub check_retirement_schema : Retirement → Result (Unit {0})
  unfolding checked_v2
  check_retirement_schema body =
      if body.schema ≟ retirement_v1
      then require (not (is_some body.future_capture_policy || is_some body.retired_at))
          (vault_error "retirement certificate body mismatch")
      else if body.schema ≟ retirement_v2
      then checked_v2 body
      else err (vault_error "retirement certificate schema mismatch")

  unfoldable pub validate_retirement : Dict (Rooted Component) → Retirement → Result (Unit {0})
  unfolding check_retirement_schema replacement_is_valid check_claim_ids
  validate_retirement components body = do
    check_retirement_schema body
    require (replacement_is_valid components body.component_ref body.replacement_ref)
        (vault_error "retirement replacement is invalid")
    require body.existing_contracts_reverify_before_retirement
        (vault_error "retirement historical-verification policy mismatch")
    check_claim_ids body.impacted_claim_ids
    check_claim_ids body.future_unsupported_claim_ids
