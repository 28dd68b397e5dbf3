-- ===== src/Core/EvidenceVault/Commits.antt =====
-- src/auditspec/core/evidence_vault.py: `_deletion_commit_body`, the tombstone that finishes a
-- signed deletion intent.
pub mod Laws
use auditspec.Prelude.{
  String, Bool, true, false, not, ◌&&◌, ◌||◌, Option, none, some, List, [], ◌∷◌, if◌then◌else◌,
}
use auditspec.Prelude.Text.{◌≟◌}
use auditspec.Prelude.Dict.{is_some}
use auditspec.Prelude.Result.{Result, ok, err, vault_error, require, ◌>>=◌, ◌>>◌}
use auditspec.Core.EvidenceVault.Records.{DeletionIntent, Tombstone, RetentionDecision}
use auditspec.Core.EvidenceVault.Tables.{Rooted}
use auditspec.Core.EvidenceVault.Retirements.{is_text, same_texts}

abbrev pub intent_v1 : String
intent_v1 = "AuditSpec-evidence-vault-deletion-intent-v1"

abbrev pub intent_v2 : String
intent_v2 = "AuditSpec-evidence-vault-deletion-intent-v2"

abbrev pub intent_v3 : String
intent_v3 = "AuditSpec-evidence-vault-deletion-intent-v3"

abbrev pub tombstone_v1 : String
tombstone_v1 = "AuditSpec-evidence-vault-deletion-tombstone-v1"

abbrev pub tombstone_v2 : String
tombstone_v2 = "AuditSpec-evidence-vault-deletion-tombstone-v2"

abbrev pub tombstone_v3 : String
tombstone_v3 = "AuditSpec-evidence-vault-deletion-tombstone-v3"

abbrev pub authority_semantics : String
authority_semantics = "attribution_metadata_asserted_by_vault_authority"

abbrev pub tombstone_if : Bool → String → Result String
tombstone_if true schema = ok schema
tombstone_if false schema = err (vault_error "deletion intent body mismatch")

-- Whether the optional keys are there is what the intent's schema says.
unfoldable pub tombstone_schema : DeletionIntent → Result String
tombstone_schema body =
    if body.schema ≟ intent_v1
    then tombstone_if
        (not (is_some body.retained_by_component_refs) && not (is_some body.authority_semantics))
        tombstone_v1
    else if body.schema ≟ intent_v2
    then tombstone_if
        (is_some body.retained_by_component_refs && not (is_some body.authority_semantics))
        tombstone_v2
    else if body.schema ≟ intent_v3
    then (require (is_text body.authority_semantics authority_semantics)
          (vault_error "deletion authority semantics mismatch")
        >>= λ attributed. tombstone_if (is_some body.retained_by_component_refs) tombstone_v3)
    else err (vault_error "deletion intent body mismatch")

unfoldable pub deletion_commit_body : Rooted DeletionIntent → Result Tombstone
unfolding tombstone_schema
deletion_commit_body intent = do
  schema ← tombstone_schema intent.body
  ok (record {
    schema = schema;
    evidence_id = intent.body.evidence_id;
    object_sha256 = intent.body.object_sha256;
    deletion_basis = intent.body.deletion_basis;
    authority_ref = intent.body.authority_ref;
    retention_decision = intent.body.retention_decision;
    physical_deleted = intent.body.physical_delete_required;
    retained_by_live_evidence_ids = intent.body.retained_by_live_evidence_ids;
    intent_event_root = some intent.event_root;
    retained_by_component_refs = intent.body.retained_by_component_refs;
    authority_semantics = intent.body.authority_semantics;
  })

abbrev pub same_flag : Bool → Bool → Bool
same_flag true b = b
same_flag false b = not b

abbrev pub same_text_option : Option String → Option String → Bool
same_text_option none none = true
same_text_option (some a) (some b) = a ≟ b
same_text_option none (some b) = false
same_text_option (some a) none = false

abbrev pub same_texts_option : Option (List String) → Option (List String) → Bool
same_texts_option none none = true
same_texts_option (some a) (some b) = same_texts a b
same_texts_option none (some b) = false
same_texts_option (some a) none = false

unfoldable pub same_decision : RetentionDecision → RetentionDecision → Bool
same_decision a b =
    a.evidence_id ≟ b.evidence_id
    && a.evaluated_at ≟ b.evaluated_at
    && a.status ≟ b.status
    && same_texts a.active_hold_ids b.active_hold_ids
    && a.minimum_retain_until ≟ b.minimum_retain_until
    && a.deletion_required_by ≟ b.deletion_required_by

-- `body == _deletion_commit_body(intent)`
unfoldable pub same_tombstone : Tombstone → Tombstone → Bool
unfolding same_decision
same_tombstone a b =
    a.schema ≟ b.schema
    && a.evidence_id ≟ b.evidence_id
    && a.object_sha256 ≟ b.object_sha256
    && a.deletion_basis ≟ b.deletion_basis
    && a.authority_ref ≟ b.authority_ref
    && same_decision a.retention_decision b.retention_decision
    && same_flag a.physical_deleted b.physical_deleted
    && same_texts a.retained_by_live_evidence_ids b.retained_by_live_evidence_ids
    && same_text_option a.intent_event_root b.intent_event_root
    && same_texts_option a.retained_by_component_refs b.retained_by_component_refs
    && same_text_option a.authority_semantics b.authority_semantics
