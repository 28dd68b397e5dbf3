-- ===== src/Core/EvidenceVault/Deletion.antt =====
-- src/auditspec/core/evidence_vault.py: `delete_evidence`: the signed intent, the removal of the
-- object that nothing else needs, and the commit.
use auditspec.Prelude.{
  String, Bool, true, false, not, ◌&&◌, ◌||◌, Option, none, some, List, if◌then◌else◌,
}
use auditspec.Prelude.Text.{◌≟◌}
use auditspec.Prelude.Dict.{find, erase}
use auditspec.Prelude.Result.{Result, ok, err, vault_error, require, ◌>>=◌, ◌>>◌}
use auditspec.Core.EvidenceVault.Records.{
  World, RetentionDecision, DeletionIntent, Event, evidence_deletion_intent, evidence_deleted,
}
use auditspec.Core.EvidenceVault.Checks.{vault_identifier, sha256, instant}
use auditspec.Core.EvidenceVault.Tables.{Tables}
use auditspec.Core.EvidenceVault.Commits.{intent_v3, authority_semantics, deletion_commit_body}
use auditspec.Core.EvidenceVault.Replay.{
  EvidenceVault, ObjectEntry, file, not_a_file, replay, append_event,
}
use auditspec.Core.EvidenceVault.Retention.{
  the_evidence, retention_decision, live_evidence_ids, component_refs, is_empty,
}

-- The status that a basis for deletion asks for.
unfoldable pub retention_allows : String → Result String
retention_allows deletion_basis =
    if deletion_basis ≟ "policy_deadline"
    then ok "DELETION_REQUIRED"
    else if deletion_basis ≟ "permitted_disposal"
    then ok "DELETION_ELIGIBLE"
    else err (vault_error "deletion basis is invalid")

abbrev pub is_file : Option ObjectEntry → Bool
is_file none = false
is_file (some not_a_file) = false
is_file (some (file content)) = true

-- `path.unlink()` where the object is removed.
abbrev pub without_object : Bool → String → EvidenceVault → EvidenceVault
without_object true digest vault = record vault { objects = erase digest vault.objects }
without_object false digest vault = vault

abbrev pub intent_of :
    String
    → String
    → String
    → String
    → String
    → RetentionDecision
    → List String
    → List String
    → DeletionIntent
intent_of evidence_id deleted_at digest deletion_basis authority_ref decision live refs = record {
  schema = intent_v3;
  evidence_id = evidence_id;
  deleted_at = deleted_at;
  object_sha256 = digest;
  deletion_basis = deletion_basis;
  authority_ref = authority_ref;
  authority_semantics = some authority_semantics;
  retention_decision = decision;
  physical_delete_required = is_empty live && is_empty refs;
  retained_by_live_evidence_ids = live;
  retained_by_component_refs = some refs;
}

module _ (world : World) where
  -- The checks of `delete_evidence`, and the intent that it signs.
  unfoldable pub deletion_intent :
      String → String → String → String → Tables → EvidenceVault → Result DeletionIntent
  unfolding retention_allows retention_decision live_evidence_ids component_refs sha256
  deletion_intent evidence_id deleted_at deletion_basis authority_ref tables vault = do
    wanted ← retention_allows deletion_basis
    decision ← retention_decision world tables evidence_id deleted_at
    require (decision.status ≟ wanted) (vault_error "retention or legal hold prevents deletion")
    body ← the_evidence (find evidence_id tables.evidence)
    digest ← sha256 body.object_ref.sha256
    let live = live_evidence_ids tables digest (some evidence_id)
    let refs = component_refs tables digest
    require (not (is_empty live && is_empty refs) || is_file (find digest vault.objects))
        (vault_error "evidence object is already unavailable")
    ok (intent_of evidence_id deleted_at digest deletion_basis authority_ref decision live refs)

  unfoldable pub delete_evidence :
      String → String → String → String → EvidenceVault → Result (Event × EvidenceVault)
  unfolding instant vault_identifier retention_allows replay deletion_intent append_event
      deletion_commit_body
  delete_evidence evidence_id deleted_at deletion_basis authority_ref vault = do
    deleted ← instant world deleted_at
    authority ← vault_identifier authority_ref
    wanted ← retention_allows deletion_basis
    state ← replay world vault
    body ← deletion_intent evidence_id deleted_at deletion_basis authority_ref state.tables vault
    (intent, intended) ← append_event world (evidence_deletion_intent body) deleted_at vault
    let cleared = without_object body.physical_delete_required body.object_sha256 intended
    commit ← deletion_commit_body (record { body = body; event_root = intent.event_root })
    append_event world (evidence_deleted commit) deleted_at cleared
