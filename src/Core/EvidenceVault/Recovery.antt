-- ===== src/Core/EvidenceVault/Recovery.antt =====
-- src/auditspec/core/evidence_vault.py: `_recover_locked`.
pub mod Pending
pub mod Finished
pub mod Objects
pub mod Returns
use auditspec.Prelude.{
  String, Bool, true, false, not, ◌&&◌, Option, none, some, List, [], ◌∷◌, if◌then◌else◌,
}
use auditspec.Prelude.Dict.{Dict, find, erase}
use auditspec.Prelude.Result.{Result, ok, err, vault_error, require, ◌>>=◌, ◌>>◌}
use auditspec.Core.EvidenceVault.Records.{World, DeletionIntent, evidence_deleted}
use auditspec.Core.EvidenceVault.Checks.{sha256}
use auditspec.Core.EvidenceVault.Tables.{Rooted, Tables}
use auditspec.Core.EvidenceVault.Commits.{deletion_commit_body}
use auditspec.Core.EvidenceVault.Replay.{
  EvidenceVault, VaultSigner, ObjectEntry, file, not_a_file, pending_deletions, replay,
  append_event,
}
use auditspec.Core.EvidenceVault.Retention.{is_unreferenced}

-- An object that is gone already is no error.
abbrev pub unlinked : String → EvidenceVault → Option ObjectEntry → Result EvidenceVault
unlinked digest vault none = ok vault
unlinked digest vault (some (file content)) =
    ok (record vault { objects = erase digest vault.objects })
unlinked digest vault (some not_a_file) = err (vault_error "pending deletion object path is unsafe")

unfoldable pub unlink_if : Bool → String → EvidenceVault → Result EvidenceVault
unlink_if true digest vault = unlinked digest vault (find digest vault.objects)
unlink_if false digest vault = ok vault

-- Objects that nothing references are removed.
unfoldable pub sweep : Tables → Dict ObjectEntry → Result (Dict ObjectEntry)
unfolding is_unreferenced sha256
sweep tables [] = ok []
sweep tables ((digest, not_a_file) ∷ objects) = err (vault_error "vault object path is unsafe")
sweep tables ((digest, file content) ∷ objects) = do
  checked ← sha256 digest
  rest ← sweep tables objects
  ok (if is_unreferenced tables digest none then rest else (digest, file content) ∷ rest)

module _ (world : World) where
  -- One pending intent: the state is that of before the loop.
  unfoldable pub finish_intent :
      Tables → Rooted DeletionIntent → EvidenceVault → Result EvidenceVault
  unfolding is_unreferenced sha256 deletion_commit_body append_event unlink_if
  finish_intent tables intent vault = do
    digest ← sha256 intent.body.object_sha256
    require
        (not (
          intent.body.physical_delete_required
          && not (is_unreferenced tables digest (some intent.body.evidence_id))))
        (vault_error "pending deletion conflicts with live object references")
    cleared ← unlink_if intent.body.physical_delete_required digest vault
    body ← deletion_commit_body intent
    (event, after) ← append_event world (evidence_deleted body) intent.body.deleted_at cleared
    ok after

  unfoldable pub finish_intents :
      Tables → Dict (Rooted DeletionIntent) → EvidenceVault → Result EvidenceVault
  unfolding finish_intent
  finish_intents tables [] vault = ok vault
  finish_intents tables ((evidence_id, intent) ∷ intents) vault =
      finish_intent tables intent vault >>= finish_intents tables intents

  unfoldable pub recovered : EvidenceVault → Result EvidenceVault
  unfolding finish_intents sweep replay pending_deletions
  recovered vault = do
    state ← replay world vault
    finished ← finish_intents state.tables (pending_deletions state.tables) vault
    final ← replay world finished
    objects ← sweep final.tables finished.objects
    ok (record finished { objects = objects })

  abbrev pub recover_with : EvidenceVault → Option VaultSigner → Result EvidenceVault
  recover_with vault none = ok vault
  recover_with vault (some signer) = recovered vault

  unfoldable pub recover_locked : EvidenceVault → Result EvidenceVault
  unfolding recovered
  recover_locked vault = recover_with vault vault.signer
