-- ===== src/Core/EvidenceVault/Operations.antt =====
-- src/auditspec/core/evidence_vault.py: the operations, each with its checks against the replayed
-- state and the event that it appends.
use auditspec.Prelude.{
  String, Bool, true, false, not, ◌&&◌, Option, none, some, List, [], ◌∷◌, length, every,
  if◌then◌else◌,
}
use auditspec.Prelude.Text.{text_order, contains}
use auditspec.Prelude.Order.{sort_by}
use auditspec.Prelude.Dict.{find, has}
use auditspec.Prelude.Result.{Result, ok, err, vault_error, require, ◌>>=◌, ◌>>◌}
use auditspec.Core.EvidenceVault.Records.{
  World, Evidence, BundleRow, Bundle, LegalHold, HoldRelease, AuthorityRotation, Event,
  bundle_sealed, legal_hold_placed, legal_hold_released, journal_authority_rotated,
}
use auditspec.Core.EvidenceVault.Checks.{vault_identifier, sha256, public_key, instant}
use auditspec.Core.EvidenceVault.Chain.{rotation_schema}
use auditspec.Core.EvidenceVault.Tables.{Rooted, HoldState, Tables}
use auditspec.Core.EvidenceVault.Retirements.{sorted_set, same_texts}
use auditspec.Core.EvidenceVault.Replay.{
  EvidenceVault, the_signer, pending_deletions, replay, append_event,
}
use auditspec.Core.EvidenceVault.Retention.{is_empty}
use auditspec.Core.EvidenceVault.Recovery.{recover_locked}

-- Evidence that is archived and neither deleted nor being deleted.
unfoldable pub is_live : Tables → String → Bool
unfolding pending_deletions
is_live tables evidence_id =
    has evidence_id tables.evidence
    && not (has evidence_id tables.deletions)
    && not (has evidence_id (pending_deletions tables))

-- `not ids or ids != sorted(set(ids))`, negated.
unfoldable pub is_id_set : List String → Bool
unfolding sorted_set
is_id_set ids = not (is_empty ids) && same_texts ids (sorted_set ids)

abbrev pub sorted : List String → List String
sorted ids = sort_by text_order (λ s. s) ids

module _ (world : World) where
  -- `_locked_mutation`: the vault is recovered first.
  unfoldable pub locked_mutation :
      (EvidenceVault → Result (Event × EvidenceVault))
      → EvidenceVault
      → Result (Event × EvidenceVault)
  unfolding recover_locked
  locked_mutation method vault = do
    signer ← the_signer (vault_error "read-only vault cannot mutate") vault.signer
    recovered ← recover_locked world vault
    method recovered

  unfoldable pub rotate_journal_authority :
      String → String → String → EvidenceVault → Result (Event × EvidenceVault)
  unfolding public_key sha256 instant replay append_event
  rotate_journal_authority successor_public_key_hex reason_digest recorded_at vault = do
    successor ← public_key world successor_public_key_hex
    reason ← sha256 reason_digest
    recorded ← instant world recorded_at
    state ← replay world vault
    require (not (contains state.journal_authority.public_key_history successor))
        (vault_error "journal authority key was already used")
    let body : AuthorityRotation = record {
      schema = rotation_schema;
      predecessor_public_key_hex = state.journal_authority.active_public_key_hex;
      successor_public_key_hex = successor;
      reason_digest = reason_digest;
    }
    append_event world (journal_authority_rotated body) recorded_at vault

  abbrev pub bundle_row : String → Option (Rooted Evidence) → Bool → Result BundleRow
  bundle_row evidence_id (some record_) true = ok (record {
    evidence_id = evidence_id;
    evidence_event_root = record_.event_root;
    object_ref = record_.body.object_ref;
  })
  bundle_row evidence_id (some record_) false =
      err (vault_error "bundle references unknown evidence")
  bundle_row evidence_id none live = err (vault_error "bundle references unknown evidence")

  unfoldable pub bundle_rows : Tables → List String → Result (List BundleRow)
  unfolding is_live
  bundle_rows tables [] = ok []
  bundle_rows tables (evidence_id ∷ ids) = do
    row ← bundle_row evidence_id (find evidence_id tables.evidence) (is_live tables evidence_id)
    rows ← bundle_rows tables ids
    ok (row ∷ rows)

  unfoldable pub create_bundle :
      String → List String → String → EvidenceVault → Result (Event × EvidenceVault)
  unfolding vault_identifier instant is_id_set replay bundle_rows append_event
  create_bundle bundle_id evidence_ids recorded_at vault = do
    checked ← vault_identifier bundle_id
    recorded ← instant world recorded_at
    let ids = sorted evidence_ids
    require (is_id_set ids) (vault_error "bundle evidence ids must be non-empty and unique")
    state ← replay world vault
    require (not (has bundle_id state.tables.bundles)) (vault_error "bundle id already exists")
    rows ← bundle_rows state.tables ids
    let body : Bundle = record {
      bundle_id = bundle_id;
      evidence = rows;
      evidence_count = length rows;
      bundle_root = world.bundle_digest rows;
    }
    append_event world (bundle_sealed body) recorded_at vault

  unfoldable pub place_legal_hold :
      String
      → List String
      → String
      → String
      → String
      → EvidenceVault
      → Result (Event × EvidenceVault)
  unfolding vault_identifier sha256 instant is_id_set replay is_live append_event
  place_legal_hold hold_id evidence_ids authority_ref reason_digest recorded_at vault = do
    checked ← vault_identifier hold_id
    authority ← vault_identifier authority_ref
    reason ← sha256 reason_digest
    recorded ← instant world recorded_at
    let ids = sorted evidence_ids
    state ← replay world vault
    require (is_id_set ids) (vault_error "legal hold evidence ids must be non-empty and unique")
    require (not (has hold_id state.tables.holds)) (vault_error "legal hold id already exists")
    require (every (is_live state.tables) ids)
        (vault_error "legal hold references unknown evidence")
    let body : LegalHold = record {
      hold_id = hold_id;
      evidence_ids = ids;
      authority_ref = authority_ref;
      reason_digest = reason_digest;
    }
    append_event world (legal_hold_placed body) recorded_at vault

  abbrev pub unreleased : Option HoldState → Result HoldState
  unreleased none = err (vault_error "legal hold is absent or already released")
  unreleased (some hold) =
      if hold.released
      then err (vault_error "legal hold is absent or already released")
      else ok hold

  unfoldable pub release_legal_hold :
      String → String → String → String → EvidenceVault → Result (Event × EvidenceVault)
  unfolding vault_identifier sha256 instant replay append_event
  release_legal_hold hold_id authority_ref release_reason_digest recorded_at vault = do
    authority ← vault_identifier authority_ref
    reason ← sha256 release_reason_digest
    recorded ← instant world recorded_at
    state ← replay world vault
    hold ← unreleased (find hold_id state.tables.holds)
    let body : HoldRelease = record {
      hold_id = hold_id;
      authority_ref = authority_ref;
      release_reason_digest = release_reason_digest;
      placed_event_root = hold.placed_event_root;
    }
    append_event world (legal_hold_released body) recorded_at vault
