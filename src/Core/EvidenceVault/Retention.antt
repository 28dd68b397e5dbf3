-- ===== src/Core/EvidenceVault/Retention.antt =====
-- src/auditspec/core/evidence_vault.py: the retention policy, and which objects are still needed.
pub mod Laws
use auditspec.Prelude.{
  ℕ, String, Bool, true, false, not, ◌&&◌, Option, none, some, List, [], ◌∷◌, map, keep, ltb, leb,
  if◌then◌else◌,
}
use auditspec.Prelude.Text.{◌≟◌, text_order, contains}
use auditspec.Prelude.Order.{sort_by}
use auditspec.Prelude.Dict.{Dict, find, has}
use auditspec.Prelude.Result.{Result, ok, err, vault_error, ◌>>=◌}
use auditspec.Core.EvidenceVault.Records.{
  World, Component, Evidence, DeletionIntent, RetentionDecision,
}
use auditspec.Core.EvidenceVault.Checks.{instant}
use auditspec.Core.EvidenceVault.Tables.{Rooted, HoldState, Tables}
use auditspec.Core.EvidenceVault.Replay.{pending_deletions}

abbrev pub is_empty {ℓ} : {A : Type ℓ} → List A → Bool
is_empty [] = true
is_empty (x ∷ xs) = false

-- The ids of the holds on the evidence that are not released, sorted.
unfoldable pub active_hold_ids : String → Dict HoldState → List String
active_hold_ids evidence_id holds =
    sort_by text_order (λ s. s)
      (map (λ p. p.0)
        (keep (λ p. not (p.1).released && contains (p.1).evidence_ids evidence_id) holds))

abbrev pub the_evidence : Option (Rooted Evidence) → Result Evidence
the_evidence none = err (vault_error "evidence id is unknown")
the_evidence (some row) = ok row.body

module _ (world : World) where
  -- The status once neither a deletion nor a hold decides it.
  unfoldable pub deadline_status : ℕ → Evidence → Result String
  unfolding instant
  deadline_status at body = instant world body.minimum_retain_until >>= λ minimum.
      if ltb at minimum
      then ok "RETAIN_REQUIRED"
      else (instant world body.deletion_required_by >>= λ deadline.
          ok (if leb deadline at then "DELETION_REQUIRED" else "DELETION_ELIGIBLE"))

  unfoldable pub retention_status : ℕ → Tables → String → Evidence → Result String
  unfolding pending_deletions active_hold_ids deadline_status
  retention_status at tables evidence_id body =
      if has evidence_id tables.deletions
      then ok "DELETED"
      else if has evidence_id (pending_deletions tables)
      then ok "DELETION_IN_PROGRESS"
      else if not (is_empty (active_hold_ids evidence_id tables.holds))
      then ok "LEGAL_HOLD"
      else deadline_status at body

  -- `_retention_decision_from_state`
  unfoldable pub retention_decision : Tables → String → String → Result RetentionDecision
  unfolding instant retention_status active_hold_ids
  retention_decision tables evidence_id evaluated_at = do
    at ← instant world evaluated_at
    body ← the_evidence (find evidence_id tables.evidence)
    status ← retention_status at tables evidence_id body
    ok (record {
      evidence_id = evidence_id;
      evaluated_at = evaluated_at;
      status = status;
      active_hold_ids = active_hold_ids evidence_id tables.holds;
      minimum_retain_until = body.minimum_retain_until;
      deletion_required_by = body.deletion_required_by;
    })

-- `item != excluding`, where None excludes nothing.
abbrev pub is_other : Option String → String → Bool
is_other none item = true
is_other (some excluded) item = not (item ≟ excluded)

-- The evidence, neither deleted nor being deleted, whose object has this digest.
unfoldable pub live_evidence_ids : Tables → String → Option String → List String
unfolding pending_deletions
live_evidence_ids tables digest excluding =
    sort_by text_order (λ s. s)
      (map (λ p. p.0)
        (keep
          (λ (p : String × Rooted Evidence).
            is_other excluding p.0
            && not (has p.0 tables.deletions)
            && not (has p.0 (pending_deletions tables))
            && (p.1).body.object_ref.sha256 ≟ digest)
          tables.evidence))

-- The components whose object has this digest.
unfoldable pub component_refs : Tables → String → List String
component_refs tables digest =
    sort_by text_order (λ s. s)
      (map (λ p. p.0)
        (keep (λ (p : String × Rooted Component). (p.1).body.object_ref.sha256 ≟ digest)
          tables.components))

-- Whether no live reference needs the object: both lists of
-- `_object_retention_references_from_state` are empty.
unfoldable pub is_unreferenced : Tables → String → Option String → Bool
unfolding live_evidence_ids component_refs
is_unreferenced tables digest excluding =
    is_empty (live_evidence_ids tables digest excluding) && is_empty (component_refs tables digest)
