-- ===== src/Core/EvidenceVault/Fold.antt =====
-- src/auditspec/core/evidence_vault.py: the second loop of `replay`, which folds the events into
-- the tables of the state.
pub mod Keyed
use auditspec.Prelude.{
  String, Bool, true, false, not, ◌&&◌, ◌||◌, Option, none, some, List, [], ◌∷◌, if◌then◌else◌,
}
use auditspec.Prelude.Text.{◌≟◌}
use auditspec.Prelude.Dict.{Dict, find, has, change}
use auditspec.Prelude.Result.{Result, ok, err, vault_error, require, ◌>>=◌, ◌>>◌}
use auditspec.Core.EvidenceVault.Records.{
  World, DeletionIntent, Tombstone, Body, component_archived, evidence_appended, bundle_sealed,
  legal_hold_placed, legal_hold_released, evidence_deletion_intent, evidence_deleted,
  component_retired, journal_authority_rotated, unknown_type, Event,
}
use auditspec.Core.EvidenceVault.Tables.{Rooted, HoldState, Tables, insert_once}
use auditspec.Core.EvidenceVault.Retirements.{validate_retirement}
use auditspec.Core.EvidenceVault.Commits.{deletion_commit_body, same_tombstone}

-- A hold that is absent or released cannot be released.
abbrev pub may_release : Option HoldState → Bool
may_release none = false
may_release (some hold) = not hold.released

abbrev pub release : String → HoldState → HoldState
release root hold = record hold { released = true; release_event_root = some root }

-- The commit against the signed intent.
unfoldable pub matches_intent : Tombstone → String → Option (Rooted DeletionIntent) → Result Bool
unfolding deletion_commit_body same_tombstone
matches_intent body intent_root none = ok false
matches_intent body intent_root (some intent) =
    if intent.event_root ≟ intent_root
    then (deletion_commit_body intent >>= λ expected. ok (same_tombstone body expected))
    else ok false

unfoldable pub check_commit :
    Dict (Rooted DeletionIntent) → Tombstone → Option String → Result (Unit {0})
unfolding matches_intent
check_commit intents body none = ok tt
check_commit intents body (some root) = do
  matches ← matches_intent body root (find body.evidence_id intents)
  require matches (vault_error "deletion commit does not match signed intent")

module _ (world : World) where
  -- One round of the second loop: the event's body and root.
  unfoldable pub apply : Body → String → Tables → Result Tables
  unfolding insert_once check_commit validate_retirement
  apply (component_archived body) root t = do
    components ←
        insert_once body.component_ref (record { body = body; event_root = root }) t.components
    ok (record t { components = components })
  apply (evidence_appended body) root t = do
    evidence ← insert_once body.evidence_id (record { body = body; event_root = root }) t.evidence
    ok (record t { evidence = evidence })
  apply (bundle_sealed body) root t = do
    bundles ← insert_once body.bundle_id (record { body = body; event_root = root }) t.bundles
    ok (record t { bundles = bundles })
  apply (legal_hold_placed body) root t = do
    let placed : HoldState = record {
      evidence_ids = body.evidence_ids;
      released = false;
      placed_event_root = root;
      release_event_root = none;
    }
    holds ← insert_once body.hold_id placed t.holds
    ok (record t { holds = holds })
  apply (legal_hold_released body) root t = do
    require (may_release (find body.hold_id t.holds))
        (vault_error "legal-hold release journal transition is invalid")
    ok (record t { holds = change body.hold_id (release root) t.holds })
  apply (evidence_deletion_intent body) root t = do
    require (has body.evidence_id t.evidence && not (has body.evidence_id t.deletions))
        (vault_error "deletion-intent journal transition is invalid")
    intents ←
        insert_once body.evidence_id (record { body = body; event_root = root }) t.deletion_intents
    ok (record t { deletion_intents = intents })
  apply (evidence_deleted body) root t = do
    require (has body.evidence_id t.evidence)
        (vault_error "deletion journal references unknown evidence")
    check_commit t.deletion_intents body body.intent_event_root
    deletions ← insert_once body.evidence_id (record { body = body; event_root = root }) t.deletions
    ok (record t { deletions = deletions })
  apply (component_retired body) root t = do
    require (has body.component_ref t.components)
        (vault_error "retirement journal references unknown component")
    validate_retirement world t.components body
    retirements ←
        insert_once body.component_ref (record { body = body; event_root = root }) t.retirements
    ok (record t { retirements = retirements })
  apply (journal_authority_rotated body) root t = ok t
  apply (unknown_type name) root t = err (vault_error "vault event type is unknown")

  unfoldable pub apply_all : List Event → Tables → Result Tables
  unfolding apply
  apply_all [] t = ok t
  apply_all (event ∷ events) t = apply event.payload.body event.event_root t >>= apply_all events
