-- ===== src/Core/EvidenceVault/Chain.antt =====
-- src/auditspec/core/evidence_vault.py: `_verify_event`, `_validate_journal_authority_rotation` and
-- the first loop of `replay`, which checks the chain of roots and signatures.
use auditspec.Prelude.{
  ℕ, suc, String, Bool, true, false, not, ◌&&◌, Option, none, some, List, [], ◌∷◌, ◌++◌, ◌==◌,
}
use auditspec.Prelude.Text.{◌≟◌, contains}
use auditspec.Prelude.Result.{Result, ok, vault_error, require, ◌>>=◌, ◌>>◌}
use auditspec.Core.EvidenceVault.Records.{
  World, AuthorityRotation, Body, component_archived, evidence_appended, bundle_sealed,
  legal_hold_placed, legal_hold_released, evidence_deletion_intent, evidence_deleted,
  component_retired, journal_authority_rotated, unknown_type, Event,
}
use auditspec.Core.EvidenceVault.Checks.{is_sha256, sha256, public_key, instant}

abbrev pub event_schema : String
event_schema = "AuditSpec-evidence-vault-event-v1"

abbrev pub rotation_schema : String
rotation_schema = "AuditSpec-evidence-vault-journal-authority-rotation-v1"

pub record RotationRow : Type 0 where
  pub sequence : ℕ
  pub event_root : String
  pub recorded_at : String
  pub predecessor_public_key_hex : String
  pub successor_public_key_hex : String
  pub reason_digest : String

-- The variables of the first loop of `replay`: how many events were read, the last root, and the
-- journal's authority.
pub record Progress : Type 0 where
  pub sequence : ℕ
  pub previous : Option String
  pub initial_public_key_hex : String
  pub active_public_key_hex : String
  pub public_key_history : List String
  pub rotations : List RotationRow

abbrev pub begin : String → Progress
begin key = record {
  sequence = 0;
  previous = none;
  initial_public_key_hex = key;
  active_public_key_hex = key;
  public_key_history = key ∷ [];
  rotations = [];
}

-- `a == b` where both may be None.
abbrev pub same_root : Option String → Option String → Bool
same_root none none = true
same_root (some a) (some b) = a ≟ b
same_root none (some b) = false
same_root (some a) none = false

module _ (world : World) where
  -- The event's root is that of its payload, which continues the chain.
  unfoldable pub links : String → Progress → Event → Bool
  links vault_id progress event =
      event.payload.schema ≟ event_schema
      && event.payload.sequence == suc progress.sequence
      && same_root event.payload.previous_event_root progress.previous
      && event.payload.vault_id ≟ vault_id
      && event.event_root ≟ world.event_digest event.payload

  -- `public.verify` over `_signature_message`, which wants a digest.
  unfoldable pub is_signed : String → Event → Bool
  unfolding is_sha256
  is_signed key event =
      is_sha256 event.event_root && world.verify key event.event_root event.signature_hex

  unfoldable pub verify_event : String → Progress → Event → Result (Unit {0})
  unfolding links is_signed instant
  verify_event vault_id progress event = do
    require (links vault_id progress event) (vault_error "vault event chain/root mismatch")
    recorded ← instant world event.payload.recorded_at
    require (event.algorithm ≟ "ed25519" && event.public_key_hex ≟ progress.active_public_key_hex)
        (vault_error "vault event signature record mismatch")
    require (is_signed progress.active_public_key_hex event)
        (vault_error "vault event signature invalid")
    ok tt

  unfoldable pub validate_rotation : Progress → AuthorityRotation → Result String
  unfolding sha256 public_key
  validate_rotation progress body = do
    require
        (body.schema ≟ rotation_schema
          && body.predecessor_public_key_hex ≟ progress.active_public_key_hex)
        (vault_error "journal authority rotation predecessor mismatch")
    successor ← public_key world body.successor_public_key_hex
    reason ← sha256 body.reason_digest
    require (not (contains progress.public_key_history successor))
        (vault_error "journal authority rotation reuses a prior key")
    ok successor

  -- The event is counted, and its root is the one to continue from.
  abbrev pub counted : Event → Progress → Progress
  counted event progress = record progress {
    sequence = suc progress.sequence;
    previous = some event.event_root;
  }

  abbrev pub rotated : Event → AuthorityRotation → String → Progress → Progress
  rotated event body successor progress = record (counted event progress) {
    active_public_key_hex = successor;
    public_key_history = progress.public_key_history ++ successor ∷ [];
    rotations =
        progress.rotations
        ++ record {
          sequence = suc progress.sequence;
          event_root = event.event_root;
          recorded_at = event.payload.recorded_at;
          predecessor_public_key_hex = progress.active_public_key_hex;
          successor_public_key_hex = successor;
          reason_digest = body.reason_digest;
        }
          ∷ [];
  }

  unfoldable pub rotate : Body → Event → Progress → Result Progress
  unfolding validate_rotation
  rotate (journal_authority_rotated body) event progress = do
    successor ← validate_rotation progress body
    ok (rotated event body successor progress)
  rotate (component_archived body) event progress = ok (counted event progress)
  rotate (evidence_appended body) event progress = ok (counted event progress)
  rotate (bundle_sealed body) event progress = ok (counted event progress)
  rotate (legal_hold_placed body) event progress = ok (counted event progress)
  rotate (legal_hold_released body) event progress = ok (counted event progress)
  rotate (evidence_deletion_intent body) event progress = ok (counted event progress)
  rotate (evidence_deleted body) event progress = ok (counted event progress)
  rotate (component_retired body) event progress = ok (counted event progress)
  rotate (unknown_type name) event progress = ok (counted event progress)

  -- One round of the first loop.
  unfoldable pub check_event : String → Event → Progress → Result Progress
  unfolding verify_event rotate
  check_event vault_id event progress =
      verify_event vault_id progress event >> rotate event.payload.body event progress

  unfoldable pub check_events : String → List Event → Progress → Result Progress
  unfolding check_event
  check_events vault_id [] progress = ok progress
  check_events vault_id (event ∷ events) progress =
      check_event vault_id event progress >>= check_events vault_id events
