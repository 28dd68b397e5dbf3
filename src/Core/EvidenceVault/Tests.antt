-- ===== src/Core/EvidenceVault/Tests.antt =====
-- A vault with a hold, a pending deletion, and the theorems at it.
mod Interrupted
use auditspec.Prelude.{
  ℕ, suc, String, true, false, Option, none, some, List, [], ◌∷◌, ◌++◌, ◌==◌, ◌≡◌, inl, inr, refl,
  sym, ap, arith, if◌then◌else◌,
}
use auditspec.Prelude.Result.{Error, ok, err, ◌>>=◌, value_of, false-true}
use auditspec.Prelude.Text.{◌≟◌}
use auditspec.Core.Value.{end}
use auditspec.Core.Canonical.{canonical_json}
use auditspec.Core.EvidenceVault.Records.{
  World, ObjectRef, Component, declared_closed_world, Evidence, LegalHold, DeletionIntent, Body,
  component_archived, evidence_appended, legal_hold_placed, evidence_deletion_intent, Event,
}
use auditspec.Core.EvidenceVault.Checks.{
  is_identifier, vault_identifier, is_sha256, sha256, media_type, instant,
}
use auditspec.Core.EvidenceVault.Chain.{
  event_schema, links, is_signed, verify_event, rotate, check_event, check_events,
}
use auditspec.Core.EvidenceVault.Tables.{HoldState, insert_once}
use auditspec.Core.EvidenceVault.Retirements.{sorted_set}
use auditspec.Core.EvidenceVault.Commits.{
  intent_v1, tombstone_schema, deletion_commit_body, same_tombstone,
}
use auditspec.Core.EvidenceVault.Fold.{matches_intent, check_commit, apply, apply_all}
use auditspec.Core.EvidenceVault.Replay.{
  EvidenceVault, VaultSigner, VaultState, file, pending_deletions, vault_state, replay,
  append_event, put_object,
}
use auditspec.Core.EvidenceVault.Replay.Steps.{append_event-refines}
use auditspec.Core.EvidenceVault.Replay.Tamper.{CollisionFree, payloads, vault_root_unique}
use auditspec.Core.EvidenceVault.Retention.{
  active_hold_ids, deadline_status, retention_status, live_evidence_ids, component_refs,
  is_unreferenced,
}
use auditspec.Core.EvidenceVault.Retention.Laws.{may_delete, retention_status-later}
use auditspec.Core.EvidenceVault.Recovery.{
  unlink_if, sweep, finish_intent, finish_intents, recovered, recover_locked,
}
use auditspec.Core.EvidenceVault.Operations.{locked_mutation}
use auditspec.Core.EvidenceVault.Archiving.{
  component_ref_of, archive_component, check_replacement, retire_component,
}
use auditspec.Core.EvidenceVault.Trust.{
  VaultTrustPins, has_cryptographic_pin, check_pins, verify_manifest_pins, verify_vault_root_pin,
  open_as, open_vault,
}
use auditspec.Core.EvidenceVault.Deletion.{delete_evidence}
use auditspec.Core.EvidenceVault.Commands.{Command, archive, method, run}
use auditspec.Core.EvidenceVault.Commands.Courses.{IsRecovered, recovered-IsRecovered}
use auditspec.Core.EvidenceVault.Commands.Reached.{
  empty_vault, created, opened, ran, Sound, Reached-Sound,
}
use auditspec.Core.EvidenceVault.Commands.Refused.{delete_evidence-held, retire_component-bricks}

abbrev zeros : String
zeros = "0000000000000000000000000000000000000000000000000000000000000000"

abbrev ones : String
ones = "1111111111111111111111111111111111111111111111111111111111111111"

abbrev content_digest : String
content_digest = "aaaaaaaaaaaaaaaaaaaaaaaaaaaaaaaaaaaaaaaaaaaaaaaaaaaaaaaaaaaaaaaa"

abbrev key : String
key = "bbbbbbbbbbbbbbbbbbbbbbbbbbbbbbbbbbbbbbbbbbbbbbbbbbbbbbbbbbbbbbbb"

-- The first event has one root and the others another; a timestamp is as late as it is long.
abbrev toy : World
toy = record {
  event_digest = λ payload. if payload.sequence == 1 then zeros else ones;
  bundle_digest = λ rows. zeros;
  raw_sha256 = λ content. content_digest;
  is_point = λ hex. true;
  verify = λ public root signature. true;
  from_iso = λ text. elim text [ String.[] ↦ some 0 | String.◌∷◌ c rest ↦ some 1 ];
}

abbrev signer : VaultSigner
signer = record { public_key_hex = key; sign = λ root. "" }

abbrev event_at : ℕ → Option String → Body → Event
event_at n previous body = record {
  payload = record {
    schema = event_schema;
    vault_id = "v";
    sequence = n;
    previous_event_root = previous;
    recorded_at = "Z";
    body = body;
  };
  event_root = if n == 1 then zeros else ones;
  algorithm = "ed25519";
  public_key_hex = key;
  signature_hex = "";
}

abbrev journal : ℕ → Option String → List Body → List Event
journal n previous [] = []
journal n previous (body ∷ bodies) =
    event_at n previous body ∷ journal (suc n) (some (if n == 1 then zeros else ones)) bodies

abbrev vault_of : List Body → EvidenceVault
vault_of bodies = record {
  vault_id = "v";
  manifest_root = "m";
  initial_public_key_hex = key;
  events = journal 1 none bodies;
  objects = (content_digest, file (1 ∷ [])) ∷ [];
  signer = some signer;
}

abbrev object_ref : ObjectRef
object_ref = record { sha256 = content_digest; size_bytes = 1; media_type = "a/b" }

abbrev policy : Component
policy = record {
  component_ref = "policy:p:1";
  kind = "policy";
  component_id = "p";
  version = "1";
  object_ref = object_ref;
  metadata = end;
}

abbrev evidence : Evidence
evidence = record {
  evidence_id = "e";
  claim_id = "c";
  run_id = "r";
  object_ref = object_ref;
  schema_ref = "s";
  key_ref = "k";
  verifier_ref = "v";
  policy_ref = "policy:p:1";
  world_scope = declared_closed_world zeros zeros;
  captured_at = "Z";
  minimum_retain_until = "Z";
  deletion_required_by = "lateZ";
}

abbrev placed : LegalHold
placed = record {
  hold_id = "h";
  evidence_ids = "e" ∷ [];
  authority_ref = "court";
  reason_digest = zeros;
}

abbrev intent : DeletionIntent
intent = record {
  schema = intent_v1;
  evidence_id = "e";
  deleted_at = "lateZ";
  object_sha256 = content_digest;
  deletion_basis = "policy_deadline";
  authority_ref = "court";
  authority_semantics = none;
  retention_decision = record {
    evidence_id = "e";
    evaluated_at = "lateZ";
    status = "DELETION_REQUIRED";
    active_hold_ids = [];
    minimum_retain_until = "Z";
    deletion_required_by = "lateZ";
  };
  physical_delete_required = true;
  retained_by_live_evidence_ids = [];
  retained_by_component_refs = none;
}

abbrev held_vault : EvidenceVault
held_vault = vault_of (evidence_appended evidence ∷ legal_hold_placed placed ∷ [])

abbrev owing_vault : EvidenceVault
owing_vault = vault_of (evidence_appended evidence ∷ evidence_deletion_intent intent ∷ [])

held : (s : VaultState) × (replay toy held_vault ≡ ok s)
unfolding replay check_events check_event verify_event links is_signed is_sha256 instant rotate
    apply_all apply insert_once
held = value_of (replay toy held_vault) refl

abbrev hold_state : HoldState
hold_state = record {
  evidence_ids = "e" ∷ [];
  released = false;
  placed_event_root = ones;
  release_event_root = none;
}

delete_evidence-held_example :
    (e : Error) × (delete_evidence toy "e" "lateZ" "policy_deadline" "court" held_vault ≡ err e)
unfolding held
delete_evidence-held_example =
    delete_evidence-held toy held_vault held.0 "h" hold_state "e" "lateZ" "policy_deadline" "court"
      held.1 refl refl (inl refl)

owing : (s : VaultState) × (replay toy owing_vault ≡ ok s)
unfolding replay check_events check_event verify_event links is_signed is_sha256 instant rotate
    apply_all apply insert_once
owing = value_of (replay toy owing_vault) refl

finished : (after : EvidenceVault) × (recovered toy owing_vault ≡ ok after)
unfolding replay check_events check_event verify_event links is_signed is_sha256 sha256 instant
    rotate apply_all apply insert_once recovered finish_intents finish_intent is_unreferenced
    live_evidence_ids component_refs unlink_if deletion_commit_body tombstone_schema append_event
    pending_deletions sweep check_commit matches_intent same_tombstone
finished = value_of (recovered toy owing_vault) refl

recovered-IsRecovered_example : IsRecovered toy owing_vault finished.0
recovered-IsRecovered_example =
    recovered-IsRecovered toy owing_vault finished.0 (λ root. refl) finished.1

-- The same journal with another signature.
abbrev other_vault : EvidenceVault
other_vault = record owing_vault { vault_id = "v"; manifest_root = "n" }

roots_differ : zeros ≡ ones → ⊥
roots_differ h = false-true (ap (λ (s : String). s ≟ ones) h)

no_collision : CollisionFree toy owing_vault.events other_vault.events
no_collision e f (inl i) (inl j) h = rw (i, j) refl
no_collision e f (inl i) (inr (inl j)) h = absurd (roots_differ (rw (i, j) at h))
no_collision e f (inl i) (inr (inr x)) h = absurd x
no_collision e f (inr (inl i)) (inl j) h = absurd (roots_differ (sym (rw (i, j) at h)))
no_collision e f (inr (inl i)) (inr (inl j)) h = rw (i, j) refl
no_collision e f (inr (inl i)) (inr (inr x)) h = absurd x
no_collision e f (inr (inr x)) m h = absurd x

other : (s : VaultState) × (replay toy other_vault ≡ ok s)
unfolding replay check_events check_event verify_event links is_signed is_sha256 instant rotate
    apply_all apply insert_once
other = value_of (replay toy other_vault) refl

vault_root_unique_example :
    (payloads owing_vault.events ≡ payloads other_vault.events)
    × ((owing.0).tables ≡ (other.0).tables)
unfolding owing other
vault_root_unique_example =
    vault_root_unique toy owing_vault other_vault owing.0 other.0 owing.1 other.1 (omega arith)
      (omega arith) refl no_collision

abbrev policy_vault : EvidenceVault
policy_vault = vault_of (component_archived policy ∷ [])

retired :
    (p : Event × EvidenceVault) × (retire_component toy "policy:p:1" none
        ("" ∷ [])
        []
        "Z"
        policy_vault
      ≡ ok p)
unfolding replay check_events check_event verify_event links is_signed is_sha256 sha256 instant
    rotate apply_all apply insert_once retire_component check_replacement append_event sorted_set
retired = value_of (retire_component toy "policy:p:1" none ("" ∷ []) [] "Z" policy_vault) refl

retire_component-bricks_example : (raised : Error) × (replay toy (retired.0).1 ≡ err raised)
unfolding is_identifier
retire_component-bricks_example =
    retire_component-bricks toy policy_vault (retired.0).1 (retired.0).0 "policy:p:1" none ("" ∷ [])
      [] "Z" (λ root. refl) refl retired.1

appended :
    (p : Event × EvidenceVault) × (append_event toy (component_archived policy) "Z" (vault_of [])
      ≡ ok p)
unfolding replay check_events apply_all instant sha256 is_sha256 append_event
appended = value_of (append_event toy (component_archived policy) "Z" (vault_of [])) refl

append_event-refines_example :
    (s : VaultState) × (replay toy (vault_of []) ≡ ok s)
    × ((appended.0).1.events ≡ [] ++ (appended.0).0 ∷ [])
    × (replay toy (appended.0).1 ≡ (
        rotate toy (component_archived policy) (appended.0).0 s.journal_authority >>= λ p.
        apply toy (component_archived policy) ((appended.0).0).event_root s.tables >>= λ t.
        ok (vault_state (appended.0).1 p t)))
append_event-refines_example =
    append_event-refines toy (component_archived policy) "Z" (vault_of []) (appended.0).1
      (appended.0).0 signer refl (λ root. refl) appended.1

eligible : (s : String) × (retention_status toy 0 (owing.0).tables "x" evidence ≡ ok s)
unfolding retention_status pending_deletions active_hold_ids deadline_status instant owing
eligible = value_of (retention_status toy 0 (owing.0).tables "x" evidence) refl

retention_status-later_example :
    (s : String) × (retention_status toy 1 (owing.0).tables "x" evidence ≡ ok s)
    × (may_delete s ≡ true)
    × (eligible.0 ≡ "DELETION_REQUIRED" → s ≡ "DELETION_REQUIRED")
unfolding eligible
retention_status-later_example =
    retention_status-later toy 0 1 (owing.0).tables "x" evidence (omega arith) eligible.1 refl

abbrev no_pins : VaultTrustPins
no_pins = record {
  expected_vault_id = none;
  expected_manifest_root = none;
  expected_public_key_hex = none;
  expected_vault_root = none;
}

open_empty :
    (after : EvidenceVault) × (open_vault toy no_pins (some signer) (empty_vault "v" zeros key)
      ≡ ok after)
unfolding open_vault check_pins has_cryptographic_pin verify_manifest_pins open_as
    verify_vault_root_pin replay check_events apply_all recover_locked recovered finish_intents
    pending_deletions sweep
open_empty = value_of (open_vault toy no_pins (some signer) (empty_vault "v" zeros key)) refl

abbrev archiving : Command
archiving = archive "policy" "p" "1" (1 ∷ []) "a/b" end "Z"

archived : (p : Event × EvidenceVault) × (run toy archiving open_empty.0 ≡ ok p)
unfolding open_empty run locked_mutation method archive_component vault_identifier is_identifier
    media_type component_ref_of put_object append_event replay check_events check_event verify_event
    links is_signed is_sha256 sha256 instant rotate apply_all apply insert_once recover_locked
    recovered finish_intents pending_deletions sweep canonical_json
archived = value_of (run toy archiving open_empty.0) refl

Reached-Sound_example : Sound toy (archived.0).1
unfolding open_empty
Reached-Sound_example = Reached-Sound toy (archived.0).1 (
    ran archiving open_empty.0 (archived.0).1 (archived.0).0
      (opened no_pins (some signer) (empty_vault "v" zeros key) open_empty.0 (created "v" zeros key)
        (λ root. refl) open_empty.1)
      (λ root. refl) tt archived.1)
