-- ===== src/Core/EvidenceVault/Records.antt =====
-- src/auditspec/core/evidence_vault.py: the bodies of the journal's events, as records with the
-- fields of the JSON objects. A field that some schema versions leave out is an option.
use auditspec.Prelude.{ℕ, String, Bool, Option, List}
use auditspec.Core.Value.{Fields}

pub record ObjectRef : Type 0 where
  pub sha256 : String
  pub size_bytes : ℕ
  pub media_type : String

pub record Component : Type 0 where
  pub component_ref : String
  pub kind : String
  pub component_id : String
  pub version : String
  pub object_ref : ObjectRef
  pub metadata : Fields

pub data WorldScope : Type 0 where
  -- scope_commitment, universe_root
  declared_closed_world : String → String → WorldScope
  -- scope_commitment, bridge_ref
  externally_bridged_world : String → String → WorldScope

pub record Evidence : Type 0 where
  pub evidence_id : String
  pub claim_id : String
  pub run_id : String
  pub object_ref : ObjectRef
  pub schema_ref : String
  pub key_ref : String
  pub verifier_ref : String
  pub policy_ref : String
  pub world_scope : WorldScope
  pub captured_at : String
  pub minimum_retain_until : String
  pub deletion_required_by : String

pub record BundleRow : Type 0 where
  pub evidence_id : String
  pub evidence_event_root : String
  pub object_ref : ObjectRef

pub record Bundle : Type 0 where
  pub bundle_id : String
  pub evidence : List BundleRow
  pub evidence_count : ℕ
  pub bundle_root : String

pub record LegalHold : Type 0 where
  pub hold_id : String
  pub evidence_ids : List String
  pub authority_ref : String
  pub reason_digest : String

pub record HoldRelease : Type 0 where
  pub hold_id : String
  pub authority_ref : String
  pub release_reason_digest : String
  pub placed_event_root : String

pub record RetentionDecision : Type 0 where
  pub evidence_id : String
  pub evaluated_at : String
  pub status : String
  pub active_hold_ids : List String
  pub minimum_retain_until : String
  pub deletion_required_by : String

pub record DeletionIntent : Type 0 where
  pub schema : String
  pub evidence_id : String
  pub deleted_at : String
  pub object_sha256 : String
  pub deletion_basis : String
  pub authority_ref : String
  pub authority_semantics : Option String
  pub retention_decision : RetentionDecision
  pub physical_delete_required : Bool
  pub retained_by_live_evidence_ids : List String
  pub retained_by_component_refs : Option (List String)

pub record Tombstone : Type 0 where
  pub schema : String
  pub evidence_id : String
  pub object_sha256 : String
  pub deletion_basis : String
  pub authority_ref : String
  pub retention_decision : RetentionDecision
  pub physical_deleted : Bool
  pub retained_by_live_evidence_ids : List String
  pub intent_event_root : Option String
  pub retained_by_component_refs : Option (List String)
  pub authority_semantics : Option String

pub record Retirement : Type 0 where
  pub schema : String
  pub component_ref : String
  pub replacement_ref : Option String
  pub impacted_claim_ids : List String
  pub future_unsupported_claim_ids : List String
  pub archive_object_ref : ObjectRef
  pub existing_contracts_reverify_before_retirement : Bool
  pub future_capture_policy : Option String
  pub retired_at : Option String

pub record AuthorityRotation : Type 0 where
  pub schema : String
  pub predecessor_public_key_hex : String
  pub successor_public_key_hex : String
  pub reason_digest : String

-- `event_type` and `body`.
pub data Body : Type 0 where
  component_archived : Component → Body
  evidence_appended : Evidence → Body
  bundle_sealed : Bundle → Body
  legal_hold_placed : LegalHold → Body
  legal_hold_released : HoldRelease → Body
  evidence_deletion_intent : DeletionIntent → Body
  evidence_deleted : Tombstone → Body
  component_retired : Retirement → Body
  journal_authority_rotated : AuthorityRotation → Body
  -- An event type that the code does not know.
  unknown_type : String → Body

-- The part of an event that its root covers.
pub record Payload : Type 0 where
  pub schema : String
  pub vault_id : String
  pub sequence : ℕ
  pub previous_event_root : Option String
  pub recorded_at : String
  pub body : Body

pub record Event : Type 0 where
  pub payload : Payload
  pub event_root : String
  pub algorithm : String
  pub public_key_hex : String
  pub signature_hex : String

-- The code outside the repository that the vault calls: SHA-256 over canonical JSON and over raw
-- bytes, Ed25519, and `datetime.fromisoformat`.
pub record World : Type 0 where
  -- `digest(EVENT_SCHEMA, payload)` and `digest(BUNDLE_SCHEMA, rows)`
  pub event_digest : Payload → String
  pub bundle_digest : List BundleRow → String
  pub raw_sha256 : List ℕ → String
  -- Whether 32 raw bytes, in hexadecimal, are a public key.
  pub is_point : String → Bool
  -- Public key, root and signature.
  pub verify : String → String → String → Bool
  -- The instant of a timestamp without its final Z, on the UTC time line.
  pub from_iso : String → Option ℕ
