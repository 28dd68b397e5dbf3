-- ===== src/Core/EvidenceVault/Tests/Interrupted.antt =====
-- A deletion that stopped after its intent, at a vault with one piece of evidence.
use auditspec.Prelude.{true, [], ◌∷◌, ◌==◌, ◌≡◌, inl, inr, refl, Bool-cases}
use auditspec.Prelude.Result.{ok, value_of}
use auditspec.Prelude.Dict.{has}
use auditspec.Core.EvidenceVault.Records.{
  DeletionIntent, Tombstone, Event, evidence_appended, evidence_deletion_intent,
}
use auditspec.Core.EvidenceVault.Checks.{is_sha256, sha256, instant}
use auditspec.Core.EvidenceVault.Chain.{
  links, is_signed, verify_event, rotate, check_event, check_events,
}
use auditspec.Core.EvidenceVault.Tables.{insert_once}
use auditspec.Core.EvidenceVault.Commits.{tombstone_schema, deletion_commit_body}
use auditspec.Core.EvidenceVault.Fold.{apply, apply_all}
use auditspec.Core.EvidenceVault.Replay.{
  EvidenceVault, VaultState, pending_deletions, replay, append_event,
}
use auditspec.Core.EvidenceVault.Retention.{
  active_hold_ids, deadline_status, retention_status, retention_decision, live_evidence_ids,
  component_refs, is_unreferenced,
}
use auditspec.Core.EvidenceVault.Recovery.Returns.{Digests, Ready, CanFinish}
use auditspec.Core.EvidenceVault.Deletion.{retention_allows, deletion_intent}
use auditspec.Core.EvidenceVault.Commands.Finishing.{Finishes, recovered-Finishes}
use auditspec.Core.EvidenceVault.Commands.Crashed.{deletion_intent-Finishes}
use auditspec.Core.EvidenceVault.Tests.{
  toy, signer, vault_of, evidence, owing_vault, intent, owing, ones,
}

toy-Digests : Digests toy
unfolding is_sha256
toy-Digests p = elim (Bool-cases (p.sequence == 1)) [ inl e ↦ rw e refl | inr e ↦ rw e refl ]

owing-Ready : Ready toy owing_vault owing.0
unfolding owing is_sha256
owing-Ready = record {
  replayed = owing.1;
  signer = signer;
  has_signer = refl;
  honest = λ root. refl;
  active = refl;
  stored = refl;
}

tombstone :
    (t : Tombstone) × (deletion_commit_body (record { body = intent; event_root = ones }) ≡ ok t)
unfolding deletion_commit_body tombstone_schema
tombstone = value_of (deletion_commit_body (record { body = intent; event_root = ones })) refl

owing-CanFinish : CanFinish toy (owing.0).tables (record { body = intent; event_root = ones })
unfolding owing is_sha256 instant is_unreferenced live_evidence_ids component_refs pending_deletions
owing-CanFinish = record {
  digest = refl;
  at = 1;
  time = refl;
  commit = tombstone.0;
  tombstone = tombstone.1;
  free = refl;
}

recovered-Finishes_example : Finishes toy owing_vault owing.0
unfolding owing pending_deletions
recovered-Finishes_example =
    recovered-Finishes toy owing_vault owing.0 toy-Digests owing-Ready (owing-CanFinish, tt)

abbrev idle_vault : EvidenceVault
idle_vault = vault_of (evidence_appended evidence ∷ [])

idle : (s : VaultState) × (replay toy idle_vault ≡ ok s)
unfolding replay check_events check_event verify_event links is_signed is_sha256 instant rotate
    apply_all apply insert_once
idle = value_of (replay toy idle_vault) refl

idle-Ready : Ready toy idle_vault idle.0
unfolding idle is_sha256
idle-Ready = record {
  replayed = idle.1;
  signer = signer;
  has_signer = refl;
  honest = λ root. refl;
  active = refl;
  stored = refl;
}

checked :
    (b : DeletionIntent) × (deletion_intent toy "e" "lateZ" "policy_deadline" "court"
        (idle.0).tables
        idle_vault
      ≡ ok b)
unfolding idle deletion_intent retention_allows retention_decision retention_status deadline_status
    active_hold_ids pending_deletions live_evidence_ids component_refs sha256 is_sha256 instant
checked =
    value_of (deletion_intent toy "e" "lateZ" "policy_deadline" "court" (idle.0).tables idle_vault)
      refl

signed :
    (p : Event × EvidenceVault) × (append_event toy
        (evidence_deletion_intent checked.0)
        "lateZ"
        idle_vault
      ≡ ok p)
unfolding idle append_event replay check_events check_event verify_event links is_signed is_sha256
    sha256 instant rotate apply_all apply insert_once
signed = value_of (append_event toy (evidence_deletion_intent checked.0) "lateZ" idle_vault) refl

-- The object is removed already.
abbrev stopped : EvidenceVault
stopped = record (signed.0).1 { objects = [] }

deletion_intent-Finishes_example :
    (s1 : VaultState) × (replay toy stopped ≡ ok s1)
    × (f : Finishes toy stopped s1) × (has "e" f.final.tables.deletions ≡ true)
unfolding idle pending_deletions
deletion_intent-Finishes_example =
    deletion_intent-Finishes toy idle_vault (signed.0).1 idle.0 (signed.0).0 "e" "lateZ"
      "policy_deadline" "court" checked.0 [] toy-Digests idle-Ready refl checked.1 signed.1 refl
