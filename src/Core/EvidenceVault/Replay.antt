-- ===== src/Core/EvidenceVault/Replay.antt =====
-- src/auditspec/core/evidence_vault.py: the vault, `replay`, `_append_event` and `_put_object`.
pub mod Steps
pub mod Tamper
use auditspec.Prelude.{
  ℕ, suc, String, Bool, true, false, not, Option, none, some, List, [], ◌∷◌, ◌++◌, ◌==◌, keep,
  length, if◌then◌else◌,
}
use auditspec.Prelude.Text.{◌≟◌}
use auditspec.Prelude.Dict.{Dict, find, has, insert_new}
use auditspec.Prelude.Result.{Error, Result, ok, err, vault_error, require, ◌>>=◌, ◌>>◌}
use auditspec.Core.EvidenceVault.Records.{World, ObjectRef, DeletionIntent, Body, Payload, Event}
use auditspec.Core.EvidenceVault.Checks.{sha256, media_type, instant}
use auditspec.Core.EvidenceVault.Chain.{Progress, begin, event_schema, check_events}
use auditspec.Core.EvidenceVault.Tables.{Rooted, Tables, no_tables}
use auditspec.Core.EvidenceVault.Fold.{apply_all}

-- `VaultSigner`: its public key, and its signature of a root.
pub record VaultSigner : Type 0 where
  pub public_key_hex : String
  pub sign : String → String

-- What stands at an object's path: a file, or a link or a directory.
pub data ObjectEntry : Type 0 where
  file : List ℕ → ObjectEntry
  not_a_file : ObjectEntry

-- The vault's directory: its manifest, its events in the order of their file names, and its
-- objects by digest; and the signer of the process that has opened it.
pub record EvidenceVault : Type 0 where
  pub vault_id : String
  pub manifest_root : String
  pub initial_public_key_hex : String
  pub events : List Event
  pub objects : Dict ObjectEntry
  pub signer : Option VaultSigner

pub record VaultState : Type 0 where
  pub tables : Tables
  pub event_count : ℕ
  pub vault_root : String
  pub journal_authority : Progress

-- `previous or self._manifest["manifest_root"]`
abbrev pub root_or : String → Option String → String
root_or manifest_root none = manifest_root
root_or manifest_root (some root) = root

-- The intents without a deletion: `state["pending_deletions"]`.
unfoldable pub pending_deletions : Tables → Dict (Rooted DeletionIntent)
pending_deletions tables = keep (λ p. not (has p.0 tables.deletions)) tables.deletion_intents

abbrev pub vault_state : EvidenceVault → Progress → Tables → VaultState
vault_state vault progress tables = record {
  tables = tables;
  event_count = length vault.events;
  vault_root = root_or vault.manifest_root progress.previous;
  journal_authority = progress;
}

abbrev pub the_signer : Error → Option VaultSigner → Result VaultSigner
the_signer raised none = err raised
the_signer raised (some signer) = ok signer

module _ (world : World) where
  unfoldable pub replay : EvidenceVault → Result VaultState
  unfolding check_events apply_all
  replay vault = do
    progress ← check_events world vault.vault_id vault.events (begin vault.initial_public_key_hex)
    tables ← apply_all world vault.events no_tables
    ok (vault_state vault progress tables)

  abbrev pub payload_of : Body → String → EvidenceVault → VaultState → Payload
  payload_of body recorded_at vault state = record {
    schema = event_schema;
    vault_id = vault.vault_id;
    sequence = suc state.event_count;
    previous_event_root = if state.event_count == 0 then none else some state.vault_root;
    recorded_at = recorded_at;
    body = body;
  }

  -- The event that the signer appends to the vault.
  abbrev pub event_of : Body → String → EvidenceVault → VaultState → VaultSigner → Event
  event_of body recorded_at vault state signer =
      let payload = payload_of body recorded_at vault state in
      let root = world.event_digest payload in
      record {
        payload = payload;
        event_root = root;
        algorithm = "ed25519";
        public_key_hex = state.journal_authority.active_public_key_hex;
        signature_hex = signer.sign root;
      }

  unfoldable pub append_event : Body → String → EvidenceVault → Result (Event × EvidenceVault)
  unfolding replay sha256 instant
  append_event body recorded_at vault = do
    signer ← the_signer (vault_error "read-only vault cannot append events") vault.signer
    recorded ← instant world recorded_at
    state ← replay vault
    require (signer.public_key_hex ≟ state.journal_authority.active_public_key_hex)
        (vault_error "vault signer does not match active journal authority")
    let event = event_of body recorded_at vault state signer
    root ← sha256 event.event_root
    ok (event, record vault { events = vault.events ++ event ∷ [] })

  -- The content is there already, or is written.
  abbrev pub stored : String → List ℕ → EvidenceVault → Option ObjectEntry → Result EvidenceVault
  stored digest content vault none =
      ok (record vault { objects = insert_new digest (file content) vault.objects })
  stored digest content vault (some not_a_file) =
      err (vault_error "content-addressed object collision or corruption")
  stored digest content vault (some (file old)) =
      if world.raw_sha256 old ≟ digest
      then ok vault
      else err (vault_error "content-addressed object collision or corruption")

  unfoldable pub put_object : List ℕ → String → EvidenceVault → Result (ObjectRef × EvidenceVault)
  unfolding media_type sha256
  put_object content media vault = do
    signer ← the_signer (vault_error "read-only vault cannot append objects") vault.signer
    checked ← media_type media
    digest ← sha256 (world.raw_sha256 content)
    after ← stored digest content vault (find digest vault.objects)
    let object_ref : ObjectRef = record {
      sha256 = digest;
      size_bytes = length content;
      media_type = media;
    }
    ok (object_ref, after)
