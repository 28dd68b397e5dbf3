-- ===== src/Core/EvidenceVault/Commands.antt =====
-- src/auditspec/core/evidence_vault.py: the locked mutations of a vault, as commands.
pub mod Recorded
pub mod Deleted
pub mod Retired
pub mod Archived
pub mod Holding
pub mod Courses
pub mod Finishing
pub mod Crashed
pub mod Reached
pub mod Refused
use auditspec.Prelude.{ℕ, String, Option, List}
use auditspec.Prelude.Result.{Result}
use auditspec.Core.Value.{Fields}
use auditspec.Core.EvidenceVault.Records.{World, Event}
use auditspec.Core.EvidenceVault.Replay.{EvidenceVault}
use auditspec.Core.EvidenceVault.Operations.{
  locked_mutation, rotate_journal_authority, create_bundle, place_legal_hold, release_legal_hold,
}
use auditspec.Core.EvidenceVault.Archiving.{
  EvidenceInput, archive_component, append_evidence, retire_component,
}
use auditspec.Core.EvidenceVault.Deletion.{delete_evidence}

-- A method with its arguments.
pub data Command : Type 0 where
  rotate_authority : String → String → String → Command
  archive : String → String → String → List ℕ → String → Fields → String → Command
  append : EvidenceInput → List ℕ → String → String → Command
  bundle : String → List String → String → Command
  hold : String → List String → String → String → String → Command
  release : String → String → String → String → Command
  delete : String → String → String → String → Command
  retire : String → Option String → List String → List String → String → Command

module _ (world : World) where
  -- The method without the lock.
  unfoldable pub method : Command → EvidenceVault → Result (Event × EvidenceVault)
  unfolding rotate_journal_authority archive_component append_evidence create_bundle
      place_legal_hold release_legal_hold delete_evidence retire_component
  method (rotate_authority key reason at) = rotate_journal_authority world key reason at
  method (archive kind id version content media metadata at) =
      archive_component world kind id version content media metadata at
  method (append input content media at) = append_evidence world input content media at
  method (bundle id ids at) = create_bundle world id ids at
  method (hold id ids authority reason at) = place_legal_hold world id ids authority reason at
  method (release id authority reason at) = release_legal_hold world id authority reason at
  method (delete id at basis authority) = delete_evidence world id at basis authority
  method (retire ref replacement impacted unsupported at) =
      retire_component world ref replacement impacted unsupported at

  -- The public method, which holds the lock and recovers first.
  unfoldable pub run : Command → EvidenceVault → Result (Event × EvidenceVault)
  unfolding locked_mutation method
  run command vault = locked_mutation world (method command) vault
