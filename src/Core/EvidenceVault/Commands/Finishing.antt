-- ===== src/Core/EvidenceVault/Commands/Finishing.antt =====
-- The recovery of a vault in good order returns, and finishes what is pending.
use mathlib.Core.Path.{subst}
use auditspec.Prelude.{String, true, [], ◌≡◌, refl, sym, ◌∙◌, ap}
use auditspec.Prelude.Dict.{has}
use auditspec.Prelude.Result.{ok, ok-injective}
use auditspec.Core.EvidenceVault.Records.{World}
use auditspec.Core.EvidenceVault.Replay.{EvidenceVault, VaultState, pending_deletions, replay}
use auditspec.Core.EvidenceVault.Recovery.{recovered}
use auditspec.Core.EvidenceVault.Recovery.Pending.{pending_deletions-Owed}
use auditspec.Core.EvidenceVault.Recovery.Finished.{finish_intents-AllFinished}
use auditspec.Core.EvidenceVault.Recovery.Objects.{sweep-returns}
use auditspec.Core.EvidenceVault.Recovery.Returns.{
  AllCanFinish, Digests, Ready, finish_intents-returns,
}
use auditspec.Core.EvidenceVault.Commands.Recorded.{HonestSigner}
use auditspec.Core.EvidenceVault.Commands.Courses.{
  recovered-IsRecovered, replay-WellKeyed, with_objects-SameJournal,
}

module _ (world : World) where
  -- What a recovery did that returned, from a vault that replays to the state.
  pub record Finishes (v : EvidenceVault) (s : VaultState) : Type 0 where
    pub after : EvidenceVault
    pub returns : recovered world v ≡ ok after
    pub final : VaultState
    pub replayed : replay world after ≡ ok final
    pub nothing_pending : pending_deletions final.tables ≡ []
    pub deleted :
        (id : String)
        → has id (pending_deletions s.tables) ≡ true
        → has id final.tables.deletions ≡ true

  -- The recovery of a vault whose signer is the active authority, whose objects are files under their
  -- digests and whose pending intents can all be finished returns; nothing is pending then, and all
  -- that was is deleted.
  pub recovered-Finishes :
      (v : EvidenceVault) (s : VaultState)
      → Digests world
      → Ready world v s
      → AllCanFinish world s.tables (pending_deletions s.tables)
      → Finishes v s
  unfolding recovered
  recovered-Finishes v s digests ready c =
      let d = pending_deletions s.tables in
      let owed = pending_deletions-Owed s.tables (replay-WellKeyed world v s ready.replayed) in
      let honest = subst (HonestSigner world) (sym ready.has_signer) ready.honest in
      let loop = finish_intents-returns world s.tables d v s digests ready owed c in
      let all =
        finish_intents-AllFinished world s.tables d v loop.after s honest ready.replayed owed
          loop.returns in
      let (objects, h) = sweep-returns all.final.tables loop.after.objects loop.stored in
      let after = record loop.after { objects = objects } in
      let returns : recovered world v ≡ ok after =
        rw (ready.replayed, loop.returns, all.replayed, h) refl in
      let is = recovered-IsRecovered world v after honest returns in
      let j = with_objects-SameJournal world loop.after objects in
      let same : all.final ≡ is.final =
        ok-injective all.final is.final (sym all.replayed ∙ sym j.replays ∙ is.replayed) in
      record {
        after = after;
        returns = returns;
        final = is.final;
        replayed = is.replayed;
        nothing_pending = is.finished;
        deleted = λ id i.
            ap (λ (x : VaultState). has id x.tables.deletions) (sym same) ∙ all.deleted id i;
      }
