-- ===== src/Core/EvidenceVault/Commands/Courses.antt =====
-- Every command that returns has recorded its events.
use mathlib.Core.Path.{subst}
use auditspec.Prelude.{
  true, Option, none, some, List, [], ◌++◌, ◌≡◌, inl, inr, refl, sym, ◌∙◌, ap, every,
}
use auditspec.Prelude.Dict.{Dict, has}
use auditspec.Prelude.Result.{Each, ok, >>=-eq-ok, ok-injective}
use auditspec.Core.EvidenceVault.Records.{World, Event}
use auditspec.Core.EvidenceVault.Checks.{is_identifier}
use auditspec.Core.EvidenceVault.Tables.{no_tables}
use auditspec.Core.EvidenceVault.Fold.Keyed.{WellKeyed, apply_all-WellKeyed, no_tables-WellKeyed}
use auditspec.Core.EvidenceVault.Replay.{
  EvidenceVault, VaultState, VaultSigner, ObjectEntry, the_signer, pending_deletions, replay,
}
use auditspec.Core.EvidenceVault.Replay.Steps.{replay-Replayed}
use auditspec.Core.EvidenceVault.Recovery.{
  sweep, finish_intents, recovered, recover_with, recover_locked,
}
use auditspec.Core.EvidenceVault.Recovery.Pending.{
  pending_deletions-Owed, pending_deletions-nil, has-pending_or,
}
use auditspec.Core.EvidenceVault.Recovery.Finished.{IsCommitOf, finish_intents-AllFinished}
use auditspec.Core.EvidenceVault.Operations.{locked_mutation}
use auditspec.Core.EvidenceVault.Commands.{
  Command, rotate_authority, archive, append, bundle, hold, release, delete, retire, method, run,
}
use auditspec.Core.EvidenceVault.Commands.Recorded.{
  HonestSigner, SameJournal, Course, still, Course-trans, Course-signer,
}
use auditspec.Core.EvidenceVault.Commands.Holding.{
  place_legal_hold-Course, create_bundle-Course, release_legal_hold-Course,
  rotate_journal_authority-Course,
}
use auditspec.Core.EvidenceVault.Commands.Archived.{
  archive_component-Course, append_evidence-Course,
}
use auditspec.Core.EvidenceVault.Commands.Retired.{retire_component-Course}
use auditspec.Core.EvidenceVault.Commands.Deleted.{delete_evidence-Course}

-- The claim ids of a retirement are identifiers.
abbrev pub HasIdentifiers : Command → Type 0
HasIdentifiers (retire ref replacement impacted unsupported at) =
    (every is_identifier impacted ≡ true) × (every is_identifier unsupported ≡ true)
HasIdentifiers (rotate_authority key reason at) = Unit
HasIdentifiers (archive kind id version content media metadata at) = Unit
HasIdentifiers (append input content media at) = Unit
HasIdentifiers (bundle id ids at) = Unit
HasIdentifiers (hold id ids authority reason at) = Unit
HasIdentifiers (release id authority reason at) = Unit
HasIdentifiers (delete id at basis authority) = Unit

module _ (world : World) where
  -- The journal of a vault that has been recovered is the one before and a commit of each intent that
  -- was pending, in order; its replay owes no deletion.
  pub record IsRecovered (v after : EvidenceVault) : Type 0 where
    pub before : VaultState
    pub was : replay world v ≡ ok before
    pub added : List Event
    pub commits : Each (IsCommitOf world) (pending_deletions before.tables) added
    pub events : after.events ≡ v.events ++ added
    pub course : Course world v after
    pub final : VaultState
    pub replayed : replay world after ≡ ok final
    pub finished : pending_deletions final.tables ≡ []

  pub replay-WellKeyed :
      (v : EvidenceVault) (s : VaultState) → replay world v ≡ ok s → WellKeyed s.tables
  replay-WellKeyed v s h =
      let r = replay-Replayed world v s h in
      apply_all-WellKeyed world v.events no_tables s.tables r.fold no_tables-WellKeyed

  pub with_objects-SameJournal :
      (v : EvidenceVault) (objects : Dict ObjectEntry)
      → SameJournal world v (record v { objects = objects })
  unfolding replay
  with_objects-SameJournal v objects = record { replays = refl; signer = refl }

  -- The recovery that a mutation begins with, for a signer whose signatures verify: when it returns,
  -- its journal is the one before followed by exactly one event for each intent that the replay before
  -- has pending, in their order, each with the commit of its intent as body; the vault is reached by
  -- recorded events, and its replay has no pending deletion.
  pub recovered-IsRecovered :
      (v after : EvidenceVault)
      → HonestSigner world v.signer
      → recovered world v ≡ ok after
      → IsRecovered v after
  unfolding recovered
  recovered-IsRecovered v after honest h =
      let (s, hs, k1) = >>=-eq-ok (replay world v) _ h in
      let t = s.tables in
      let (done, h2, k2) = >>=-eq-ok (finish_intents world t (pending_deletions t) v) _ k1 in
      let all =
        finish_intents-AllFinished world t (pending_deletions t) v done s honest hs
          (pending_deletions-Owed t (replay-WellKeyed v s hs)) h2 in
      let (final, h3, k3) = >>=-eq-ok (replay world done) _ k2 in
      let (objects, h4, k4) = >>=-eq-ok (sweep final.tables done.objects) _ k3 in
      let j = with_objects-SameJournal done objects in
      let swept = record done { objects = objects } in
      subst (IsRecovered v) (ok-injective swept after k4) (record {
        before = s;
        was = hs;
        added = all.added;
        commits = all.commits;
        events = all.events;
        course = Course-trans world v done swept all.course (still done swept j);
        final = all.final;
        replayed = j.replays ∙ all.replayed;
        finished = pending_deletions-nil all.final.tables λ k i.
            elim (has-pending_or t k (sym (ap (has k) all.intents) ∙ i)) [
              | inl d ↦ all.kept k d
              | inr p ↦ all.deleted k p
            ];
      })

  pub method-Course :
      (c : Command) (v after : EvidenceVault) (e : Event)
      → HonestSigner world v.signer
      → HasIdentifiers c
      → method world c v ≡ ok (e, after)
      → Course world v after
  unfolding method
  method-Course (rotate_authority key reason at) v after e honest i h =
      rotate_journal_authority-Course world v after e honest key reason at h
  method-Course (archive kind id version content media metadata at) v after e honest i h =
      archive_component-Course world v after e honest kind id version content media metadata at h
  method-Course (append input content media at) v after e honest i h =
      append_evidence-Course world v after e honest input content media at h
  method-Course (bundle id ids at) v after e honest i h =
      create_bundle-Course world v after e honest id ids at h
  method-Course (hold id ids authority reason at) v after e honest i h =
      place_legal_hold-Course world v after e honest id ids authority reason at h
  method-Course (release id authority reason at) v after e honest i h =
      release_legal_hold-Course world v after e honest id authority reason at h
  method-Course (delete id at basis authority) v after e honest i h =
      delete_evidence-Course world v after e honest id at basis authority h
  method-Course (retire ref replacement impacted unsupported at) v after e honest (i, u) h =
      retire_component-Course world v after e honest ref replacement impacted unsupported at i u h

  recover_with-Course :
      (v after : EvidenceVault) (o : Option VaultSigner)
      → HonestSigner world v.signer
      → recover_with world v o ≡ ok after
      → Course world v after
  recover_with-Course v after none honest h =
      subst (Course world v) (ok-injective v after h)
        (still v v (record { replays = refl; signer = refl }))
  recover_with-Course v after (some signer) honest h =
      let r = recovered-IsRecovered v after honest h in r.course

  pub recover_locked-Course :
      (v after : EvidenceVault)
      → HonestSigner world v.signer
      → recover_locked world v ≡ ok after
      → Course world v after
  unfolding recover_locked
  recover_locked-Course v after honest h = recover_with-Course v after v.signer honest h

  pub run-Course :
      (c : Command) (v after : EvidenceVault) (e : Event)
      → HonestSigner world v.signer
      → HasIdentifiers c
      → run world c v ≡ ok (e, after)
      → Course world v after
  unfolding run locked_mutation
  run-Course c v after e honest i h =
      let (signer, h1, k1) = >>=-eq-ok (the_signer _ v.signer) _ h in
      let (mid, h2, k2) = >>=-eq-ok (recover_locked world v) _ k1 in
      let first = recover_locked-Course v mid honest h2 in
      Course-trans world v mid after first (
        method-Course c mid after e
          (subst (HonestSigner world) (sym (Course-signer world v mid first)) honest) i k2)
