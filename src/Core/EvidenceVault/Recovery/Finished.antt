-- ===== src/Core/EvidenceVault/Recovery/Finished.antt =====
-- The loop of `_recover_locked` records the commit of every pending intent.
use mathlib.Core.Path.{subst}
use auditspec.Prelude.{
  String, Bool, true, false, not, ◌&&◌, Option, none, some, List, [], ◌∷◌, ◌++◌, ◌≡◌, inl, inr,
  refl, sym, ◌∙◌, ap, Bool-cases,
}
use auditspec.Prelude.Text.{◌≟◌, ≟→eq}
use auditspec.Prelude.Dict.{find, has}
use auditspec.Prelude.Dict.Laws.{has-insert_new_other, has-insert_new_kept, has-insert_new_self}
use mathlib.Core.List.{append-nil, append_assoc}
use auditspec.Prelude.Result.{Each, ok, >>=-eq-ok, require-eq-ok, ok-injective}
use auditspec.Core.EvidenceVault.Records.{World, DeletionIntent, Tombstone, Event, evidence_deleted}
use auditspec.Core.EvidenceVault.Checks.{sha256}
use auditspec.Core.EvidenceVault.Tables.{Rooted, Tables, insert_once}
use auditspec.Core.EvidenceVault.Commits.{deletion_commit_body}
use auditspec.Core.EvidenceVault.Fold.{check_commit, apply}
use auditspec.Core.EvidenceVault.Replay.{
  EvidenceVault, VaultState, ObjectEntry, file, not_a_file, vault_state, replay, append_event,
}
use auditspec.Core.EvidenceVault.Retention.{is_unreferenced}
use auditspec.Core.EvidenceVault.Recovery.{unlinked, unlink_if, finish_intent, finish_intents}
use auditspec.Core.EvidenceVault.Recovery.Pending.{Intents, IsOwed, Owed, Owed-kept}
use auditspec.Core.EvidenceVault.Holds.{insert_once-eq-ok}
use auditspec.Core.EvidenceVault.Commands.Recorded.{
  HonestSigner, Recorded, SameJournal, same_journal, Course, still, step, append_event-Recorded,
  append_event-body, append_event-events,
}
use auditspec.Core.EvidenceVault.Commands.Deleted.{commit_fields, commit-Accepts}

-- One more deletion, and nothing else.
pub record OneDeleted (t after : Tables) (key : String) : Type 0 where
  pub evidence : after.evidence ≡ t.evidence
  pub intents : after.deletion_intents ≡ t.deletion_intents
  pub others : (k : String) → (key ≟ k) ≡ false → has k after.deletions ≡ has k t.deletions
  pub itself : has key after.deletions ≡ true
  pub kept : (k : String) → has k t.deletions ≡ true → has k after.deletions ≡ true

module _ (world : World) where
  deleted-OneDeleted :
      (b : Tombstone) (root : String) (t after : Tables)
      → apply world (evidence_deleted b) root t ≡ ok after
      → OneDeleted t after b.evidence_id
  unfolding apply
  deleted-OneDeleted b root t after h =
      let (known, k) = require-eq-ok (has b.evidence_id t.evidence) _ _ h in
      let (u, v, l) = >>=-eq-ok (check_commit t.deletion_intents b b.intent_event_root) _ k in
      let (d, e, m) =
        >>=-eq-ok (insert_once b.evidence_id (record { body = b; event_root = root }) t.deletions) _
          l in
      let (fresh, new) = insert_once-eq-ok b.evidence_id _ t.deletions e in
      subst (λ (x : Tables). OneDeleted t x b.evidence_id) (ok-injective _ after m)
        (record {
          evidence = refl;
          intents = refl;
          others = λ k c. ap (has k) new ∙ has-insert_new_other b.evidence_id k _ t.deletions c;
          itself = ap (has b.evidence_id) new ∙ has-insert_new_self b.evidence_id _ t.deletions;
          kept = λ k c. ap (has k) new ∙ has-insert_new_kept b.evidence_id k _ t.deletions c;
        })

  unlinked-SameJournal :
      (digest : String) (v after : EvidenceVault) (o : Option ObjectEntry)
      → unlinked digest v o ≡ ok after
      → SameJournal world v after
  unfolding replay
  unlinked-SameJournal digest v after none h =
      subst (SameJournal world v) (ok-injective v after h) (same_journal world v)
  unlinked-SameJournal digest v after (some (file c)) h =
      subst (SameJournal world v) (ok-injective _ after h)
        (record { replays = refl; signer = refl })
  unlinked-SameJournal digest v after (some not_a_file) h = cc

  pub unlink_if-SameJournal :
      (b : Bool) (digest : String) (v after : EvidenceVault)
      → unlink_if b digest v ≡ ok after
      → SameJournal world v after
  unfolding unlink_if
  unlink_if-SameJournal false digest v after h =
      subst (SameJournal world v) (ok-injective v after h) (same_journal world v)
  unlink_if-SameJournal true digest v after h =
      unlinked-SameJournal digest v after (find digest v.objects) h

  unlinked-events :
      (digest : String) (v after : EvidenceVault) (o : Option ObjectEntry)
      → unlinked digest v o ≡ ok after
      → after.events ≡ v.events
  unlinked-events digest v after none h =
      ap (λ (x : EvidenceVault). x.events) (sym (ok-injective v after h))
  unlinked-events digest v after (some (file c)) h =
      ap (λ (x : EvidenceVault). x.events) (sym (ok-injective _ after h))
  unlinked-events digest v after (some not_a_file) h = cc

  unlink_if-events :
      (b : Bool) (digest : String) (v after : EvidenceVault)
      → unlink_if b digest v ≡ ok after
      → after.events ≡ v.events
  unfolding unlink_if
  unlink_if-events false digest v after h =
      ap (λ (x : EvidenceVault). x.events) (sym (ok-injective v after h))
  unlink_if-events true digest v after h = unlinked-events digest v after (find digest v.objects) h

  -- The vault after one commit.
  pub record OneFinished (v after : EvidenceVault) (s : VaultState) (key : String)
      (intent : Rooted DeletionIntent) : Type 0 where
    pub event : Event
    pub commit : Tombstone
    pub is_commit : deletion_commit_body intent ≡ ok commit
    pub event_body : event.payload.body ≡ evidence_deleted commit
    pub events : after.events ≡ v.events ++ event ∷ []
    pub made : Recorded world v after (evidence_deleted commit) event.event_root s
    pub deleted : OneDeleted s.tables made.tables key

  pub finish_intent-OneFinished :
      (snapshot : Tables) (intent : Rooted DeletionIntent) (v after : EvidenceVault)
      (s : VaultState) (k : String)
      → HonestSigner world v.signer
      → replay world v ≡ ok s
      → IsOwed s.tables k intent
      → finish_intent world snapshot intent v ≡ ok after
      → OneFinished v after s k intent
  unfolding finish_intent
  finish_intent-OneFinished snapshot intent v after s k honest hs o h =
      let b = intent.body in
      let (digest, h1, k1) = >>=-eq-ok (sha256 b.object_sha256) _ h in
      let (h2, k2) =
        require-eq-ok
          (not (
            b.physical_delete_required
            && not (is_unreferenced snapshot digest (some b.evidence_id))))
          _ _ k1 in
      let (cleared, h3, k3) = >>=-eq-ok (unlink_if b.physical_delete_required digest v) _ k2 in
      let (commit, h4, k4) = >>=-eq-ok (deletion_commit_body intent) _ k3 in
      let ((e, w), h5, k5) =
        >>=-eq-ok (append_event world (evidence_deleted commit) b.deleted_at cleared) _ k4 in
      let j = unlink_if-SameJournal b.physical_delete_required digest v cleared h3 in
      let id = sym o.keyed in
      let acc =
        commit-Accepts world intent commit s h4
          (subst (λ x. has x s.tables.evidence ≡ true) id o.known)
          (subst (λ x. find x s.tables.deletion_intents ≡ some intent) id o.found)
          (subst (λ x. has x s.tables.deletions ≡ false) id o.not_deleted) in
      let made = append_event-Recorded world v cleared w _ b.deleted_at e s hs j honest h5 acc in
      let key : commit.evidence_id ≡ k = (commit_fields intent commit h4).0 ∙ o.keyed in
      subst (λ x. OneFinished v x s k intent) (ok-injective w after k5)
        (record {
          event = e;
          commit = commit;
          is_commit = h4;
          event_body =
              append_event-body world (evidence_deleted commit) b.deleted_at cleared e w h5;
          events =
              append_event-events world (evidence_deleted commit) b.deleted_at cleared e w h5
              ∙ ap (λ es. es ++ e ∷ [])
                  (unlink_if-events b.physical_delete_required digest v cleared h3);
          made = made;
          deleted =
              subst (OneDeleted s.tables made.tables) key
                (deleted-OneDeleted commit e.event_root s.tables made.tables made.applied);
        })

  -- The event records the commit of the intent.
  abbrev pub IsCommitOf : String × Rooted DeletionIntent → Event → Type 0
  IsCommitOf (key, intent) event =
      (commit : Tombstone) × (deletion_commit_body intent ≡ ok commit)
      × (event.payload.body ≡ evidence_deleted commit)

  -- The vault after the commits of all owed deletions.
  pub record AllFinished (v after : EvidenceVault) (s : VaultState) (d : Intents) : Type 0 where
    pub course : Course world v after
    pub added : List Event
    pub commits : Each IsCommitOf d added
    pub events : after.events ≡ v.events ++ added
    pub final : VaultState
    pub replayed : replay world after ≡ ok final
    pub signer : after.signer ≡ v.signer
    pub intents : final.tables.deletion_intents ≡ s.tables.deletion_intents
    pub deleted : (k : String) → has k d ≡ true → has k final.tables.deletions ≡ true
    pub kept : (k : String) → has k s.tables.deletions ≡ true → has k final.tables.deletions ≡ true

  pub finish_intents-AllFinished :
      (snapshot : Tables) (d : Intents) (v after : EvidenceVault) (s : VaultState)
      → HonestSigner world v.signer
      → replay world v ≡ ok s
      → Owed s.tables d
      → finish_intents world snapshot d v ≡ ok after
      → AllFinished v after s d
  unfolding finish_intents
  finish_intents-AllFinished snapshot [] v after s honest hs o h =
      subst (λ x. AllFinished v x s []) (ok-injective v after h)
        (record {
          course = still v v (same_journal world v);
          added = [];
          commits = tt;
          events = sym (append-nil v.events);
          final = s;
          replayed = hs;
          signer = refl;
          intents = refl;
          deleted = λ k i. cc;
          kept = λ k i. i;
        })
  finish_intents-AllFinished snapshot ((k, r) ∷ d) v after s honest hs (o, n, os) h =
      let (mid, h1, k1) = >>=-eq-ok (finish_intent world snapshot r v) _ h in
      let one = finish_intent-OneFinished snapshot r v mid s k honest hs o h1 in
      let one_deleted = one.deleted in
      let s1 = vault_state mid one.made.progress one.made.tables in
      let rest =
        finish_intents-AllFinished snapshot d mid after s1
          (subst (HonestSigner world) (sym one.made.signer) honest) one.made.result
          (Owed-kept s.tables one.made.tables k d one_deleted.evidence one_deleted.intents
            one_deleted.others n os)
          k1 in
      record {
        course = step v mid after _ one.event.event_root s one.made rest.course;
        added = one.event ∷ rest.added;
        commits = ((one.commit, one.is_commit, one.event_body), rest.commits);
        events =
            rest.events
            ∙ ap (λ es. es ++ rest.added) one.events
            ∙ append_assoc v.events (one.event ∷ []) rest.added;
        final = rest.final;
        replayed = rest.replayed;
        signer = rest.signer ∙ one.made.signer;
        intents = rest.intents ∙ one_deleted.intents;
        deleted = λ j i. elim (Bool-cases (k ≟ j)) [
          | inl c ↦
              subst (λ x. has x rest.final.tables.deletions ≡ true) (≟→eq k j c)
                (rest.kept k one_deleted.itself)
          | inr c ↦ rest.deleted j (rw c at i)
        ];
        kept = λ j i. rest.kept j (one_deleted.kept j i);
      }
