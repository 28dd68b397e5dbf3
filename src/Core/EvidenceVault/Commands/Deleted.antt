-- ===== src/Core/EvidenceVault/Commands/Deleted.antt =====
-- A deletion is two recorded events, the intent and its commit.
use mathlib.Core.Path.{subst}
use auditspec.Prelude.{
  String, Bool, true, false, not, ◌&&◌, ◌||◌, Option, some, ◌≡◌, inl, inr, refl, sym, ◌∙◌, ap,
  Bool-cases,
}
use auditspec.Prelude.Text.{◌≟◌, ≟-refl, ≟→eq}
use auditspec.Prelude.Dict.{Dict, find, has, has-find, insert_new, find-insert_new}
use auditspec.Prelude.Result.{ok, >>=-eq-ok, require-eq-ok, ok-injective}
use auditspec.Core.EvidenceVault.Records.{
  World, DeletionIntent, Tombstone, Event, evidence_deletion_intent, evidence_deleted,
}
use auditspec.Core.EvidenceVault.Checks.{vault_identifier, sha256, instant}
use auditspec.Core.EvidenceVault.Chain.{rotate}
use auditspec.Core.EvidenceVault.Tables.{Rooted, Tables, insert_once}
use auditspec.Core.EvidenceVault.Commits.{deletion_commit_body, tombstone_schema}
use auditspec.Core.EvidenceVault.Commits.Laws.{same_tombstone_refl}
use auditspec.Core.EvidenceVault.Fold.{matches_intent, check_commit, apply}
use auditspec.Core.EvidenceVault.Replay.{
  EvidenceVault, VaultState, vault_state, replay, append_event,
}
use auditspec.Core.EvidenceVault.Retention.{
  is_empty, the_evidence, retention_decision, live_evidence_ids, component_refs,
}
use auditspec.Core.EvidenceVault.Retention.Laws.{IsOpen, may_delete, retention_decision-IsOpen}
use auditspec.Core.EvidenceVault.Holds.{has-pending, insert_once-eq-ok}
use auditspec.Core.EvidenceVault.Deletion.{
  retention_allows, is_file, without_object, deletion_intent, delete_evidence,
}
use auditspec.Core.EvidenceVault.Commands.Recorded.{
  HonestSigner, Accepts, SameJournal, same_journal, Course, still, step, insert_once-new,
  append_event-Recorded,
}

-- A basis allows only a status that lets evidence be deleted.
retention_allows-may_delete :
    (basis : String) {wanted : String}
    → retention_allows basis ≡ ok wanted
    → may_delete wanted ≡ true
unfolding retention_allows
retention_allows-may_delete basis {wanted} h = elim (Bool-cases (basis ≟ "policy_deadline")) [
  | inl a ↦ ap may_delete (sym (ok-injective "DELETION_REQUIRED" wanted (rw a at h)))
  | inr a ↦ elim (Bool-cases (basis ≟ "permitted_disposal")) [
    | inl b ↦ ap may_delete (sym (ok-injective "DELETION_ELIGIBLE" wanted (rw (a, b) at h)))
    | inr b ↦ cc (rw (a, b) at h)
  ]
]

-- Evidence whose deletion may begin.
pub record Deletable (t : Tables) (body : DeletionIntent) : Type 0 where
  pub known : has body.evidence_id t.evidence ≡ true
  pub opened : IsOpen t body.evidence_id

pub commit_fields :
    (intent : Rooted DeletionIntent) (commit : Tombstone)
    → deletion_commit_body intent ≡ ok commit
    → (commit.evidence_id ≡ intent.body.evidence_id)
      × (commit.intent_event_root ≡ some intent.event_root)
unfolding deletion_commit_body
commit_fields intent commit h =
    let (schema, h1, k1) = >>=-eq-ok (tombstone_schema intent.body) _ h in
    let e = ok-injective _ commit k1 in
    (
      ap (λ (x : Tombstone). x.evidence_id) (sym e),
      ap (λ (x : Tombstone). x.intent_event_root) (sym e),
    )

module _ (world : World) where
  -- The operation deletes only what is open, and says so of that evidence.
  pub deletion_intent-IsOpen :
      (id at basis authority : String) (t : Tables) (v : EvidenceVault) (body : DeletionIntent)
      → deletion_intent world id at basis authority t v ≡ ok body
      → IsOpen t id × (has id t.evidence ≡ true) × (id ≡ body.evidence_id)
  unfolding deletion_intent
  deletion_intent-IsOpen id at basis authority t v body h =
      let (wanted, h1, k1) = >>=-eq-ok (retention_allows basis) _ h in
      let (decision, h2, k2) = >>=-eq-ok (retention_decision world t id at) _ k1 in
      let (h3, k3) = require-eq-ok (decision.status ≟ wanted) _ _ k2 in
      let (evidence, h4, k4) = >>=-eq-ok (the_evidence (find id t.evidence)) _ k3 in
      let (digest, h5, k5) = >>=-eq-ok (sha256 evidence.object_ref.sha256) _ k4 in
      let live = live_evidence_ids t digest (some id) in
      let refs = component_refs t digest in
      let (h6, k6) =
        require-eq-ok (not (is_empty live && is_empty refs) || is_file (find digest v.objects)) _ _
          k5 in
      let (opened, known) =
        retention_decision-IsOpen world t id at h2
          (ap may_delete (≟→eq decision.status wanted h3) ∙ retention_allows-may_delete basis h1) in
      (opened, known, ap (λ (x : DeletionIntent). x.evidence_id) (ok-injective _ body k6))

  pub deletion_intent-Deletable :
      (id at basis authority : String) (t : Tables) (v : EvidenceVault) (body : DeletionIntent)
      → deletion_intent world id at basis authority t v ≡ ok body
      → Deletable t body
  deletion_intent-Deletable id at basis authority t v body h =
      let (opened, known, e) = deletion_intent-IsOpen id at basis authority t v body h in
      record {
        known = subst (λ s. has s t.evidence ≡ true) e known;
        opened = subst (IsOpen t) e opened;
      }

  pub intent-Accepts :
      (body : DeletionIntent) (s : VaultState)
      → Deletable s.tables body
      → Accepts world (evidence_deletion_intent body) s
  unfolding rotate apply
  intent-Accepts body s d =
      let fresh : has body.evidence_id s.tables.deletion_intents ≡ false =
        elim (Bool-cases (has body.evidence_id s.tables.deletion_intents)) [
          | inl i ↦
              let p = has-pending s.tables body.evidence_id i d.opened.not_deleted in
              let q = d.opened.not_pending in cc
          | inr i ↦ i
        ] in
      record {
        permitted = d.opened.not_held;
        rotated = λ event. (_, refl);
        applied = λ root. (
          record s.tables {
            deletion_intents =
                insert_new body.evidence_id (record { body = body; event_root = root })
                  s.tables.deletion_intents;
          },
          rw
              (
                d.known,
                d.opened.not_deleted,
                insert_once-new body.evidence_id (record { body = body; event_root = root })
                    s.tables.deletion_intents fresh,
              )
              refl,
        );
      }

  matches_intent-commit :
      (intent : Rooted DeletionIntent) (commit : Tombstone) (o : Option (Rooted DeletionIntent))
      → deletion_commit_body intent ≡ ok commit
      → o ≡ some intent
      → matches_intent commit intent.event_root o ≡ ok true
  unfolding matches_intent
  matches_intent-commit intent commit o h e =
      rw (e, ≟-refl intent.event_root, h, same_tombstone_refl commit) refl

  -- The commit agrees with the intent that it finishes.
  check_commit-commit :
      (intent : Rooted DeletionIntent) (commit : Tombstone) (intents : Dict (Rooted DeletionIntent))
      → deletion_commit_body intent ≡ ok commit
      → find commit.evidence_id intents ≡ some intent
      → check_commit intents commit commit.intent_event_root ≡ ok tt
  unfolding check_commit
  check_commit-commit intent commit intents h i =
      let (id, root) = commit_fields intent commit h in
      subst (λ o. check_commit intents commit o ≡ ok tt) (sym root)
        (rw (matches_intent-commit intent commit (find commit.evidence_id intents) h i) refl)

  -- The tombstone of a recorded intent is accepted.
  pub commit-Accepts :
      (intent : Rooted DeletionIntent) (commit : Tombstone) (s : VaultState)
      → deletion_commit_body intent ≡ ok commit
      → has intent.body.evidence_id s.tables.evidence ≡ true
      → find intent.body.evidence_id s.tables.deletion_intents ≡ some intent
      → has intent.body.evidence_id s.tables.deletions ≡ false
      → Accepts world (evidence_deleted commit) s
  unfolding rotate apply
  commit-Accepts intent commit s h known i fresh =
      let id = sym (commit_fields intent commit h).0 in
      let there = subst (λ k. find k s.tables.deletion_intents ≡ some intent) id i in
      record {
        permitted = has-find commit.evidence_id s.tables.deletion_intents there;
        rotated = λ event. (_, refl);
        applied = λ r. (
          record s.tables {
            deletions =
                insert_new commit.evidence_id (record { body = commit; event_root = r })
                  s.tables.deletions;
          },
          rw
              (
                subst (λ k. has k s.tables.evidence ≡ true) id known,
                check_commit-commit intent commit s.tables.deletion_intents h there,
                insert_once-new commit.evidence_id (record { body = commit; event_root = r })
                    s.tables.deletions (subst (λ k. has k s.tables.deletions ≡ false) id fresh),
              )
              refl,
        );
      }

  intent-tables :
      (body : DeletionIntent) (root : String) (t after : Tables)
      → apply world (evidence_deletion_intent body) root t ≡ ok after
      → Deletable t body
      → (has body.evidence_id after.evidence ≡ true)
        × (find body.evidence_id after.deletion_intents
            ≡ some (record { body = body; event_root = root }))
        × (has body.evidence_id after.deletions ≡ false)
  unfolding apply
  intent-tables body root t after h d =
      let (c, k) =
        require-eq-ok (has body.evidence_id t.evidence && not (has body.evidence_id t.deletions)) _
          _ h in
      let (intents, e, l) =
        >>=-eq-ok
          (insert_once body.evidence_id (record { body = body; event_root = root })
            t.deletion_intents)
          _ k in
      let (fresh, new) = insert_once-eq-ok body.evidence_id _ t.deletion_intents e in
      let same = ok-injective _ after l in
      (
        ap (λ (x : Tables). has body.evidence_id x.evidence) (sym same) ∙ d.known,
        ap (λ (x : Tables). find body.evidence_id x.deletion_intents) (sym same)
            ∙ ap (find body.evidence_id) new
            ∙ find-insert_new body.evidence_id _ t.deletion_intents fresh,
        ap (λ (x : Tables). has body.evidence_id x.deletions) (sym same) ∙ d.opened.not_deleted,
      )

  without_object-SameJournal :
      (b : Bool) (digest : String) (v : EvidenceVault)
      → SameJournal world v (without_object b digest v)
  unfolding replay
  without_object-SameJournal true digest v = record { replays = refl; signer = refl }
  without_object-SameJournal false digest v = same_journal world v

module _ (world : World) (v after : EvidenceVault) (e : Event)
    (honest : HonestSigner world v.signer) where
  pub delete_evidence-Course :
      (id at basis authority : String)
      → delete_evidence world id at basis authority v ≡ ok (e, after)
      → Course world v after
  unfolding delete_evidence
  delete_evidence-Course id at basis authority h =
      let (c1, h1, k1) = >>=-eq-ok (instant world at) _ h in
      let (c2, h2, k2) = >>=-eq-ok (vault_identifier authority) _ k1 in
      let (c3, h3, k3) = >>=-eq-ok (retention_allows basis) _ k2 in
      let (s, hs, k4) = >>=-eq-ok (replay world v) _ k3 in
      let (body, h5, k5) =
        >>=-eq-ok (deletion_intent world id at basis authority s.tables v) _ k4 in
      let ((i, mid), h6, k6) =
        >>=-eq-ok (append_event world (evidence_deletion_intent body) at v) _ k5 in
      let intent : Rooted DeletionIntent = record { body = body; event_root = i.event_root } in
      let (commit, h7, k7) = >>=-eq-ok (deletion_commit_body intent) _ k6 in
      let d = deletion_intent-Deletable world id at basis authority s.tables v body h5 in
      let first =
        append_event-Recorded world v v mid _ at i s hs (same_journal world v) honest h6
          (intent-Accepts world body s d) in
      let (known, found, fresh) =
        intent-tables world body i.event_root s.tables first.tables first.applied d in
      let cleared = without_object body.physical_delete_required body.object_sha256 mid in
      let j =
        without_object-SameJournal world body.physical_delete_required body.object_sha256 mid in
      let second =
        append_event-Recorded world mid cleared after _ at e
          (vault_state mid first.progress first.tables) first.result j
          (subst (HonestSigner world) (sym first.signer) honest) k7
          (commit-Accepts world intent commit _ h7 known found fresh) in
      step v mid after _ i.event_root s first (
        step mid after after _ e.event_root _ second (still after after (same_journal world after)))
