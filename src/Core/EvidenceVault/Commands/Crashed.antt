-- ===== src/Core/EvidenceVault/Commands/Crashed.antt =====
-- A deletion that stops halfway is finished by the next recovery.
use mathlib.Core.Path.{subst}
use auditspec.Prelude.{
  ℕ, String, Bool, true, false, not, ◌&&◌, ◌||◌, some, List, [], ◌∷◌, every, keep, map, ◌≡◌, inl,
  inr, refl, sym, ◌∙◌, ap, Bool-cases,
}
use auditspec.Prelude.Order.{sort_by}
use auditspec.Prelude.Text.{text_order, ◌≟◌, ≟-refl, ≟-sym}
use auditspec.Prelude.Dict.{Dict, find, has, insert_new}
use auditspec.Prelude.Result.{ok, >>=-eq-ok, require-eq-ok, ok-injective, value_of}
use auditspec.Core.EvidenceVault.Records.{
  World, Evidence, DeletionIntent, RetentionDecision, Event, evidence_deletion_intent,
}
use auditspec.Core.EvidenceVault.Checks.{is_sha256, sha256, instant}
use auditspec.Core.EvidenceVault.Chain.{rotate}
use auditspec.Core.EvidenceVault.Tables.{Rooted, Tables, insert_once}
use auditspec.Core.EvidenceVault.Commits.{deletion_commit_body, tombstone_schema}
use auditspec.Core.EvidenceVault.Fold.{apply}
use auditspec.Core.EvidenceVault.Replay.{
  EvidenceVault, VaultState, ObjectEntry, vault_state, pending_deletions, replay, append_event,
}
use auditspec.Core.EvidenceVault.Retention.{
  is_empty, the_evidence, retention_decision, live_evidence_ids, component_refs, is_unreferenced,
}
use auditspec.Core.EvidenceVault.Recovery.Objects.{is_stored}
use auditspec.Core.EvidenceVault.Recovery.Returns.{CanFinish, Digests, Ready, append_event-active}
use auditspec.Core.EvidenceVault.Deletion.{retention_allows, is_file, intent_of, deletion_intent}
use auditspec.Core.EvidenceVault.Commands.Recorded.{
  HonestSigner, same_journal, append_event-Recorded,
}
use auditspec.Core.EvidenceVault.Commands.Deleted.{
  deletion_intent-IsOpen, deletion_intent-Deletable, intent-Accepts,
}
use auditspec.Core.EvidenceVault.Holds.{insert_once-eq-ok}
use auditspec.Core.EvidenceVault.Commands.Courses.{with_objects-SameJournal}
use auditspec.Core.EvidenceVault.Commands.Finishing.{Finishes, recovered-Finishes}

-- A new entry is kept last.
keep-insert_new :
    {A : Type 0} (test : String × A → Bool) (key : String) (value : A) (d : Dict A)
    → keep test d ≡ []
    → test (key, value) ≡ true
    → keep test (insert_new key value d) ≡ (key, value) ∷ []
keep-insert_new test key value [] h t = rw t refl
keep-insert_new test key value (p ∷ d) h t = elim (Bool-cases (test p)) [
  | inl e ↦ cc (rw e at h)
  | inr e ↦ rw e (keep-insert_new test key value d (rw e at h) t)
]

keep_ext :
    {A : Type 0} (f g : A → Bool) (xs : List A) → ((x : A) → f x ≡ g x) → keep f xs ≡ keep g xs
keep_ext f g [] h = refl
keep_ext f g (x ∷ xs) h = rw (h x, keep_ext f g xs h) refl

-- The tables with one more intent.
abbrev with_intent : Rooted DeletionIntent → Tables → Tables
with_intent r t = record t { deletion_intents = insert_new r.body.evidence_id r t.deletion_intents }

pending-with_intent :
    (r : Rooted DeletionIntent) (t : Tables)
    → has r.body.evidence_id t.deletions ≡ false
    → pending_deletions t ≡ []
    → pending_deletions (with_intent r t) ≡ (r.body.evidence_id, r) ∷ []
unfolding pending_deletions
pending-with_intent r t fresh h =
    keep-insert_new (λ p. not (has p.0 t.deletions)) r.body.evidence_id r t.deletion_intents h
      (rw fresh refl)

-- An intent takes no reference from an object but that of its own evidence.
live_evidence_ids-with_intent :
    (r : Rooted DeletionIntent) (t : Tables) (digest : String)
    → has r.body.evidence_id t.deletions ≡ false
    → pending_deletions t ≡ []
    → live_evidence_ids (with_intent r t) digest (some r.body.evidence_id)
      ≡ live_evidence_ids t digest (some r.body.evidence_id)
unfolding live_evidence_ids
live_evidence_ids-with_intent r t digest fresh h =
    let id = r.body.evidence_id in
    ap (λ xs. sort_by text_order (λ s. s) (map (λ (p : String × Rooted Evidence). p.0) xs))
      (keep_ext _ _ t.evidence λ p. elim (Bool-cases (p.0 ≟ id)) [
        | inl e ↦ rw e refl
        | inr e ↦ rw (h, pending-with_intent r t fresh h, ≟-sym id p.0 ∙ e) refl
      ])

abbrev rooted : DeletionIntent → String → Rooted DeletionIntent
rooted body root = record { body = body; event_root = root }

module _ (world : World) where
  -- The intent that the checks of `delete_evidence` let pass.
  record Made (id at : String) (t : Tables) (body : DeletionIntent) : Type 0 where
    basis : String
    authority : String
    digest : String
    decision : RetentionDecision
    time : ℕ
    body_eq :
        body
        ≡ intent_of id at digest basis authority decision
            (live_evidence_ids t digest (some id))
            (component_refs t digest)
    is_digest : is_sha256 digest ≡ true
    is_time : instant world at ≡ ok time

  sha256-eq-ok : (x : String) {d : String} → sha256 x ≡ ok d → is_sha256 d ≡ true
  unfolding sha256
  sha256-eq-ok x h = elim (Bool-cases (is_sha256 x)) [
    | inl e ↦ subst (λ z. is_sha256 z ≡ true) (ok-injective x _ (rw e at h)) e
    | inr e ↦ cc (rw e at h)
  ]

  deletion_intent-Made :
      (id at basis authority : String) (t : Tables) (v : EvidenceVault) (body : DeletionIntent)
      → deletion_intent world id at basis authority t v ≡ ok body
      → Made id at t body
  unfolding deletion_intent retention_decision
  deletion_intent-Made id at basis authority t v body h =
      let (wanted, h1, k1) = >>=-eq-ok (retention_allows basis) _ h in
      let (decision, h2, k2) = >>=-eq-ok (retention_decision world t id at) _ k1 in
      let (time, g, _) = >>=-eq-ok (instant world at) _ h2 in
      let (h3, k3) = require-eq-ok (decision.status ≟ wanted) _ _ k2 in
      let (evidence, h4, k4) = >>=-eq-ok (the_evidence (find id t.evidence)) _ k3 in
      let (digest, h5, k5) = >>=-eq-ok (sha256 evidence.object_ref.sha256) _ k4 in
      let live = live_evidence_ids t digest (some id) in
      let refs = component_refs t digest in
      let (h6, k6) =
        require-eq-ok (not (is_empty live && is_empty refs) || is_file (find digest v.objects)) _ _
          k5 in
      record {
        basis = basis;
        authority = authority;
        digest = digest;
        decision = decision;
        time = time;
        body_eq = sym (ok-injective _ body k6);
        is_digest = sha256-eq-ok evidence.object_ref.sha256 h5;
        is_time = g;
      }

  and_not : (b : Bool) → (b && not b) ≡ false
  and_not true = refl
  and_not false = refl

  Made-CanFinish :
      (id at root : String) (t : Tables) (body : DeletionIntent)
      → Made id at t body
      → has body.evidence_id t.deletions ≡ false
      → pending_deletions t ≡ []
      → CanFinish world (with_intent (rooted body root) t) (rooted body root)
  unfolding is_unreferenced component_refs deletion_commit_body tombstone_schema
  Made-CanFinish id at root t body m fresh none_pending =
      let live = live_evidence_ids t m.digest (some id) in
      let refs = component_refs t m.digest in
      let made = intent_of id at m.digest m.basis m.authority m.decision live refs in
      let r = rooted made root in
      let clear =
        subst (λ (b : DeletionIntent). has b.evidence_id t.deletions ≡ false) m.body_eq fresh in
      let (commit, e) = value_of (deletion_commit_body r) refl in
      subst (λ b. CanFinish world (with_intent (rooted b root) t) (rooted b root)) (sym m.body_eq)
        (record {
          digest = m.is_digest;
          at = m.time;
          time = m.is_time;
          commit = commit;
          tombstone = e;
          free =
              rw (live_evidence_ids-with_intent r t m.digest clear none_pending)
                (and_not (is_empty live && is_empty refs));
        })

  intent-with_intent :
      (body : DeletionIntent) (root : String) (t after : Tables)
      → apply world (evidence_deletion_intent body) root t ≡ ok after
      → after ≡ with_intent (rooted body root) t
  unfolding apply
  intent-with_intent body root t after h =
      let (c, k) =
        require-eq-ok (has body.evidence_id t.evidence && not (has body.evidence_id t.deletions)) _
          _ h in
      let (intents, e, l) =
        >>=-eq-ok (insert_once body.evidence_id (rooted body root) t.deletion_intents) _ k in
      let (fresh, new) =
        insert_once-eq-ok body.evidence_id (rooted body root) t.deletion_intents e in
      sym (ok-injective _ after l) ∙ ap (λ d. record t { deletion_intents = d }) new

  -- The process stops in `delete_evidence` after the intent is in the journal and before its commit,
  -- at a vault that had nothing pending: whatever objects are there then, as long as they are files
  -- under their digests, the vault replays, its recovery returns, nothing is pending afterwards, and
  -- the evidence is deleted.
  pub deletion_intent-Finishes :
      (v w : EvidenceVault) (s : VaultState) (i : Event) (id at basis authority : String)
      (body : DeletionIntent) (objects : Dict ObjectEntry)
      → Digests world
      → Ready world v s
      → pending_deletions s.tables ≡ []
      → deletion_intent world id at basis authority s.tables v ≡ ok body
      → append_event world (evidence_deletion_intent body) at v ≡ ok (i, w)
      → every is_stored objects ≡ true
      → let stopped = record w { objects = objects } in
        (s1 : VaultState) × (replay world stopped ≡ ok s1)
        × (f : Finishes world stopped s1) × (has id f.final.tables.deletions ≡ true)
  unfolding rotate
  deletion_intent-Finishes v w s i id at basis authority body objects digests ready idle made h
        stored =
      let honest = subst (HonestSigner world) (sym ready.has_signer) ready.honest in
      let d = deletion_intent-Deletable world id at basis authority s.tables v body made in
      let first =
        append_event-Recorded world v v w _ at i s ready.replayed (same_journal world v) honest h
          (intent-Accepts world body s d) in
      let fresh = d.opened.not_deleted in
      let r = rooted body i.event_root in
      let t = intent-with_intent body i.event_root s.tables first.tables first.applied in
      let pending = ap pending_deletions t ∙ pending-with_intent r s.tables fresh idle in
      let stopped = record w { objects = objects } in
      let s1 = vault_state w first.progress first.tables in
      let j = with_objects-SameJournal world w objects in
      let m = deletion_intent-Made id at basis authority s.tables v body made in
      let next : Ready world stopped s1 = record {
        replayed = j.replays ∙ first.result;
        signer = ready.signer;
        has_signer = first.signer ∙ ready.has_signer;
        honest = ready.honest;
        active =
            ready.active
            ∙ sym (
                append_event-active world (evidence_deletion_intent body) at v w i s s1 ready.signer
                  (λ p. refl) ready.replayed ready.has_signer ready.honest h first.result);
        stored = stored;
      } in
      let can =
        subst (λ x. CanFinish world x r) (sym t)
          (Made-CanFinish id at i.event_root s.tables body m fresh idle) in
      let f = recovered-Finishes world stopped s1 digests next (rw pending (can, tt)) in
      let (o, k, same) = deletion_intent-IsOpen world id at basis authority s.tables v body made in
      let there : has id (pending_deletions first.tables) ≡ true =
        rw (pending, same, ≟-refl body.evidence_id) refl in
      (s1, next.replayed, f, f.deleted id there)
