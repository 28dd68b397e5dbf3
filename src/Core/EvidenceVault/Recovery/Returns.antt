-- ===== src/Core/EvidenceVault/Recovery/Returns.antt =====
-- The recovery of a vault in good order returns.
use mathlib.Core.Path.{subst}
use auditspec.Prelude.{
  ℕ, String, true, false, not, ◌&&◌, some, [], ◌∷◌, every, ◌++◌, ◌≡◌, refl, sym, ◌∙◌, ap,
}
use auditspec.Prelude.Text.{≟-refl}
use auditspec.Prelude.Result.{ok, >>=-eq-ok, require-eq-ok, ok-injective}
use auditspec.Core.EvidenceVault.Records.{
  World, DeletionIntent, Tombstone, Payload, Body, Event, evidence_deleted,
}
use auditspec.Core.EvidenceVault.Checks.{is_sha256, sha256, instant}
use auditspec.Core.EvidenceVault.Chain.{Progress, counted, rotate}
use auditspec.Core.EvidenceVault.Tables.{Rooted, Tables}
use auditspec.Core.EvidenceVault.Commits.{deletion_commit_body}
use auditspec.Core.EvidenceVault.Fold.{apply}
use auditspec.Core.EvidenceVault.Replay.{
  EvidenceVault, VaultSigner, VaultState, vault_state, payload_of, replay, event_of, append_event,
}
use auditspec.Core.EvidenceVault.Replay.Steps.{IsHonest, append_event-refines}
use auditspec.Core.EvidenceVault.Retention.{is_unreferenced}
use auditspec.Core.EvidenceVault.Recovery.{unlink_if, finish_intent, finish_intents}
use auditspec.Core.EvidenceVault.Recovery.Pending.{Intents, Owed, Owed-kept}
use auditspec.Core.EvidenceVault.Commands.Recorded.{HonestSigner}
use auditspec.Core.EvidenceVault.Recovery.Finished.{
  finish_intent-OneFinished, unlink_if-SameJournal,
}
use auditspec.Core.EvidenceVault.Recovery.Objects.{is_stored, unlink_if-returns}

module _ (world : World) where
  -- The tombstone and the time of an intent are well formed, and no live reference needs an object
  -- that is to be removed.
  pub record CanFinish (snapshot : Tables) (r : Rooted DeletionIntent) : Type 0 where
    pub digest : is_sha256 r.body.object_sha256 ≡ true
    pub at : ℕ
    pub time : instant world r.body.deleted_at ≡ ok at
    pub commit : Tombstone
    pub tombstone : deletion_commit_body r ≡ ok commit
    pub free :
        (r.body.physical_delete_required
          && not (is_unreferenced snapshot r.body.object_sha256 (some r.body.evidence_id)))
        ≡ false

  abbrev pub AllCanFinish : Tables → Intents → Type 0
  AllCanFinish snapshot [] = Unit
  AllCanFinish snapshot ((k, r) ∷ d) = CanFinish snapshot r × AllCanFinish snapshot d

  -- A digest is 64 hexadecimal digits.
  abbrev pub Digests : Type 0
  Digests = (p : Payload) → is_sha256 (world.event_digest p) ≡ true

  -- A vault that replays to the state, whose signer is the active authority, and whose objects are
  -- files under their digests.
  pub record Ready (v : EvidenceVault) (s : VaultState) : Type 0 where
    pub replayed : replay world v ≡ ok s
    pub signer : VaultSigner
    pub has_signer : v.signer ≡ some signer
    pub honest : IsHonest world signer
    pub active : signer.public_key_hex ≡ s.journal_authority.active_public_key_hex
    pub stored : every is_stored v.objects ≡ true

  pub append_event-returns :
      (body : Body) (recorded_at : String) (at : ℕ) (v : EvidenceVault) (s : VaultState)
      (signer : VaultSigner)
      → Digests
      → replay world v ≡ ok s
      → v.signer ≡ some signer
      → signer.public_key_hex ≡ s.journal_authority.active_public_key_hex
      → instant world recorded_at ≡ ok at
      → let e = event_of world body recorded_at v s signer in
        append_event world body recorded_at v ≡ ok (e, record v { events = v.events ++ e ∷ [] })
  unfolding append_event sha256
  append_event-returns body recorded_at at v s signer digests r i a t =
      rw
        (
          i,
          t,
          r,
          a,
          ≟-refl s.journal_authority.active_public_key_hex,
          digests (payload_of world body recorded_at v s),
        )
        refl

  -- One round returns, and its signer is as it was.
  record RoundReturns (snapshot : Tables) (r : Rooted DeletionIntent) (v : EvidenceVault)
      : Type 0 where
    after : EvidenceVault
    returns : finish_intent world snapshot r v ≡ ok after
    signer : after.signer ≡ v.signer
    stored : every is_stored after.objects ≡ true

  finish_intent-returns :
      (snapshot : Tables) (r : Rooted DeletionIntent) (v : EvidenceVault) (s : VaultState)
      → Digests
      → Ready v s
      → CanFinish snapshot r
      → RoundReturns snapshot r v
  unfolding finish_intent sha256
  finish_intent-returns snapshot r v s digests ready c =
      let b = r.body in
      let (cleared, h, u) =
        unlink_if-returns b.physical_delete_required b.object_sha256 v ready.stored in
      let j = unlink_if-SameJournal world b.physical_delete_required b.object_sha256 v cleared h in
      let e = event_of world (evidence_deleted c.commit) b.deleted_at cleared s ready.signer in
      let a =
        append_event-returns (evidence_deleted c.commit) b.deleted_at c.at cleared s ready.signer
          digests (j.replays ∙ ready.replayed) (u.signer ∙ ready.has_signer) ready.active c.time in
      record {
        after = record cleared { events = cleared.events ++ e ∷ [] };
        returns = rw (c.digest, c.free, h, c.tombstone, a) refl;
        signer = u.signer;
        stored = u.stored;
      }

  -- An event that is no rotation leaves the journal's authority.
  pub append_event-active :
      (body : Body) (at : String) (v after : EvidenceVault) (e : Event) (s s1 : VaultState)
      (signer : VaultSigner)
      → ((p : Progress) → rotate world body e p ≡ ok (counted world e p))
      → replay world v ≡ ok s
      → v.signer ≡ some signer
      → IsHonest world signer
      → append_event world body at v ≡ ok (e, after)
      → replay world after ≡ ok s1
      → s1.journal_authority.active_public_key_hex ≡ s.journal_authority.active_public_key_hex
  append_event-active body at v after e s s1 signer r hv i honest h h1 =
      let (s0, hs, events, replays) =
        append_event-refines world body at v after e signer i honest h in
      let same : s ≡ s0 = ok-injective s s0 (sym hv ∙ hs) in
      let (q, g, k) = >>=-eq-ok (rotate world body e s0.journal_authority) _ (sym replays ∙ h1) in
      let (t, g1, k1) = >>=-eq-ok (apply world body e.event_root s0.tables) _ k in
      let active = λ (x : VaultState). x.journal_authority.active_public_key_hex in
      ap active (sym (ok-injective _ s1 k1))
      ∙ ap (λ (x : Progress). x.active_public_key_hex)
          (sym (
            ok-injective (counted world e s0.journal_authority) q
              (sym (r s0.journal_authority) ∙ g)))
      ∙ ap active (sym same)

  finish_intent-active :
      (snapshot : Tables) (r : Rooted DeletionIntent) (v after : EvidenceVault) (s s1 : VaultState)
      → Ready v s
      → finish_intent world snapshot r v ≡ ok after
      → replay world after ≡ ok s1
      → s1.journal_authority.active_public_key_hex ≡ s.journal_authority.active_public_key_hex
  unfolding finish_intent rotate
  finish_intent-active snapshot r v after s s1 ready h h1 =
      let b = r.body in
      let (digest, g1, k1) = >>=-eq-ok (sha256 b.object_sha256) _ h in
      let (g2, k2) =
        require-eq-ok
          (not (
            b.physical_delete_required
            && not (is_unreferenced snapshot digest (some b.evidence_id))))
          _ _ k1 in
      let (cleared, g3, k3) = >>=-eq-ok (unlink_if b.physical_delete_required digest v) _ k2 in
      let (commit, g4, k4) = >>=-eq-ok (deletion_commit_body r) _ k3 in
      let ((e, w), g5, k5) =
        >>=-eq-ok (append_event world (evidence_deleted commit) b.deleted_at cleared) _ k4 in
      let j = unlink_if-SameJournal world b.physical_delete_required digest v cleared g3 in
      append_event-active (evidence_deleted commit) b.deleted_at cleared w e s s1 ready.signer
        (λ p. refl) (j.replays ∙ ready.replayed) (j.signer ∙ ready.has_signer) ready.honest g5
        (ap (replay world) (ok-injective w after k5) ∙ h1)

  -- The loop returns.
  pub record LoopReturns (snapshot : Tables) (d : Intents) (v : EvidenceVault) : Type 0 where
    pub after : EvidenceVault
    pub returns : finish_intents world snapshot d v ≡ ok after
    pub stored : every is_stored after.objects ≡ true

  pub finish_intents-returns :
      (snapshot : Tables) (d : Intents) (v : EvidenceVault) (s : VaultState)
      → Digests
      → Ready v s
      → Owed s.tables d
      → AllCanFinish snapshot d
      → LoopReturns snapshot d v
  unfolding finish_intents
  finish_intents-returns snapshot [] v s digests ready o c = record {
    after = v;
    returns = refl;
    stored = ready.stored;
  }
  finish_intents-returns snapshot ((k, r) ∷ d) v s digests ready (o, n, os) (c, cs) =
      let round = finish_intent-returns snapshot r v s digests ready c in
      let one =
        finish_intent-OneFinished world snapshot r v round.after s k
          (subst (HonestSigner world) (sym ready.has_signer) ready.honest) ready.replayed o
          round.returns in
      let s1 = vault_state round.after one.made.progress one.made.tables in
      let deleted = one.deleted in
      let next : Ready round.after s1 = record {
        replayed = one.made.result;
        signer = ready.signer;
        has_signer = round.signer ∙ ready.has_signer;
        honest = ready.honest;
        active =
            ready.active
            ∙ sym (
                finish_intent-active snapshot r v round.after s s1 ready round.returns
                  one.made.result);
        stored = round.stored;
      } in
      let rest =
        finish_intents-returns snapshot d round.after s1 digests next
          (Owed-kept s.tables one.made.tables k d deleted.evidence deleted.intents deleted.others n
            os)
          cs in
      record { after = rest.after; returns = rw round.returns rest.returns; stored = rest.stored }
