-- ===== src/Core/EvidenceVault/Commands/Archived.antt =====
-- Archived components and evidence, and retirements, are recorded.
use mathlib.Core.Path.{subst}
use auditspec.Prelude.{
  not-eq-true, ℕ, String, not, Option, none, some, List, ◌≡◌, refl, ap, Bool-cases, inl, inr,
}
use auditspec.Prelude.Text.{◌≟◌, contains}
use auditspec.Prelude.Dict.{find, has}
use auditspec.Prelude.Result.{ok, >>=-eq-ok, require-eq-ok, ok-injective}
use auditspec.Core.Value.{Fields, obj}
use auditspec.Core.Canonical.{canonical_json}
use auditspec.Core.EvidenceVault.Records.{World, ObjectRef, Event}
use auditspec.Core.EvidenceVault.Checks.{vault_identifier, sha256, media_type, instant}
use auditspec.Core.EvidenceVault.Chain.{rotate}
use auditspec.Core.EvidenceVault.Fold.{apply}
use auditspec.Core.EvidenceVault.Replay.{
  EvidenceVault, ObjectEntry, file, not_a_file, the_signer, stored, replay, put_object,
}
use auditspec.Core.EvidenceVault.Retention.{is_empty}
use auditspec.Core.EvidenceVault.Archiving.{
  EvidenceInput, component_kinds, component_ref_of, check_references, check_interval,
  archive_component, append_evidence,
}
use auditspec.Core.EvidenceVault.Commands.Recorded.{
  HonestSigner, SameJournal, same_journal, Course, inserted, append_event-Course,
}

module _ (world : World) where
  stored-SameJournal :
      (digest : String) (content : List ℕ) (v w : EvidenceVault) (o : Option ObjectEntry)
      → stored world digest content v o ≡ ok w
      → SameJournal world v w
  unfolding replay
  stored-SameJournal digest content v w none h =
      subst (SameJournal world v) (ok-injective _ w h) (record { replays = refl; signer = refl })
  stored-SameJournal digest content v w (some not_a_file) h = cc
  stored-SameJournal digest content v w (some (file old)) h =
      elim (Bool-cases (world.raw_sha256 old ≟ digest)) [
        | inl e ↦ subst (SameJournal world v) (ok-injective v w (rw e at h)) (same_journal world v)
        | inr e ↦ cc (rw e at h)
      ]

  put_object-SameJournal :
      (content : List ℕ) (media : String) (v w : EvidenceVault) (r : ObjectRef)
      → put_object world content media v ≡ ok (r, w)
      → SameJournal world v w
  unfolding put_object
  put_object-SameJournal content media v w r h =
      let (c1, h1, k1) = >>=-eq-ok (the_signer _ v.signer) _ h in
      let (c2, h2, k2) = >>=-eq-ok (media_type media) _ k1 in
      let (digest, h3, k3) = >>=-eq-ok (sha256 (world.raw_sha256 content)) _ k2 in
      let (x, h4, k4) = >>=-eq-ok (stored world digest content v (find digest v.objects)) _ k3 in
      let same : x ≡ w = ap (λ (p : ObjectRef × EvidenceVault). p.1) (ok-injective _ (r, w) k4) in
      subst (SameJournal world v) same
        (stored-SameJournal digest content v x (find digest v.objects) h4)

module _ (world : World) (v after : EvidenceVault) (e : Event)
    (honest : HonestSigner world v.signer) where
  pub archive_component-Course :
      (kind id version : String) (content : List ℕ) (media : String) (metadata : Fields)
      (at : String)
      → archive_component world kind id version content media metadata at v ≡ ok (e, after)
      → Course world v after
  unfolding archive_component rotate apply
  archive_component-Course kind id version content media metadata at h =
      let (h1, k1) = require-eq-ok (contains component_kinds kind) _ _ h in
      let (c2, h2, k2) = >>=-eq-ok (vault_identifier id) _ k1 in
      let (c3, h3, k3) = >>=-eq-ok (vault_identifier version) _ k2 in
      let (c4, h4, k4) = >>=-eq-ok (instant world at) _ k3 in
      let (h5, k5) = require-eq-ok (not (is_empty content)) _ _ k4 in
      let (c6, h6, k6) = >>=-eq-ok (media_type media) _ k5 in
      let (s, hs, k7) = >>=-eq-ok (replay world v) _ k6 in
      let ref = component_ref_of kind id version in
      let (h8, k8) = require-eq-ok (not (has ref s.tables.components)) _ _ k7 in
      let ((r, w), h9, k9) = >>=-eq-ok (put_object world content media v) _ k8 in
      let (c10, h10, k10) = >>=-eq-ok (canonical_json (obj metadata)) _ k9 in
      let j = put_object-SameJournal world content media v w r h9 in
      append_event-Course world v w after _ at e s hs j honest k10 (record {
        permitted = tt;
        rotated = λ event. (_, refl);
        applied = λ root.
            inserted ref _ s.tables.components _ (not-eq-true (has ref s.tables.components) h8);
      })

  pub append_evidence-Course :
      (input : EvidenceInput) (content : List ℕ) (media at : String)
      → append_evidence world input content media at v ≡ ok (e, after)
      → Course world v after
  unfolding append_evidence rotate apply
  append_evidence-Course input content media at h =
      let (c1, h1, k1) = >>=-eq-ok (vault_identifier input.evidence_id) _ h in
      let (c2, h2, k2) = >>=-eq-ok (vault_identifier input.claim_id) _ k1 in
      let (c3, h3, k3) = >>=-eq-ok (vault_identifier input.run_id) _ k2 in
      let (c4, h4, k4) = >>=-eq-ok (check_interval world input) _ k3 in
      let (c5, h5, k5) = >>=-eq-ok (instant world at) _ k4 in
      let (s, hs, k6) = >>=-eq-ok (replay world v) _ k5 in
      let (h7, k7) = require-eq-ok (not (has input.evidence_id s.tables.evidence)) _ _ k6 in
      let (c8, h8, k8) = >>=-eq-ok (check_references s.tables input) _ k7 in
      let ((r, w), h9, k9) = >>=-eq-ok (put_object world content media v) _ k8 in
      let j = put_object-SameJournal world content media v w r h9 in
      append_event-Course world v w after _ at e s hs j honest k9 (record {
        permitted = tt;
        rotated = λ event. (_, refl);
        applied = λ root.
            inserted input.evidence_id _ s.tables.evidence _
              (not-eq-true (has input.evidence_id s.tables.evidence) h7);
      })
