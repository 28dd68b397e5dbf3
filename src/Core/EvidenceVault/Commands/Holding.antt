-- ===== src/Core/EvidenceVault/Commands/Holding.antt =====
-- Rotations, bundles and legal holds are recorded.
use mathlib.Core.Path.{subst}
use auditspec.Prelude.{
  not-eq-true, String, Bool, true, not, Option, none, some, List, ◌≡◌, refl, arith, every,
  every-member,
}
use auditspec.Prelude.Text.{≟-refl, contains}
use auditspec.Prelude.Dict.{find, has}
use auditspec.Prelude.Result.{ok, >>=-eq-ok, require-eq-ok, Error, require, ◌>>◌}
use auditspec.Core.EvidenceVault.Records.{
  World, AuthorityRotation, Event, journal_authority_rotated,
}
use auditspec.Core.EvidenceVault.Checks.{vault_identifier, sha256, public_key, instant}
use auditspec.Core.EvidenceVault.Chain.{
  rotation_schema, Progress, validate_rotation, rotate, rotated,
}
use auditspec.Core.EvidenceVault.Tables.{HoldState}
use auditspec.Core.EvidenceVault.Fold.{apply, may_release}
use auditspec.Core.EvidenceVault.Replay.{EvidenceVault, VaultState, replay}
use auditspec.Core.EvidenceVault.Operations.{
  is_live, is_id_set, sorted, rotate_journal_authority, bundle_rows, create_bundle,
  place_legal_hold, unreleased, release_legal_hold,
}
use auditspec.Core.EvidenceVault.Commands.Recorded.{
  HonestSigner, same_journal, Course, inserted, append_event-Course,
}

required :
    {A : Type 0} (c : Bool) (raised : Error) (a : A)
    → c ≡ true
    → (b : A) × ((require c raised >> ok a) ≡ ok b)
required c raised a h = (a, rw h refl)

module _ (world : World) where
  unreleased-may :
      (o : Option HoldState) {hold : HoldState}
      → unreleased world o ≡ ok hold
      → may_release o ≡ true
  unreleased-may none h = cc
  unreleased-may (some old) h = ground arith

  public_key-eq : (key : String) {c : String} → public_key world key ≡ ok c → key ≡ c
  unfolding public_key
  public_key-eq key h = ground arith

  abbrev rotation_body : VaultState → String → String → AuthorityRotation
  rotation_body s key reason = record {
    schema = rotation_schema;
    predecessor_public_key_hex = s.journal_authority.active_public_key_hex;
    successor_public_key_hex = key;
    reason_digest = reason;
  }

  rotation_taken :
      (event : Event) (s : VaultState) (key reason : String) {c : String}
      → public_key world key ≡ ok key
      → sha256 reason ≡ ok c
      → not (contains s.journal_authority.public_key_history key) ≡ true
      → (q : Progress) × (rotate world
            (journal_authority_rotated (rotation_body s key reason))
            event
            s.journal_authority
          ≡ ok q)
  unfolding rotate validate_rotation
  rotation_taken event s key reason h1 h2 h3 = (
    rotated world event (rotation_body s key reason) key s.journal_authority,
    rw (≟-refl s.journal_authority.active_public_key_hex, h1, h2, h3) refl,
  )

module _ (world : World) (v after : EvidenceVault) (e : Event)
    (honest : HonestSigner world v.signer) where
  pub place_legal_hold-Course :
      (id : String) (ids : List String) (authority reason at : String)
      → place_legal_hold world id ids authority reason at v ≡ ok (e, after)
      → Course world v after
  unfolding place_legal_hold rotate apply
  place_legal_hold-Course id ids authority reason at h =
      let (c1, h1, k1) = >>=-eq-ok (vault_identifier id) _ h in
      let (c2, h2, k2) = >>=-eq-ok (vault_identifier authority) _ k1 in
      let (c3, h3, k3) = >>=-eq-ok (sha256 reason) _ k2 in
      let (c4, h4, k4) = >>=-eq-ok (instant world at) _ k3 in
      let (s, hs, k5) = >>=-eq-ok (replay world v) _ k4 in
      let (h6, k6) = require-eq-ok (is_id_set (sorted ids)) _ _ k5 in
      let (h7, k7) = require-eq-ok (not (has id s.tables.holds)) _ _ k6 in
      let (h8, k8) = require-eq-ok (every (is_live s.tables) (sorted ids)) _ _ k7 in
      append_event-Course world v v after _ at e s hs (same_journal world v) honest k8 (record {
        permitted = every-member (is_live s.tables) (sorted ids) h8;
        rotated = λ event. (_, refl);
        applied = λ root. inserted id _ s.tables.holds _ (not-eq-true (has id s.tables.holds) h7);
      })

  pub create_bundle-Course :
      (id : String) (ids : List String) (at : String)
      → create_bundle world id ids at v ≡ ok (e, after)
      → Course world v after
  unfolding create_bundle rotate apply
  create_bundle-Course id ids at h =
      let (c1, h1, k1) = >>=-eq-ok (vault_identifier id) _ h in
      let (c2, h2, k2) = >>=-eq-ok (instant world at) _ k1 in
      let (h3, k3) = require-eq-ok (is_id_set (sorted ids)) _ _ k2 in
      let (s, hs, k4) = >>=-eq-ok (replay world v) _ k3 in
      let (h5, k5) = require-eq-ok (not (has id s.tables.bundles)) _ _ k4 in
      let (rows, h6, k6) = >>=-eq-ok (bundle_rows world s.tables (sorted ids)) _ k5 in
      append_event-Course world v v after _ at e s hs (same_journal world v) honest k6 (record {
        permitted = tt;
        rotated = λ event. (_, refl);
        applied =
            λ root. inserted id _ s.tables.bundles _ (not-eq-true (has id s.tables.bundles) h5);
      })

  pub release_legal_hold-Course :
      (id authority reason at : String)
      → release_legal_hold world id authority reason at v ≡ ok (e, after)
      → Course world v after
  unfolding release_legal_hold rotate apply
  release_legal_hold-Course id authority reason at h =
      let (c1, h1, k1) = >>=-eq-ok (vault_identifier authority) _ h in
      let (c2, h2, k2) = >>=-eq-ok (sha256 reason) _ k1 in
      let (c3, h3, k3) = >>=-eq-ok (instant world at) _ k2 in
      let (s, hs, k4) = >>=-eq-ok (replay world v) _ k3 in
      let (hold, h5, k5) = >>=-eq-ok (unreleased world (find id s.tables.holds)) _ k4 in
      append_event-Course world v v after _ at e s hs (same_journal world v) honest k5 (record {
        permitted = tt;
        rotated = λ event. (_, refl);
        applied = λ root.
            required (may_release (find id s.tables.holds)) _ _
              (unreleased-may world (find id s.tables.holds) h5);
      })

  pub rotate_journal_authority-Course :
      (key reason at : String)
      → rotate_journal_authority world key reason at v ≡ ok (e, after)
      → Course world v after
  unfolding rotate_journal_authority rotate apply
  rotate_journal_authority-Course key reason at h =
      let (c1, h1, k1) = >>=-eq-ok (public_key world key) _ h in
      let (c2, h2, k2) = >>=-eq-ok (sha256 reason) _ k1 in
      let (c3, h3, k3) = >>=-eq-ok (instant world at) _ k2 in
      let (s, hs, k4) = >>=-eq-ok (replay world v) _ k3 in
      let (h5, k5) =
        require-eq-ok (not (contains s.journal_authority.public_key_history c1)) _ _ k4 in
      append_event-Course world v v after _ at e s hs (same_journal world v) honest k5 (record {
        permitted = tt;
        rotated = λ event.
            rotation_taken world event s c1 reason
              (subst (λ z. public_key world z ≡ ok c1) (public_key-eq world key h1) h1) h2 h5;
        applied = λ root. (_, refl);
      })
