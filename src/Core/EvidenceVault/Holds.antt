-- ===== src/Core/EvidenceVault/Holds.antt =====
-- Legal holds against deletion: what the operations' checks say of the events that they append, and
-- the invariant of the tables that the checks keep.
use mathlib.Core.Path.{subst}
use auditspec.Prelude.{
  not-eq-true, String, true, false, not, ◌&&◌, none, some, [], ◌≡◌, inl, inr, refl, sym, ◌∙◌, ap,
  arith, Member, Bool-cases, Option-cases, &&-left, &&-right, member-map, member-keep,
}
use auditspec.Prelude.Text.{◌≟◌, ≟→eq, text_order, contains, member-contains}
use auditspec.Prelude.Order.{member-sort_by}
use auditspec.Prelude.Dict.{
  Dict, is_some, find, has, insert_new, change, find-change, find-change_other, find-change-none,
}
use auditspec.Prelude.Dict.Laws.{
  find-Member, insert_new-cases, has-insert_new_other, has-insert_new_kept, find-keep,
}
use auditspec.Prelude.Result.{ok, >>=-eq-ok, require-eq-ok, ok-injective}
use auditspec.Core.EvidenceVault.Records.{
  World, Body, component_archived, evidence_appended, bundle_sealed, legal_hold_placed,
  legal_hold_released, evidence_deletion_intent, evidence_deleted, component_retired,
  journal_authority_rotated, unknown_type,
}
use auditspec.Core.EvidenceVault.Tables.{HoldState, Tables, insert_once}
use auditspec.Core.EvidenceVault.Retirements.{validate_retirement}
use auditspec.Core.EvidenceVault.Fold.{may_release, release, check_commit, apply}
use auditspec.Core.EvidenceVault.Replay.{pending_deletions}
use auditspec.Core.EvidenceVault.Retention.{active_hold_ids}
use auditspec.Core.EvidenceVault.Operations.{is_live}

-- What the operation that appends the event has checked about holds and deletions.
abbrev pub Permitted : Tables → Body → Type 0
Permitted t (component_archived body) = Unit
Permitted t (evidence_appended body) = Unit
Permitted t (bundle_sealed body) = Unit
Permitted t (legal_hold_placed body) =
    (id : String) → Member id body.evidence_ids → is_live t id ≡ true
Permitted t (legal_hold_released body) = Unit
Permitted t (evidence_deletion_intent body) = active_hold_ids body.evidence_id t.holds ≡ []
Permitted t (evidence_deleted body) = has body.evidence_id t.deletion_intents ≡ true
Permitted t (component_retired body) = Unit
Permitted t (journal_authority_rotated body) = Unit
Permitted t (unknown_type name) = Unit

-- No evidence under a hold that is not released has a deletion intent, and no evidence is deleted
-- without one.
pub record HoldsRespected (t : Tables) : Type 0 where
  pub held :
      (hold_id : String) (hold : HoldState)
      → find hold_id t.holds ≡ some hold
      → hold.released ≡ false
      → (id : String) → Member id hold.evidence_ids
      → has id t.deletion_intents ≡ false
  pub intended : (id : String) → has id t.deletions ≡ true → has id t.deletion_intents ≡ true

pub insert_once-eq-ok :
    {A : Type 0} (key : String) (v : A) (d : Dict A) {r : Dict A}
    → insert_once key v d ≡ ok r
    → (has key d ≡ false) × (r ≡ insert_new key v d)
unfolding insert_once
insert_once-eq-ok key v d h = ground arith

pub has-pending :
    (t : Tables) (id : String)
    → has id t.deletion_intents ≡ true
    → has id t.deletions ≡ false
    → has id (pending_deletions t) ≡ true
unfolding pending_deletions
has-pending t id i d =
    ap is_some (find-keep (λ k. not (has k t.deletions)) id t.deletion_intents (rw d refl)) ∙ i

-- Evidence under an active hold has that hold among its active ones.
pub active-member :
    (id hold_id : String) (holds : Dict HoldState) (hold : HoldState)
    → find hold_id holds ≡ some hold
    → hold.released ≡ false
    → Member id hold.evidence_ids
    → Member hold_id (active_hold_ids id holds)
unfolding active_hold_ids
active-member id hold_id holds hold f r m =
    let c : (not hold.released && contains hold.evidence_ids id) ≡ true =
      rw (r, member-contains hold.evidence_ids id m) refl in
    member-sort_by text_order (λ s. s) hold_id _
      (member-map (λ (p : String × HoldState). p.0) (hold_id, hold) _
        (member-keep
          (λ (p : String × HoldState). not (p.1).released && contains (p.1).evidence_ids id)
          (hold_id, hold) holds (find-Member hold_id holds f) c))

-- Live evidence is neither deleted nor the subject of a deletion intent.
pub live-no_deletion : (t : Tables) (id : String) → is_live t id ≡ true → has id t.deletions ≡ false
unfolding is_live
live-no_deletion t id h =
    not-eq-true (has id t.deletions)
      (&&-right (has id t.evidence) _ (&&-left _ (not (has id (pending_deletions t))) h))

pub live-no_intent :
    (t : Tables) (id : String) → is_live t id ≡ true → has id t.deletion_intents ≡ false
unfolding is_live
live-no_intent t id h = elim (Bool-cases (has id t.deletion_intents)) [
  | inl i ↦
      let p =
        not-eq-true (has id (pending_deletions t))
          (&&-right (has id t.evidence && not (has id t.deletions)) _ h) in
      let q = has-pending t id i (live-no_deletion t id h) in cc
  | inr i ↦ i
]

-- A hold that is not released after a release is another hold.
release-held :
    (key root : String) (holds : Dict HoldState) (hold_id : String) (hold : HoldState)
    → find hold_id (change key (release root) holds) ≡ some hold
    → hold.released ≡ false
    → find hold_id holds ≡ some hold
release-held key root holds hold_id hold f u = elim (Bool-cases (key ≟ hold_id)) [
  | inl e ↦
      let g =
        subst (λ s. find s (change key (release root) holds) ≡ some hold) (sym (≟→eq key hold_id e))
          f in
      elim (Option-cases (find key holds)) [
        | inl n ↦ let m = find-change-none key (release root) holds n in cc
        | inr (old, o) ↦
            let c = find-change key (release root) holds o in
            let d : release root old ≡ hold = ground arith in
            let r : hold.released ≡ true = ap (λ (z : HoldState). z.released) (sym d) in cc
      ]
  | inr e ↦ sym (find-change_other key hold_id (release root) holds e) ∙ f
]

module _ (world : World) where
  pub apply-HoldsRespected :
      (body : Body) (root : String) (t after : Tables)
      → apply world body root t ≡ ok after
      → Permitted t body
      → HoldsRespected t
      → HoldsRespected after
  unfolding apply
  apply-HoldsRespected (component_archived b) root t after h p r =
      let (d, e, k) =
        >>=-eq-ok
          (insert_once b.component_ref (record { body = b; event_root = root }) t.components) _ h in
      subst HoldsRespected (ok-injective _ after k)
        (record { held = r.held; intended = r.intended })
  apply-HoldsRespected (evidence_appended b) root t after h p r =
      let (d, e, k) =
        >>=-eq-ok (insert_once b.evidence_id (record { body = b; event_root = root }) t.evidence) _
          h in
      subst HoldsRespected (ok-injective _ after k)
        (record { held = r.held; intended = r.intended })
  apply-HoldsRespected (bundle_sealed b) root t after h p r =
      let (d, e, k) =
        >>=-eq-ok (insert_once b.bundle_id (record { body = b; event_root = root }) t.bundles) _
          h in
      subst HoldsRespected (ok-injective _ after k)
        (record { held = r.held; intended = r.intended })
  apply-HoldsRespected (legal_hold_placed b) root t after h p r =
      let placed : HoldState = record {
        evidence_ids = b.evidence_ids;
        released = false;
        placed_event_root = root;
        release_event_root = none;
      } in
      let (d, e, k) = >>=-eq-ok (insert_once b.hold_id placed t.holds) _ h in
      let (fresh, new) = insert_once-eq-ok b.hold_id placed t.holds e in
      subst HoldsRespected (ok-injective _ after k) (record {
        held = λ hold_id hold f u id m.
            elim (insert_new-cases b.hold_id hold_id placed hold t.holds fresh
              (ap (find hold_id) (sym new) ∙ f)) [
                | inl (x, y) ↦
                    live-no_intent t id
                      (p id (subst (λ (z : HoldState). Member id z.evidence_ids) (sym y) m))
                | inr g ↦ r.held hold_id hold g u id m
              ];
        intended = r.intended;
      })
  apply-HoldsRespected (legal_hold_released b) root t after h p r =
      let (may, k) = require-eq-ok (may_release (find b.hold_id t.holds)) _ _ h in
      subst HoldsRespected (ok-injective _ after k) (record {
        held = λ hold_id hold f u id m.
            r.held hold_id hold (release-held b.hold_id root t.holds hold_id hold f u) u id m;
        intended = r.intended;
      })
  apply-HoldsRespected (evidence_deletion_intent b) root t after h p r =
      let (known, k) =
        require-eq-ok (has b.evidence_id t.evidence && not (has b.evidence_id t.deletions)) _ _ h in
      let (d, e, l) =
        >>=-eq-ok
          (insert_once b.evidence_id (record { body = b; event_root = root }) t.deletion_intents) _
          k in
      let (fresh, new) = insert_once-eq-ok b.evidence_id _ t.deletion_intents e in
      subst HoldsRespected (ok-injective _ after l) (record {
        held = λ hold_id hold f u id m. elim (Bool-cases (b.evidence_id ≟ id)) [
          | inl x ↦ absurd (
              subst (Member hold_id) p (
                active-member b.evidence_id hold_id t.holds hold f u
                  (subst (λ s. Member s hold.evidence_ids) (sym (≟→eq b.evidence_id id x)) m)))
          | inr x ↦ rw new (
              has-insert_new_other b.evidence_id id _ t.deletion_intents x
              ∙ r.held hold_id hold f u id m)
        ];
        intended = λ id m.
            rw new (has-insert_new_kept b.evidence_id id _ t.deletion_intents (r.intended id m));
      })
  apply-HoldsRespected (evidence_deleted b) root t after h p r =
      let (known, k) = require-eq-ok (has b.evidence_id t.evidence) _ _ h in
      let (u, v, l) = >>=-eq-ok (check_commit t.deletion_intents b b.intent_event_root) _ k in
      let (d, e, m) =
        >>=-eq-ok (insert_once b.evidence_id (record { body = b; event_root = root }) t.deletions) _
          l in
      let (fresh, new) = insert_once-eq-ok b.evidence_id _ t.deletions e in
      subst HoldsRespected (ok-injective _ after m) (record {
        held = r.held;
        intended = λ id i. elim (Bool-cases (b.evidence_id ≟ id)) [
          | inl x ↦ subst (λ s. has s t.deletion_intents ≡ true) (≟→eq b.evidence_id id x) p
          | inr x ↦ r.intended id (
              sym (has-insert_new_other b.evidence_id id _ t.deletions x)
              ∙ ap (has id) (sym new)
              ∙ i)
        ];
      })
  apply-HoldsRespected (component_retired b) root t after h p r =
      let (known, k) = require-eq-ok (has b.component_ref t.components) _ _ h in
      let (u, v, l) = >>=-eq-ok (validate_retirement world t.components b) _ k in
      let (d, e, m) =
        >>=-eq-ok
          (insert_once b.component_ref (record { body = b; event_root = root }) t.retirements) _
          l in
      subst HoldsRespected (ok-injective _ after m)
        (record { held = r.held; intended = r.intended })
  apply-HoldsRespected (journal_authority_rotated b) root t after h p r =
      subst HoldsRespected (ok-injective t after h) r
  apply-HoldsRespected (unknown_type name) root t after h p r = cc
