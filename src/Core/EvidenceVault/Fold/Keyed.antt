-- ===== src/Core/EvidenceVault/Fold/Keyed.antt =====
-- The deletion intents of a replayed state: each under its own evidence's id, which is known.
use mathlib.Core.Path.{subst}
use auditspec.Prelude.{
  String, true, false, not, ◌&&◌, List, [], ◌∷◌, ◌≡◌, inl, inr, refl, sym, ◌∙◌, ap, arith,
  Bool-cases, &&-left,
}
use auditspec.Prelude.Text.{◌≟◌, ≟→eq, ≟-sym}
use auditspec.Prelude.Dict.{Dict, find, has, insert_new}
use auditspec.Prelude.Dict.Laws.{has-insert_new_other, has-insert_new_kept}
use auditspec.Prelude.Result.{ok, >>=-eq-ok, require-eq-ok, ok-injective}
use auditspec.Core.EvidenceVault.Records.{
  World, DeletionIntent, Body, component_archived, evidence_appended, bundle_sealed,
  legal_hold_placed, legal_hold_released, evidence_deletion_intent, evidence_deleted,
  component_retired, journal_authority_rotated, unknown_type, Event,
}
use auditspec.Core.EvidenceVault.Tables.{Rooted, Tables, no_tables, insert_once}
use auditspec.Core.EvidenceVault.Retirements.{validate_retirement}
use auditspec.Core.EvidenceVault.Fold.{may_release, check_commit, apply, apply_all}

-- Every intent is its key's.
abbrev pub IsKeyed : Dict (Rooted DeletionIntent) → Type 0
IsKeyed [] = Unit
IsKeyed ((k, r) ∷ d) = (r.body.evidence_id ≡ k) × (has k d ≡ false) × IsKeyed d

has-insert_new-false :
    {A : Type 0} (key other : String) (v : A) (d : Dict A)
    → (key ≟ other) ≡ false
    → has other d ≡ false
    → has other (insert_new key v d) ≡ false
has-insert_new-false key other v d e h = has-insert_new_other key other v d e ∙ h

IsKeyed-insert_new :
    (r : Rooted DeletionIntent) (d : Dict (Rooted DeletionIntent))
    → has r.body.evidence_id d ≡ false
    → IsKeyed d
    → IsKeyed (insert_new r.body.evidence_id r d)
IsKeyed-insert_new r [] h k = (refl, refl, tt)
IsKeyed-insert_new r ((k, q) ∷ d) h (e, f, rest) = elim (Bool-cases (k ≟ r.body.evidence_id)) [
  | inl t ↦ cc (rw t at h)
  | inr t ↦ (
    e,
    has-insert_new-false r.body.evidence_id k r d (≟-sym r.body.evidence_id k ∙ t) f,
    IsKeyed-insert_new r d (rw t at h) rest,
  )
]

-- The intents are keyed, and are about archived evidence.
pub record WellKeyed (t : Tables) : Type 0 where
  pub keyed : IsKeyed t.deletion_intents
  pub known : (id : String) → has id t.deletion_intents ≡ true → has id t.evidence ≡ true

insert_once-inserted :
    {A : Type 0} (key : String) (v : A) (d : Dict A) {r : Dict A}
    → insert_once key v d ≡ ok r
    → (has key d ≡ false) × (insert_new key v d ≡ r)
unfolding insert_once
insert_once-inserted key v d h = ground arith

module _ (world : World) where
  apply-WellKeyed :
      (body : Body) (root : String) (t after : Tables)
      → apply world body root t ≡ ok after
      → WellKeyed t
      → WellKeyed after
  unfolding apply
  apply-WellKeyed (component_archived b) root t after h w =
      let (d, e, k) =
        >>=-eq-ok
          (insert_once b.component_ref (record { body = b; event_root = root }) t.components) _ h in
      subst WellKeyed (ok-injective _ after k) (record { keyed = w.keyed; known = w.known })
  apply-WellKeyed (evidence_appended b) root t after h w =
      let (d, e, k) =
        >>=-eq-ok (insert_once b.evidence_id (record { body = b; event_root = root }) t.evidence) _
          h in
      let (fresh, new) = insert_once-inserted b.evidence_id _ t.evidence e in
      subst WellKeyed (ok-injective _ after k) (record {
        keyed = w.keyed;
        known = λ id i.
            subst (λ x. has id x ≡ true) new
              (has-insert_new_kept b.evidence_id id _ t.evidence (w.known id i));
      })
  apply-WellKeyed (bundle_sealed b) root t after h w =
      let (d, e, k) =
        >>=-eq-ok (insert_once b.bundle_id (record { body = b; event_root = root }) t.bundles) _
          h in
      subst WellKeyed (ok-injective _ after k) (record { keyed = w.keyed; known = w.known })
  apply-WellKeyed (legal_hold_placed b) root t after h w =
      let (d, e, k) = >>=-eq-ok (insert_once b.hold_id _ t.holds) _ h in
      subst WellKeyed (ok-injective _ after k) (record { keyed = w.keyed; known = w.known })
  apply-WellKeyed (legal_hold_released b) root t after h w =
      let (may, k) = require-eq-ok (may_release (find b.hold_id t.holds)) _ _ h in
      subst WellKeyed (ok-injective _ after k) (record { keyed = w.keyed; known = w.known })
  apply-WellKeyed (evidence_deletion_intent b) root t after h w =
      let r : Rooted DeletionIntent = record { body = b; event_root = root } in
      let (both, k) =
        require-eq-ok (has b.evidence_id t.evidence && not (has b.evidence_id t.deletions)) _ _ h in
      let (d, e, l) = >>=-eq-ok (insert_once b.evidence_id r t.deletion_intents) _ k in
      let (fresh, new) = insert_once-inserted b.evidence_id r t.deletion_intents e in
      subst WellKeyed (ok-injective _ after l) (record {
        keyed = subst IsKeyed new (IsKeyed-insert_new r t.deletion_intents fresh w.keyed);
        known = λ id i. elim (Bool-cases (b.evidence_id ≟ id)) [
          | inl x ↦
              subst (λ s. has s t.evidence ≡ true) (≟→eq b.evidence_id id x) (&&-left _ _ both)
          | inr x ↦ w.known id (
              sym (has-insert_new_other b.evidence_id id r t.deletion_intents x)
              ∙ ap (has id) new
              ∙ i)
        ];
      })
  apply-WellKeyed (evidence_deleted b) root t after h w =
      let (known, k) = require-eq-ok (has b.evidence_id t.evidence) _ _ h in
      let (u, v, l) = >>=-eq-ok (check_commit t.deletion_intents b b.intent_event_root) _ k in
      let (d, e, m) = >>=-eq-ok (insert_once b.evidence_id _ t.deletions) _ l in
      subst WellKeyed (ok-injective _ after m) (record { keyed = w.keyed; known = w.known })
  apply-WellKeyed (component_retired b) root t after h w =
      let (known, k) = require-eq-ok (has b.component_ref t.components) _ _ h in
      let (u, v, l) = >>=-eq-ok (validate_retirement world t.components b) _ k in
      let (d, e, m) = >>=-eq-ok (insert_once b.component_ref _ t.retirements) _ l in
      subst WellKeyed (ok-injective _ after m) (record { keyed = w.keyed; known = w.known })
  apply-WellKeyed (journal_authority_rotated b) root t after h w =
      subst WellKeyed (ok-injective t after h) w
  apply-WellKeyed (unknown_type name) root t after h w = cc

  pub apply_all-WellKeyed :
      (es : List Event) (t after : Tables)
      → apply_all world es t ≡ ok after
      → WellKeyed t
      → WellKeyed after
  unfolding apply_all
  apply_all-WellKeyed [] t after h w = subst WellKeyed (ok-injective t after h) w
  apply_all-WellKeyed (e ∷ es) t after h w =
      let (mid, a, k) = >>=-eq-ok (apply world e.payload.body e.event_root t) _ h in
      apply_all-WellKeyed es mid after k (apply-WellKeyed e.payload.body e.event_root t mid a w)

pub no_tables-WellKeyed : WellKeyed no_tables
no_tables-WellKeyed = record { keyed = tt; known = λ id h. cc }
