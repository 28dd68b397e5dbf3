-- ===== src/Core/EvidenceVault/Retention/Laws.antt =====
-- What a retention status says of the state.
use auditspec.Prelude.{
  ℕ, ◌≤◌, ltb, leb, String, Bool, true, false, not, Option, none, some, List, [], ◌∷◌, ◌≡◌, inl,
  inr, refl, sym, ◌∙◌, ap, arith, if◌then◌else◌, Bool-cases,
}
use auditspec.Prelude.Text.{◌≟◌}
use auditspec.Prelude.Dict.{find, has, has-find}
use auditspec.Prelude.Result.{ok, >>=-eq-ok, ok-injective, false-true}
use auditspec.Core.EvidenceVault.Records.{World, Evidence, RetentionDecision}
use auditspec.Core.EvidenceVault.Checks.{instant}
use auditspec.Core.EvidenceVault.Tables.{Rooted, Tables}
use auditspec.Core.EvidenceVault.Replay.{pending_deletions}
use auditspec.Core.EvidenceVault.Retention.{
  is_empty, active_hold_ids, the_evidence, deadline_status, retention_status, retention_decision,
}

-- Neither deleted, nor being deleted, nor held.
pub record IsOpen (t : Tables) (id : String) : Type 0 where
  pub not_deleted : has id t.deletions ≡ false
  pub not_pending : has id (pending_deletions t) ≡ false
  pub not_held : active_hold_ids id t.holds ≡ []

abbrev pub may_delete : String → Bool
may_delete status = if status ≟ "DELETION_REQUIRED" then true else status ≟ "DELETION_ELIGIBLE"

is_empty-nil : {A : Type 0} (xs : List A) → not (is_empty xs) ≡ false → xs ≡ []
is_empty-nil [] h = refl
is_empty-nil (x ∷ xs) h = cc

pub is_empty-nil_true : {A : Type 0} (xs : List A) → is_empty xs ≡ true → xs ≡ []
is_empty-nil_true [] h = refl
is_empty-nil_true (x ∷ xs) h = cc

still_past :
    (at later minimum : ℕ) → at ≤ later → ltb at minimum ≡ false → ltb later minimum ≡ false
still_past at later minimum le h = ground arith

still_before :
    (at later deadline : ℕ) → at ≤ later → leb deadline later ≡ false → leb deadline at ≡ false
still_before at later deadline le h = ground arith

module _ (world : World) where
  differs :
      (s status : String) → ok s ≡ ok status → may_delete s ≡ false → may_delete status ≡ true → ⊥
  differs s status e f h = cc (ap may_delete (ok-injective s status e))

  -- Only evidence that is open has a status that lets it be deleted.
  pub retention_status-IsOpen :
      (at : ℕ) (t : Tables) (id : String) (body : Evidence) {status : String}
      → retention_status world at t id body ≡ ok status
      → may_delete status ≡ true
      → IsOpen t id
  unfolding retention_status
  retention_status-IsOpen at t id body {status} h m = elim (Bool-cases (has id t.deletions)) [
    | inl a ↦ absurd (differs "DELETED" status (rw a at h) refl m)
    | inr a ↦ elim (Bool-cases (has id (pending_deletions t))) [
      | inl b ↦ absurd (differs "DELETION_IN_PROGRESS" status (rw (a, b) at h) refl m)
      | inr b ↦ elim (Bool-cases (not (is_empty (active_hold_ids id t.holds)))) [
        | inl c ↦ absurd (differs "LEGAL_HOLD" status (rw (a, b, c) at h) refl m)
        | inr c ↦ record {
          not_deleted = a;
          not_pending = b;
          not_held = is_empty-nil (active_hold_ids id t.holds) c;
        }
      ]
    ]
  ]

  pub the_evidence-some :
      (o : Option (Rooted Evidence)) {body : Evidence}
      → the_evidence o ≡ ok body
      → (row : Rooted Evidence) × (o ≡ some row) × (row.body ≡ body)
  the_evidence-some none h = cc
  the_evidence-some (some row) h = (row, refl, ok-injective row.body _ h)

  pub retention_decision-IsOpen :
      (t : Tables) (id at : String) {decision : RetentionDecision}
      → retention_decision world t id at ≡ ok decision
      → may_delete decision.status ≡ true
      → IsOpen t id × (has id t.evidence ≡ true)
  unfolding retention_decision
  retention_decision-IsOpen t id at {decision} h m =
      let (now, h1, k1) = >>=-eq-ok (instant world at) _ h in
      let (body, h2, k2) = >>=-eq-ok (the_evidence (find id t.evidence)) _ k1 in
      let (status, h3, k3) = >>=-eq-ok (retention_status world now t id body) _ k2 in
      let (row, f, e) = the_evidence-some (find id t.evidence) h2 in
      let same : status ≡ decision.status =
        ap (λ (d : RetentionDecision). d.status) (ok-injective _ decision k3) in
      (retention_status-IsOpen now t id body h3 (rw same m), has-find id t.evidence f)

  deadline_status-later :
      (at later : ℕ) (body : Evidence) {status : String}
      → at ≤ later
      → deadline_status world at body ≡ ok status
      → may_delete status ≡ true
      → (s : String) × (deadline_status world later body ≡ ok s)
        × (may_delete s ≡ true)
        × (status ≡ "DELETION_REQUIRED" → s ≡ "DELETION_REQUIRED")
  unfolding deadline_status
  deadline_status-later at later body {status} le h m =
      let (minimum, h1, k1) = >>=-eq-ok (instant world body.minimum_retain_until) _ h in
      elim (Bool-cases (ltb at minimum)) [
        | inl a ↦ absurd (differs "RETAIN_REQUIRED" status (rw a at k1) refl m)
        | inr a ↦
            let (deadline, h2, k2) =
              >>=-eq-ok (instant world body.deletion_required_by) _ (rw a at k1) in
            let past : ltb later minimum ≡ false = still_past at later minimum le a in
            elim (Bool-cases (leb deadline later)) [
              | inl c ↦ ("DELETION_REQUIRED", rw (h1, past, h2, c) refl, refl, λ e. refl)
              | inr c ↦
                  let b : leb deadline at ≡ false = still_before at later deadline le c in
                  let e = ok-injective "DELETION_ELIGIBLE" status (rw b at k2) in
                  (
                    "DELETION_ELIGIBLE",
                    rw (h1, past, h2, c) refl,
                    refl,
                    λ f. absurd (false-true (ap (λ (s : String). s ≟ "DELETION_REQUIRED") (e ∙ f))),
                  )
            ]
      ]

  retention_status-open :
      (at : ℕ) (t : Tables) (id : String) (body : Evidence)
      → IsOpen t id
      → retention_status world at t id body ≡ deadline_status world at body
  unfolding retention_status
  retention_status-open at t id body o = rw (o.not_deleted, o.not_pending, o.not_held) refl

  -- Time only helps deletion: evidence that may be deleted at an instant may be deleted at every
  -- later one, as long as the state is the same; and a deletion that is required stays required.
  pub retention_status-later :
      (at later : ℕ) (t : Tables) (id : String) (body : Evidence) {status : String}
      → at ≤ later
      → retention_status world at t id body ≡ ok status
      → may_delete status ≡ true
      → (s : String) × (retention_status world later t id body ≡ ok s)
        × (may_delete s ≡ true)
        × (status ≡ "DELETION_REQUIRED" → s ≡ "DELETION_REQUIRED")
  retention_status-later at later t id body le h m =
      let o = retention_status-IsOpen at t id body h m in
      let (s, e, may, rest) =
        deadline_status-later at later body le (sym (retention_status-open at t id body o) ∙ h) m in
      (s, retention_status-open later t id body o ∙ e, may, rest)
