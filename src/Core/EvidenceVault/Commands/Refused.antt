-- ===== src/Core/EvidenceVault/Commands/Refused.antt =====
-- What the operations refuse, and what they should refuse.
use mathlib.Core.Path.{subst}
use auditspec.Prelude.{
  String, false, Option, some, List, ◌≡◌, ◌≢◌, inl, inr, sym, ◌∙◌, arith, Member, every, not-every,
  every-member, Bool-cases,
}
use auditspec.Prelude.Text.{text_order}
use auditspec.Prelude.Order.{member-sort_by}
use auditspec.Prelude.Sets.{to_set, member-to_set}
use auditspec.Prelude.Dict.{find, has}
use auditspec.Prelude.Result.{Error, Result-cases, ok, err, >>=-eq-ok, require-eq-ok, ok-injective}
use auditspec.Core.EvidenceVault.Records.{World, Retirement, Event, component_retired}
use auditspec.Core.EvidenceVault.Checks.{is_identifier, vault_identifier, instant}
use auditspec.Core.EvidenceVault.Chain.{rotate}
use auditspec.Core.EvidenceVault.Tables.{HoldState, Tables}
use auditspec.Core.EvidenceVault.Retirements.{
  sorted_set, check_claim_ids, check_retirement_schema, validate_retirement, replacement_is_valid,
}
use auditspec.Core.EvidenceVault.Fold.{apply}
use auditspec.Core.EvidenceVault.Replay.{EvidenceVault, VaultState, replay}
use auditspec.Core.EvidenceVault.Replay.Steps.{append_event-Appended, append_event-replay}
use auditspec.Core.EvidenceVault.Archiving.{
  the_component, check_replacement, certificate, retire_component,
}
use auditspec.Core.EvidenceVault.Deletion.{retention_allows, deletion_intent, delete_evidence}
use auditspec.Core.EvidenceVault.Holds.{active-member}
use auditspec.Core.EvidenceVault.Retention.Laws.{IsOpen}
use auditspec.Core.EvidenceVault.Commands.Recorded.{HonestSigner}
use auditspec.Core.EvidenceVault.Commands.Deleted.{deletion_intent-IsOpen}

-- What is deleted was open.
delete_evidence-IsOpen :
    (world : World) (v : EvidenceVault) (s : VaultState) (id at basis authority : String)
    {p : Event × EvidenceVault}
    → replay world v ≡ ok s
    → delete_evidence world id at basis authority v ≡ ok p
    → IsOpen s.tables id
unfolding delete_evidence
delete_evidence-IsOpen world v s id at basis authority hs h =
    let (c1, h1, k1) = >>=-eq-ok (instant world at) _ h in
    let (c2, h2, k2) = >>=-eq-ok (vault_identifier authority) _ k1 in
    let (c3, h3, k3) = >>=-eq-ok (retention_allows basis) _ k2 in
    let (t, h4, k4) = >>=-eq-ok (replay world v) _ k3 in
    let (body, h5, k5) = >>=-eq-ok (deletion_intent world id at basis authority t.tables v) _ k4 in
    let (o, known, e) = deletion_intent-IsOpen world id at basis authority t.tables v body h5 in
    subst (λ (x : VaultState). IsOpen x.tables id) (ok-injective t s (sym h4 ∙ hs)) o

-- Evidence under a hold that is not released cannot be deleted: for every basis, authority and
-- instant, `delete_evidence` raises.
pub delete_evidence-held :
    (world : World) (v : EvidenceVault) (s : VaultState) (hold_id : String) (hold : HoldState)
    (id at basis authority : String)
    → replay world v ≡ ok s
    → find hold_id s.tables.holds ≡ some hold
    → hold.released ≡ false
    → Member id hold.evidence_ids
    → (e : Error) × (delete_evidence world id at basis authority v ≡ err e)
delete_evidence-held world v s hold_id hold id at basis authority hs f u m =
    elim (Result-cases (delete_evidence world id at basis authority v)) [
      | inl (p, h) ↦
          let o = delete_evidence-IsOpen world v s id at basis authority hs h in
          absurd
            (subst (Member hold_id) o.not_held (active-member id hold_id s.tables.holds hold f u m))
      | inr r ↦ r
    ]

not-every-sorted_set :
    (xs : List String)
    → every is_identifier xs ≡ false
    → every is_identifier (sorted_set xs) ≡ false
unfolding sorted_set
not-every-sorted_set xs h = elim (Bool-cases (every is_identifier (sorted_set xs))) [
  | inl t ↦
      let (a, m, f) = not-every is_identifier xs h in
      let i =
        every-member is_identifier (sorted_set xs) t a
          (member-sort_by text_order (λ s. s) a (to_set xs) (member-to_set xs a m)) in
      cc
  | inr f ↦ f
]

check_claim_ids-not :
    (xs : List String) → every is_identifier xs ≡ false → check_claim_ids xs ≢ ok tt
unfolding check_claim_ids
check_claim_ids-not xs h e = ground arith

module _ (world : World) where
  validate_retirement-not :
      (t : Tables) (body : Retirement)
      → check_claim_ids body.impacted_claim_ids ≢ ok tt
      → validate_retirement world t.components body ≢ ok tt
  unfolding validate_retirement
  validate_retirement-not t body n h =
      let (c1, h1, k1) = >>=-eq-ok (check_retirement_schema world body) _ h in
      let (h2, k2) =
        require-eq-ok (replacement_is_valid t.components body.component_ref body.replacement_ref) _
          _ k1 in
      let (h3, k3) = require-eq-ok body.existing_contracts_reverify_before_retirement _ _ k2 in
      let (c4, h4, k4) = >>=-eq-ok (check_claim_ids body.impacted_claim_ids) _ k3 in n h4

  apply-not :
      (t : Tables) (body : Retirement) (root : String) {after : Tables}
      → check_claim_ids body.impacted_claim_ids ≢ ok tt
      → apply world (component_retired body) root t ≢ ok after
  unfolding apply
  apply-not t body root n h =
      let (h1, k1) = require-eq-ok (has body.component_ref t.components) _ _ h in
      let (c2, h2, k2) = >>=-eq-ok (validate_retirement world t.components body) _ k1 in
      validate_retirement-not t body n h2

  -- `retire_component` does not ask the impacted claims' ids to be identifiers, and the replay does:
  -- when it returns, with an id among them that is none and by a signer whose signatures verify, the
  -- vault that it leaves cannot be replayed any more.
  pub retire_component-bricks :
      (v after : EvidenceVault) (e : Event) (ref : String) (replacement : Option String)
      (impacted unsupported : List String) (at : String)
      → HonestSigner world v.signer
      → every is_identifier impacted ≡ false
      → retire_component world ref replacement impacted unsupported at v ≡ ok (e, after)
      → (raised : Error) × (replay world after ≡ err raised)
  unfolding retire_component rotate
  retire_component-bricks v after e ref replacement impacted unsupported at honest i h =
      let (c1, h1, k1) = >>=-eq-ok (instant world at) _ h in
      let (s, hs, k2) = >>=-eq-ok (replay world v) _ k1 in
      let (component, h3, k3) =
        >>=-eq-ok (the_component world (find ref s.tables.components)) _ k2 in
      let (h4, k4) = require-eq-ok _ _ _ k3 in
      let (c5, h5, k5) =
        >>=-eq-ok (check_replacement world s.tables ref component.kind replacement) _ k4 in
      let body = certificate world ref replacement impacted unsupported component at in
      let a = append_event-Appended world (component_retired body) at v e after k5 in
      let r =
        append_event-replay world (component_retired body) at v e after a
          (subst (HonestSigner world) a.has_signer honest) in
      elim (Result-cases (replay world after)) [
        | inr raised ↦ raised
        | inl (final, f) ↦
            let (t, h6, k6) =
              >>=-eq-ok (apply world (component_retired body) e.event_root a.before.tables) _
                (sym r ∙ f) in
            absurd (
              apply-not a.before.tables body e.event_root
                (check_claim_ids-not (sorted_set impacted) (not-every-sorted_set impacted i)) h6)
      ]
