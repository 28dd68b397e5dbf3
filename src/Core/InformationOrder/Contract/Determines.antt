-- ===== src/Core/InformationOrder/Contract/Determines.antt =====
-- Hitting every critical pair is the same as determining the claim.
use mathlib.Core.Path.{subst, ap₂}
use auditspec.Prelude.{
  ℕ, ◌<◌, String, Bool, true, false, not, Option, none, some, List, ◌≡◌, sym, ap, ◌∙◌, ◌↔◌, inl,
  inr, arith, Member, get_elem?, every, every-member, every_of_member, not-every, keep-member,
  member-keep, map-member, member-map, Bool-cases,
}
use auditspec.Prelude.Text.{text_order, contains, contains-member, member-contains}
use auditspec.Prelude.Order.{sort_by-member, member-sort_by}
use auditspec.Core.Value.{py_eq}
use auditspec.Core.InformationOrder.Closure.{Mechanisms}
use auditspec.Core.InformationOrder.Rows.{ContractRow}
use auditspec.Core.InformationOrder.Contract.{
  CriticalPair, critical_pair, critical_pairs, observed, same_observation, row_observed, separates,
  with_separators, feasible_ids, meets, all_pairs,
}
use auditspec.Core.InformationOrder.Contract.Pairs.{
  Critical, critical_pairs-member, member-critical_pairs,
}

abbrev pub same_at : ContractRow → ContractRow → String → Bool
same_at r s id = same_observation (observed id r.observations) (observed id s.observations)

-- Two worlds look alike to every mechanism of the set.
abbrev pub agree : List String → ContractRow → ContractRow → Bool
agree selected r s = every (same_at r s) selected

-- Worlds that look alike have equal claims: the claim is a function of what is observed.
abbrev pub Determines : List ContractRow → List String → Type 0
Determines rows selected =
    (a b : ℕ) (r s : ContractRow)
    → a < b
    → get_elem? rows a ≡ some r
    → get_elem? rows b ≡ some s
    → agree selected r s ≡ true
    → py_eq r.claim_value s.claim_value ≡ true

abbrev pub hits : List ContractRow → Mechanisms → List String → Bool
hits rows ms selected = every (meets selected) (all_pairs rows ms)

row_observed-some :
    (rows : List ContractRow) (a : ℕ) (r : ContractRow) (id : String)
    → get_elem? rows a ≡ some r
    → row_observed rows a id ≡ observed id r.observations
row_observed-some rows a r id g =
    ap
      (λ (o : Option ContractRow). elim o [ none ↦ none | some row ↦ observed id row.observations ])
      g

pub separates-pair :
    (rows : List ContractRow) (a b : ℕ) (r s : ContractRow) (id : String)
    → get_elem? rows a ≡ some r
    → get_elem? rows b ≡ some s
    → separates rows (critical_pair a r b s) id ≡ not (same_at r s id)
unfolding separates
separates-pair rows a b r s id g h =
    ap₂ (λ x y. not (same_observation x y)) (row_observed-some rows a r id g)
      (row_observed-some rows b s id h)

-- A set meets a pair by one of its elements that separates the pair.
pub meets-member :
    (selected : List String) (p : CriticalPair)
    → meets selected p ≡ true
    → (id : String) × Member id selected × Member id p.separators
unfolding meets
meets-member selected p h =
    let (id, m, f) = not-every (λ id. not (contains p.separators id)) selected (not_true _ h) in
    (id, m, contains-member p.separators id (not_false _ f))
  where
    not_true : (b : Bool) → not b ≡ true → b ≡ false
    not_true b e = ground arith

    not_false : (b : Bool) → not b ≡ false → b ≡ true
    not_false b e = ground arith

pub member-meets :
    (selected : List String) (p : CriticalPair) (id : String)
    → Member id selected
    → Member id p.separators
    → meets selected p ≡ true
unfolding meets
member-meets selected p id m s =
    elim (Bool-cases (every (λ id. not (contains p.separators id)) selected)) [
      | inl t ↦
          let f = every-member (λ id. not (contains p.separators id)) selected t id m in
          absurd (differ (contains p.separators id) f (member-contains p.separators id s))
      | inr f ↦ rw f
    ]
  where
    differ : (b : Bool) → not b ≡ true → b ≡ true → ⊥
    differ b e f = ground arith

module _ (rows : List ContractRow) (ms : Mechanisms) where
  pub separator_iff :
      (p : CriticalPair) (id : String)
      → Member id (with_separators rows (feasible_ids ms) p).separators
        ↔ (Member id (feasible_ids ms) × (separates rows p id ≡ true))
  unfolding with_separators
  separator_iff p id = (
    λ m.
        keep-member (separates rows p) id (feasible_ids ms)
          (sort_by-member text_order (λ s. s) id _ m),
    λ (f, t).
        member-sort_by text_order (λ s. s) id _
          (member-keep (separates rows p) id (feasible_ids ms) f t),
  )

  pub hits-Determines :
      (selected : List String) → hits rows ms selected ≡ true → Determines rows selected
  unfolding all_pairs
  hits-Determines selected h a b r s lt g k alike =
      elim (Bool-cases (py_eq r.claim_value s.claim_value)) [
        | inl t ↦ t
        | inr f ↦
            let pair = critical_pair a r b s in
            let c : Critical rows a b r s = record {
              before = lt;
              left = g;
              right = k;
              claims = f;
            } in
            let met =
              every-member (meets selected) (all_pairs rows ms) h
                (with_separators rows (feasible_ids ms) pair)
                (member-map (with_separators rows (feasible_ids ms)) pair (critical_pairs rows)
                  (member-critical_pairs rows a b r s c)) in
            let (id, m, sep) =
              meets-member selected (with_separators rows (feasible_ids ms) pair) met in
            let same = every-member (same_at r s) selected alike id m in
            let differs = ((separator_iff pair id).0 sep).1 in
            cc (separates-pair rows a b r s id g k, differs, same)
      ]

  pub Determines-hits :
      (selected : List String)
      → ((id : String) → Member id selected → Member id (feasible_ids ms))
      → Determines rows selected
      → hits rows ms selected ≡ true
  unfolding all_pairs
  Determines-hits selected inside d = every_of_member (meets selected) (all_pairs rows ms) λ q m.
      let (p, pm, e) =
        map-member (with_separators rows (feasible_ids ms)) q (critical_pairs rows) m in
      let (a, b, r, s, c, f) = critical_pairs-member rows p pm in
      subst (λ x. meets selected x ≡ true) (sym e)
        (elim (Bool-cases (agree selected r s)) [
          | inl alike ↦ cc (c.claims, d a b r s c.before c.left c.right alike)
          | inr other ↦
              let (id, im, o) = not-every (same_at r s) selected other in
              member-meets selected _ id im (
                (separator_iff p id).1
                  (inside id im, rw f (separates-pair rows a b r s id c.left c.right ∙ ap not o)))
        ])

  -- A selection of feasible mechanisms hits every critical pair exactly when worlds that it observes
  -- alike have equal claims.
  pub hits_iff :
      (selected : List String)
      → ((id : String) → Member id selected → Member id (feasible_ids ms))
      → (hits rows ms selected ≡ true) ↔ Determines rows selected
  hits_iff selected inside = (hits-Determines selected, Determines-hits selected inside)
