-- ===== src/Core/InformationOrder/Contract/Witnesses.antt =====
-- The parts of a certificate, and the verdict of the whole search.
use auditspec.Prelude.{
  ℕ, ◌≤◌, String, Bool, true, false, not, List, [], ◌∷◌, ◌≡◌, refl, ap, ◌∙◌, inl, inr, arith,
  Member, length, every, every-member, every_of_member, keep, keep-member, member-keep, ltb, ltb→lt,
  first, first-some, first-none, Bool-cases, Option-cases,
}
use auditspec.Prelude.Text.{text_order, contains, contains-member, member-contains}
use auditspec.Prelude.Order.{min_by, min_by-member}
use auditspec.Prelude.Combinations.{Sublist-keep, Sublist-member}
use auditspec.Prelude.Result.{ok, Each, traverse-Each}
use auditspec.Core.InformationOrder.Closure.{Mechanisms}
use auditspec.Core.InformationOrder.Rows.{ContractRow}
use auditspec.Core.InformationOrder.Contract.{
  CriticalPair, Candidate, candidate, sufficient, closes, meets, total_cost, feasible_ids,
  all_pairs, rank_order, rank, least, separator, without, Deletion, dependency_nonclosure,
  unhit_pair, unhit, deletion, Certificate, contract, certify,
}
use auditspec.Core.InformationOrder.Contract.Feasible.{
  IsDependencyClosed, closes-IsDependencyClosed, IsDependencyClosed-closes,
}
use auditspec.Core.InformationOrder.Contract.Cost.{AllPositive, cost-without}
use auditspec.Core.InformationOrder.Contract.Determines.{
  hits, hits-Determines, meets-member, member-meets,
}
use auditspec.Core.InformationOrder.Contract.Correct.{
  IsContract, rank_of, table, IsBest, IsContract-hits, feasible-IsContract, min_by-IsBest,
}

least-returns :
    (ids : List String) (id : String)
    → Member id ids
    → (x : String) × (least ids ≡ ok x) × Member x ids
least-returns [] id m = absurd m
least-returns (y ∷ ids) id m =
    (min_by text_order (λ s. s) y ids, refl, min_by-member text_order (λ s. s) y ids)

-- A separator of a pair: selected, and seen to differ between the worlds of the pair.
abbrev pub IsSeparator : List String → CriticalPair → String → Type 0
IsSeparator selected pair id = Member id selected × Member id pair.separators

separator-returns :
    (selected : List String) (p : CriticalPair)
    → meets selected p ≡ true
    → (id : String) × (separator selected p ≡ ok id) × IsSeparator selected p id
separator-returns selected p h =
    let (id, m, s) = meets-member selected p h in
    let (x, e, k) =
      least-returns (keep (contains p.separators) selected) id
        (member-keep (contains p.separators) id selected m (member-contains p.separators id s)) in
    let (a, b) = keep-member (contains p.separators) x selected k in
    (x, e, (a, contains-member p.separators x b))

rank_le-cost :
    (ms : Mechanisms) (s t : List String)
    → rank_order.le (rank_of ms s) (rank_of ms t) ≡ true
    → total_cost ms s ≤ total_cost ms t
rank_le-cost ms s t h = first_part (total_cost ms s) (total_cost ms t) (length s, s) (length t, t) h
  where
    first_part : (a b : ℕ) (x y : ℕ × List String) → rank_order.le (a, x) (b, y) ≡ true → a ≤ b
    first_part a b x y h = ground arith

module _ (rows : List ContractRow) (ms : Mechanisms) where
  -- The witness that the certificate gives for a deletion holds.
  abbrev pub IsDeletionWitness : List String → String → Deletion → Type 0
  IsDeletionWitness selected id (dependency_nonclosure removed) =
      (removed ≡ id) × (¬ IsDependencyClosed ms (without id selected))
  IsDeletionWitness selected id (unhit_pair removed pair) =
      (removed ≡ id) × Member pair (all_pairs rows ms) × (meets (without id selected) pair ≡ false)

  -- Without one of its mechanisms the best contract is no contract.
  irredundant :
      (best : Candidate)
      → AllPositive ms
      → IsBest rows ms best
      → (id : String) → Member id best.contract
      → ¬ IsContract rows ms (without id best.contract)
  irredundant best h b id m c = omega (
    arith,
    rank_le-cost ms best.contract (without id best.contract) (b.least _ c),
    cost-without ms id best.contract h (Sublist-member b.chosen.listed id m) m,
  )

  some-unhit :
      (s : List String) (id : String)
      → hits rows ms s ≡ false
      → (p : CriticalPair) × (unhit id (first (λ pair. not (meets s pair)) (all_pairs rows ms))
          ≡ ok (unhit_pair id p))
        × Member p (all_pairs rows ms)
        × (meets s p ≡ false)
  some-unhit s id h = elim (Option-cases (first (λ pair. not (meets s pair)) (all_pairs rows ms))) [
    | inl e ↦
        let all =
          every_of_member (meets s) (all_pairs rows ms)
            (λ p m. positive _ (first-none (λ pair. not (meets s pair)) _ e p m)) in
        absurd (cc (h, all))
    | inr (p, e) ↦
        let (m, n) = first-some (λ pair. not (meets s pair)) _ e in
        (p, ap (unhit id) e, m, negative _ n)
  ]
    where
      positive : (b : Bool) → not b ≡ false → b ≡ true
      positive b e = ground arith

      negative : (b : Bool) → not b ≡ true → b ≡ false
      negative b e = ground arith

  deletion_closed :
      (s : List String) (id : String)
      → closes ms (without id s) ≡ true
      → deletion ms (all_pairs rows ms) s id
        ≡ unhit id (first (λ pair. not (meets (without id s) pair)) (all_pairs rows ms))
  unfolding deletion
  deletion_closed s id h = rw h

  deletion_open :
      (s : List String) (id : String)
      → closes ms (without id s) ≡ false
      → deletion ms (all_pairs rows ms) s id ≡ ok (dependency_nonclosure id)
  unfolding deletion
  deletion_open s id h = rw h

  deletion-returns :
      (best : Candidate)
      → AllPositive ms
      → IsBest rows ms best
      → (id : String) → Member id best.contract
      → (d : Deletion) × (deletion ms (all_pairs rows ms) best.contract id ≡ ok d)
        × IsDeletionWitness best.contract id d
  deletion-returns best h b id m = elim (Bool-cases (closes ms (without id best.contract))) [
    | inr f ↦ (
      dependency_nonclosure id,
      deletion_open best.contract id f,
      (refl, λ c. cc (f, IsDependencyClosed-closes ms (without id best.contract) c)),
    )
    | inl t ↦ elim (Bool-cases (hits rows ms (without id best.contract))) [
      | inl y ↦
          let c : IsContract rows ms (without id best.contract) = record {
            listed = Sublist-keep _ b.chosen.listed;
            closed = closes-IsDependencyClosed ms _ t;
            determines = hits-Determines rows ms _ y;
          } in
          absurd (irredundant best h b id m c)
      | inr n ↦
          let (p, e, pm, u) = some-unhit (without id best.contract) id n in
          (unhit_pair id p, deletion_closed best.contract id t ∙ e, (refl, pm, u))
    ]
  ]

  -- A correct certificate: the contract is valid, least and irredundant, and every witness holds.
  pub record IsCertificate (c : Certificate) : Type 0 where
    pub chosen : IsContract rows ms c.selected
    pub cost : c.selected_cost ≡ total_cost ms c.selected
    pub least :
        (s : List String)
        → IsContract rows ms s
        → rank_order.le (rank_of ms c.selected) (rank_of ms s) ≡ true
    pub separated : Each (IsSeparator c.selected) (all_pairs rows ms) c.separation
    pub irredundant :
        (id : String) → Member id c.selected → ¬ IsContract rows ms (without id c.selected)
    pub deletions : Each (IsDeletionWitness c.selected) c.selected c.minimality
    pub optimal : c.all_lower_cost_candidates_infeasible ≡ true
    pub full : c.full_contract_sufficient ≡ true

  lower-infeasible :
      (best : Candidate)
      → IsBest rows ms best
      → every (λ row. not (sufficient row)) (keep (λ row. ltb row.cost best.cost) (table rows ms))
        ≡ true
  unfolding candidate
  lower-infeasible best b =
      every_of_member (λ row. not (sufficient row)) _
        λ c m.
          let (t, lt) =
            keep-member (λ (row : Candidate). ltb row.cost best.cost) c (table rows ms) m in
          elim (Bool-cases (sufficient c)) [
            | inr f ↦ rw f
            | inl s ↦
                let (x, k, e) =
                  feasible-IsContract rows ms c (member-keep sufficient c (table rows ms) t s) in
                let le = rank_le-cost ms best.contract x (b.least x k) in
                let same : c.cost ≡ total_cost ms x = ap (λ (y : Candidate). y.cost) e in
                absurd (omega (arith, b.cost, ltb→lt _ _ lt))
          ]

  full-sufficient :
      (s : List String)
      → IsContract rows ms s
      → every (meets (feasible_ids ms)) (all_pairs rows ms) ≡ true
  full-sufficient s c = every_of_member (meets (feasible_ids ms)) (all_pairs rows ms) λ p m.
      let met = every-member (meets s) (all_pairs rows ms) (IsContract-hits rows ms s c) p m in
      let (id, k, sep) = meets-member s p met in
      member-meets (feasible_ids ms) p id (Sublist-member c.listed id k) sep

  pub certify-IsCertificate :
      (c : Candidate) (cs : List Candidate)
      → AllPositive ms
      → keep sufficient (table rows ms) ≡ c ∷ cs
      → (cert : Certificate) × (certify ms (all_pairs rows ms) (table rows ms) c cs
          ≡ ok (contract cert))
        × IsCertificate cert
  unfolding certify
  certify-IsCertificate c cs h e =
      let best = min_by rank_order rank c cs in
      let b = min_by-IsBest rows ms c cs e in
      let (seps, p, ps) =
        traverse-Each (IsSeparator best.contract) (separator best.contract) (all_pairs rows ms)
          (λ pair m. separator-returns best.contract pair (
            every-member (meets best.contract) (all_pairs rows ms)
              (IsContract-hits rows ms best.contract b.chosen) pair m)) in
      let (dels, q, qs) =
        traverse-Each (IsDeletionWitness best.contract)
          (deletion ms (all_pairs rows ms) best.contract) best.contract
          (deletion-returns best h b) in
      (
        record {
          selected = best.contract;
          selected_cost = best.cost;
          separation = seps;
          minimality = dels;
          lower_cost_candidate_count =
              length (keep (λ row. ltb row.cost best.cost) (table rows ms));
          all_lower_cost_candidates_infeasible =
              every (λ row. not (sufficient row))
                (keep (λ row. ltb row.cost best.cost) (table rows ms));
          full_contract_sufficient = every (meets (feasible_ids ms)) (all_pairs rows ms);
        },
        rw (p, q),
        record {
          chosen = b.chosen;
          cost = b.cost;
          least = b.least;
          separated = ps;
          irredundant = irredundant best h b;
          deletions = qs;
          optimal = lower-infeasible best b;
          full = full-sufficient best.contract b.chosen;
        },
      )
