-- ===== src/Core/InformationOrder/Contract/Correct.antt =====
-- The search is exact: a certificate names the least contract with valid witnesses, a gap comes with
-- an obstruction, and only a limit below the number of subsets leaves the analysis incomplete.
use mathlib.Core.Path.{subst}
use auditspec.Prelude.{
  String, Bool, true, not, List, [], ◌∷◌, ◌≡◌, refl, sym, ap, ◌∙◌, inl, inr, Member, length, every,
  keep, keep-member, member-keep, map-member, member-map, Bool-cases,
}
use auditspec.Prelude.Order.{min_by, min_by-member, min_by-le}
use auditspec.Prelude.Combinations.{Sublist, subsets, subsets-member, member-subsets}
use auditspec.Core.InformationOrder.Closure.{Mechanisms}
use auditspec.Core.InformationOrder.Rows.{ContractRow}
use auditspec.Core.InformationOrder.Contract.{
  CriticalPair, Candidate, candidate, sufficient, is_empty, closes, meets, total_cost, feasible_ids,
  all_pairs, Rank, rank, rank_order,
}
use auditspec.Core.InformationOrder.Contract.Feasible.{
  IsDependencyClosed, closes-IsDependencyClosed, IsDependencyClosed-closes,
}
use auditspec.Core.InformationOrder.Contract.Determines.{
  Determines, hits, hits-Determines, Determines-hits,
}
use auditspec.Core.InformationOrder.Contract.Exploration.{evaluated}
use auditspec.Prelude.Combinations.{Sublist-member}

-- A contract: feasible mechanisms that are closed under requirements and determine the claim.
pub record IsContract (rows : List ContractRow) (ms : Mechanisms) (s : List String) : Type 0 where
  pub listed : Sublist s (feasible_ids ms)
  pub closed : IsDependencyClosed ms s
  pub determines : Determines rows s

-- Cost, then size, then identifiers.
abbrev pub rank_of : Mechanisms → List String → Rank
rank_of ms s = (total_cost ms s, (length s, s))

is_empty-keep :
    (test : CriticalPair → Bool) (pairs : List CriticalPair)
    → is_empty (keep (λ p. not (test p)) pairs) ≡ every test pairs
is_empty-keep test [] = refl
is_empty-keep test (p ∷ pairs) = elim (Bool-cases (test p)) [
  | inl t ↦ rw t (is_empty-keep test pairs)
  | inr f ↦ rw f
]

module _ (rows : List ContractRow) (ms : Mechanisms) where
  abbrev pub table : List Candidate
  table = evaluated ms (all_pairs rows ms) (subsets (feasible_ids ms))

  sufficient-candidate :
      (s : List String) → sufficient (candidate ms (all_pairs rows ms) s) ≡ hits rows ms s
  unfolding candidate
  sufficient-candidate s = is_empty-keep (meets s) (all_pairs rows ms)

  pub member-table :
      (s : List String)
      → Sublist s (feasible_ids ms)
      → closes ms s ≡ true
      → Member (candidate ms (all_pairs rows ms) s) table
  member-table s l c =
      member-map (candidate ms (all_pairs rows ms)) s _
        (member-keep (closes ms) s _ (member-subsets l) c)

  table-member :
      (c : Candidate)
      → Member c table
      → (s : List String) × Sublist s (feasible_ids ms)
        × (closes ms s ≡ true)
        × (c ≡ candidate ms (all_pairs rows ms) s)
  table-member c m =
      let (s, k, e) = map-member (candidate ms (all_pairs rows ms)) c _ m in
      let (sub, cl) = keep-member (closes ms) s _ k in
      (s, subsets-member (feasible_ids ms) s sub, cl, e)

  -- The sufficient rows of the table are the contracts.
  pub feasible-IsContract :
      (c : Candidate)
      → Member c (keep sufficient table)
      → (s : List String) × IsContract rows ms s × (c ≡ candidate ms (all_pairs rows ms) s)
  feasible-IsContract c m =
      let (t, ok) = keep-member sufficient c table m in
      let (s, l, cl, e) = table-member c t in
      (
        s,
        record {
          listed = l;
          closed = closes-IsDependencyClosed ms s cl;
          determines =
              hits-Determines rows ms s (sym (sufficient-candidate s) ∙ ap sufficient (sym e) ∙ ok);
        },
        e,
      )

  pub IsContract-hits : (s : List String) → IsContract rows ms s → hits rows ms s ≡ true
  IsContract-hits s c = Determines-hits rows ms s (Sublist-member c.listed) c.determines

  pub IsContract-feasible :
      (s : List String)
      → IsContract rows ms s
      → Member (candidate ms (all_pairs rows ms) s) (keep sufficient table)
  IsContract-feasible s c =
      member-keep sufficient _ table
        (member-table s c.listed (IsDependencyClosed-closes ms s c.closed))
        (sufficient-candidate s ∙ IsContract-hits s c)

  -- What the choice of the least row gives.
  pub record IsBest (best : Candidate) : Type 0 where
    pub chosen : IsContract rows ms best.contract
    pub cost : best.cost ≡ total_cost ms best.contract
    pub least :
        (s : List String)
        → IsContract rows ms s
        → rank_order.le (rank_of ms best.contract) (rank_of ms s) ≡ true

  IsBest-of_candidate :
      (s : List String) (best : Candidate)
      → best ≡ candidate ms (all_pairs rows ms) s
      → IsContract rows ms s
      → ((t : List String) → IsContract rows ms t → rank_order.le (rank best) (rank_of ms t) ≡ true)
      → IsBest best
  unfolding candidate
  IsBest-of_candidate s best e c least = subst IsBest (sym e) (record {
    chosen = c;
    cost = refl;
    least = λ t k. subst (λ b. rank_order.le (rank b) (rank_of ms t) ≡ true) e (least t k);
  })

  pub min_by-IsBest :
      (c : Candidate) (cs : List Candidate)
      → keep sufficient table ≡ c ∷ cs
      → IsBest (min_by rank_order rank c cs)
  unfolding candidate
  min_by-IsBest c cs e =
      let (s, k, f) =
        feasible-IsContract (min_by rank_order rank c cs)
          (subst (Member _) (sym e) (min_by-member rank_order rank c cs)) in
      IsBest-of_candidate s _ f k λ t kt.
        min_by-le rank_order rank c cs (candidate ms (all_pairs rows ms) t)
          (subst (Member _) e (IsContract-feasible t kt))
