-- ===== src/Core/InformationOrder/Contract.antt =====
-- `compile_minimum_contract` of src/auditspec/core/information_order.py: the exact search for a
-- dependency-closed hitting set of the claim-critical pairs, over checked rows and mechanisms.
-- Where the code names a pair by its digest (`pair_id`), the model keeps the pair.
pub mod Feasible
pub mod Cost
pub mod Pairs
pub mod Determines
pub mod Correct
pub mod Witnesses
pub mod Gap
pub mod Verdict
pub mod Compile
pub mod Exploration
mod Hypergraph
unfoldable pub use Hypergraph.*
mod SafeRange
pub use SafeRange.*
use auditspec.Prelude.{
  ℕ, zero, suc, ◌+◌, ◌^◌, String, Bool, true, false, not, ◌&&◌, ◌||◌, Option, none, some, List, [],
  ◌∷◌, ◌++◌, ◌≡◌, map, length, get_elem?, ltb, leb, ◌==◌, if◌then◌else◌, every, keep, first,
}
use auditspec.Prelude.Int.{ℤ, pos, negsuc}
use auditspec.Prelude.Text.{text_order, contains, ◌≟◌}
use auditspec.Prelude.Order.{Order, nat_order, list_order, pair_order, sort_by, min_by}
use auditspec.Prelude.Sets.{same_set}
use auditspec.Prelude.Combinations.{subsets}
use auditspec.Prelude.Result.{
  Result, ok, err, Error, information_order, value_error, ◌>>=◌, ◌>>◌, require, traverse,
}
use auditspec.Core.Value.{Value, Fields, str, py_eq}
use auditspec.Core.InformationOrder.Closure.{
  Mechanism, Mechanisms, mechanism_ids, Outcome, found, refused, out_of_fuel, dependency_closure,
}
use auditspec.Core.InformationOrder.Rows.{
  Observations, ContractRow, contract_rows, mechanism_catalog, identifier,
}

-- A row of `candidate_rows`; `sufficient` is `not missing`.
pub record Candidate : Type 0 where
  pub contract : List String
  pub missing : List CriticalPair
  pub cost : ℕ

abbrev pub is_empty {ℓ} : {A : Type ℓ} → List A → Bool
is_empty [] = true
is_empty (x ∷ xs) = false

abbrev pub sufficient : Candidate → Bool
sufficient c = is_empty c.missing

unfoldable pub candidate : Mechanisms → List CriticalPair → List String → Candidate
unfolding meets total_cost
candidate mechanisms pairs subset = record {
  contract = subset;
  missing = keep (λ pair. not (meets subset pair)) pairs;
  cost = total_cost mechanisms subset;
}

pub data Explored : Type 0 where
  capped : ℕ → Explored
  complete : List Candidate → ℕ → Explored

-- The two `for` loops over the subsets, with the limit on the states explored.
pub explore :
    Mechanisms → List CriticalPair → ℕ → ℕ → List (List String) → List Candidate → Explored
explore mechanisms pairs limit explored [] candidates = complete candidates explored
explore mechanisms pairs limit explored (subset ∷ rest) candidates = elim (leb limit explored) [
  | true ↦ capped explored
  | false ↦ explore mechanisms pairs limit (suc explored) rest (
      if closes mechanisms subset
      then candidates ++ candidate mechanisms pairs subset ∷ []
      else candidates)
]

abbrev pub Rank : Type 0
Rank = ℕ × (ℕ × List String)

abbrev pub rank_order : Order Rank
rank_order = pair_order nat_order (pair_order nat_order (list_order text_order))

-- The key of the tie break.
abbrev pub rank : Candidate → Rank
rank c = (c.cost, (length c.contract, c.contract))

pub data Deletion : Type 0 where
  dependency_nonclosure : String → Deletion
  unhit_pair : String → CriticalPair → Deletion

-- `min(ids)`, which raises on no element.
abbrev pub least : List String → Result String
least [] = err (value_error "min() arg is an empty sequence")
least (id ∷ ids) = ok (min_by text_order (λ s. s) id ids)

-- The least of the selected separators of a pair.
abbrev pub separator : List String → CriticalPair → Result String
separator selected pair = least (keep (contains pair.separators) selected)

abbrev pub without : String → List String → List String
without removed selected = keep (λ item. not (item ≟ removed)) selected

-- `next` of no element raises.
abbrev pub unhit : String → Option CriticalPair → Result Deletion
unhit removed none = err (value_error "StopIteration")
unhit removed (some pair) = ok (unhit_pair removed pair)

pub deletion : Mechanisms → List CriticalPair → List String → String → Result Deletion
unfolding closes meets
deletion mechanisms pairs selected removed =
    let reduced = without removed selected in
    if closes mechanisms reduced
    then unhit removed (first (λ pair. not (meets reduced pair)) pairs)
    else ok (dependency_nonclosure removed)

pub record Certificate : Type 0 where
  pub selected : List String
  pub selected_cost : ℕ
  pub separation : List String
  pub minimality : List Deletion
  pub lower_cost_candidate_count : ℕ
  pub all_lower_cost_candidates_infeasible : Bool
  pub full_contract_sufficient : Bool

pub data Status : Type 0 where
  contract : Certificate → Status
  evidence_gap : Option CriticalPair → Status
  analysis_incomplete : ℤ → ℕ → Status

pub certify :
    Mechanisms → List CriticalPair → List Candidate → Candidate → List Candidate → Result Status
unfolding deletion
certify mechanisms pairs candidates c cs = do
  let best = min_by rank_order rank c cs
  separation ← traverse (separator best.contract) pairs
  minimality ← traverse (deletion mechanisms pairs best.contract) best.contract
  let lower = keep (λ row. ltb row.cost best.cost) candidates
  ok (
      contract (record {
        selected = best.contract;
        selected_cost = best.cost;
        separation = separation;
        minimality = minimality;
        lower_cost_candidate_count = length lower;
        all_lower_cost_candidates_infeasible = every (λ row. not (sufficient row)) lower;
        full_contract_sufficient = every (meets (feasible_ids mechanisms)) pairs;
      }))

-- The two branches on `feasible`.
pub conclude : Mechanisms → List CriticalPair → List Candidate → List Candidate → Result Status
unfolding certify
conclude mechanisms pairs candidates [] =
    ok (evidence_gap (first (λ pair. is_empty pair.separators) pairs))
conclude mechanisms pairs candidates (c ∷ cs) = certify mechanisms pairs candidates c cs

unfoldable pub all_pairs : List ContractRow → Mechanisms → List CriticalPair
unfolding critical_pairs with_separators feasible_ids
all_pairs rows mechanisms =
    map (with_separators rows (feasible_ids mechanisms)) (critical_pairs rows)

-- `state_cap`, or the number of subsets.
abbrev pub state_limit : Mechanisms → Option ℤ → ℤ
state_limit mechanisms none = pos (2 ^ length (feasible_ids mechanisms))
state_limit mechanisms (some cap) = cap

-- The states below a limit: a limit that is negative leaves none.
abbrev pub allowed : ℤ → ℕ
allowed (pos n) = n
allowed (negsuc n) = 0

-- The integers of the two bodies that end in a root. The selected cost is one of the table's, and the
-- lower-cost candidates are no more than the states explored.
abbrev pub incomplete_integers : Mechanisms → ℤ → ℕ → List ℤ
incomplete_integers mechanisms limit explored = limit ∷ pos explored ∷ catalog_costs mechanisms

abbrev pub complete_integers : Mechanisms → List CriticalPair → List Candidate → ℕ → List ℤ
complete_integers mechanisms pairs candidates explored =
    pos explored
    ∷ pos (length pairs)
    ∷ (catalog_costs mechanisms ++ map (λ row. pos row.cost) candidates)

-- `_analysis_incomplete`, or the body after the loops.
pub finish : String → Mechanisms → List CriticalPair → ℤ → Explored → Result Status
unfolding conclude
finish claim_id mechanisms pairs limit (capped explored) = do
  digest (incomplete_integers mechanisms limit explored)
  ok (analysis_incomplete limit explored)
finish claim_id mechanisms pairs limit (complete candidates explored) = do
  _ ← identifier (str claim_id)
  status ← conclude mechanisms pairs candidates (keep sufficient candidates)
  digest (complete_integers mechanisms pairs candidates explored)
  ok status

unfoldable pub search : String → List ContractRow → Mechanisms → Option ℤ → Result Status
unfolding explore finish all_pairs
search claim_id rows mechanisms state_cap = do
  let pairs = all_pairs rows mechanisms
  let limit = state_limit mechanisms state_cap
  digest (pair_positions pairs)
  finish claim_id mechanisms pairs limit
      (explore mechanisms pairs (allowed limit) 0 (subsets (feasible_ids mechanisms)) [])

-- The certificate's tables, and what the search found.
pub record Analysis : Type 0 where
  pub claim_id : String
  pub rows : List ContractRow
  pub mechanisms : Mechanisms
  pub critical_pairs : List CriticalPair
  pub status : Status

unfoldable pub compile_minimum_contract : String → List Value → Fields → Option ℤ → Result Analysis
unfolding search
compile_minimum_contract claim_id rows mechanisms state_cap = do
  normalized_rows ← contract_rows rows mechanisms
  normalized_mechanisms ← mechanism_catalog mechanisms
  status ← search claim_id normalized_rows normalized_mechanisms state_cap
  ok (record {
    claim_id = claim_id;
    rows = normalized_rows;
    mechanisms = normalized_mechanisms;
    critical_pairs = all_pairs normalized_rows normalized_mechanisms;
    status = status;
  })
