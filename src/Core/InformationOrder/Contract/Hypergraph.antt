-- ===== src/Core/InformationOrder/Contract/Hypergraph.antt =====
-- The critical pairs, the feasible mechanisms that separate them, and the tests of a subset:
-- `_critical_pairs` and the beginning of `compile_minimum_contract` of
-- src/auditspec/core/information_order.py.
use auditspec.Prelude.{
  ℕ, suc, ◌+◌, String, Bool, true, false, not, Option, none, some, List, [], ◌∷◌, ◌++◌, get_elem?,
  if◌then◌else◌, every, keep,
}
use auditspec.Prelude.Text.{text_order, contains, ◌≟◌}
use auditspec.Prelude.Order.{sort_by}
use auditspec.Prelude.Sets.{same_set}
use auditspec.Core.Value.{Value, py_eq}
use auditspec.Core.InformationOrder.Closure.{
  Mechanisms, Outcome, found, refused, out_of_fuel, dependency_closure,
}
use auditspec.Core.InformationOrder.Rows.{Observations, ContractRow}

-- `_critical_pairs`, with the separators that `compile_minimum_contract` adds.
pub record CriticalPair : Type 0 where
  pub left_index : ℕ
  pub right_index : ℕ
  pub left_world_id : String
  pub right_world_id : String
  pub left_claim_value : Value
  pub right_claim_value : Value
  pub separators : List String

abbrev pub critical_pair : ℕ → ContractRow → ℕ → ContractRow → CriticalPair
critical_pair i left j right = record {
  left_index = i;
  right_index = j;
  left_world_id = left.world_id;
  right_world_id = right.world_id;
  left_claim_value = left.claim_value;
  right_claim_value = right.claim_value;
  separators = [];
}

-- The pairs of the row at `i` with the rows from `j` on.
unfoldable pub pairs_with : ℕ → ContractRow → ℕ → List ContractRow → List CriticalPair
pairs_with i left j [] = []
pairs_with i left j (right ∷ rows) =
    let rest = pairs_with i left (suc j) rows in
    if py_eq left.claim_value right.claim_value then rest else critical_pair i left j right ∷ rest

unfoldable pub pairs_from : ℕ → List ContractRow → List CriticalPair
pairs_from i [] = []
pairs_from i (row ∷ rows) = pairs_with i row (suc i) rows ++ pairs_from (suc i) rows

unfoldable pub critical_pairs : List ContractRow → List CriticalPair
unfolding pairs_with pairs_from
critical_pairs rows = pairs_from 0 rows

-- `observations[mechanism_id]`; each row has an observation of every mechanism.
unfoldable pub observed : String → Observations → Option Value
observed id [] = none
observed id ((k, v) ∷ observations) = if k ≟ id then some v else observed id observations

abbrev pub same_observation : Option Value → Option Value → Bool
same_observation (some v) (some w) = py_eq v w
same_observation none none = true
same_observation _ _ = false

abbrev pub row_observed : List ContractRow → ℕ → String → Option Value
row_observed rows i id = elim (get_elem? rows i) [
  | none ↦ none
  | some row ↦ observed id row.observations
]

unfoldable pub separates : List ContractRow → CriticalPair → String → Bool
separates rows pair id = not (
    same_observation (row_observed rows pair.left_index id) (row_observed rows pair.right_index id))

unfoldable pub with_separators : List ContractRow → List String → CriticalPair → CriticalPair
unfolding separates
with_separators rows feasible pair = record pair {
  separators = sort_by text_order (λ s. s) (keep (separates rows pair) feasible);
}

abbrev pub is_found : Outcome → Bool
is_found (found _) = true
is_found _ = false

-- The set comprehension `admissible`.
unfoldable pub admissible_ids : Mechanisms → List String
admissible_ids [] = []
admissible_ids ((k, m) ∷ ms) =
    let rest = admissible_ids ms in if m.admissible then k ∷ rest else rest

-- `tuple(sorted(feasible_mechanisms))`
unfoldable pub feasible_ids : Mechanisms → List String
feasible_ids mechanisms =
    sort_by text_order (λ s. s)
      (keep (λ id. is_found (dependency_closure mechanisms (admissible_ids mechanisms) (id ∷ [])))
        (admissible_ids mechanisms))

-- `normalized_mechanisms[item]["cost"]`
unfoldable pub cost_of : Mechanisms → String → ℕ
cost_of [] id = 0
cost_of ((k, m) ∷ ms) id = if k ≟ id then m.cost else cost_of ms id

unfoldable pub total_cost : Mechanisms → List String → ℕ
unfolding cost_of
total_cost ms [] = 0
total_cost ms (id ∷ ids) = cost_of ms id + total_cost ms ids

-- `set(subset) & set(pair["separators"])` is not empty.
unfoldable pub meets : List String → CriticalPair → Bool
meets subset pair = not (every (λ id. not (contains pair.separators id)) subset)

-- `_dependency_closure(subset, ...) == set(subset)`
unfoldable pub closes : Mechanisms → List String → Bool
closes mechanisms subset = elim (dependency_closure mechanisms (admissible_ids mechanisms) subset) [
  | found closure ↦ same_set closure subset
  | refused ↦ false
  | out_of_fuel ↦ false
]
