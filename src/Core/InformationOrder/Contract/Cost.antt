-- ===== src/Core/InformationOrder/Contract/Cost.antt =====
-- The cost of a set: positive for each mechanism of a checked catalog, and less after a deletion.
use auditspec.Prelude.{
  ◌<◌, ◌≤◌, String, List, [], ◌∷◌, sym, inl, inr, arith, Member, All, Bool-cases, &&-left,
}
use auditspec.Prelude.Text.{◌≟◌, eq→≟, contains-member}
use auditspec.Core.InformationOrder.Closure.{Mechanisms, mechanism_ids}
use auditspec.Core.InformationOrder.Contract.{feasible_ids, cost_of, total_cost, without}
use auditspec.Core.InformationOrder.Contract.Feasible.{feasible-IsDependencyClosed}

abbrev pub AllPositive : Mechanisms → Type 0
AllPositive = All (λ entry. 0 < entry.1.cost)

cost_of-pos :
    (ms : Mechanisms) (id : String)
    → AllPositive ms
    → Member id (mechanism_ids ms)
    → 0 < cost_of ms id
unfolding cost_of
cost_of-pos [] id h m = absurd m
cost_of-pos ((k, x) ∷ ms) id h (inl e) = rw (eq→≟ k id (sym e)) h.0
cost_of-pos ((k, x) ∷ ms) id h (inr m) = elim (Bool-cases (k ≟ id)) [
  | inl t ↦ rw t h.0
  | inr f ↦ rw f (cost_of-pos ms id h.1 m)
]

total_cost-without_le :
    (ms : Mechanisms) (r : String) (s : List String) → total_cost ms (without r s) ≤ total_cost ms s
unfolding total_cost
total_cost-without_le ms r [] = omega arith
total_cost-without_le ms r (x ∷ s) = elim (Bool-cases (x ≟ r)) [
  | inl t ↦ rw t (omega (arith, total_cost-without_le ms r s))
  | inr f ↦ rw f (omega (arith, total_cost-without_le ms r s))
]

total_cost-without_lt :
    (ms : Mechanisms) (r : String) (s : List String)
    → Member r s
    → 0 < cost_of ms r
    → total_cost ms (without r s) < total_cost ms s
unfolding total_cost
total_cost-without_lt ms r [] m h = absurd m
total_cost-without_lt ms r (x ∷ s) (inl e) h =
    rw (eq→≟ x r (sym e), ← e) (omega (arith, total_cost-without_le ms r s))
total_cost-without_lt ms r (x ∷ s) (inr m) h = elim (Bool-cases (x ≟ r)) [
  | inl t ↦ rw t (omega (arith, total_cost-without_lt ms r s m h))
  | inr f ↦ rw f (omega (arith, total_cost-without_lt ms r s m h))
]

feasible-mechanism :
    (ms : Mechanisms) (id : String) → Member id (feasible_ids ms) → Member id (mechanism_ids ms)
feasible-mechanism ms id m =
    contains-member (mechanism_ids ms) id (&&-left _ _ ((feasible-IsDependencyClosed ms).0 id m))

-- Dropping a feasible mechanism from a set that holds it makes the set cheaper.
pub cost-without :
    (ms : Mechanisms) (r : String) (s : List String)
    → AllPositive ms
    → Member r (feasible_ids ms)
    → Member r s
    → total_cost ms (without r s) < total_cost ms s
cost-without ms r s h f m =
    total_cost-without_lt ms r s m (cost_of-pos ms r h (feasible-mechanism ms r f))
