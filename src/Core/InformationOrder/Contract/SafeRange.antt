-- ===== src/Core/InformationOrder/Contract/SafeRange.antt =====
-- The integers of a certificate. `digest` of src/auditspec/core/canonical.py writes them as I-JSON,
-- which has none beyond 2 ** 53 - 1; the texts and the values in a certificate passed their checks.
use auditspec.Prelude.{Bool, List, [], ◌∷◌, map, leb, every}
use auditspec.Prelude.Int.{ℤ, pos, abs_ℤ}
use auditspec.Prelude.Result.{Result, Error, canonicalization, require}
use auditspec.Core.Canonical.{ijson_max}
use auditspec.Core.InformationOrder.Closure.{Mechanisms}
use auditspec.Core.InformationOrder.Contract.Hypergraph.{CriticalPair}

abbrev pub in_safe_range : ℤ → Bool
in_safe_range n = leb (abs_ℤ n) ijson_max

abbrev pub out_of_safe_range : Error
out_of_safe_range = canonicalization "integer is outside the I-JSON safe range"

-- `digest(schema, body)`, for a body that holds these integers.
abbrev pub digest : List ℤ → Result (Unit {0})
digest numbers = require (every in_safe_range numbers) out_of_safe_range

-- The positions in the pairs, which `_critical_pairs` digests.
abbrev pub pair_positions : List CriticalPair → List ℤ
pair_positions [] = []
pair_positions (pair ∷ pairs) = pos pair.left_index ∷ pos pair.right_index ∷ pair_positions pairs

-- The costs in the table of the mechanisms, admissible or not.
abbrev pub catalog_costs : Mechanisms → List ℤ
catalog_costs mechanisms = map (λ entry. pos entry.1.cost) mechanisms
