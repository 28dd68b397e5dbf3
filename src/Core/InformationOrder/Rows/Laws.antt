-- ===== src/Core/InformationOrder/Rows/Laws.antt =====
-- What the checks of a catalog give.
use auditspec.Prelude.{ℕ, suc, ◌<◌, String, not, ◌≡◌, arith, length, ◌==◌}
use auditspec.Prelude.Int.{pos}
use auditspec.Prelude.Result.{information_order, ok, require-eq-ok, traverse, traverse-All}
use auditspec.Core.Value.{Value, int, obj, Fields, keys, members}
use auditspec.Core.InformationOrder.Closure.{Mechanism, Mechanisms}
use auditspec.Core.InformationOrder.Rows.{by_key, positive_cost, mechanism_row, mechanism_catalog}
use auditspec.Core.InformationOrder.Contract.Cost.{AllPositive}

positive_cost-pos : (v : Value) (n : ℕ) → positive_cost v ≡ ok n → 0 < n
unfolding positive_cost
positive_cost-pos (int (pos (suc k))) n h = ground arith
positive_cost-pos _ n h = cc

mechanism_row-pos :
    (entry : String × Value) (b : String × Mechanism) → mechanism_row entry ≡ ok b → 0 < b.1.cost
unfolding mechanism_row
mechanism_row-pos (id, obj row) b h = grind (arith, positive_cost-pos)
mechanism_row-pos (id, _) b h = ground arith

-- Every mechanism of a checked catalog has a positive cost.
pub mechanism_catalog-AllPositive :
    (fs : Fields) (ms : Mechanisms) → mechanism_catalog fs ≡ ok ms → AllPositive ms
unfolding mechanism_catalog
mechanism_catalog-AllPositive fs ms h =
    let (_, e) =
      require-eq-ok (not (length (keys fs) == 0)) (information_order "mechanism catalog is empty")
        (traverse mechanism_row (by_key (members fs))) h in
    traverse-All (λ (entry : String × Mechanism). 0 < entry.1.cost) mechanism_row mechanism_row-pos
      (by_key (members fs)) ms e
