-- ===== src/Core/Wire/Tests.antt =====
-- A map from texts to lists of integers.
use auditspec.Prelude.{◌≤◌, ◌≡◌, ◌↔◌}
use auditspec.Prelude.Result.{ok}
use auditspec.Core.Value.{Value}
use auditspec.Core.Wire.{TypeNode, scalar, list, map, from_wire, to_wire}
use auditspec.Core.Wire.RoundTrip.{IsType, height, from_wire-to_wire}

abbrev table : TypeNode
table = map (scalar "string") (list (scalar "integer"))

from_wire-to_wire_example :
    ((IsType table × (height table ≤ 32)) ↔ (from_wire (to_wire table) ≡ ok table))
    × ((v : Value) → from_wire v ≡ ok table → from_wire (to_wire table) ≡ ok table)
from_wire-to_wire_example = from_wire-to_wire table
