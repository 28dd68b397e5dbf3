-- ===== src/Core/Wire/Decimal.antt =====
-- src/auditspec/core/wire.py: ExactDecimal, its wire form and its sum.
pub mod Reduced
pub mod Sum
pub mod Unique
mod Tests
use auditspec.Prelude.{
  ℕ, zero, suc, ◌+◌, ◌-◌, ◌*◌, ◌/◌, ◌%◌, ◌^◌, String, Bool, true, false, not, ◌&&◌, List, [], ◌∷◌,
  leb, ◌==◌, if◌then◌else◌,
}
use auditspec.Prelude.Int.{ℤ, pos, negsuc, ◌+ℤ◌, ◌*ℤ◌, ◌==ℤ◌, abs_ℤ}
use auditspec.Prelude.Result.{Result, ok, err, Error, wire_error, require, ◌>>=◌, ◌>>◌}
use auditspec.Core.Canonical.{ijson_max}
use auditspec.Core.Value.{Value, int, obj, Fields, end, field, get}
use auditspec.Core.Wire.{require_exact_keys, present}

pub record ExactDecimal : Type 0 where
  pub coefficient : ℤ
  pub scale : ℕ

-- `value % 10`
abbrev pub mod_ten : ℤ → ℕ
mod_ten (pos n) = n % 10
mod_ten (negsuc n) = 9 - n % 10

-- `value // 10`
abbrev pub div_ten : ℤ → ℤ
div_ten (pos n) = pos (n / 10)
div_ten (negsuc n) = negsuc (n / 10)

abbrev pub not_an_integer : Error
not_an_integer = wire_error "value must be an integer"

abbrev pub out_of_range : Error
out_of_range = wire_error "value is outside the Core integer range"

-- `require_int` on an integer, and with `nonnegative=True`.
unfoldable pub require_int : ℤ → Result ℤ
require_int n = if leb (abs_ℤ n) ijson_max then ok n else err out_of_range

unfoldable pub require_natural : ℤ → Result ℕ
require_natural (pos n) = if leb n ijson_max then ok n else err out_of_range
require_natural (negsuc n) = err out_of_range

-- `scale == 0 or coefficient % 10 != 0`
abbrev pub is_normal : ExactDecimal → Bool
is_normal d = not (not (d.scale == 0) && mod_ten d.coefficient == 0)

-- `ExactDecimal(coefficient, scale)`
unfoldable pub exact_decimal : ℤ → ℤ → Result ExactDecimal
unfolding require_int require_natural
exact_decimal coefficient scale = do
  c ← require_int coefficient
  n ← require_natural scale
  let d : ExactDecimal = record { coefficient = c; scale = n }
  require (is_normal d) (wire_error "decimal is not normalized")
  ok d

-- The loop that `parse` and `__add__` share.
unfoldable pub reduce : ℤ → ℕ → ExactDecimal
reduce c zero = record { coefficient = c; scale = 0 }
reduce c (suc scale) =
    let rest = reduce (div_ten c) scale in
    if mod_ten c == 0 then rest else record { coefficient = c; scale = suc scale }

-- `a.coefficient * 10 ** (scale - a.scale)`
abbrev pub scaled : ExactDecimal → ℕ → ℤ
scaled a scale = a.coefficient *ℤ pos (10 ^ (scale - a.scale))

abbrev pub max_ℕ : ℕ → ℕ → ℕ
max_ℕ a b = if leb a b then b else a

-- `a + b`
unfoldable pub decimal_sum : ExactDecimal → ExactDecimal → Result ExactDecimal
unfolding reduce exact_decimal
decimal_sum a b =
    let scale = max_ℕ a.scale b.scale in
    let r = reduce (scaled a scale +ℤ scaled b scale) scale in
    exact_decimal r.coefficient (pos r.scale)

-- `a.as_fraction() == b.as_fraction()`
unfoldable pub same_fraction : ExactDecimal → ExactDecimal → Bool
same_fraction a b = a.coefficient *ℤ pos (10 ^ b.scale) ==ℤ b.coefficient *ℤ pos (10 ^ a.scale)

abbrev pub an_integer : Value → Result ℤ
an_integer (int n) = ok n
an_integer _ = err not_an_integer

unfoldable pub decimal_to_wire : ExactDecimal → Value
decimal_to_wire d =
    obj (field "coefficient" (int d.coefficient) (field "scale" (int (pos d.scale)) end))

unfoldable pub decimal_from_wire : Value → Result ExactDecimal
unfolding require_exact_keys require_int require_natural exact_decimal
decimal_from_wire (obj fields) = do
  require_exact_keys fields ("coefficient" ∷ "scale" ∷ [])
  coefficient_value ← present (get "coefficient" fields)
  coefficient_int ← an_integer coefficient_value
  coefficient ← require_int coefficient_int
  scale_value ← present (get "scale" fields)
  scale_int ← an_integer scale_value
  scale ← require_natural scale_int
  exact_decimal coefficient (pos scale)
decimal_from_wire _ = err (wire_error "value must be an object")
