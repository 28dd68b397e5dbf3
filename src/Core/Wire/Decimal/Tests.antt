-- ===== src/Core/Wire/Decimal/Tests.antt =====
-- Decimals of src/auditspec/core/wire.py on concrete numbers.
use auditspec.Prelude.{◌≡◌, refl}
use auditspec.Prelude.Int.{pos, negsuc}
use auditspec.Prelude.Result.{ok, err, wire_error}
use auditspec.Core.Wire.Decimal.{
  ExactDecimal, exact_decimal, decimal_sum, same_fraction, reduce, require_int, require_natural,
  out_of_range, decimal_to_wire, decimal_from_wire,
}
use auditspec.Core.Wire.Decimal.Sum.{SumVerdict, decimal_sum-SumVerdict}
use auditspec.Core.Wire.Decimal.Unique.{same_fraction_unique, decimal_from_wire-to_wire}

-- 2.75, 1.25 and -0.25
abbrev two_and_three_quarters : ExactDecimal
two_and_three_quarters = record { coefficient = pos 275; scale = 2 }

abbrev quarter_more : ExactDecimal
quarter_more = record { coefficient = pos 125; scale = 2 }

abbrev minus_quarter : ExactDecimal
minus_quarter = record { coefficient = negsuc 24; scale = 2 }

decimal_sum-exact :
    decimal_sum two_and_three_quarters quarter_more ≡ ok (record { coefficient = pos 4; scale = 0 })
unfolding decimal_sum reduce exact_decimal require_int require_natural
decimal_sum-exact = refl

decimal_sum-negative :
    decimal_sum two_and_three_quarters minus_quarter
    ≡ ok (record { coefficient = pos 25; scale = 1 })
unfolding decimal_sum reduce exact_decimal require_int require_natural
decimal_sum-negative = refl

exact_decimal-trailing :
    exact_decimal (pos 250) (pos 2) ≡ err (wire_error "decimal is not normalized")
unfolding exact_decimal require_int require_natural
exact_decimal-trailing = refl

decimal_sum-overflow :
    decimal_sum
      (record { coefficient = pos 9007199254740991; scale = 0 })
      (record { coefficient = pos 1; scale = 1 })
    ≡ err out_of_range
unfolding decimal_sum reduce exact_decimal require_int require_natural
decimal_sum-overflow = refl

decimal_sum-SumVerdict_example :
    SumVerdict two_and_three_quarters minus_quarter
      (decimal_sum two_and_three_quarters minus_quarter)
decimal_sum-SumVerdict_example = decimal_sum-SumVerdict two_and_three_quarters minus_quarter

same_fraction_unique_example : minus_quarter ≡ minus_quarter
unfolding exact_decimal require_int require_natural same_fraction
same_fraction_unique_example =
    same_fraction_unique (negsuc 24) (pos 2) (negsuc 24) (pos 2) minus_quarter minus_quarter refl
      refl refl

decimal_from_wire-to_wire_example :
    decimal_from_wire (decimal_to_wire minus_quarter) ≡ ok minus_quarter
unfolding exact_decimal require_int require_natural
decimal_from_wire-to_wire_example = decimal_from_wire-to_wire (negsuc 24) (pos 2) minus_quarter refl
