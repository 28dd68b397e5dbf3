-- ===== src/Core/Expression/Tests.antt =====
-- Operators of src/auditspec/core/expression.py on concrete values.
use auditspec.Prelude.{true, [], ◌∷◌, ◌≡◌, refl}
use auditspec.Prelude.Int.{pos, negsuc}
use auditspec.Prelude.Result.{ok, err, wire_error, unhashable}
use auditspec.Core.Value.{end, py_eq}
use auditspec.Core.Wire.{list, record_of}
use auditspec.Core.Expression.Datum.{
  Datum, boolean, integer, sequence, frozenset, empty, more, to_data, size, datum_eq, in_data,
  is_hashable, distinct, all_hashable, set_of, has_type,
}
use auditspec.Core.Expression.Operators.{
  lt, sum, min, all_equal, same_type, is_ordered, is_hashable_type, ordered_type, boolean_type,
  integer_type, no_elements, unary_type, binary_type, operator_type, unary, apply_operator,
  fold_ints, extreme,
}
use auditspec.Core.Expression.Operators.Sound.{Outcome}
use auditspec.Core.Expression.Operators.Typed.{have_types, apply_operator-Outcome}

abbrev numbers : Datum
numbers = sequence (to_data (integer (pos 3) ∷ integer (negsuc 1) ∷ integer (pos 4) ∷ []))

min-numbers : apply_operator min (numbers ∷ []) ≡ ok (integer (negsuc 1))
unfolding apply_operator unary extreme fold_ints
min-numbers = refl

sum-numbers : apply_operator sum (numbers ∷ []) ≡ ok (integer (pos 5))
unfolding apply_operator unary fold_ints
sum-numbers = refl

min-empty : apply_operator min (frozenset empty ∷ []) ≡ err no_elements
unfolding apply_operator unary extreme
min-empty = refl

-- True and 1 are one element of a set.
all_equal-true :
    apply_operator all_equal (sequence (more (boolean true) (more (integer (pos 1)) empty)) ∷ [])
    ≡ ok (boolean true)
unfolding apply_operator unary set_of distinct all_hashable is_hashable in_data datum_eq size
all_equal-true = refl

all_equal-lists : apply_operator all_equal (sequence (more numbers empty) ∷ []) ≡ err unhashable
unfolding apply_operator unary set_of all_hashable is_hashable
all_equal-lists = refl

lt-booleans :
    operator_type lt (boolean_type ∷ boolean_type ∷ [])
    ≡ err (wire_error "operator signature is invalid")
unfolding operator_type binary_type ordered_type is_ordered is_hashable_type same_type
lt-booleans = refl

-- The signature of an order on two equal record types is not refused: the test itself raises.
lt-records : operator_type lt (record_of end ∷ record_of end ∷ []) ≡ err unhashable
unfolding operator_type binary_type ordered_type is_ordered is_hashable_type same_type py_eq
lt-records = refl

apply_operator-Outcome_example : Outcome integer_type (apply_operator sum (numbers ∷ []))
unfolding operator_type unary_type have_types has_type
apply_operator-Outcome_example =
    apply_operator-Outcome sum (list integer_type ∷ []) (numbers ∷ []) refl refl
