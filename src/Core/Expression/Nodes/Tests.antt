-- ===== src/Core/Expression/Nodes/Tests.antt =====
-- Whole expressions of src/auditspec/core/expression.py on concrete values.
use mathlib.Core.Path.{subst}
use auditspec.Prelude.{
  ap, ℕ, String, Bool, true, Option, none, some, List, [], ◌∷◌, ◌≡◌, refl, Bool-cases, inl, inr,
}
use auditspec.Prelude.Int.{pos}
use auditspec.Prelude.Text.{◌≟◌}
use auditspec.Prelude.Dict.{Dict, find}
use auditspec.Prelude.Result.{Error, Result, ok, err, wire_error, value_of}
use auditspec.Core.Value.{Value, int, str, get, keys}
use auditspec.Core.Wire.{
  TypeNode, scalar, optional, list, map, to_wire, from_wire, from_wire_within, kind_from,
  scalar_from, require_exact_keys, scalar_named,
}
use auditspec.Core.Wire.Decimal.{require_int}
use auditspec.Core.Expression.Datum.{
  Datum, boolean, integer, text, mapping, no_entries, entry, is_ref, matches, has_type,
}
use auditspec.Core.Expression.Decode.{require_python_type, require_instant, decode}
use auditspec.Core.Expression.Encoded.{
  integer_value, instant_value, list_value, CanonicalValues, no_values, value_and, is_instant_text,
}
use auditspec.Core.Expression.Decode.Typed.{decode-has_type}
use auditspec.Core.Expression.Operators.{
  lt, same_type, is_ordered, is_hashable_type, ordered_type, binary_type, operator_type,
  boolean_type, integer_type, binary, at_most, apply_operator,
}
use auditspec.Core.Expression.Nodes.{FunctionBinding, Expr, validate, evaluate, build}
use auditspec.Core.Expression.Tree.{Node, literal, variable, operator, no_nodes, node_and}
use auditspec.Core.Expression.Nodes.Gives.{Fits, OfType, Gives}
use auditspec.Core.Expression.Nodes.Sound.{build-Gives}

abbrev any_date : List ℕ → Bool
any_date cs = true

abbrev no_resolver : Option (Value → Result FunctionBinding)
no_resolver = none

-- A map type takes the dict of an instant, whatever its values' type is.
decode-instant :
    decode any_date
      (instant_value (str "2024-01-31T23:59:59.000000000Z"))
      (map (scalar "string") integer_type)
    ≡ ok (mapping (entry "rfc3339_utc" (text "2024-01-31T23:59:59.000000000Z") no_entries))
unfolding decode require_instant is_instant_text require_python_type
decode-instant = refl

decode-optional :
    decode any_date (list_value no_values) (optional (list integer_type))
    ≡ err (wire_error "collection value/type mismatch")
unfolding decode
decode-optional = refl

abbrev three_and_four : CanonicalValues
three_and_four =
    value_and (integer_value (int (pos 3))) (value_and (integer_value (int (pos 4))) no_values)

decoded : (d : Datum) × (decode any_date (list_value three_and_four) (list integer_type) ≡ ok d)
unfolding decode require_int require_python_type matches
decoded = value_of (decode any_date (list_value three_and_four) (list integer_type)) refl

decode-has_type_example : has_type decoded.0 (list integer_type) ≡ true
decode-has_type_example =
    decode-has_type any_date (list_value three_and_four) (list integer_type) decoded.0 refl
      decoded.1

-- x < 3
abbrev below_three : Node
below_three =
    operator lt
      (node_and (variable (str "x") (to_wire integer_type))
        (node_and (literal (to_wire integer_type) (integer_value (int (pos 3)))) no_nodes))
      (to_wire boolean_type)

abbrev types : Dict TypeNode
types = ("x", integer_type) ∷ []

abbrev values : Dict Datum
values = ("x", integer (pos 2)) ∷ []

built : (e : Expr) × (build any_date no_resolver below_three types ≡ ok e)
unfolding build validate to_wire from_wire from_wire_within kind_from scalar_from require_exact_keys
    scalar_named keys get is_ref same_type operator_type binary_type ordered_type is_ordered
    is_hashable_type decode require_int require_python_type matches
built = value_of (build any_date no_resolver below_three types) refl

below_three-evaluates : evaluate any_date no_resolver values below_three ≡ ok (boolean true)
unfolding evaluate to_wire from_wire from_wire_within kind_from scalar_from require_exact_keys
    scalar_named keys get decode require_int require_python_type matches apply_operator binary
    at_most
below_three-evaluates = refl

abbrev Nothing : Error → Type 0
Nothing e = ⊥

is_integer_type :
    (s : String) (t : TypeNode)
    → ("x" ≟ s) ≡ true
    → find s types ≡ some t
    → has_type (integer (pos 2)) t ≡ true
unfolding has_type matches
is_integer_type s t c e =
    subst (λ x. has_type (integer (pos 2)) x ≡ true)
      (ap (λ (o : Option TypeNode). elim o [ none ↦ integer_type | some u ↦ u ]) (rw c at e)) refl

x-Fits : Fits types values
unfolding has_type matches
x-Fits s t e = elim (Bool-cases ("x" ≟ s)) [
  | inl c ↦ (integer (pos 2), rw c refl, is_integer_type s t c e)
  | inr c ↦ cc (rw c at e)
]

build-Gives_example :
    Gives Nothing
      (OfType (built.0).output_type)
      (evaluate any_date no_resolver values (built.0).ast)
build-Gives_example =
    build-Gives Nothing any_date no_resolver (λ f b ds h a. cc) types values below_three built.0
      x-Fits built.1
