-- ===== src/Core/Expression/Operators.antt =====
-- src/auditspec/core/expression.py: `_operator_type`, and the operations of `_evaluate_node`.
pub mod Equality
pub mod Sound
pub mod Pairs
pub mod Typed
use auditspec.Prelude.{
  ℕ, String, Bool, true, false, not, ◌&&◌, ◌||◌, Option, none, some, List, [], ◌∷◌, every, leb,
  if◌then◌else◌,
}
use auditspec.Prelude.Int.{ℤ, pos, ◌+ℤ◌, ◌-ℤ◌, ◌*ℤ◌, leb_ℤ}
use auditspec.Prelude.Text.{◌≟◌, text_le}
use auditspec.Prelude.Result.{
  Result, ok, err, Error, wire_error, type_error, value_error, unhashable, require, ◌>>=◌, ◌>>◌,
}
use auditspec.Core.Value.{obj, py_eq}
use auditspec.Core.Wire.{TypeNode, scalar, optional, list, set, map, record_of}
use auditspec.Core.Expression.Datum.{
  Datum, nothing, boolean, integer, text, sequence, frozenset, bytes, decimal, mapping, Data, empty,
  more, size, datum_eq, in_data, is_hashable, set_of, is_true,
}

-- The names in the table of operations, and every other name.
pub data Op : Type 0 where
  not_ and_ or_ eq neq lt lte gt gte in_ contains is_null coalesce if_then_else : Op
  add sub mul count sum min max all_equal : Op
  unknown_op : String → Op

-- `a == b`
unfoldable pub same_type : TypeNode → TypeNode → Bool
unfolding py_eq
same_type (scalar a) (scalar b) = a ≟ b
same_type (optional a) (optional b) = same_type a b
same_type (list a) (list b) = same_type a b
same_type (set a) (set b) = same_type a b
same_type (map a b) (map c d) = same_type a c && same_type b d
same_type (record_of a) (record_of b) = py_eq (obj a) (obj b)
same_type _ _ = false

abbrev pub is_scalar : String → TypeNode → Bool
is_scalar name (scalar other) = other ≟ name
is_scalar name (optional item) = false
is_scalar name (list item) = false
is_scalar name (set item) = false
is_scalar name (map key value) = false
is_scalar name (record_of schema) = false

abbrev pub is_boolean : TypeNode → Bool
is_boolean t = is_scalar "boolean" t

abbrev pub is_integer : TypeNode → Bool
is_integer t = is_scalar "integer" t

-- A list or a set whose element type passes the test.
abbrev pub is_collection : (TypeNode → Bool) → TypeNode → Bool
is_collection test (list item) = test item
is_collection test (set item) = test item
is_collection test (scalar name) = false
is_collection test (optional item) = false
is_collection test (map key value) = false
is_collection test (record_of schema) = false

abbrev pub is_optional : (TypeNode → Bool) → TypeNode → Bool
is_optional test (optional item) = test item
is_optional test (list item) = false
is_optional test (set item) = false
is_optional test (scalar name) = false
is_optional test (map key value) = false
is_optional test (record_of schema) = false

abbrev pub is_nonempty : List TypeNode → Bool
is_nonempty [] = false
is_nonempty (t ∷ ts) = true

abbrev pub typed : Bool → TypeNode → Result TypeNode
typed true t = ok t
typed false t = err (wire_error "operator signature is invalid")

abbrev pub boolean_type : TypeNode
boolean_type = scalar "boolean"

abbrev pub integer_type : TypeNode
integer_type = scalar "integer"

-- Operators of one, two and three arguments.
unfoldable pub unary_type : Op → TypeNode → Result TypeNode
unary_type not_ a = typed (is_boolean a) boolean_type
unary_type and_ a = typed (is_boolean a) boolean_type
unary_type or_ a = typed (is_boolean a) boolean_type
unary_type is_null a = typed (is_optional (λ item. true) a) boolean_type
unary_type count a = typed (is_collection (λ item. true) a) integer_type
unary_type sum a = typed (is_collection is_integer a) integer_type
unary_type min a = typed (is_collection is_integer a) integer_type
unary_type max a = typed (is_collection is_integer a) integer_type
unary_type all_equal a = typed (is_collection (λ item. true) a) boolean_type
unary_type _ a = typed false a

unfoldable pub is_ordered : TypeNode → TypeNode → Bool
unfolding same_type
is_ordered a b = same_type a b && (is_integer a || is_scalar "string" a)

-- `hash(t)`, by its fields: the schema of a record type is a dict, which has none.
unfoldable pub is_hashable_type : TypeNode → Bool
is_hashable_type (scalar name) = true
is_hashable_type (optional item) = is_hashable_type item
is_hashable_type (list item) = is_hashable_type item
is_hashable_type (set item) = is_hashable_type item
is_hashable_type (map key value) = is_hashable_type key && is_hashable_type value
is_hashable_type (record_of schema) = false

-- Equal types are looked up in a set, which hashes the first of them.
unfoldable pub ordered_type : TypeNode → TypeNode → Result TypeNode
unfolding same_type is_ordered is_hashable_type
ordered_type a b =
    if same_type a b && not (is_hashable_type a)
    then err unhashable
    else typed (is_ordered a b) boolean_type

unfoldable pub binary_type : Op → TypeNode → TypeNode → Result TypeNode
unfolding same_type ordered_type
binary_type and_ a b = typed (is_boolean a && is_boolean b) boolean_type
binary_type or_ a b = typed (is_boolean a && is_boolean b) boolean_type
binary_type eq a b = typed (same_type a b) boolean_type
binary_type neq a b = typed (same_type a b) boolean_type
binary_type lt a b = ordered_type a b
binary_type lte a b = ordered_type a b
binary_type gt a b = ordered_type a b
binary_type gte a b = ordered_type a b
binary_type in_ a b = typed (is_collection (λ item. same_type item a) b) boolean_type
binary_type contains a b = typed (is_collection (λ item. same_type item b) a) boolean_type
binary_type coalesce a b = typed (is_optional (λ item. same_type item b) a) b
binary_type add a b = typed (is_integer a && is_integer b) integer_type
binary_type sub a b = typed (is_integer a && is_integer b) integer_type
binary_type mul a b = typed (is_integer a && is_integer b) integer_type
binary_type _ a b = typed false a

unfoldable pub many_type : Op → List TypeNode → Result TypeNode
unfolding same_type
many_type and_ ts = typed (every is_boolean ts) boolean_type
many_type or_ ts = typed (every is_boolean ts) boolean_type
many_type if_then_else (c ∷ a ∷ b ∷ []) = typed (is_boolean c && same_type a b) a
many_type _ ts = typed false boolean_type

-- `_operator_type`
unfoldable pub operator_type : Op → List TypeNode → Result TypeNode
unfolding unary_type binary_type many_type
operator_type op [] = typed false boolean_type
operator_type op (a ∷ []) = unary_type op a
operator_type op (a ∷ b ∷ []) = binary_type op a b
operator_type op (a ∷ b ∷ c ∷ ts) = many_type op (a ∷ b ∷ c ∷ ts)

-- The operations on Python values, for the counts and the kinds of arguments that a signature
-- admits; anything else is a TypeError here.
abbrev pub elements : Datum → Result Data
elements (sequence ds) = ok ds
elements (frozenset ds) = ok ds
elements _ = err type_error

-- `a in b`: a set hashes the value that it is asked for.
unfoldable pub member_of : Datum → Datum → Result Datum
unfolding in_data is_hashable
member_of a (sequence ds) = ok (boolean (in_data a ds))
member_of a (frozenset ds) = if is_hashable a then ok (boolean (in_data a ds)) else err unhashable
member_of a _ = err type_error

-- `a <= b`, on numbers and texts.
unfoldable pub at_most : Datum → Datum → Result Bool
at_most (integer m) (integer n) = ok (leb_ℤ m n)
at_most (text s) (text t) = ok (text_le s t)
at_most _ _ = err type_error

abbrev pub int_of : Datum → Result ℤ
int_of (integer n) = ok n
int_of _ = err type_error

unfoldable pub arithmetic : (ℤ → ℤ → ℤ) → Datum → Datum → Result Datum
arithmetic f a b = do m ← int_of a; n ← int_of b; ok (integer (f m n))

-- The integers of a collection, folded.
unfoldable pub fold_ints : (ℤ → ℤ → ℤ) → ℤ → Data → Result ℤ
fold_ints f start empty = ok start
fold_ints f start (more d ds) = int_of d >>= λ n. fold_ints f (f start n) ds

abbrev pub min_ℤ : ℤ → ℤ → ℤ
min_ℤ a b = if leb_ℤ a b then a else b

abbrev pub max_ℤ : ℤ → ℤ → ℤ
max_ℤ a b = if leb_ℤ b a then a else b

abbrev pub no_elements : Error
no_elements = value_error "iterable argument is empty"

unfoldable pub extreme : (ℤ → ℤ → ℤ) → Data → Result Datum
unfolding fold_ints
extreme f empty = err no_elements
extreme f (more d ds) = do first ← int_of d; best ← fold_ints f first ds; ok (integer best)

unfoldable pub unary : Op → Datum → Result Datum
unfolding is_true size set_of fold_ints extreme
unary not_ a = ok (boolean (not (is_true a)))
unary and_ a = ok (boolean (is_true a))
unary or_ a = ok (boolean (is_true a))
unary is_null nothing = ok (boolean true)
unary is_null _ = ok (boolean false)
unary count a = elements a >>= λ ds. ok (integer (pos (size ds)))
unary sum a = elements a >>= λ ds. fold_ints (λ m n. m +ℤ n) (pos 0) ds >>= λ n. ok (integer n)
unary min a = elements a >>= extreme min_ℤ
unary max a = elements a >>= extreme max_ℤ
unary all_equal a =
    elements a >>= λ ds. set_of ds >>= λ distinct_ones. ok (boolean (leb (size distinct_ones) 1))
unary _ a = err type_error

abbrev pub or_else : Datum → Datum → Datum
or_else nothing b = b
or_else a b = a

unfoldable pub binary : Op → Datum → Datum → Result Datum
unfolding is_true datum_eq at_most member_of arithmetic
binary and_ a b = ok (boolean (is_true a && is_true b))
binary or_ a b = ok (boolean (is_true a || is_true b))
binary eq a b = ok (boolean (datum_eq a b))
binary neq a b = ok (boolean (not (datum_eq a b)))
binary lt a b = at_most b a >>= λ le. ok (boolean (not le))
binary lte a b = at_most a b >>= λ le. ok (boolean le)
binary gt a b = at_most a b >>= λ le. ok (boolean (not le))
binary gte a b = at_most b a >>= λ le. ok (boolean le)
binary in_ a b = member_of a b
binary contains a b = member_of b a
binary coalesce a b = ok (or_else a b)
binary add a b = arithmetic (λ m n. m +ℤ n) a b
binary sub a b = arithmetic (λ m n. m -ℤ n) a b
binary mul a b = arithmetic (λ m n. m *ℤ n) a b
binary _ a b = err type_error

abbrev pub all_true : List Datum → Bool
unfolding is_true
all_true [] = true
all_true (d ∷ ds) = is_true d && all_true ds

abbrev pub any_true : List Datum → Bool
unfolding is_true
any_true [] = false
any_true (d ∷ ds) = is_true d || any_true ds

unfoldable pub many : Op → List Datum → Result Datum
unfolding is_true all_true any_true
many and_ ds = ok (boolean (all_true ds))
many or_ ds = ok (boolean (any_true ds))
many if_then_else (c ∷ a ∷ b ∷ []) = ok (if is_true c then a else b)
many _ ds = err type_error

-- `operations[op](*args)`
unfoldable pub apply_operator : Op → List Datum → Result Datum
unfolding unary binary many
apply_operator op [] = many op []
apply_operator op (a ∷ []) = unary op a
apply_operator op (a ∷ b ∷ []) = binary op a b
apply_operator op (a ∷ b ∷ c ∷ ds) = many op (a ∷ b ∷ c ∷ ds)
