-- ===== src/Core/Wire.antt =====
-- src/auditspec/core/wire.py: the types of the wire format, `TypeNode.from_wire` and `to_wire`.
pub mod Decimal
pub mod RoundTrip
mod Tests
use auditspec.Prelude.{
  ℕ, zero, suc, String, Bool, true, false, ◌&&◌, ◌||◌, Option, none, some, List, [], ◌∷◌, every,
  if◌then◌else◌,
}
use auditspec.Prelude.Text.{◌≟◌, contains}
use auditspec.Prelude.Sets.{same_set}
use auditspec.Prelude.Result.{Result, ok, err, wire_error, key_error, require, ◌>>=◌, ◌>>◌}
use auditspec.Core.Value.{
  Value, null, bool, int, str, arr, obj, other, Items, nil, cons, Fields, end, field, get, keys,
  items,
}

pub data TypeNode : Type 0 where
  scalar : String → TypeNode
  optional : TypeNode → TypeNode
  list : TypeNode → TypeNode
  set : TypeNode → TypeNode
  map : TypeNode → TypeNode → TypeNode
  -- The rooted reference to the record's schema.
  record_of : Fields → TypeNode

abbrev pub scalar_names : List String
scalar_names =
    "boolean" ∷ "integer" ∷ "string" ∷ "bytes" ∷ "ref" ∷ "digest" ∷ "instant" ∷ "anchored_time"
    ∷ "decimal" ∷ []

-- `require_exact_keys`, on a dict.
unfoldable pub require_exact_keys : Fields → List String → Result (Unit {0})
require_exact_keys fields required =
    require (same_set (keys fields) required) (wire_error "key mismatch")

-- `value[key]`
abbrev pub present : Option Value → Result Value
present none = err key_error
present (some value) = ok value

-- `TypeNode.scalar(str(name))`: the text of no other value is a scalar's name.
unfoldable pub scalar_named : Value → Result TypeNode
scalar_named (str name) =
    if contains scalar_names name then ok (scalar name) else err (wire_error "unknown scalar type")
scalar_named _ = err (wire_error "unknown scalar type")

-- `key == cls.scalar("string")`
abbrev pub is_string : TypeNode → Bool
is_string (scalar name) = name ≟ "string"
is_string (optional item) = false
is_string (list item) = false
is_string (set item) = false
is_string (map key value) = false
is_string (record_of schema) = false

abbrev pub record_schema : Value → Result TypeNode
record_schema (obj schema) = ok (record_of schema)
record_schema _ = err (wire_error "record schema must be a rooted_ref object")

-- The branches of `from_wire`, with the recursive call as an argument.
unfoldable pub scalar_from : Fields → Result TypeNode
unfolding require_exact_keys scalar_named
scalar_from fields = do
  require_exact_keys fields ("kind" ∷ "name" ∷ [])
  name ← present (get "name" fields)
  scalar_named name

unfoldable pub item_from :
    (Value → Result TypeNode) → (TypeNode → TypeNode) → Fields → Result TypeNode
unfolding require_exact_keys
item_from nested make fields = do
  require_exact_keys fields ("kind" ∷ "item" ∷ [])
  value ← present (get "item" fields)
  item ← nested value
  ok (make item)

unfoldable pub map_from : (Value → Result TypeNode) → Fields → Result TypeNode
unfolding require_exact_keys
map_from nested fields = do
  require_exact_keys fields ("kind" ∷ "key" ∷ "value" ∷ [])
  key_value ← present (get "key" fields)
  key ← nested key_value
  require (is_string key) (wire_error "Core map keys must be strings")
  item_value ← present (get "value" fields)
  item ← nested item_value
  ok (map key item)

unfoldable pub record_from : Fields → Result TypeNode
unfolding require_exact_keys
record_from fields = do
  require_exact_keys fields ("kind" ∷ "schema" ∷ [])
  schema ← present (get "schema" fields)
  record_schema schema

unfoldable pub kind_from : (Value → Result TypeNode) → String → Fields → Result TypeNode
unfolding scalar_from item_from map_from record_from
kind_from nested kind fields =
    if kind ≟ "scalar"
    then scalar_from fields
    else if kind ≟ "optional"
    then item_from nested optional fields
    else if kind ≟ "list"
    then item_from nested list fields
    else if kind ≟ "set"
    then item_from nested set fields
    else if kind ≟ "map"
    then map_from nested fields
    else if kind ≟ "record"
    then record_from fields
    else err (wire_error "unknown TypeNode kind")

abbrev pub invalid : Result TypeNode
invalid = err (wire_error "invalid or over-deep TypeNode")

abbrev pub dispatch : (Value → Result TypeNode) → Option Value → Fields → Result TypeNode
dispatch nested (some (str kind)) fields = kind_from nested kind fields
dispatch nested _ fields = invalid

-- `from_wire` with `33 - depth` in place of `depth`, which must not exceed 32.
unfoldable pub from_wire_within : ℕ → Value → Result TypeNode
unfolding kind_from
from_wire_within zero value = invalid
from_wire_within (suc n) (obj fields) = dispatch (from_wire_within n) (get "kind" fields) fields
from_wire_within (suc n) _ = invalid

unfoldable pub from_wire : Value → Result TypeNode
unfolding from_wire_within
from_wire value = from_wire_within 33 value

abbrev pub kind_and : String → Fields → Value
kind_and kind rest = obj (field "kind" (str kind) rest)

unfoldable pub to_wire : TypeNode → Value
to_wire (scalar name) = kind_and "scalar" (field "name" (str name) end)
to_wire (optional item) = kind_and "optional" (field "item" (to_wire item) end)
to_wire (list item) = kind_and "list" (field "item" (to_wire item) end)
to_wire (set item) = kind_and "set" (field "item" (to_wire item) end)
to_wire (map key value) =
    kind_and "map" (field "key" (to_wire key) (field "value" (to_wire value) end))
to_wire (record_of schema) = kind_and "record" (field "schema" (obj schema) end)

-- The tests of `infer_scalar_type`.
abbrev pub is_bool : Value → Bool
is_bool (bool b) = true
is_bool _ = false

abbrev pub is_int : Value → Bool
is_int (int n) = true
is_int _ = false

abbrev pub is_str : Value → Bool
is_str (str s) = true
is_str _ = false

unfoldable pub infer_scalar_type : List Value → Result TypeNode
infer_scalar_type [] = err (wire_error "cannot infer a type from an empty domain")
infer_scalar_type (value ∷ values) =
    if every is_bool (value ∷ values)
    then ok (scalar "boolean")
    else if every is_int (value ∷ values)
    then ok (scalar "integer")
    else if every is_str (value ∷ values)
    then ok (scalar "string")
    else err (wire_error "finite domain has mixed or unsupported scalar types")
