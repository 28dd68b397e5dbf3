-- ===== src/Core/Expression/Decode.antt =====
-- src/auditspec/core/wire.py: `decode_canonical_value`, `_require_python_type` and `require_instant`.
pub mod Plain
pub mod Typed
use auditspec.Prelude.{
  ℕ, zero, suc, ◌+◌, ◌-◌, ◌*◌, ◌%◌, String, Bool, true, false, not, ◌&&◌, ◌||◌, Option, none, some,
  List, [], ◌∷◌, every, length, map, ◌==◌, leb, if◌then◌else◌,
}
use auditspec.Prelude.Int.{ℤ, pos}
use auditspec.Prelude.Text.{◌≟◌, codes, contains, same_codes, text_le}
use auditspec.Prelude.Order.{nat_order, list_order, sort_by}
use auditspec.Prelude.Result.{Error, Result, ok, err, wire_error, require, traverse, ◌>>=◌, ◌>>◌}
use auditspec.Core.Value.{
  Value, null, bool, int, str, arr, obj, Items, nil, cons, Fields, end, field,
}
use auditspec.Core.Canonical.{canonical_json}
use auditspec.Core.EvidenceVault.Checks.{is_sha256}
use auditspec.Core.Wire.{
  TypeNode, scalar, optional, list, set, map as map_type, record_of, kind_and,
}
use auditspec.Core.Wire.Decimal.{
  ExactDecimal, exact_decimal, require_int, require_natural, an_integer,
}
use auditspec.Core.Expression.Datum.{
  Datum, nothing, boolean, integer, text, sequence, frozenset, bytes, decimal, mapping, Data, empty,
  more, Entries, no_entries, entry, set_of, matches, is_ref,
}
use auditspec.Core.Expression.Encoded.{
  CanonicalValue, null_value, bool_value, integer_value, string_value, decimal_value, bytes_value,
  instant_value, anchored_value, list_value, set_value, map_value, unknown_value, CanonicalValues,
  no_values, value_and, CanonicalEntries, no_pairs, pair_and, to_json, list_of, is_sorted_unique,
  take_codes, is_instant_text,
}

-- `_require_python_type`
abbrev pub is_list_value : Datum → Bool
is_list_value (sequence ds) = true
is_list_value _ = false

abbrev pub is_set_value : Datum → Bool
is_set_value (frozenset ds) = true
is_set_value _ = false

abbrev pub is_map_value : Datum → Bool
is_map_value (mapping es) = true
is_map_value _ = false

abbrev pub is_none : Datum → Bool
is_none nothing = true
is_none _ = false

unfoldable pub require_python_type : Datum → TypeNode → Result (Unit {0})
unfolding matches
require_python_type d (optional item) =
    let rest = require_python_type d item in if is_none d then ok tt else rest
require_python_type d (scalar name) =
    require (matches name d) (wire_error "value does not match scalar type")
require_python_type d (list item) = require (is_list_value d) (wire_error "value is not a list")
require_python_type d (set item) = require (is_set_value d) (wire_error "value is not a set")
require_python_type d (map_type key value) =
    require (is_map_value d) (wire_error "value is not a map")
require_python_type d (record_of schema) = ok tt

abbrev pub checked_value : Datum → TypeNode → Result Datum
unfolding require_python_type
checked_value d t = require_python_type d t >> ok d

abbrev pub item_of : TypeNode → Result TypeNode
item_of (list item) = ok item
item_of (set item) = ok item
item_of _ = err (wire_error "collection value/type mismatch")

abbrev pub map_item_of : TypeNode → Result TypeNode
map_item_of (map_type key value) = ok value
map_item_of _ = err (wire_error "map value/type mismatch")

-- [0-9a-f], in pairs.
abbrev pub is_hex_text : List ℕ → Bool
is_hex_text cs = every (λ c. leb 48 c && leb c 57 || leb 97 c && leb c 102) cs && length cs % 2 == 0

abbrev is_after : Option String → String → Bool
is_after none key = true
is_after (some prior) key = not (text_le key prior)

abbrev pub ref_of : Value → Result String
ref_of (str s) = if is_ref s then ok s else err (wire_error "is not a Core ref")
ref_of _ = err (wire_error "is not a Core ref")

abbrev pub not_hex : Error
not_hex = wire_error "CanonicalValue bytes are not lowercase even-length hex"

abbrev pub not_an_instant : Error
not_an_instant = wire_error "is not a canonical nanosecond UTC instant"

abbrev pub not_a_date : Error
not_a_date = wire_error "contains an invalid Gregorian date"

abbrev pub instant_datum : String → Datum
instant_datum s = mapping (entry "rfc3339_utc" (text s) no_entries)

abbrev pub bool_of : Value → Result Datum
bool_of (bool b) = ok (boolean b)
bool_of _ = err (wire_error "CanonicalValue.bool value is not boolean")

abbrev pub text_of : Value → Result Datum
text_of (str s) = ok (text s)
text_of _ = err (wire_error "CanonicalValue.string value is not text")

abbrev pub bytes_of : Value → Result Datum
bytes_of (str s) = if is_hex_text (codes s) then ok (bytes s) else err not_hex
bytes_of _ = err not_hex

abbrev pub key_of : Value → Result String
key_of (str s) = ok s
key_of _ = err (wire_error "CanonicalValue map key is not a string")

-- `accepts_date` is whether strptime reads the first 19 code points as a date and a time of day.
module _ (accepts_date : List ℕ → Bool) where
  unfoldable pub require_instant : Value → Result Datum
  unfolding is_instant_text
  require_instant (str s) = do
    require (is_instant_text (codes s)) not_an_instant
    require (accepts_date (take_codes 19 (codes s))) not_a_date
    ok (instant_datum s)
  require_instant _ = err not_an_instant

  unfoldable pub require_anchored_time : Value → Value → Value → Result Datum
  unfolding require_instant require_natural is_ref
  require_anchored_time t n a = do
    at ← require_instant t
    m ← an_integer n
    ns ← require_natural m
    anchor ← ref_of a
    ok (
        mapping (
          entry "instant" at (
            entry "monotonic_run_ns" (integer (pos ns))
              (entry "anchor_id" (text anchor) no_entries))))

  unfoldable mutual
    unfolding require_instant require_anchored_time require_int require_natural exact_decimal set_of
        is_sorted_unique canonical_json to_json require_python_type

    pub decode : CanonicalValue → TypeNode → Result Datum
    decode null_value t = checked_value nothing t
    decode (bool_value v) t = bool_of v >>= λ d. checked_value d t
    decode (integer_value v) t =
        an_integer v >>= λ m. require_int m >>= λ n. checked_value (integer n) t
    decode (string_value v) t = text_of v >>= λ d. checked_value d t
    decode (decimal_value c s) t = an_integer c >>= λ m. require_int m >>= λ coefficient.
        an_integer s >>= λ n. require_natural n >>= λ scale.
        exact_decimal coefficient (pos scale) >>= λ d. checked_value (decimal d) t
    decode (bytes_value v) t = bytes_of v >>= λ d. checked_value d t
    decode (instant_value v) t = require_instant v >>= λ d. checked_value d t
    decode (anchored_value i n a) t = require_anchored_time i n a >>= λ d. checked_value d t
    decode (list_value vs) t =
        item_of t >>= λ item. decode_all vs item >>= λ ds. checked_value (sequence ds) t
    decode (set_value vs) t = item_of t >>= λ item. decode_all vs item >>= λ ds.
        traverse canonical_json (list_of vs) >>= λ encoded.
        require (is_sorted_unique encoded) (wire_error "canonical set is not sorted-unique")
        >> (set_of ds >>= λ ones. checked_value (frozenset ones) t)
    decode (map_value es) t =
        map_item_of t >>= λ item. decode_entries none es item >>= λ m. checked_value (mapping m) t
    decode (unknown_value kind) t = err (wire_error "unsupported CanonicalValue kind")

    decode_all : CanonicalValues → TypeNode → Result Data
    decode_all no_values item = ok empty
    decode_all (value_and v vs) item =
        decode v item >>= λ d. decode_all vs item >>= λ ds. ok (more d ds)

    decode_entries : Option String → CanonicalEntries → TypeNode → Result Entries
    decode_entries prior no_pairs item = ok no_entries
    decode_entries prior (pair_and k v es) item = key_of k >>= λ key.
        require (is_after prior key) (wire_error "CanonicalValue map keys are not sorted-unique")
        >> (decode v item >>= λ d.
            decode_entries (some key) es item >>= λ rest. ok (entry key d rest))
