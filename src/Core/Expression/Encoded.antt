-- ===== src/Core/Expression/Encoded.antt =====
-- src/auditspec/core/wire.py: what `decode_canonical_value` reads, and its tests of texts.
use auditspec.Prelude.{
  ℕ, zero, suc, ◌+◌, ◌-◌, ◌*◌, String, Bool, true, false, not, ◌&&◌, ◌||◌, List, [], ◌∷◌, every,
  length, ◌==◌, leb,
}
use auditspec.Prelude.Text.{same_codes}
use auditspec.Prelude.Order.{nat_order, list_order, sort_by}
use auditspec.Core.Value.{Value, arr, obj, Items, nil, cons, end, field}
use auditspec.Core.Wire.{kind_and}

-- A CanonicalValue: a JSON object with its kind and exactly the keys of the kind.
mutual
  pub data CanonicalValue : Type 0 where
    null_value : CanonicalValue
    bool_value integer_value string_value : Value → CanonicalValue
    -- coefficient, scale
    decimal_value : Value → Value → CanonicalValue
    -- hex; rfc3339_utc
    bytes_value instant_value : Value → CanonicalValue
    -- the instant's rfc3339_utc, monotonic_run_ns, anchor_id
    anchored_value : Value → Value → Value → CanonicalValue
    list_value set_value : CanonicalValues → CanonicalValue
    map_value : CanonicalEntries → CanonicalValue
    unknown_value : String → CanonicalValue

  pub data CanonicalValues : Type 0 where
    no_values : CanonicalValues
    value_and : CanonicalValue → CanonicalValues → CanonicalValues

  pub data CanonicalEntries : Type 0 where
    no_pairs : CanonicalEntries
    pair_and : Value → CanonicalValue → CanonicalEntries → CanonicalEntries

abbrev one_field : String → Value → Value
one_field key v = obj (field key v end)

-- The JSON object.
unfoldable mutual
  pub to_json : CanonicalValue → Value
  to_json null_value = kind_and "null" end
  to_json (bool_value v) = kind_and "bool" (field "value" v end)
  to_json (integer_value v) = kind_and "integer" (field "value" v end)
  to_json (string_value v) = kind_and "string" (field "value" v end)
  to_json (decimal_value c s) = kind_and "decimal" (field "coefficient" c (field "scale" s end))
  to_json (bytes_value v) = kind_and "bytes" (field "value" (one_field "hex" v) end)
  to_json (instant_value v) = kind_and "instant" (field "value" (one_field "rfc3339_utc" v) end)
  to_json (anchored_value t n a) = kind_and "anchored_time" (
      field "value"
        (obj (
          field "instant" (one_field "rfc3339_utc" t)
            (field "monotonic_run_ns" n (field "anchor_id" a end))))
        end)
  to_json (list_value vs) = kind_and "list" (field "elements" (arr (values_json vs)) end)
  to_json (set_value vs) = kind_and "set" (field "elements" (arr (values_json vs)) end)
  to_json (map_value es) = kind_and "map" (field "entries" (arr (entries_json es)) end)
  to_json (unknown_value kind) = kind_and kind end

  values_json : CanonicalValues → Items
  values_json no_values = nil
  values_json (value_and v vs) = cons (to_json v) (values_json vs)

  entries_json : CanonicalEntries → Items
  entries_json no_pairs = nil
  entries_json (pair_and k v es) =
      cons (obj (field "key" k (field "value" (to_json v) end))) (entries_json es)

abbrev pub list_of : CanonicalValues → List Value
list_of no_values = []
list_of (value_and v vs) = to_json v ∷ list_of vs

abbrev codes_order_sorted : List (List ℕ) → List (List ℕ)
codes_order_sorted xs = sort_by (list_order nat_order) (λ x. x) xs

abbrev all_same : List (List ℕ) → List (List ℕ) → Bool
all_same [] [] = true
all_same (x ∷ xs) (y ∷ ys) = same_codes x y && all_same xs ys
all_same [] (y ∷ ys) = false
all_same (x ∷ xs) [] = false

abbrev occurs : List ℕ → List (List ℕ) → Bool
occurs x [] = false
occurs x (y ∷ ys) = same_codes x y || occurs x ys

abbrev no_repetition : List (List ℕ) → Bool
no_repetition [] = true
no_repetition (x ∷ xs) = not (occurs x xs) && no_repetition xs

-- `encoded == sorted(encoded) and len(encoded) == len(set(encoded))`
unfoldable pub is_sorted_unique : List (List ℕ) → Bool
is_sorted_unique encoded = all_same encoded (codes_order_sorted encoded) && no_repetition encoded

-- The value of the two digits at the head, if they are digits and it is within the bounds.
abbrev is_digit : ℕ → Bool
is_digit c = leb 48 c && leb c 57

abbrev two_digits : ℕ → ℕ → List ℕ → Bool
two_digits low high (a ∷ b ∷ cs) =
    let n = 10 * (a - 48) + (b - 48) in is_digit a && is_digit b && leb low n && leb n high
two_digits low high _ = false

abbrev drop_codes : ℕ → List ℕ → List ℕ
drop_codes zero cs = cs
drop_codes (suc n) [] = []
drop_codes (suc n) (c ∷ cs) = drop_codes n cs

abbrev pub take_codes : ℕ → List ℕ → List ℕ
take_codes zero cs = []
take_codes (suc n) [] = []
take_codes (suc n) (c ∷ cs) = c ∷ take_codes n cs

abbrev code_is : ℕ → ℕ → List ℕ → Bool
code_is n c cs = same_codes (take_codes 1 (drop_codes n cs)) (c ∷ [])

-- `INSTANT_RE.fullmatch(text)`: YYYY-MM-DDTHH:MM:SS.nnnnnnnnnZ, whose year is not 0000.
unfoldable pub is_instant_text : List ℕ → Bool
is_instant_text cs =
    length cs == 30
    && every is_digit (take_codes 4 cs)
    && not (same_codes (take_codes 4 cs) (48 ∷ 48 ∷ 48 ∷ 48 ∷ []))
    && code_is 4 45 cs
    && two_digits 1 12 (drop_codes 5 cs)
    && code_is 7 45 cs
    && two_digits 0 31 (drop_codes 8 cs)
    && code_is 10 84 cs
    && two_digits 0 23 (drop_codes 11 cs)
    && code_is 13 58 cs
    && two_digits 0 59 (drop_codes 14 cs)
    && code_is 16 58 cs
    && two_digits 0 59 (drop_codes 17 cs)
    && code_is 19 46 cs
    && every is_digit (take_codes 9 (drop_codes 20 cs))
    && code_is 29 90 cs
