-- ===== src/Core/Expression/Datum.antt =====
-- The Python values that expressions compute with, their types, == and hash.
use auditspec.Prelude.{
  ℕ, suc, String, Bool, true, false, not, ◌&&◌, ◌||◌, Option, none, some, List, [], ◌∷◌, ◌==◌, leb,
  length, every, if◌then◌else◌,
}
use auditspec.Prelude.Int.{ℤ, pos, ◌==ℤ◌}
use auditspec.Prelude.Text.{◌≟◌, codes, contains}
use auditspec.Prelude.Sets.{same_set}
use auditspec.Prelude.Result.{Result, ok, err, unhashable}
use auditspec.Core.Wire.Decimal.{ExactDecimal}
use auditspec.Core.EvidenceVault.Checks.{is_sha256}
use auditspec.Core.Wire.{scalar_names, TypeNode, scalar, optional, list, set, map, record_of}

mutual
  pub data Datum : Type 0 where
    nothing : Datum
    boolean : Bool → Datum
    integer : ℤ → Datum
    text : String → Datum
    sequence : Data → Datum
    frozenset : Data → Datum
    -- By its lowercase hexadecimal text.
    bytes : String → Datum
    decimal : ExactDecimal → Datum
    mapping : Entries → Datum

  pub data Data : Type 0 where
    empty : Data
    more : Datum → Data → Data

  pub data Entries : Type 0 where
    no_entries : Entries
    entry : String → Datum → Entries → Entries

abbrev pub to_list : Data → List Datum
to_list empty = []
to_list (more d ds) = d ∷ to_list ds

abbrev pub to_data : List Datum → Data
to_data [] = empty
to_data (d ∷ ds) = more d (to_data ds)

unfoldable pub size : Data → ℕ
size empty = 0
size (more d ds) = suc (size ds)

abbrev pub names : Entries → List String
names no_entries = []
names (entry key d es) = key ∷ names es

abbrev pub value_at : String → Entries → Option Datum
value_at key no_entries = none
value_at key (entry k d es) = if k ≟ key then some d else value_at key es

abbrev pub any_of : (Datum → Bool) → Data → Bool
any_of test empty = false
any_of test (more d ds) = test d || any_of test ds

abbrev of_bool : Bool → ℤ
of_bool true = pos 1
of_bool false = pos 0

abbrev same_bool : Bool → Bool → Bool
same_bool true b = b
same_bool false b = not b

-- `a == b`: a bool is the number 0 or 1; two frozensets of one size are equal if one holds the
-- other's elements.
unfoldable mutual
  unfolding size

  pub datum_eq : Datum → Datum → Bool
  datum_eq nothing nothing = true
  datum_eq (boolean a) (boolean b) = same_bool a b
  datum_eq (boolean a) (integer n) = of_bool a ==ℤ n
  datum_eq (integer m) (boolean b) = m ==ℤ of_bool b
  datum_eq (integer m) (integer n) = m ==ℤ n
  datum_eq (text s) (text t) = s ≟ t
  datum_eq (sequence xs) (sequence ys) = data_eq xs ys
  datum_eq (frozenset xs) (frozenset ys) = size xs == size ys && all_in xs ys
  datum_eq (bytes s) (bytes t) = s ≟ t
  datum_eq (decimal a) (decimal b) = a.coefficient ==ℤ b.coefficient && a.scale == b.scale
  datum_eq (mapping xs) (mapping ys) = length (names xs) == length (names ys) && entries_in xs ys
  datum_eq _ _ = false

  data_eq : Data → Data → Bool
  data_eq empty empty = true
  data_eq (more x xs) (more y ys) = datum_eq x y && data_eq xs ys
  data_eq _ _ = false

  all_in : Data → Data → Bool
  all_in empty ys = true
  all_in (more x xs) ys = any_of (λ y. datum_eq x y) ys && all_in xs ys

  entries_in : Entries → Entries → Bool
  entries_in no_entries ys = true
  entries_in (entry key d xs) ys =
      (elim (value_at key ys) [ none ↦ false | some e ↦ datum_eq d e ]) && entries_in xs ys

-- `x in ys`
unfoldable pub in_data : Datum → Data → Bool
unfolding datum_eq
in_data x ys = any_of (λ y. datum_eq x y) ys

unfoldable pub is_hashable : Datum → Bool
is_hashable (sequence ds) = false
is_hashable (mapping es) = false
is_hashable (bytes s) = true
is_hashable (decimal d) = true
is_hashable nothing = true
is_hashable (boolean b) = true
is_hashable (integer n) = true
is_hashable (text s) = true
is_hashable (frozenset ds) = true

unfoldable pub distinct : Data → Data
unfolding in_data
distinct empty = empty
distinct (more d ds) = let rest = distinct ds in if in_data d rest then rest else more d rest

unfoldable pub all_hashable : Data → Bool
unfolding is_hashable
all_hashable empty = true
all_hashable (more d ds) = is_hashable d && all_hashable ds

-- `set(items)`
unfoldable pub set_of : Data → Result Data
unfolding distinct all_hashable
set_of ds = if all_hashable ds then ok (distinct ds) else err unhashable

-- `bool(value)`
unfoldable pub is_true : Datum → Bool
is_true nothing = false
is_true (boolean b) = b
is_true (integer n) = not (n ==ℤ pos 0)
is_true (text s) = not (s ≟ "")
is_true (sequence empty) = false
is_true (sequence (more d ds)) = true
is_true (frozenset empty) = false
is_true (frozenset (more d ds)) = true
is_true (bytes s) = not (s ≟ "")
is_true (decimal d) = true
is_true (mapping no_entries) = false
is_true (mapping (entry key d es)) = true

-- `REF_RE.fullmatch(value)`
abbrev is_ref_start : ℕ → Bool
is_ref_start c = leb 65 c && leb c 90 || leb 97 c && leb c 122 || c == 95

abbrev is_ref_rest : ℕ → Bool
is_ref_rest c = is_ref_start c || leb 48 c && leb c 58 || c == 46 || c == 64 || c == 45

abbrev is_ref_codes : List ℕ → Bool
is_ref_codes [] = false
is_ref_codes (c ∷ cs) = is_ref_start c && every is_ref_rest cs

unfoldable pub is_ref : String → Bool
is_ref s = is_ref_codes (codes s)

abbrev pub instant_keys : List String
instant_keys = "rfc3339_utc" ∷ []

abbrev pub anchored_time_keys : List String
anchored_time_keys = "instant" ∷ "monotonic_run_ns" ∷ "anchor_id" ∷ []

abbrev pub is_bool_value : Datum → Bool
is_bool_value (boolean b) = true
is_bool_value _ = false

abbrev pub is_int_value : Datum → Bool
is_int_value (integer n) = true
is_int_value _ = false

abbrev pub is_text_value : (String → Bool) → Datum → Bool
is_text_value test (text s) = test s
is_text_value test _ = false

abbrev pub is_bytes_value : Datum → Bool
is_bytes_value (bytes s) = true
is_bytes_value _ = false

abbrev pub is_decimal_value : Datum → Bool
is_decimal_value (decimal d) = true
is_decimal_value _ = false

-- A dict with exactly these keys.
abbrev pub is_record_value : List String → Datum → Bool
is_record_value required (mapping es) = same_set (names es) required
is_record_value required _ = false

-- The table of scalar types in `_require_python_type`.
unfoldable pub matches : String → Datum → Bool
unfolding is_ref is_sha256
matches name d =
    if name ≟ "boolean"
    then is_bool_value d
    else if name ≟ "integer"
    then is_int_value d
    else if name ≟ "string"
    then is_text_value (λ s. true) d
    else if name ≟ "ref"
    then is_text_value is_ref d
    else if name ≟ "digest"
    then is_text_value is_sha256 d
    else if name ≟ "decimal"
    then is_decimal_value d
    else if name ≟ "bytes"
    then is_bytes_value d
    else if name ≟ "instant"
    then is_record_value instant_keys d
    else if name ≟ "anchored_time"
    then is_record_value anchored_time_keys d
    else true

-- The values of a type, with all their elements. What a record's value is, and what a map holds,
-- the expression language does not ask.
unfoldable mutual
  unfolding matches

  pub has_type : Datum → TypeNode → Bool
  has_type d (record_of schema) = true
  has_type d (scalar name) = contains scalar_names name && matches name d
  has_type nothing (optional item) = true
  has_type (boolean b) (optional item) = has_type (boolean b) item
  has_type (integer n) (optional item) = has_type (integer n) item
  has_type (text s) (optional item) = has_type (text s) item
  has_type (sequence ds) (optional item) = has_type (sequence ds) item
  has_type (frozenset ds) (optional item) = has_type (frozenset ds) item
  has_type (bytes s) (optional item) = has_type (bytes s) item
  has_type (decimal e) (optional item) = has_type (decimal e) item
  has_type (mapping es) (optional item) = has_type (mapping es) item
  has_type (sequence ds) (list item) = all_have_type ds item
  has_type (frozenset ds) (set item) = all_have_type ds item
  has_type (mapping es) (map key value) = true
  has_type _ _ = false

  pub all_have_type : Data → TypeNode → Bool
  all_have_type empty t = true
  all_have_type (more d ds) t = has_type d t && all_have_type ds t
