-- ===== src/Core/InformationOrder/Rows.antt =====
-- The checks that admit rows, identifiers and catalogs: `_identifier`, `_json`, `_channel_rows`,
-- `_contract_rows`, `_mechanisms` of src/auditspec/core/information_order.py.
pub mod Laws
use Prim.Native.Char.{code}
use Prim.Native.String.{String}
use auditspec.Prelude.{
  ℕ, zero, suc, Bool, true, false, not, ◌&&◌, ◌||◌, Option, none, some, List, [], ◌∷◌, ◌≡◌, map,
  length, leb, ◌==◌, if◌then◌else◌, every,
}
use auditspec.Prelude.Int.{pos, negsuc}
use auditspec.Prelude.Text.{codes, text_order, ◌≟◌}
use auditspec.Prelude.Order.{sort_by}
use auditspec.Prelude.Sets.{same_set, to_set}
use auditspec.Prelude.Result.{
  Result, ok, err, Error, information_order, type_error, key_error, unhashable, ◌>>=◌, ◌>>◌,
  require, traverse,
}
use auditspec.Core.Value.{
  Value, null, bool, int, str, arr, obj, other, Fields, get, keys, items, members, truthy, py_eq,
}
use auditspec.Core.Canonical.{canonical_json}
use auditspec.Core.InformationOrder.Closure.{Mechanism, Mechanisms}

-- A letter, a digit or one of `_.:-`.
identifier_character : ℕ → Bool
identifier_character c =
    (leb 97 c && leb c 122)
    || (leb 65 c && leb c 90)
    || (leb 48 c && leb c 57)
    || c == 95
    || c == 46
    || c == 58
    || c == 45

abbrev invalid : Error
invalid = information_order "identifier is invalid"

identifier_text : String → Result String
unfolding identifier_character
identifier_text s = do
  require (not (s ≟ "") && leb (length (codes s)) 255) invalid
  require (every identifier_character (codes s)) invalid
  ok s

unfoldable pub identifier : Value → Result String
unfolding identifier_text
identifier (str s) = identifier_text s
identifier _ = err invalid

-- `_json`: the value itself, if it has a canonical encoding.
unfoldable pub json : Value → Result Value
json value = elim (canonical_json value) [
  | ok _ ↦ ok value
  | err _ ↦ err (information_order "value is not canonical JSON")
]

-- `row[key]`
unfoldable pub item : String → Fields → Result Value
item key row = elim (get key row) [ none ↦ err key_error | some value ↦ ok value ]

pub record ChannelRow : Type 0 where
  pub world_id : String
  pub world : Value
  pub claim_value : Value
  pub evidence_value : Value

abbrev channel_keys : List String
channel_keys = "world_id" ∷ "world" ∷ "claim_value" ∷ "evidence_value" ∷ []

unfoldable pub channel_row : Value → Result ChannelRow
unfolding item
channel_row (obj row) = do
  require (same_set (keys row) channel_keys) (information_order "finite channel row keys mismatch")
  world_id ← item "world_id" row >>= identifier
  world ← item "world" row >>= json
  claim_value ← item "claim_value" row >>= json
  evidence_value ← item "evidence_value" row >>= json
  ok (record {
    world_id = world_id;
    world = world;
    claim_value = claim_value;
    evidence_value = evidence_value;
  })
channel_row _ = err (information_order "finite channel row keys mismatch")

-- `bool(ids) and len(set(ids)) == len(ids)`
unfoldable pub populated : List String → Bool
populated ids = not (length ids == 0) && length (to_set ids) == length ids

unfoldable pub channel_rows : List Value → Result (List ChannelRow)
unfolding channel_row
channel_rows rows = do
  normalized ← traverse channel_row rows
  require (populated (map (λ row. row.world_id) normalized))
      (information_order "finite channel worlds are empty or duplicated")
  ok (sort_by text_order (λ row. row.world_id) normalized)

abbrev pub Observations : Type 0
Observations = List (String × Value)

pub record ContractRow : Type 0 where
  pub world_id : String
  pub world : Value
  pub claim_value : Value
  pub observations : Observations

abbrev contract_keys : List String
contract_keys = "world_id" ∷ "world" ∷ "claim_value" ∷ "observations" ∷ []

abbrev checked_observation : String × Value → Result (String × Value)
checked_observation (key, value) = json value >>= λ checked. ok (key, checked)

abbrev by_key : List (String × Value) → List (String × Value)
by_key = sort_by text_order (λ m. m.0)

-- The observations are a mapping with one entry for each mechanism.
observes_each : List String → Value → Bool
observes_each mechanism_ids (obj observations) = same_set (keys observations) mechanism_ids
observes_each mechanism_ids _ = false

observation_row : Value → Result Observations
observation_row (obj observations) = traverse checked_observation (by_key (members observations))
observation_row _ = err type_error

contract_row : List String → Value → Result ContractRow
unfolding item observes_each observation_row
contract_row mechanism_ids (obj row) = do
  require (same_set (keys row) contract_keys) (information_order "contract row keys mismatch")
  raw ← item "observations" row
  require (observes_each mechanism_ids raw)
      (information_order "contract observation population mismatch")
  world_id ← item "world_id" row >>= identifier
  world ← item "world" row >>= json
  claim_value ← item "claim_value" row >>= json
  observations ← observation_row raw
  ok (record {
    world_id = world_id;
    world = world;
    claim_value = claim_value;
    observations = observations;
  })
contract_row mechanism_ids _ = err (information_order "contract row keys mismatch")

unfoldable pub contract_rows : List Value → Fields → Result (List ContractRow)
unfolding contract_row
contract_rows rows mechanisms = do
  normalized ← traverse (contract_row (keys mechanisms)) rows
  require (populated (map (λ row. row.world_id) normalized))
      (information_order "contract worlds are empty or duplicated")
  ok (sort_by text_order (λ row. row.world_id) normalized)

characters : String → List Value
characters String.[] = []
characters (String.◌∷◌ c s) = str (String.◌∷◌ c String.[]) ∷ characters s

-- `iter(value)`
iterate : Value → Result (List Value)
unfolding characters
iterate (arr values) = ok (items values)
iterate (str s) = ok (characters s)
iterate (obj fs) = ok (map str (keys fs))
iterate _ = err type_error

-- `hash(entry)`: a list or a dict has none.
abbrev has_hash : Value → Bool
has_hash (arr _) = false
has_hash (obj _) = false
has_hash _ = true

-- `set(entries)`, as a list without repetition.
distinct_entries : List Value → List Value
distinct_entries [] = []
distinct_entries (v ∷ vs) =
    let rest = distinct_entries vs in if every (λ w. not (py_eq v w)) rest then v ∷ rest else rest

abbrev is_text : Value → Bool
is_text (str _) = true
is_text _ = false

-- A bool or a number. Of the other types JSON has only the float, which is one.
abbrev is_number : Value → Bool
is_number (bool _) = true
is_number (int _) = true
is_number (other _ _) = true
is_number _ = false

-- `sorted` compares texts with texts and numbers with numbers; one entry it does not compare.
abbrev is_sortable : List Value → Bool
is_sortable [] = true
is_sortable (v ∷ []) = true
is_sortable (v ∷ w ∷ vs) = every is_text (v ∷ w ∷ vs) || every is_number (v ∷ w ∷ vs)

-- What `_identifier` says first of an entry.
abbrev text_entry : Value → Result String
text_entry (str s) = ok s
text_entry _ = err invalid

abbrev mechanism_row_keys : List String
mechanism_row_keys = "cost" ∷ "requires" ∷ "admissible" ∷ []

positive_cost : Value → Result ℕ
positive_cost (int (pos (suc n))) = ok (suc n)
positive_cost _ = err (information_order "mechanism cost must be a positive integer")

requirements : Value → Result (List String)
unfolding iterate distinct_entries
requirements value = do
  entries ← iterate value
  require (every has_hash entries) unhashable
  let distinct = distinct_entries entries
  require (is_sortable distinct) type_error
  texts ← traverse text_entry distinct
  traverse identifier_text (sort_by text_order (λ s. s) texts)

mechanism_row : String × Value → Result (String × Mechanism)
unfolding item identifier_text positive_cost requirements
mechanism_row (mechanism_id, obj row) = do
  _ ← identifier_text mechanism_id
  require (same_set (keys row) mechanism_row_keys) (information_order "mechanism row keys mismatch")
  cost ← item "cost" row >>= positive_cost
  requires ← item "requires" row >>= requirements
  admissible ← item "admissible" row
  ok (mechanism_id, record { cost = cost; requires = requires; admissible = truthy admissible })
mechanism_row (mechanism_id, _) = do
  _ ← identifier_text mechanism_id
  err (information_order "mechanism row keys mismatch")

unfoldable pub mechanism_catalog : Fields → Result Mechanisms
unfolding mechanism_row
mechanism_catalog mechanisms = do
  require (not (length (keys mechanisms) == 0)) (information_order "mechanism catalog is empty")
  traverse mechanism_row (by_key (members mechanisms))
