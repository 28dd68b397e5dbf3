-- ===== src/Core/InformationOrder/Twin.antt =====
-- `_first_twin`, `_partition` and `_partition_lifecycle` of src/auditspec/core/information_order.py.
-- Both kinds of rows have an identifier, a value that stands for the evidence, and a claim value;
-- the code names the fields, the model takes the projections.
pub mod Verdict
pub mod Equations
pub mod Invariant
pub mod Laws
pub mod Groups
use auditspec.Prelude.{
  ℕ, zero, suc, String, Bool, true, false, not, Option, none, some, List, [], ◌∷◌, ◌++◌, map,
  get_elem?, if◌then◌else◌,
}
use auditspec.Prelude.Text.{same_codes}
use auditspec.Prelude.Order.{nat_order, list_order, sort_by}
use auditspec.Prelude.Result.{Result, ok, err, key_error, ◌>>=◌, ◌>>◌, traverse}
use auditspec.Core.Value.{Value}
use auditspec.Core.Canonical.{canonical_json}

-- A canonical encoding, which the code uses as a key.
abbrev pub Key : Type 0
Key = List ℕ

pub record AuditTwin : Type 0 where
  pub left_id : String
  pub right_id : String
  pub shared_value : Value
  pub left_claim_value : Value
  pub right_claim_value : Value

-- A bucket: its key, the index of its first row, and that row's claim.
abbrev pub Bucket : Type 0
Bucket = Key × (ℕ × Key)

-- `buckets.get(key)`
unfoldable pub bucket : Key → List Bucket → Option (ℕ × Key)
bucket key [] = none
bucket key ((k, b) ∷ buckets) = if same_codes k key then some b else bucket key buckets

-- A group of a partition.
pub record Group : Type 0 where
  pub value : Value
  pub ids : List String
  pub row_indexes : List ℕ

abbrev pub Groups : Type 0
Groups = List (Key × Group)

-- `groups[key].append(index)` and `values[key] = value`
unfoldable pub add_to : Key → ℕ → String → Value → Groups → Groups
add_to key index id value [] =
    (key, record { value = value; ids = id ∷ []; row_indexes = index ∷ [] }) ∷ []
add_to key index id value ((k, g) ∷ groups) =
    if same_codes k key
    then (
      k,
      record { value = value; ids = g.ids ++ id ∷ []; row_indexes = g.row_indexes ++ index ∷ [] },
    )
      ∷ groups
    else (k, g) ∷ add_to key index id value groups

module _ {Row : Type 0} (row_id : Row → String) (value : Row → Value) (claim : Row → Value) where
  pub twin_of : List Row → ℕ → Row → Result (Option AuditTwin)
  twin_of rows index right = elim (get_elem? rows index) [
    | none ↦ err key_error
    | some left ↦ ok (
        some (record {
          left_id = row_id left;
          right_id = row_id right;
          shared_value = value right;
          left_claim_value = claim left;
          right_claim_value = claim right;
        }))
  ]

  -- What one row does: a twin ends the loop, a new key adds a bucket.
  pub data Seen : Type 0 where
    collision : ℕ → Seen
    known : Seen
    fresh : Seen

  pub look : Option (ℕ × Key) → Key → Seen
  look none claim_key = fresh
  look (some (index, prior)) claim_key =
      if same_codes prior claim_key then known else collision index

  pub twin_from : List Row → ℕ → List Row → List Bucket → Result (Option AuditTwin)
  unfolding look
  twin_from rows index [] buckets = ok none
  twin_from rows index (row ∷ rest) buckets = do
    key ← canonical_json (value row)
    claim_key ← canonical_json (claim row)
    elim (look (bucket key buckets) claim_key) [
      | collision prior ↦ twin_of rows prior row
      | known ↦ twin_from rows (suc index) rest buckets
      | fresh ↦ twin_from rows (suc index) rest ((key, (index, claim_key)) ∷ buckets)
    ]

  -- `_first_twin`
  unfoldable pub first_twin : List Row → Result (Option AuditTwin)
  unfolding twin_of twin_from
  first_twin rows = twin_from rows 0 rows []

module _ {Row : Type 0} (row_id : Row → String) (value : Row → Value) where
  unfoldable pub groups_from : ℕ → List Row → Groups → Result Groups
  groups_from index [] groups = ok groups
  groups_from index (row ∷ rest) groups = do
    key ← canonical_json (value row)
    groups_from (suc index) rest (add_to key index (row_id row) (value row) groups)

  -- `_partition`, with each group's key.
  unfoldable pub keyed_partition : List Row → Result Groups
  unfolding groups_from
  keyed_partition rows = do
    groups ← groups_from 0 rows []
    ok (sort_by (list_order nat_order) (λ g. g.0) groups)

  unfoldable pub partition : List Row → Result (List Group)
  unfolding keyed_partition
  partition rows = do groups ← keyed_partition rows; ok (map (λ g. g.1) groups)
