-- ===== src/Core/InformationOrder/Lifecycle.antt =====
-- `_lifecycle_rows` and `analyze_lifecycle_transformation` of
-- src/auditspec/core/information_order.py. A certificate has no roots.
pub mod Checks
pub mod Descent
pub mod Verdict
use Prim.Native.String
use auditspec.Prelude.{
  ℕ, String, Bool, true, false, not, Option, none, some, List, [], ◌∷◌, map, if◌then◌else◌,
}
use auditspec.Prelude.Text.{text_order, same_codes}
use auditspec.Prelude.Order.{sort_by}
use auditspec.Prelude.Sets.{same_set}
use auditspec.Prelude.Result.{Result, ok, err, information_order, ◌>>=◌, ◌>>◌, require, traverse}
use auditspec.Core.Value.{Value, str, obj, Fields, field, end, keys}
use auditspec.Core.Canonical.{canonical_json}
use auditspec.Core.InformationOrder.Rows.{identifier, json, item, populated}
use auditspec.Core.InformationOrder.Twin.{Key, AuditTwin, first_twin, partition}
use auditspec.Core.InformationOrder.Auditability.{
  Entry, decoder_table, QuotientCertificate, analyze_auditability, is_none,
}

pub record LifecycleRow : Type 0 where
  pub state_id : String
  pub source_evidence : Value
  pub transformed_evidence : Value
  pub claim_value : Value

abbrev lifecycle_keys : List String
lifecycle_keys = "state_id" ∷ "source_evidence" ∷ "transformed_evidence" ∷ "claim_value" ∷ []

unfoldable pub lifecycle_row : Value → Result LifecycleRow
unfolding item
lifecycle_row (obj row) = do
  require (same_set (keys row) lifecycle_keys) (information_order "lifecycle row keys mismatch")
  state_id ← item "state_id" row >>= identifier
  source_evidence ← item "source_evidence" row >>= json
  transformed_evidence ← item "transformed_evidence" row >>= json
  claim_value ← item "claim_value" row >>= json
  ok (record {
    state_id = state_id;
    source_evidence = source_evidence;
    transformed_evidence = transformed_evidence;
    claim_value = claim_value;
  })
lifecycle_row _ = err (information_order "lifecycle row keys mismatch")

-- `source_map`
abbrev pub SourceMap : Type 0
SourceMap = List (Key × Key)

unfoldable pub image_of : Key → SourceMap → Option Key
image_of key [] = none
image_of key ((k, image) ∷ source_map) =
    if same_codes k key then some image else image_of key source_map

-- `source_map.setdefault(key, transformed)`, with the map after it.
unfoldable pub set_default : Key → Key → SourceMap → Option Key → Key × SourceMap
set_default key transformed source_map (some prior) = (prior, source_map)
set_default key transformed source_map none = (transformed, (key, transformed) ∷ source_map)

-- The loop that checks that the transformation is a function.
unfoldable pub deterministic : List LifecycleRow → SourceMap → Result (Unit {0})
unfolding set_default
deterministic [] source_map = ok tt
deterministic (row ∷ rows) source_map = do
  key ← canonical_json row.source_evidence
  transformed ← canonical_json row.transformed_evidence
  let entry = set_default key transformed source_map (image_of key source_map)
  require (same_codes (entry.0) transformed)
      (information_order "lifecycle transformation is not deterministic")
  deterministic rows (entry.1)

unfoldable pub lifecycle_rows : List Value → Result (List LifecycleRow)
unfolding lifecycle_row deterministic
lifecycle_rows rows = do
  normalized ← traverse lifecycle_row rows
  require (populated (map (λ row. row.state_id) normalized))
      (information_order "lifecycle states are empty or duplicated")
  let ordered = sort_by text_order (λ (row : LifecycleRow). row.state_id) normalized
  _ ← deterministic ordered []
  ok ordered

-- The row of the source channel.
unfoldable pub source_row : LifecycleRow → Value
source_row row = obj (
    field "world_id" (str row.state_id) (
      field "world" (obj (field "source_evidence" row.source_evidence end))
        (field "claim_value" row.claim_value (field "evidence_value" row.source_evidence end))))

pub data LifecycleStatus : Type 0 where
  preserved hard_semantic_gap : LifecycleStatus

pub record LifecycleCertificate : Type 0 where
  pub claim_id : String
  pub transformation_id : String
  pub rows : List LifecycleRow
  pub status : LifecycleStatus
  pub kernel_inclusion : Bool
  pub induced_decoder : List Entry
  pub lifecycle_twin : Option AuditTwin

abbrev pub state_of : LifecycleRow → String
state_of r = r.state_id

abbrev pub source_of : LifecycleRow → Value
source_of r = r.source_evidence

abbrev pub transformed_of : LifecycleRow → Value
transformed_of r = r.transformed_evidence

abbrev pub claim_of : LifecycleRow → Value
claim_of r = r.claim_value

-- `if twin is None:`
unfoldable pub induced_table : Option AuditTwin → List LifecycleRow → Result (List Entry)
unfolding partition decoder_table
induced_table none normalized = do
  groups ← partition state_of transformed_of normalized
  decoder_table transformed_of claim_of normalized groups
induced_table (some twin) normalized = ok []

-- The source certificate is an argument, since its claim is looked at once.
unfoldable pub descend :
    String → String → List LifecycleRow → QuotientCertificate → Result LifecycleCertificate
unfolding first_twin induced_table identifier
descend claim_id transformation_id normalized source = do
  require source.factorization_exists
      (information_order "capture-time evidence does not support the supplied claim")
  twin ← first_twin state_of transformed_of claim_of normalized
  table ← induced_table twin normalized
  checked_claim ← identifier (str claim_id)
  checked_transformation ← identifier (str transformation_id)
  ok (record {
    claim_id = checked_claim;
    transformation_id = checked_transformation;
    rows = normalized;
    status = if is_none twin then preserved else hard_semantic_gap;
    kernel_inclusion = is_none twin;
    induced_decoder = table;
    lifecycle_twin = twin;
  })

unfoldable pub analyze_lifecycle_transformation :
    String → String → List Value → Result LifecycleCertificate
unfolding lifecycle_rows source_row analyze_auditability descend
analyze_lifecycle_transformation claim_id transformation_id rows = do
  normalized ← lifecycle_rows rows
  source ←
      analyze_auditability claim_id (String.◌++◌ transformation_id ":source")
        (map source_row normalized)
  descend claim_id transformation_id normalized source
