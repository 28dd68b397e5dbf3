-- ===== src/Core/InformationOrder/Auditability.antt =====
-- `analyze_auditability` and `semantic_audit_horizon` of src/auditspec/core/information_order.py.
-- The decoder is generic in the rows, since `analyze_lifecycle_transformation` builds one too.
-- A certificate has no roots: a root is the digest of the parts that are kept here.
pub mod Decoder
pub mod Total
pub mod Correct
pub mod Horizon
use auditspec.Prelude.{
  ℕ, suc, String, Bool, true, false, not, ◌&&◌, ◌||◌, Option, none, some, List, [], ◌∷◌, map,
  get_elem?, leb, if◌then◌else◌,
}
use auditspec.Prelude.Order.{nat_order, list_order, sort_by}
use auditspec.Prelude.Result.{
  Result, ok, err, information_order, key_error, ◌>>=◌, ◌>>◌, require, traverse,
}
use auditspec.Core.Value.{Value, str}
use auditspec.Core.Canonical.{canonical_json}
use auditspec.Core.InformationOrder.Rows.{ChannelRow, channel_rows, identifier}
use auditspec.Core.InformationOrder.Twin.{Key, AuditTwin, Group, first_twin, partition}

-- One line of a decoder table: an evidence value and the claim value it stands for.
abbrev pub Entry : Type 0
Entry = Value × Value

module _ {Row : Type 0} (value : Row → Value) (claim : Row → Value) where
  pub row_entry : Option Row → Result Entry
  row_entry none = err key_error
  row_entry (some row) = ok (value row, claim row)

  -- The entry of a group, from the group's first row.
  pub group_entry : List Row → List ℕ → Result Entry
  unfolding row_entry
  group_entry rows [] = err key_error
  group_entry rows (index ∷ more) = row_entry (get_elem? rows index)

  pub keyed_entry : Entry → Result (Key × Entry)
  keyed_entry entry = do key ← canonical_json (entry.0); ok (key, entry)

  unfoldable pub decoder_table : List Row → List Group → Result (List Entry)
  unfolding group_entry keyed_entry
  decoder_table rows groups = do
    entries ← traverse (λ (g : Group). group_entry rows g.row_indexes) groups
    keyed ← traverse keyed_entry entries
    ok (map (λ p. p.1) (sort_by (list_order nat_order) (λ (p : Key × Entry). p.0) keyed))

  -- `if twin is None:`
  unfoldable pub decoder_unless : Option AuditTwin → List Row → List Group → Result (List Entry)
  unfolding decoder_table
  decoder_unless none rows groups = decoder_table rows groups
  decoder_unless (some twin) rows groups = ok []

pub data QuotientStatus : Type 0 where
  factorization twin_obstruction : QuotientStatus

pub record QuotientCertificate : Type 0 where
  pub claim_id : String
  pub evidence_id : String
  pub rows : List ChannelRow
  pub claim_partition : List Group
  pub evidence_partition : List Group
  pub factorization_exists : Bool
  pub status : QuotientStatus
  pub decoder : List Entry
  pub twin : Option AuditTwin

abbrev pub is_none : Option AuditTwin → Bool
is_none none = true
is_none (some t) = false

unfoldable pub analyze_auditability : String → String → List Value → Result QuotientCertificate
unfolding channel_rows partition first_twin decoder_unless identifier
analyze_auditability claim_id evidence_id rows = do
  normalized ← channel_rows rows
  evidence_groups ← partition (λ (r : ChannelRow). r.world_id) (λ r. r.evidence_value) normalized
  claim_groups ← partition (λ (r : ChannelRow). r.world_id) (λ r. r.claim_value) normalized
  twin ←
      first_twin (λ (r : ChannelRow). r.world_id) (λ r. r.evidence_value) (λ r. r.claim_value)
        normalized
  table ←
      decoder_unless (λ (r : ChannelRow). r.evidence_value) (λ r. r.claim_value) twin normalized
        evidence_groups
  checked_claim ← identifier (str claim_id)
  checked_evidence ← identifier (str evidence_id)
  ok (record {
    claim_id = checked_claim;
    evidence_id = checked_evidence;
    rows = normalized;
    claim_partition = claim_groups;
    evidence_partition = evidence_groups;
    factorization_exists = is_none twin;
    status = if is_none twin then factorization else twin_obstruction;
    decoder = table;
    twin = twin;
  })

-- A point of a timeline, its time and evidence as texts.
pub record TimelinePoint : Type 0 where
  pub time : String
  pub evidence_id : String
  pub rows : List Value

pub record HorizonRow : Type 0 where
  pub index : ℕ
  pub time : String
  pub evidence_id : String
  pub sufficient : Bool

-- The loop's state: the rows so far in order, `seen_hard` and `prefix_closed`.
pub record Scan : Type 0 where
  pub rows : List HorizonRow
  pub seen_hard : Bool
  pub prefix_closed : Bool

unfoldable pub scan : String → ℕ → List TimelinePoint → Bool → Bool → Result Scan
unfolding analyze_auditability
scan claim_id index [] seen_hard prefix_closed =
    ok (record { rows = []; seen_hard = seen_hard; prefix_closed = prefix_closed })
scan claim_id index (point ∷ timeline) seen_hard prefix_closed = do
  certificate ← analyze_auditability claim_id point.evidence_id point.rows
  let sufficient = certificate.factorization_exists
  rest ←
      scan claim_id (suc index) timeline (seen_hard || not sufficient)
        (if seen_hard && sufficient then false else prefix_closed)
  ok (record {
    rows =
        (record {
          index = index;
          time = point.time;
          evidence_id = point.evidence_id;
          sufficient = sufficient;
        })
        ∷ rest.rows;
    seen_hard = rest.seen_hard;
    prefix_closed = rest.prefix_closed;
  })

unfoldable pub max_with : Bool → ℕ → Option ℕ → Option ℕ
max_with false index greatest = greatest
max_with true index none = some index
max_with true index (some greatest) = some (if leb index greatest then greatest else index)

-- `max((row["index"] for row in rows if row["semantically_sufficient"]), default=None)`
unfoldable pub last_sufficient : List HorizonRow → Option ℕ
unfolding max_with
last_sufficient [] = none
last_sufficient (row ∷ rows) = max_with row.sufficient row.index (last_sufficient rows)

pub record AuditHorizon : Type 0 where
  pub claim_id : String
  pub timeline : List HorizonRow
  pub no_new_evidence : Bool
  pub prefix_closed : Bool
  pub last_index : Option ℕ

abbrev is_empty : List TimelinePoint → Bool
is_empty [] = true
is_empty (p ∷ ps) = false

unfoldable pub semantic_audit_horizon : String → List TimelinePoint → Bool → Result AuditHorizon
unfolding scan last_sufficient
semantic_audit_horizon claim_id timeline no_new_evidence = do
  require (not (is_empty timeline)) (information_order "audit horizon timeline is empty")
  found ← scan claim_id 0 timeline false true
  require (not (no_new_evidence && not found.prefix_closed))
      (information_order "semantic horizon regained without a declared new evidence channel")
  ok (record {
    claim_id = claim_id;
    timeline = found.rows;
    no_new_evidence = no_new_evidence;
    prefix_closed = found.prefix_closed;
    last_index = last_sufficient found.rows;
  })
