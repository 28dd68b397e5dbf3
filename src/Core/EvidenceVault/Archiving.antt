-- ===== src/Core/EvidenceVault/Archiving.antt =====
-- src/auditspec/core/evidence_vault.py: archiving components and evidence, and retiring components.
use Prim.Native.String.{◌++◌ as text_append}
use auditspec.Prelude.{
  ℕ, String, Bool, true, false, not, ◌&&◌, Option, none, some, List, [], ◌∷◌, leb,
}
use auditspec.Prelude.Text.{◌≟◌, contains}
use auditspec.Prelude.Dict.{Dict, find, has}
use auditspec.Prelude.Result.{Result, ok, err, vault_error, require, ◌>>=◌, ◌>>◌}
use auditspec.Core.Value.{Fields, obj}
use auditspec.Core.Canonical.{canonical_json}
use auditspec.Core.EvidenceVault.Records.{
  World, Component, WorldScope, declared_closed_world, externally_bridged_world, Evidence,
  Retirement, Event, component_archived, evidence_appended, component_retired,
}
use auditspec.Core.EvidenceVault.Checks.{vault_identifier, sha256, media_type, instant}
use auditspec.Core.EvidenceVault.Tables.{Rooted, Tables}
use auditspec.Core.EvidenceVault.Retirements.{sorted_set, retirement_v2}
use auditspec.Core.EvidenceVault.Replay.{EvidenceVault, replay, append_event, put_object}
use auditspec.Core.EvidenceVault.Retention.{is_empty}

abbrev pub component_kinds : List String
component_kinds = "bridge" ∷ "key" ∷ "policy" ∷ "schema" ∷ "verifier" ∷ []

-- f"{kind}:{component_id}:{version}"
unfoldable pub component_ref_of : String → String → String → String
component_ref_of kind component_id version =
    text_append kind (text_append ":" (text_append component_id (text_append ":" version)))

-- The component is there and has this kind.
abbrev pub has_kind : String → Option (Rooted Component) → Bool
has_kind kind none = false
has_kind kind (some row) = row.body.kind ≟ kind

-- The arguments of `append_evidence` but for `content` and `media_type`.
pub record EvidenceInput : Type 0 where
  pub evidence_id : String
  pub claim_id : String
  pub run_id : String
  pub schema_ref : String
  pub key_ref : String
  pub verifier_ref : String
  pub policy_ref : String
  pub world_scope : WorldScope
  pub captured_at : String
  pub minimum_retain_until : String
  pub deletion_required_by : String

-- `_require_capture_eligible_component`
unfoldable pub require_capture_eligible : Tables → String → Result (Unit {0})
require_capture_eligible tables component_ref =
    require (not (has component_ref tables.retirements))
      (vault_error "references retired component")

-- One round of the loop over the references of an evidence.
unfoldable pub check_reference : Tables → String → String → Result (Unit {0})
unfolding require_capture_eligible
check_reference tables kind reference = do
  require (has_kind kind (find reference tables.components))
      (vault_error "is unresolved or has wrong kind")
  require_capture_eligible tables reference

-- `_world_scope`
unfoldable pub check_world_scope : Dict (Rooted Component) → WorldScope → Result (Unit {0})
unfolding sha256
check_world_scope components (declared_closed_world scope_commitment universe_root) = do
  commitment ← sha256 scope_commitment
  root ← sha256 universe_root
  ok tt
check_world_scope components (externally_bridged_world scope_commitment bridge_ref) = do
  require (has_kind "bridge" (find bridge_ref components))
      (vault_error "world scope bridge reference is unresolved")
  commitment ← sha256 scope_commitment
  ok tt

abbrev pub check_bridge : Tables → WorldScope → Result (Unit {0})
check_bridge tables (declared_closed_world scope_commitment universe_root) = ok tt
check_bridge tables (externally_bridged_world scope_commitment bridge_ref) =
    require_capture_eligible tables bridge_ref

unfoldable pub check_references : Tables → EvidenceInput → Result (Unit {0})
unfolding check_reference check_world_scope require_capture_eligible
check_references tables input = do
  check_reference tables "schema" input.schema_ref
  check_reference tables "key" input.key_ref
  check_reference tables "verifier" input.verifier_ref
  check_reference tables "policy" input.policy_ref
  check_world_scope tables.components input.world_scope
  check_bridge tables input.world_scope

module _ (world : World) where
  unfoldable pub archive_component :
      String
      → String
      → String
      → List ℕ
      → String
      → Fields
      → String
      → EvidenceVault
      → Result (Event × EvidenceVault)
  unfolding vault_identifier instant media_type component_ref_of replay put_object append_event
  archive_component kind component_id version content media metadata recorded_at vault = do
    require (contains component_kinds kind) (vault_error "component kind is invalid")
    checked ← vault_identifier component_id
    numbered ← vault_identifier version
    recorded ← instant world recorded_at
    require (not (is_empty content)) (vault_error "component content must be non-empty bytes")
    typed ← media_type media
    let component_ref = component_ref_of kind component_id version
    state ← replay world vault
    require (not (has component_ref state.tables.components))
        (vault_error "component reference already exists")
    (object_ref, after) ← put_object world content media vault
    encoded ← canonical_json (obj metadata)
    let body : Component = record {
      component_ref = component_ref;
      kind = kind;
      component_id = component_id;
      version = version;
      object_ref = object_ref;
      metadata = metadata;
    }
    append_event world (component_archived body) recorded_at after

  -- `captured <= minimum <= deletion`
  unfoldable pub check_interval : EvidenceInput → Result (Unit {0})
  unfolding instant
  check_interval input = do
    captured ← instant world input.captured_at
    minimum ← instant world input.minimum_retain_until
    deletion ← instant world input.deletion_required_by
    require (leb captured minimum && leb minimum deletion)
        (vault_error "evidence retention interval is invalid")

  unfoldable pub append_evidence :
      EvidenceInput → List ℕ → String → String → EvidenceVault → Result (Event × EvidenceVault)
  unfolding vault_identifier check_interval instant replay check_references put_object append_event
  append_evidence input content media recorded_at vault = do
    evidence ← vault_identifier input.evidence_id
    claim ← vault_identifier input.claim_id
    run ← vault_identifier input.run_id
    check_interval input
    recorded ← instant world recorded_at
    state ← replay world vault
    require (not (has input.evidence_id state.tables.evidence))
        (vault_error "evidence id already exists")
    check_references state.tables input
    (object_ref, after) ← put_object world content media vault
    let body : Evidence = record {
      evidence_id = input.evidence_id;
      claim_id = input.claim_id;
      run_id = input.run_id;
      object_ref = object_ref;
      schema_ref = input.schema_ref;
      key_ref = input.key_ref;
      verifier_ref = input.verifier_ref;
      policy_ref = input.policy_ref;
      world_scope = input.world_scope;
      captured_at = input.captured_at;
      minimum_retain_until = input.minimum_retain_until;
      deletion_required_by = input.deletion_required_by;
    }
    append_event world (evidence_appended body) recorded_at after

  abbrev pub the_component : Option (Rooted Component) → Result Component
  the_component none = err (vault_error "retired component is unknown")
  the_component (some row) = ok row.body

  -- The checks of a replacement, when there is one.
  unfoldable pub check_replacement : Tables → String → String → Option String → Result (Unit {0})
  check_replacement tables component_ref kind none = ok tt
  check_replacement tables component_ref kind (some replacement_ref) = do
    require (has replacement_ref tables.components) (vault_error "replacement component is unknown")
    require (not (replacement_ref ≟ component_ref))
        (vault_error "replacement component must differ")
    require (not (has replacement_ref tables.retirements))
        (vault_error "replacement component is retired")
    require (has_kind kind (find replacement_ref tables.components))
        (vault_error "replacement component has wrong kind")

  -- The body that `retire_component` signs.
  abbrev pub certificate :
      String → Option String → List String → List String → Component → String → Retirement
  certificate component_ref replacement_ref impacted unsupported component recorded_at = record {
    schema = retirement_v2;
    component_ref = component_ref;
    replacement_ref = replacement_ref;
    impacted_claim_ids = sorted_set impacted;
    future_unsupported_claim_ids = sorted_set unsupported;
    archive_object_ref = component.object_ref;
    existing_contracts_reverify_before_retirement = true;
    future_capture_policy = some "reject_retired_reference";
    retired_at = some recorded_at;
  }

  unfoldable pub retire_component :
      String
      → Option String
      → List String
      → List String
      → String
      → EvidenceVault
      → Result (Event × EvidenceVault)
  unfolding instant replay check_replacement append_event
  retire_component component_ref replacement_ref impacted unsupported recorded_at vault = do
    recorded ← instant world recorded_at
    state ← replay world vault
    component ← the_component (find component_ref state.tables.components)
    require (not (has component_ref state.tables.retirements))
        (vault_error "component is already retired")
    check_replacement state.tables component_ref component.kind replacement_ref
    let body = certificate component_ref replacement_ref impacted unsupported component recorded_at
    append_event world (component_retired body) recorded_at vault
