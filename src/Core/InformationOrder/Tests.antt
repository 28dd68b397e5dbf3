-- ===== src/Core/InformationOrder/Tests.antt =====
-- Runs of the calculus on small inputs, and the theorems at those inputs.
use auditspec.Prelude.{
  ℕ, ◌^◌, ◌<◌, String, Bool, true, false, none, some, List, [], ◌∷◌, ◌++◌, every, if◌then◌else◌,
  ◌≡◌, ◌↔◌, refl, arith, inl, inr, Member, length,
}
use auditspec.Prelude.Int.{pos}
use auditspec.Prelude.Result.{ok, err, information_order, is_ok, value_of}
use auditspec.Core.Value.{
  Value, null, bool, int, str, arr, obj, Items, nil, cons, Fields, end, field, keys, get, members,
  items, truthy, py_eq,
}
use auditspec.Core.Canonical.{canonical_json}
use auditspec.Prelude.Combinations.{subsets}
use auditspec.Core.InformationOrder.Closure.{Mechanisms, dependency_closure, requires_of}
use auditspec.Core.InformationOrder.Closure.Needs.{Needs}
use auditspec.Core.InformationOrder.Closure.Correct.{Decides, dependency_closure-Decides}
use auditspec.Core.InformationOrder.Rows.{
  ContractRow, ChannelRow, mechanism_catalog, contract_rows, identifier, json, item, populated,
}
use auditspec.Core.InformationOrder.Contract.{
  compile_minimum_contract, analysis_incomplete, search, critical_pair, critical_pairs,
  in_safe_range, out_of_safe_range, pair_positions, catalog_costs, all_pairs, with_separators,
  separates, candidate, meets, observed, pairs_with, pairs_from, total_cost, cost_of,
  admissible_ids, feasible_ids, closes,
}
use auditspec.Core.InformationOrder.Contract.Pairs.{Critical, critical_pairs_iff}
use auditspec.Core.InformationOrder.Contract.Feasible.{
  Admitted, IsDependencyClosed, closes_iff, feasible_iff,
}
use auditspec.Core.InformationOrder.Contract.Determines.{Determines, hits, hits_iff}
use auditspec.Core.InformationOrder.Contract.Verdict.{search_limited}
use auditspec.Core.InformationOrder.Contract.Compile.{
  CompileVerdict, compile_minimum_contract-CompileVerdict,
}
use auditspec.Core.InformationOrder.Twin.{Groups, first_twin, keyed_partition, bucket, add_to}
use auditspec.Core.InformationOrder.Twin.Verdict.{TwinVerdict}
use auditspec.Core.InformationOrder.Twin.Laws.{first_twin-TwinVerdict}
use auditspec.Core.InformationOrder.Twin.Groups.{IsPartition, keyed_partition-IsPartition}
use auditspec.Core.InformationOrder.Auditability.{
  analyze_auditability, TimelinePoint, AuditHorizon, semantic_audit_horizon,
}
use auditspec.Core.InformationOrder.Auditability.Correct.{
  id_of, evidence_of, claim_of, AnalysisVerdict, analyze_auditability-AnalysisVerdict,
}
use auditspec.Core.InformationOrder.Auditability.Horizon.{
  HorizonVerdict, semantic_audit_horizon-HorizonVerdict,
}
use auditspec.Core.InformationOrder.Lifecycle.{
  LifecycleRow, lifecycle_rows, analyze_lifecycle_transformation, image_of,
}
use auditspec.Core.InformationOrder.Lifecycle.Checks.{IsFunction, lifecycle_rows-IsFunction}
use auditspec.Core.InformationOrder.Lifecycle.Verdict.{
  TransformationVerdict, analyze_lifecycle-TransformationVerdict,
}

abbrev mechanism_entry : ℕ → Items → Value
mechanism_entry cost requires = obj (
    field "cost" (int (pos cost))
      (field "requires" (arr requires) (field "admissible" (bool true) end)))

abbrev catalog : Fields
catalog = field "log" (mechanism_entry 2 nil) (
    field "hash" (mechanism_entry 1 (cons (str "log") nil))
      (field "copy" (mechanism_entry 5 nil) end))

abbrev world : String → Bool → ℕ → ℕ → ℕ → Value
world id claim log hash copy = obj (
    field "world_id" (str id) (
      field "world" null (
        field "claim_value" (bool claim) (
          field "observations"
            (obj (
              field "log" (int (pos log))
                (field "hash" (int (pos hash)) (field "copy" (int (pos copy)) end))))
            end))))

abbrev worlds : List Value
worlds = world "w2" false 0 0 1 ∷ world "w1" true 1 0 1 ∷ world "w3" true 1 1 1 ∷ []

compile_minimum_contract-CompileVerdict_example :
    CompileVerdict "claim" worlds catalog none
      (compile_minimum_contract "claim" worlds catalog none)
compile_minimum_contract-CompileVerdict_example =
    compile_minimum_contract-CompileVerdict "claim" worlds catalog none

abbrev checked_catalog : Mechanisms
checked_catalog =
    ("copy", record { cost = 5; requires = []; admissible = true })
    ∷ ("hash", record { cost = 1; requires = "log" ∷ []; admissible = true })
    ∷ ("log", record { cost = 2; requires = []; admissible = true })
    ∷ []

abbrev row : String → Bool → ℕ → ℕ → ContractRow
row id claim log hash = record {
  world_id = id;
  world = null;
  claim_value = bool claim;
  observations = ("copy", int (pos 1)) ∷ ("hash", int (pos hash)) ∷ ("log", int (pos log)) ∷ [];
}

abbrev rows : List ContractRow
rows = row "w1" true 1 0 ∷ row "w2" false 0 0 ∷ row "w3" true 1 1 ∷ []

catalog_checked : mechanism_catalog catalog ≡ ok checked_catalog
unfolding mechanism_catalog item get keys members items identifier truthy
catalog_checked = refl

dependency_closure-Decides_example :
    Decides checked_catalog
      ("log" ∷ "hash" ∷ [])
      ("hash" ∷ [])
      (dependency_closure checked_catalog ("log" ∷ "hash" ∷ []) ("hash" ∷ []))
dependency_closure-Decides_example =
    dependency_closure-Decides checked_catalog ("log" ∷ "hash" ∷ []) ("hash" ∷ [])

feasible_number : length (feasible_ids checked_catalog) ≡ 3
unfolding feasible_ids admissible_ids dependency_closure requires_of
feasible_number = refl

low_limit : 3 < 2 ^ length (feasible_ids checked_catalog)
low_limit = rw feasible_number (omega arith)

search_limited_example : search "claim" rows checked_catalog (some (pos 3)) ≡ (
    if every in_safe_range (
      pair_positions (all_pairs rows checked_catalog)
      ++ pos 3 ∷ pos 3 ∷ catalog_costs checked_catalog)
    then ok (analysis_incomplete (pos 3) 3)
    else err out_of_safe_range)
search_limited_example = search_limited rows checked_catalog "claim" (pos 3) low_limit

abbrev costly : Fields
costly = field "log" (mechanism_entry 9007199254740992 nil) end

abbrev watched : String → Bool → ℕ → Value
watched id claim log = obj (
    field "world_id" (str id) (
      field "world" null (
        field "claim_value" (bool claim)
          (field "observations" (obj (field "log" (int (pos log)) end)) end))))

-- A cost beyond the safe range passes the catalog's checks, and the certificate has no digest.
costly_catalog :
    compile_minimum_contract "claim" (watched "w1" true 1 ∷ watched "w2" false 0 ∷ []) costly none
    ≡ err out_of_safe_range
unfolding compile_minimum_contract contract_rows mechanism_catalog item get keys members items
    identifier json canonical_json populated truthy search all_pairs critical_pairs with_separators
    separates feasible_ids admissible_ids dependency_closure requires_of candidate closes meets
    observed py_eq pairs_with pairs_from total_cost cost_of subsets
costly_catalog = refl

-- A requirement that is a number is no identifier.
number_required :
    mechanism_catalog (field "log" (mechanism_entry 1 (cons (int (pos 1)) nil)) end)
    ≡ err (information_order "identifier is invalid")
unfolding mechanism_catalog item get keys members items identifier truthy py_eq
number_required = refl

critical_pairs_iff_example :
    Member (critical_pair 0 (row "w1" true 1 0) 1 (row "w2" false 0 0)) (critical_pairs rows) ↔ (
      (a : ℕ) × (b : ℕ) × (r : ContractRow) × (s : ContractRow) × Critical rows a b r s
      × (critical_pair 0 (row "w1" true 1 0) 1 (row "w2" false 0 0) ≡ critical_pair a r b s))
critical_pairs_iff_example =
    critical_pairs_iff rows (critical_pair 0 (row "w1" true 1 0) 1 (row "w2" false 0 0))

feasible_log : (id : String) → Member id ("log" ∷ []) → Member id (feasible_ids checked_catalog)
unfolding feasible_ids admissible_ids dependency_closure requires_of
feasible_log id (inl e) = inr (inr (inl e))
feasible_log id (inr m) = absurd m

hits_iff_example : (hits rows checked_catalog ("log" ∷ []) ≡ true) ↔ Determines rows ("log" ∷ [])
hits_iff_example = hits_iff rows checked_catalog ("log" ∷ []) feasible_log

closes_iff_example :
    (closes checked_catalog ("hash" ∷ "log" ∷ []) ≡ true)
    ↔ IsDependencyClosed checked_catalog ("hash" ∷ "log" ∷ [])
closes_iff_example = closes_iff checked_catalog ("hash" ∷ "log" ∷ [])

feasible_iff_example :
    Member "hash" (feasible_ids checked_catalog)
    ↔ ((x : String) → Needs checked_catalog ("hash" ∷ []) x → Admitted checked_catalog x)
feasible_iff_example = feasible_iff checked_catalog "hash"

abbrev channel : String → Bool → ℕ → ChannelRow
channel id claim evidence = record {
  world_id = id;
  world = null;
  claim_value = bool claim;
  evidence_value = int (pos evidence);
}

abbrev channels : List ChannelRow
channels =
    channel "w1" true 1 ∷ channel "w2" false 0 ∷ channel "w3" true 1 ∷ channel "w4" true 0 ∷ []

first_twin-TwinVerdict_example :
    TwinVerdict id_of evidence_of claim_of channels (first_twin id_of evidence_of claim_of channels)
first_twin-TwinVerdict_example = first_twin-TwinVerdict id_of evidence_of claim_of channels

partition_returns : is_ok (keyed_partition id_of evidence_of channels) ≡ true
unfolding keyed_partition canonical_json
partition_returns = refl

abbrev partitioned : (groups : Groups) × (keyed_partition id_of evidence_of channels ≡ ok groups)
partitioned = value_of (keyed_partition id_of evidence_of channels) partition_returns

keyed_partition-IsPartition_example : IsPartition id_of evidence_of channels (partitioned.0)
keyed_partition-IsPartition_example =
    keyed_partition-IsPartition id_of evidence_of channels (partitioned.0) (partitioned.1)

abbrev raw_channel : String → Bool → ℕ → Value
raw_channel id claim evidence = obj (
    field "world_id" (str id) (
      field "world" null
        (field "claim_value" (bool claim) (field "evidence_value" (int (pos evidence)) end))))

abbrev raw_channels : List Value
raw_channels = raw_channel "w2" false 0 ∷ raw_channel "w1" true 1 ∷ raw_channel "w3" true 1 ∷ []

analyze_auditability-AnalysisVerdict_example :
    AnalysisVerdict "claim" "log" raw_channels (analyze_auditability "claim" "log" raw_channels)
analyze_auditability-AnalysisVerdict_example =
    analyze_auditability-AnalysisVerdict "claim" "log" raw_channels

abbrev timeline : List TimelinePoint
timeline =
    record { time = "t0"; evidence_id = "log"; rows = raw_channels }
    ∷ record { time = "t1"; evidence_id = "log"; rows = raw_channel "w4" false 1 ∷ raw_channels }
    ∷ []

horizon_returns : is_ok (semantic_audit_horizon "claim" timeline true) ≡ true
unfolding semantic_audit_horizon keys get json canonical_json populated bucket add_to
horizon_returns = refl

abbrev horizon : (h : AuditHorizon) × (semantic_audit_horizon "claim" timeline true ≡ ok h)
horizon = value_of (semantic_audit_horizon "claim" timeline true) horizon_returns

semantic_audit_horizon-HorizonVerdict_example : HorizonVerdict "claim" timeline true (horizon.0)
semantic_audit_horizon-HorizonVerdict_example =
    semantic_audit_horizon-HorizonVerdict "claim" timeline true (horizon.0) (horizon.1)

abbrev raw_state : String → Bool → ℕ → ℕ → Value
raw_state id claim source transformed = obj (
    field "state_id" (str id) (
      field "source_evidence" (int (pos source)) (
        field "transformed_evidence" (int (pos transformed))
          (field "claim_value" (bool claim) end))))

abbrev raw_states : List Value
raw_states = raw_state "s2" false 0 7 ∷ raw_state "s1" true 1 7 ∷ raw_state "s3" true 1 7 ∷ []

states_return : is_ok (lifecycle_rows raw_states) ≡ true
unfolding lifecycle_rows keys get identifier json canonical_json populated image_of
states_return = refl

abbrev states : (rows : List LifecycleRow) × (lifecycle_rows raw_states ≡ ok rows)
states = value_of (lifecycle_rows raw_states) states_return

lifecycle_rows-IsFunction_example : IsFunction (states.0)
lifecycle_rows-IsFunction_example = lifecycle_rows-IsFunction raw_states (states.0) (states.1)

analyze_lifecycle-TransformationVerdict_example :
    TransformationVerdict "claim" "redact" raw_states
      (analyze_lifecycle_transformation "claim" "redact" raw_states)
analyze_lifecycle-TransformationVerdict_example =
    analyze_lifecycle-TransformationVerdict "claim" "redact" raw_states
