-- ===== src/Core/StateMachine.antt =====
-- src/auditspec/core/state_machine.py: the design-time lifecycle of a claim.
pub mod History
pub mod Precedence
mod Tests
use auditspec.Prelude.{
  ℕ, String, Bool, true, false, not, ◌&&◌, ◌||◌, Option, none, some, List, [], ◌∷◌, ◌++◌, ◌==◌,
  length,
}
use auditspec.Prelude.Result.{Result, ok, err, value_error, ◌>>=◌, ◌>>◌, require}

pub data LifecycleState : Type 0 where
  declared scoped model_validated synthesized planned certified installed : LifecycleState
  preflight_passed capturing run_closed verified_at_capture archived : LifecycleState
  reverified_at_audit_time intervention_required intervention_planned : LifecycleState
  intervention_executed : LifecycleState

pub data TransitionOutcome : Type 0 where
  pass typed_fail limit_reached : TransitionOutcome

-- The place of a state in the enumeration, which tells states apart.
unfoldable pub ordinal : LifecycleState → ℕ
ordinal declared = 0
ordinal scoped = 1
ordinal model_validated = 2
ordinal synthesized = 3
ordinal planned = 4
ordinal certified = 5
ordinal installed = 6
ordinal preflight_passed = 7
ordinal capturing = 8
ordinal run_closed = 9
ordinal verified_at_capture = 10
ordinal archived = 11
ordinal reverified_at_audit_time = 12
ordinal intervention_required = 13
ordinal intervention_planned = 14
ordinal intervention_executed = 15

abbrev pub Edge : Type 0
Edge = LifecycleState × LifecycleState

-- `edge in edges`
unfoldable pub has_edge : LifecycleState → LifecycleState → List Edge → Bool
unfolding ordinal
has_edge a b [] = false
has_edge a b ((c, d) ∷ edges) =
    (ordinal a == ordinal c && ordinal b == ordinal d) || has_edge a b edges

abbrev pub passive_edges : List Edge
passive_edges =
    (declared, scoped)
    ∷ (scoped, model_validated)
    ∷ (model_validated, synthesized)
    ∷ (synthesized, planned)
    ∷ (planned, certified)
    ∷ (certified, installed)
    ∷ (installed, preflight_passed)
    ∷ (preflight_passed, capturing)
    ∷ (capturing, run_closed)
    ∷ (run_closed, verified_at_capture)
    ∷ (verified_at_capture, archived)
    ∷ (archived, reverified_at_audit_time)
    ∷ (reverified_at_audit_time, reverified_at_audit_time)
    ∷ []

abbrev pub causal_edges : List Edge
causal_edges =
    (synthesized, intervention_required)
    ∷ (intervention_required, intervention_planned)
    ∷ (intervention_planned, planned)
    ∷ (capturing, intervention_executed)
    ∷ (intervention_executed, run_closed)
    ∷ []

abbrev pub allowed_edges : List Edge
allowed_edges = passive_edges ++ causal_edges

pub record DesignTransition : Type 0 where
  pub sequence : ℕ
  pub from_state : LifecycleState
  pub attempted_to_state : LifecycleState
  pub resulting_state : LifecycleState
  pub obligation_checked : Option String
  pub outcome : TransitionOutcome
  pub verdict_on_fail : Option String
  pub failure_subtype : Option String

pub record DesignLifecycle : Type 0 where
  pub state : LifecycleState
  pub transitions : List DesignTransition

-- `DesignLifecycle()`
abbrev pub new : DesignLifecycle
new = record { state = declared; transitions = [] }

abbrev pub given : Option String → Bool
given none = false
given (some text) = true

-- The state that an attempt leads to, or its refusal.
unfoldable pub resulting :
    LifecycleState
    → LifecycleState
    → TransitionOutcome
    → Option String
    → Option String
    → Result LifecycleState
resulting state target pass verdict_on_fail failure_subtype = do
  require (not (given verdict_on_fail || given failure_subtype))
      (value_error "passing transition cannot carry a failure")
  ok target
resulting state target typed_fail verdict_on_fail failure_subtype = do
  require (given verdict_on_fail) (value_error "failed/limited transition needs a verdict")
  ok state
resulting state target limit_reached verdict_on_fail failure_subtype = do
  require (given verdict_on_fail) (value_error "failed/limited transition needs a verdict")
  ok state

-- `attempt`: the record it returns, and the lifecycle after it. An attempt that raises changes
-- nothing.
unfoldable pub attempt :
    LifecycleState
    → Option String
    → TransitionOutcome
    → Option String
    → Option String
    → DesignLifecycle
    → Result (DesignTransition × DesignLifecycle)
unfolding has_edge resulting
attempt target obligation outcome verdict_on_fail failure_subtype lifecycle = do
  require (has_edge lifecycle.state target allowed_edges) (value_error "illegal lifecycle edge")
  next ← resulting lifecycle.state target outcome verdict_on_fail failure_subtype
  let transition : DesignTransition = record {
    sequence = length lifecycle.transitions;
    from_state = lifecycle.state;
    attempted_to_state = target;
    resulting_state = next;
    obligation_checked = obligation;
    outcome = outcome;
    verdict_on_fail = verdict_on_fail;
    failure_subtype = failure_subtype;
  }
  ok (transition, record { state = next; transitions = lifecycle.transitions ++ transition ∷ [] })
