-- ===== src/Core/StateMachine/Precedence.antt =====
-- Which states a claim must have passed, and that it never goes back.
use mathlib.Core.Path.{subst}
use mathlib.Core.Option.{some-injective}
use auditspec.Prelude.{
  ℕ, suc, ◌≤◌, Bool, true, false, ◌&&◌, ◌||◌, some, List, [], ◌∷◌, ◌≡◌, refl, sym, ap, ◌∙◌, ◌⊎◌,
  inl, inr, arith, Member, ◌==◌, ltb, every, every-member, get_elem?, Bool-cases,
}
use auditspec.Core.StateMachine.{
  LifecycleState, declared, scoped, model_validated, synthesized, planned, certified, installed,
  preflight_passed, capturing, run_closed, verified_at_capture, archived, reverified_at_audit_time,
  intervention_required, intervention_planned, intervention_executed, TransitionOutcome, pass,
  typed_fail, limit_reached, ordinal, Edge, has_edge, allowed_edges, DesignTransition,
  DesignLifecycle,
}
use auditspec.Core.StateMachine.History.{Reachable, Agrees, IsTransition, Chain, Reachable-Chain}

abbrev states : List LifecycleState
states =
    declared ∷ scoped ∷ model_validated ∷ synthesized ∷ planned ∷ certified ∷ installed
    ∷ preflight_passed ∷ capturing ∷ run_closed ∷ verified_at_capture ∷ archived
    ∷ reverified_at_audit_time ∷ intervention_required ∷ intervention_planned
    ∷ intervention_executed ∷ []

get_elem-ordinal : (s : LifecycleState) → get_elem? states (ordinal s) ≡ some s
unfolding ordinal
get_elem-ordinal declared = refl
get_elem-ordinal scoped = refl
get_elem-ordinal model_validated = refl
get_elem-ordinal synthesized = refl
get_elem-ordinal planned = refl
get_elem-ordinal certified = refl
get_elem-ordinal installed = refl
get_elem-ordinal preflight_passed = refl
get_elem-ordinal capturing = refl
get_elem-ordinal run_closed = refl
get_elem-ordinal verified_at_capture = refl
get_elem-ordinal archived = refl
get_elem-ordinal reverified_at_audit_time = refl
get_elem-ordinal intervention_required = refl
get_elem-ordinal intervention_planned = refl
get_elem-ordinal intervention_executed = refl

ordinal-injective : (s t : LifecycleState) → ordinal s ≡ ordinal t → s ≡ t
ordinal-injective s t h =
    some-injective s t (sym (get_elem-ordinal s) ∙ ap (get_elem? states) h ∙ get_elem-ordinal t)

has_edge-member :
    (a b : LifecycleState) (edges : List Edge) → has_edge a b edges ≡ true → Member (a, b) edges
unfolding has_edge
has_edge-member a b [] h = absurd (ground arith)
has_edge-member a b ((c, d) ∷ edges) h =
    elim (Bool-cases (ordinal a == ordinal c && ordinal b == ordinal d)) [
      | inl t ↦
          let p = ordinal-injective a c (ground arith) in
          let q = ordinal-injective b d (ground arith) in inl (rw (p, q) refl)
      | inr f ↦ inr (has_edge-member a b edges (rw f at h))
    ]

-- The states that every claim in a state has passed, the state itself included.
abbrev pub milestones : LifecycleState → List LifecycleState
milestones declared = declared ∷ []
milestones scoped = scoped ∷ declared ∷ []
milestones model_validated = model_validated ∷ scoped ∷ declared ∷ []
milestones synthesized = synthesized ∷ model_validated ∷ scoped ∷ declared ∷ []
milestones intervention_required =
    intervention_required ∷ synthesized ∷ model_validated ∷ scoped ∷ declared ∷ []
milestones intervention_planned =
    intervention_planned ∷ intervention_required ∷ synthesized ∷ model_validated ∷ scoped ∷ declared
    ∷ []
milestones planned = planned ∷ synthesized ∷ model_validated ∷ scoped ∷ declared ∷ []
milestones certified = certified ∷ planned ∷ synthesized ∷ model_validated ∷ scoped ∷ declared ∷ []
milestones installed =
    installed ∷ certified ∷ planned ∷ synthesized ∷ model_validated ∷ scoped ∷ declared ∷ []
milestones preflight_passed =
    preflight_passed ∷ installed ∷ certified ∷ planned ∷ synthesized ∷ model_validated ∷ scoped
    ∷ declared ∷ []
milestones capturing =
    capturing ∷ preflight_passed ∷ installed ∷ certified ∷ planned ∷ synthesized ∷ model_validated
    ∷ scoped ∷ declared ∷ []
milestones intervention_executed =
    intervention_executed ∷ capturing ∷ preflight_passed ∷ installed ∷ certified ∷ planned
    ∷ synthesized ∷ model_validated ∷ scoped ∷ declared ∷ []
milestones run_closed =
    run_closed ∷ capturing ∷ preflight_passed ∷ installed ∷ certified ∷ planned ∷ synthesized
    ∷ model_validated ∷ scoped ∷ declared ∷ []
milestones verified_at_capture =
    verified_at_capture ∷ run_closed ∷ capturing ∷ preflight_passed ∷ installed ∷ certified
    ∷ planned ∷ synthesized ∷ model_validated ∷ scoped ∷ declared ∷ []
milestones archived =
    archived ∷ verified_at_capture ∷ run_closed ∷ capturing ∷ preflight_passed ∷ installed
    ∷ certified ∷ planned ∷ synthesized ∷ model_validated ∷ scoped ∷ declared ∷ []
milestones reverified_at_audit_time =
    reverified_at_audit_time ∷ archived ∷ verified_at_capture ∷ run_closed ∷ capturing
    ∷ preflight_passed ∷ installed ∷ certified ∷ planned ∷ synthesized ∷ model_validated ∷ scoped
    ∷ declared ∷ []

-- How far a state is.
abbrev pub progress : LifecycleState → ℕ
progress declared = 0
progress scoped = 1
progress model_validated = 2
progress synthesized = 3
progress intervention_required = 4
progress intervention_planned = 5
progress planned = 6
progress certified = 7
progress installed = 8
progress preflight_passed = 9
progress capturing = 10
progress intervention_executed = 11
progress run_closed = 12
progress verified_at_capture = 13
progress archived = 14
progress reverified_at_audit_time = 15

includes : LifecycleState → List LifecycleState → Bool
unfolding ordinal
includes m [] = false
includes m (s ∷ states) = (ordinal m == ordinal s) || includes m states

includes-member :
    (m : LifecycleState) (states : List LifecycleState) → includes m states ≡ true → Member m states
unfolding includes
includes-member m [] h = absurd (ground arith)
includes-member m (s ∷ states) h = elim (Bool-cases (ordinal m == ordinal s)) [
  | inl t ↦ inl (ordinal-injective m s (ground arith))
  | inr f ↦ inr (includes-member m states (rw f at h))
]

-- An edge adds no milestone but its end, and leads on, or stays at the last state.
abbrev explained : Edge → Bool
explained (a, b) = every (λ m. includes m (b ∷ milestones a)) (milestones b)

abbrev leads_on : Edge → Bool
leads_on (a, b) = ltb (progress a) (progress b) || (progress a == 15 && progress b == 15)

edges-explained : every explained allowed_edges ≡ true
unfolding includes ordinal
edges-explained = refl

edges-lead_on : every leads_on allowed_edges ≡ true
edges-lead_on = refl

allowed-explained :
    (a b m : LifecycleState)
    → has_edge a b allowed_edges ≡ true
    → Member m (milestones b)
    → Member m (b ∷ milestones a)
allowed-explained a b m h i = includes-member m (b ∷ milestones a) (
    every-member (λ m. includes m (b ∷ milestones a)) (milestones b)
      (every-member explained allowed_edges edges-explained (a, b)
        (has_edge-member a b allowed_edges h))
      m i)

allowed-progress :
    (a b : LifecycleState) → has_edge a b allowed_edges ≡ true → progress a ≤ progress b
allowed-progress a b h =
    let t =
      every-member leads_on allowed_edges edges-lead_on (a, b)
        (has_edge-member a b allowed_edges h) in
    ground arith

abbrev pub results : List DesignTransition → List LifecycleState
results [] = []
results (t ∷ ts) = t.resulting_state ∷ results ts

transition-milestone :
    (n : ℕ) (s m : LifecycleState) (t : DesignTransition)
    → IsTransition n s t
    → Member m (milestones t.resulting_state)
    → Member m (t.resulting_state ∷ milestones s)
transition-milestone n s m t i h = by_outcome t.outcome i.agrees
  where
    stays : t.resulting_state ≡ s → Member m (t.resulting_state ∷ milestones s)
    stays e = inr (subst (λ x. Member m (milestones x)) e h)

    by_outcome :
        (o : TransitionOutcome)
        → Agrees o s t.attempted_to_state t.resulting_state t.verdict_on_fail t.failure_subtype
        → Member m (t.resulting_state ∷ milestones s)
    by_outcome pass (e, _, _) =
        subst (λ x. Member m (x ∷ milestones s)) (sym e)
          (allowed-explained s t.attempted_to_state m i.allowed
            (subst (λ x. Member m (milestones x)) e h))
    by_outcome typed_fail (e, _) = stays e
    by_outcome limit_reached (e, _) = stays e

transition-progress :
    (n : ℕ) (s : LifecycleState) (t : DesignTransition)
    → IsTransition n s t
    → progress s ≤ progress t.resulting_state
transition-progress n s t i = by_outcome t.outcome i.agrees
  where
    by_outcome :
        (o : TransitionOutcome)
        → Agrees o s t.attempted_to_state t.resulting_state t.verdict_on_fail t.failure_subtype
        → progress s ≤ progress t.resulting_state
    by_outcome pass (e, _, _) =
        subst (λ x. progress s ≤ progress x) (sym e)
          (allowed-progress s t.attempted_to_state i.allowed)
    by_outcome typed_fail (e, _) = subst (λ x. progress s ≤ progress x) (sym e) (omega arith)
    by_outcome limit_reached (e, _) = subst (λ x. progress s ≤ progress x) (sym e) (omega arith)

Chain-milestone :
    (s : LifecycleState) (n : ℕ) (ts : List DesignTransition) (f m : LifecycleState)
    → Chain s n ts f
    → Member m (milestones f)
    → Member m (milestones s) ⊎ Member m (results ts)
Chain-milestone s n [] f m e h = inl (subst (λ x. Member m (milestones x)) (sym e) h)
Chain-milestone s n (t ∷ ts) f m (i, c) h =
    elim (Chain-milestone t.resulting_state (suc n) ts f m c h) [
      | inr r ↦ inr (inr r)
      | inl l ↦ elim (transition-milestone n s m t i l) [ inl e ↦ inr (inl e) | inr k ↦ inl k ]
    ]

Chain-progress :
    (s : LifecycleState) (n : ℕ) (ts : List DesignTransition) (f : LifecycleState)
    → Chain s n ts f
    → progress s ≤ progress f
Chain-progress s n [] f e = subst (λ x. progress s ≤ progress x) e (omega arith)
Chain-progress s n (t ∷ ts) f (i, c) =
    let p = transition-progress n s t i in
    let q = Chain-progress t.resulting_state (suc n) ts f c in omega arith

Chain-member_progress :
    (s : LifecycleState) (n : ℕ) (ts : List DesignTransition) (f m : LifecycleState)
    → Chain s n ts f
    → Member m (results ts)
    → progress m ≤ progress f
Chain-member_progress s n [] f m c i = absurd i
Chain-member_progress s n (t ∷ ts) f m (i, c) (inl e) =
    subst (λ x. progress x ≤ progress f) (sym e) (Chain-progress t.resulting_state (suc n) ts f c)
Chain-member_progress s n (t ∷ ts) f m (i, c) (inr r) =
    Chain-member_progress t.resulting_state (suc n) ts f m c r

-- A reachable lifecycle has passed every milestone of its state: each is DECLARED or the result of
-- one of its transitions.
pub Reachable-milestone :
    (l : DesignLifecycle) (m : LifecycleState)
    → Reachable l
    → Member m (milestones l.state)
    → (m ≡ declared) ⊎ Member m (results l.transitions)
Reachable-milestone l m r h =
    elim (Chain-milestone declared 0 l.transitions l.state m (Reachable-Chain l r) h) [
      | inl (inl e) ↦ inl e
      | inl (inr x) ↦ absurd x
      | inr i ↦ inr i
    ]

-- A reachable lifecycle's state is at least as far as every state that its transitions led to.
pub Reachable-progress :
    (l : DesignLifecycle) (m : LifecycleState)
    → Reachable l
    → Member m (results l.transitions)
    → progress m ≤ progress l.state
Reachable-progress l m r i =
    Chain-member_progress declared 0 l.transitions l.state m (Reachable-Chain l r) i
