-- ===== src/Core/StateMachine/History.antt =====
-- The reachable lifecycles are those whose transitions form a numbered chain of allowed edges.
use mathlib.Core.Path.{subst}
use mathlib.Core.List.{append_assoc, append-nil}
use native.Mathlib.Nat.{zero-add}
use auditspec.Prelude.{
  ℕ, suc, ◌+◌, String, true, Option, none, some, List, [], ◌∷◌, ◌++◌, ◌≡◌, refl, sym, ◌∙◌, ◌↔◌,
  arith, length, length-append,
}
use auditspec.Prelude.Result.{ok, >>=-eq-ok, require-eq-ok, ok-injective, value_error}
use auditspec.Core.StateMachine.{
  LifecycleState, declared, TransitionOutcome, pass, typed_fail, limit_reached, has_edge,
  allowed_edges, DesignTransition, DesignLifecycle, new, given, resulting, attempt,
}

-- The lifecycles that attempts reach.
pub data Reachable : DesignLifecycle → Type 0 where
  start : Reachable new
  step :
      (target : LifecycleState) (obligation : Option String) (outcome : TransitionOutcome)
      (verdict subtype : Option String) (before after : DesignLifecycle) (t : DesignTransition)
      → Reachable before
      → attempt target obligation outcome verdict subtype before ≡ ok (t, after)
      → Reachable after

-- What the outcome says of a transition.
abbrev pub Agrees :
    TransitionOutcome
    → LifecycleState
    → LifecycleState
    → LifecycleState
    → Option String
    → Option String
    → Type 0
Agrees pass from target next verdict subtype = (next ≡ target) × (verdict ≡ none) × (subtype ≡ none)
Agrees typed_fail from target next verdict subtype = (next ≡ from) × (given verdict ≡ true)
Agrees limit_reached from target next verdict subtype = (next ≡ from) × (given verdict ≡ true)

pub record IsTransition (n : ℕ) (s : LifecycleState) (t : DesignTransition) : Type 0 where
  pub numbered : t.sequence ≡ n
  pub begins : t.from_state ≡ s
  pub allowed : has_edge s t.attempted_to_state allowed_edges ≡ true
  pub agrees :
      Agrees t.outcome s t.attempted_to_state t.resulting_state t.verdict_on_fail t.failure_subtype

-- The transitions lead from a state to another, numbered from `n`.
abbrev pub Chain : LifecycleState → ℕ → List DesignTransition → LifecycleState → Type 0
Chain s n [] f = s ≡ f
Chain s n (t ∷ ts) f = IsTransition n s t × Chain t.resulting_state (suc n) ts f

Chain-snoc :
    (s : LifecycleState) (n : ℕ) (ts : List DesignTransition) (m : LifecycleState)
    (t : DesignTransition)
    → Chain s n ts m
    → IsTransition (n + length ts) m t
    → Chain s n (ts ++ t ∷ []) t.resulting_state
Chain-snoc s n [] m t e i = (
  record {
    numbered = omega (arith, i.numbered);
    begins = i.begins ∙ sym e;
    allowed = rw e i.allowed;
    agrees = rw e i.agrees;
  },
  refl,
)
Chain-snoc s n (u ∷ ts) m t (h, c) i = (
  h,
  Chain-snoc u.resulting_state (suc n) ts m t c (record {
    numbered = omega (arith, i.numbered);
    begins = i.begins;
    allowed = i.allowed;
    agrees = i.agrees;
  }),
)

resulting-Agrees :
    (o : TransitionOutcome) (s target next : LifecycleState) (verdict subtype : Option String)
    → resulting s target o verdict subtype ≡ ok next
    → Agrees o s target next verdict subtype
unfolding resulting
resulting-Agrees pass s target next none none h = (ground arith, refl, refl)
resulting-Agrees pass s target next none (some x) h = absurd (ground arith)
resulting-Agrees pass s target next (some x) subtype h = absurd (ground arith)
resulting-Agrees typed_fail s target next (some x) subtype h = (ground arith, refl)
resulting-Agrees typed_fail s target next none subtype h = absurd (ground arith)
resulting-Agrees limit_reached s target next (some x) subtype h = (ground arith, refl)
resulting-Agrees limit_reached s target next none subtype h = absurd (ground arith)

Agrees-resulting :
    (o : TransitionOutcome) (s target next : LifecycleState) (verdict subtype : Option String)
    → Agrees o s target next verdict subtype
    → resulting s target o verdict subtype ≡ ok next
unfolding resulting
Agrees-resulting pass s target next verdict subtype (e, v, f) = rw (e, v, f) refl
Agrees-resulting typed_fail s target next verdict subtype (e, v) = rw (e, v) refl
Agrees-resulting limit_reached s target next verdict subtype (e, v) = rw (e, v) refl

record Attempted (l : DesignLifecycle) (t : DesignTransition) (after : DesignLifecycle)
    : Type 0 where
  is_transition : IsTransition (length l.transitions) l.state t
  state : after.state ≡ t.resulting_state
  transitions : after.transitions ≡ l.transitions ++ t ∷ []

attempt-Attempted :
    (target : LifecycleState) (obligation : Option String) (outcome : TransitionOutcome)
    (verdict subtype : Option String) (l after : DesignLifecycle) (t : DesignTransition)
    → attempt target obligation outcome verdict subtype l ≡ ok (t, after)
    → Attempted l t after
unfolding attempt
attempt-Attempted target obligation outcome verdict subtype l after t h =
    let (edge, k) =
      require-eq-ok (has_edge l.state target allowed_edges) (value_error "illegal lifecycle edge") _
        h in
    let (next, r, e) = >>=-eq-ok (resulting l.state target outcome verdict subtype) _ k in
    let pair = ok-injective _ (t, after) e in
    let agrees = resulting-Agrees outcome l.state target next verdict subtype r in
    subst (λ (x : DesignTransition × DesignLifecycle). Attempted l (x.0) (x.1)) pair
      (record {
        is_transition = record { numbered = refl; begins = refl; allowed = edge; agrees = agrees };
        state = refl;
        transitions = refl;
      })

-- Every reachable lifecycle's transitions are a chain from DECLARED to its state.
pub Reachable-Chain : (l : DesignLifecycle) → Reachable l → Chain declared 0 l.transitions l.state
Reachable-Chain _ start = refl
Reachable-Chain _ (step target obligation outcome verdict subtype before after t r h) =
    let a = attempt-Attempted target obligation outcome verdict subtype before after t h in
    rw (a.state, a.transitions)
      (Chain-snoc declared 0 before.transitions before.state t (Reachable-Chain before r) (
        subst (λ n. IsTransition n before.state t) (sym (zero-add (length before.transitions)))
          a.is_transition))

Chain-attempt :
    (l : DesignLifecycle) (t : DesignTransition)
    → IsTransition (length l.transitions) l.state t
    → attempt t.attempted_to_state t.obligation_checked t.outcome t.verdict_on_fail
        t.failure_subtype l
      ≡ ok (t, record { state = t.resulting_state; transitions = l.transitions ++ t ∷ [] })
unfolding attempt
Chain-attempt l t i =
    rw
      (
        i.allowed,
        Agrees-resulting t.outcome l.state t.attempted_to_state t.resulting_state t.verdict_on_fail
            t.failure_subtype i.agrees,
        ← i.numbered,
        ← i.begins,
      )
      refl

-- More attempts, one for each transition of a chain.
Chain-Reachable_from :
    (l : DesignLifecycle) (ts : List DesignTransition) (f : LifecycleState)
    → Reachable l
    → Chain l.state (length l.transitions) ts f
    → Reachable (record { state = f; transitions = l.transitions ++ ts })
Chain-Reachable_from l [] f r e =
    subst (λ s. Reachable (record { state = s; transitions = l.transitions ++ [] })) e
      (subst (λ xs. Reachable (record { state = l.state; transitions = xs }))
        (sym (append-nil l.transitions)) r)
Chain-Reachable_from l (t ∷ ts) f r (i, c) =
    let after : DesignLifecycle = record {
      state = t.resulting_state;
      transitions = l.transitions ++ t ∷ [];
    } in
    let next =
      step t.attempted_to_state t.obligation_checked t.outcome t.verdict_on_fail t.failure_subtype l
        after t r (Chain-attempt l t i) in
    subst (λ xs. Reachable (record { state = f; transitions = xs }))
      (append_assoc l.transitions (t ∷ []) ts)
      (Chain-Reachable_from after ts f next (
        subst (λ n. Chain t.resulting_state n ts f)
          (omega (arith, length-append l.transitions (t ∷ []))) c))

-- Every numbered chain of allowed transitions from DECLARED is the history of a reachable lifecycle.
pub Chain-Reachable : (l : DesignLifecycle) → Chain declared 0 l.transitions l.state → Reachable l
Chain-Reachable l c = Chain-Reachable_from new l.transitions l.state start c

-- A lifecycle is reached by some sequence of attempts exactly when its transitions are a chain from
-- DECLARED to its state: numbered from 0, each from the state before it along an allowed edge, a
-- passing one to its target and without a failure, another back to its origin with a verdict.
pub Reachable-iff : (l : DesignLifecycle) → Reachable l ↔ Chain declared 0 l.transitions l.state
Reachable-iff l = (Reachable-Chain l, Chain-Reachable l)
