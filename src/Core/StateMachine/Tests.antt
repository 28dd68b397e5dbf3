-- ===== src/Core/StateMachine/Tests.antt =====
-- A claim that is scoped after a failed attempt, and the theorems at that lifecycle.
use auditspec.Prelude.{◌≤◌, none, some, [], ◌∷◌, ◌≡◌, ◌↔◌, ◌⊎◌, refl, inl, inr, Member}
use auditspec.Core.StateMachine.{
  declared, scoped, pass, typed_fail, DesignTransition, DesignLifecycle, new, attempt,
}
use auditspec.Core.StateMachine.History.{Reachable, start, step, Chain, Reachable-iff}
use auditspec.Core.StateMachine.Precedence.{
  progress, results, Reachable-milestone, Reachable-progress,
}

abbrev failed : DesignTransition
failed = record {
  sequence = 0;
  from_state = declared;
  attempted_to_state = scoped;
  resulting_state = declared;
  obligation_checked = some "scope";
  outcome = typed_fail;
  verdict_on_fail = some "UNSCOPED";
  failure_subtype = none;
}

abbrev passed : DesignTransition
passed = record {
  sequence = 1;
  from_state = declared;
  attempted_to_state = scoped;
  resulting_state = scoped;
  obligation_checked = some "scope";
  outcome = pass;
  verdict_on_fail = none;
  failure_subtype = none;
}

abbrev after_failure : DesignLifecycle
after_failure = record { state = declared; transitions = failed ∷ [] }

abbrev after_pass : DesignLifecycle
after_pass = record { state = scoped; transitions = failed ∷ passed ∷ [] }

reached : Reachable after_pass
unfolding attempt
reached =
    step scoped (some "scope") pass none none after_failure after_pass passed
      (step scoped (some "scope") typed_fail (some "UNSCOPED") none new after_failure failed start
        refl)
      refl

Reachable-iff_example : Reachable after_pass ↔ Chain declared 0 (failed ∷ passed ∷ []) scoped
Reachable-iff_example = Reachable-iff after_pass

Reachable-milestone_example :
    (declared ≡ declared) ⊎ Member declared (results (failed ∷ passed ∷ []))
Reachable-milestone_example = Reachable-milestone after_pass declared reached (inr (inl refl))

Reachable-progress_example : progress declared ≤ progress scoped
Reachable-progress_example = Reachable-progress after_pass declared reached (inl refl)
