-- ===== src/Core/InformationOrder/Closure/Equations.antt =====
-- One step of each loop of the search, by the test that it makes.
use auditspec.Prelude.{
  zero, suc, ℕ, String, true, false, Option, none, some, List, [], ◌∷◌, ◌≡◌, refl, length, ltb,
  if◌then◌else◌,
}
use auditspec.Prelude.Text.{contains}
use auditspec.Prelude.Sets.{add}
use auditspec.Core.InformationOrder.Closure.{
  Mechanisms, requires_of, found, refused, available, visit, round, loop,
}

module _ (mechanisms : Mechanisms) (admissible : List String) where
  pub visit_blocked :
      (d : String) (ds closure pending : List String)
      → available mechanisms admissible d ≡ false
      → visit mechanisms admissible (d ∷ ds) closure pending ≡ none
  unfolding visit
  visit_blocked d ds closure pending h = rw (h, visit)

  pub visit_next :
      (d : String) (ds closure pending : List String)
      → available mechanisms admissible d ≡ true
      → visit mechanisms admissible (d ∷ ds) closure pending
        ≡ visit mechanisms admissible ds
            (add d closure)
            (if contains closure d then pending else d ∷ pending)
  unfolding visit
  visit_next d ds closure pending h = rw (h, visit)

  pub round_blocked :
      (id : String) (closure pending : List String)
      → available mechanisms admissible id ≡ false
      → round mechanisms admissible id closure pending ≡ none
  unfolding round
  round_blocked id closure pending h = rw (h, round)

  -- The set is compared with the size of the catalog after the requirements were seen.
  abbrev pub guarded : Option (List String × List String) → Option (List String × List String)
  guarded none = none
  guarded (some (closure, pending)) =
      if ltb (length mechanisms) (length closure) then none else some (closure, pending)

  guarded_eq :
      (r : Option (List String × List String))
      → ◌≡◌ {A = Option (List String × List String)}
          (elim r [
            | none ↦ none
            | some (closure', pending') ↦
                if ltb (length mechanisms) (length closure')
                then none
                else some (closure', pending')
          ])
          (guarded r)
  guarded_eq none = refl
  guarded_eq (some (c, p)) = refl

  pub round_next :
      (id : String) (closure pending : List String)
      → available mechanisms admissible id ≡ true
      → round mechanisms admissible id closure pending
        ≡ guarded (visit mechanisms admissible (requires_of mechanisms id) closure pending)
  unfolding round
  round_next id closure pending h =
      rw (h, round)
        (guarded_eq (visit mechanisms admissible (requires_of mechanisms id) closure pending))

  pub loop_refused :
      (fuel : ℕ) (id : String) (closure pending : List String)
      → round mechanisms admissible id closure pending ≡ none
      → loop mechanisms admissible (suc fuel) closure (id ∷ pending) ≡ refused
  unfolding loop
  loop_refused fuel id closure pending h = rw (h, loop)

  pub loop_next :
      (fuel : ℕ) (id : String) (closure pending closure' pending' : List String)
      → round mechanisms admissible id closure pending ≡ some (closure', pending')
      → loop mechanisms admissible (suc fuel) closure (id ∷ pending)
        ≡ loop mechanisms admissible fuel closure' pending'
  unfolding loop
  loop_next fuel id closure pending closure' pending' h = rw (h, loop)

  pub loop_done :
      (fuel : ℕ) (closure : List String)
      → loop mechanisms admissible fuel closure [] ≡ found closure
  unfolding loop
  loop_done zero closure = refl
  loop_done (suc fuel) closure = refl
