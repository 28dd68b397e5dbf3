-- ===== src/Core/InformationOrder/Closure.antt =====
-- `_dependency_closure` of src/auditspec/core/information_order.py, a worklist search.
-- `pending` has its last element first, where the code pops and appends.
pub mod Needs
pub mod Visit
pub mod Correct
pub mod Equations
use auditspec.Prelude.{
  ℕ, zero, suc, ◌+◌, String, Bool, true, false, ◌&&◌, Option, none, some, List, [], ◌∷◌, ◌≡◌, map,
  length, ltb, if◌then◌else◌,
}
use auditspec.Prelude.Text.{◌≟◌, contains}
use auditspec.Prelude.Sets.{add, to_set}
use mathlib.Core.List.{reverse}

-- A row of the catalog after `_mechanisms` has checked it.
pub record Mechanism : Type 0 where
  pub cost : ℕ
  pub requires : List String
  pub admissible : Bool

abbrev pub Mechanisms : Type 0
Mechanisms = List (String × Mechanism)

abbrev pub mechanism_ids : Mechanisms → List String
mechanism_ids [] = []
mechanism_ids ((k, m) ∷ ms) = k ∷ mechanism_ids ms

-- `mechanisms[id]["requires"]`; the code reads it only of an `id` that it has found there.
unfoldable pub requires_of : Mechanisms → String → List String
requires_of [] id = []
requires_of ((k, m) ∷ ms) id = if k ≟ id then m.requires else requires_of ms id

-- The set, or `None`.
pub data Outcome : Type 0 where
  found : List String → Outcome
  refused out_of_fuel : Outcome

module _ (mechanisms : Mechanisms) (admissible : List String) where
  -- `id in mechanisms and id in admissible`
  abbrev pub available : String → Bool
  available id = contains (mechanism_ids mechanisms) id && contains admissible id

  -- The loop over the requirements of one mechanism.
  pub visit : List String → List String → List String → Option (List String × List String)
  visit [] closure pending = some (closure, pending)
  visit (d ∷ ds) closure pending = elim (available d) [
    | false ↦ none
    | true ↦ visit ds (add d closure) (if contains closure d then pending else d ∷ pending)
  ]

  -- The body of the `while` loop, after `id` was popped.
  pub round : String → List String → List String → Option (List String × List String)
  unfolding visit requires_of
  round id closure pending = elim (available id) [
    | false ↦ none
    | true ↦ elim (visit (requires_of mechanisms id) closure pending) [
      | none ↦ none
      | some (closure', pending') ↦
          if ltb (length mechanisms) (length closure') then none else some (closure', pending')
    ]
  ]

  pub loop : ℕ → List String → List String → Outcome
  unfolding round
  loop fuel closure [] = found closure
  loop zero closure (id ∷ pending) = out_of_fuel
  loop (suc fuel) closure (id ∷ pending) = elim (round id closure pending) [
    | none ↦ refused
    | some (closure', pending') ↦ loop fuel closure' pending'
  ]

  -- Each pop takes one entry of `pending`, and each mechanism is appended once at most.
  unfoldable pub dependency_closure : List String → Outcome
  unfolding loop
  dependency_closure selected =
      loop (length selected + length mechanisms) (to_set selected) (reverse selected)
