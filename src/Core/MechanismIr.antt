-- ===== src/Core/MechanismIr.antt =====
-- `MechanismCatalog` of src/auditspec/core/mechanism_ir.py: the checks of the dependency relation,
-- `_assert_acyclic`, `dependency_closure` and `contract_is_dependency_closed`.
pub mod Relation
pub mod Acyclic
pub mod Closure
pub mod Closed
mod Tests
use mathlib.Core.List.{reverse}
use auditspec.Prelude.Order.{sort_by}
use auditspec.Prelude.{
  ℕ, zero, suc, ◌+◌, String, Bool, true, false, not, ◌&&◌, ◌||◌, List, [], ◌∷◌, length, ◌==◌,
  if◌then◌else◌, every,
}
use auditspec.Prelude.Text.{contains, text_order, ◌≟◌}
use auditspec.Prelude.Sets.{subset, same_set, to_set}
use auditspec.Prelude.Result.{
  Result, ok, err, value_error, key_error, out_of_fuel, ◌>>=◌, ◌>>◌, require,
}

-- Each mechanism's requirements.
abbrev pub Dependencies : Type 0
Dependencies = List (String × List String)

abbrev pub names : Dependencies → List String
names [] = []
names ((name, required) ∷ dependencies) = name ∷ names dependencies

-- `dependencies[name]`
unfoldable pub required_by : Dependencies → String → Result (List String)
required_by [] name = err key_error
required_by ((k, required) ∷ dependencies) name =
    if k ≟ name then ok required else required_by dependencies name

abbrev pub cycle : Result (List String)
cycle = err (value_error "mechanism dependency cycle")

-- `for child in children: visit(child)`
unfoldable pub visit_each :
    (String → List String → Result (List String)) → List String → List String → Result (List String)
visit_each visit [] visited = ok visited
visit_each visit (child ∷ children) visited =
    visit child visited >>= λ after. visit_each visit children after

-- `visit`, which returns the names visited after it. The names being visited are those of the calls
-- that have not returned.
unfoldable pub visit_name :
    Dependencies → ℕ → List String → String → List String → Result (List String)
unfolding required_by visit_each
visit_name dependencies zero visiting name visited = err out_of_fuel
visit_name dependencies (suc fuel) visiting name visited = elim (contains visiting name) [
  | true ↦ cycle
  | false ↦ elim (contains visited name) [
    | true ↦ ok visited
    | false ↦ required_by dependencies name >>= λ children.
        visit_each (visit_name dependencies fuel (name ∷ visiting)) children visited >>= λ after.
        ok (name ∷ after)
  ]
]

-- `_assert_acyclic`. The names being visited are different names of the relation, so the calls are
-- nested no deeper than one more than their number.
unfoldable pub assert_acyclic : Dependencies → Result (Unit {0})
unfolding visit_each visit_name
assert_acyclic dependencies =
    visit_each (visit_name dependencies (suc (length dependencies)) []) (names dependencies) []
    >>= λ _. ok tt

-- One entry of the relation: no requirement twice, all of them mechanisms, none the mechanism itself.
abbrev pub valid_entry : List String → String × List String → Bool
valid_entry ids (name, required) =
    length required == length (to_set required)
    && subset required ids
    && not (contains required name)

-- The checks of `build`, over the identifiers of the mechanisms.
unfoldable pub check_dependencies : List String → Dependencies → Result (Unit {0})
unfolding assert_acyclic
check_dependencies ids dependencies = do
  require (same_set (names dependencies) ids)
      (value_error "dependency map must cover every mechanism exactly")
  require (every (valid_entry ids) dependencies)
      (value_error "invalid mechanism dependency relation")
  assert_acyclic dependencies

-- `for dependency in self.dependencies[name]:`, with the closure and the stack after it.
unfoldable pub push_each : List String → List String → List String → List String × List String
push_each [] closure pending = (closure, pending)
push_each (dependency ∷ required) closure pending = elim (contains closure dependency) [
  | true ↦ push_each required closure pending
  | false ↦ push_each required (dependency ∷ closure) (dependency ∷ pending)
]

-- `while pending:`, the last name first.
unfoldable pub close : Dependencies → ℕ → List String → List String → Result (List String)
unfolding push_each
close dependencies fuel closure [] = ok closure
close dependencies zero closure (name ∷ pending) = err out_of_fuel
close dependencies (suc fuel) closure (name ∷ pending) =
    required_by dependencies name >>= λ required.
    let next = push_each required closure pending in close dependencies fuel (next.0) (next.1)

-- `dependency_closure`. A round takes one entry of the stack, and each mechanism is pushed once at
-- most besides the selected ones.
unfoldable pub closure_of : Dependencies → List String → Result (List String)
unfolding close
closure_of dependencies selected =
    close dependencies (length selected + length dependencies) [] (reverse selected) >>= λ closure.
    ok (sort_by text_order (λ s. s) closure)

abbrev pub and_then : Bool → Result Bool → Result Bool
and_then false rest = ok false
and_then true rest = rest

-- The `all` of `contract_is_dependency_closed`, which stops at the first name that fails.
unfoldable pub is_dependency_closed : Dependencies → List String → List String → Result Bool
unfolding required_by
is_dependency_closed dependencies chosen [] = ok true
is_dependency_closed dependencies chosen (name ∷ selected) =
    required_by dependencies name >>= λ required.
    and_then (subset required chosen) (is_dependency_closed dependencies chosen selected)

unfoldable pub contract_is_dependency_closed : Dependencies → List String → Result Bool
unfolding is_dependency_closed
contract_is_dependency_closed dependencies selected =
    is_dependency_closed dependencies selected selected
