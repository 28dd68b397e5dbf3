-- ===== src/Core/MechanismIr/Tests.antt =====
-- A relation of three mechanisms, and the theorems at it.
use auditspec.Prelude.{String, true, List, [], ◌∷◌, ◌≡◌, ◌↔◌, refl, inl, inr, Member}
use auditspec.Prelude.Result.{ok}
use auditspec.Core.MechanismIr.{
  Dependencies, names, required_by, check_dependencies, closure_of, contract_is_dependency_closed,
}
use auditspec.Core.MechanismIr.Acyclic.{
  Listed, check-Listed, CheckVerdict, check_dependencies-CheckVerdict,
}
use auditspec.Core.MechanismIr.Closure.{Below, Closes, closure_of-Closes}
use auditspec.Core.MechanismIr.Closed.{contract_is_dependency_closed_iff}

abbrev relation : Dependencies
relation = ("log", []) ∷ ("hash", "log" ∷ []) ∷ ("seal", "hash" ∷ []) ∷ []

abbrev ids : List String
ids = "hash" ∷ "log" ∷ "seal" ∷ []

relation_listed : Listed relation
relation_listed = check-Listed ids relation refl refl

seal_inside : (x : String) → Member x ("seal" ∷ []) → Member x (names relation)
seal_inside x (inl e) = inr (inr (inl e))
seal_inside x (inr m) = absurd m

check_dependencies-CheckVerdict_example :
    CheckVerdict ids relation (check_dependencies ids relation)
check_dependencies-CheckVerdict_example = check_dependencies-CheckVerdict ids relation

closure_of-Closes_example :
    Closes relation relation_listed ("seal" ∷ []) (closure_of relation ("seal" ∷ []))
closure_of-Closes_example = closure_of-Closes relation relation_listed ("seal" ∷ []) seal_inside

contract_is_dependency_closed_iff_example :
    (contract_is_dependency_closed relation ("seal" ∷ []) ≡ ok true)
    ↔ ((x : String) → Below relation relation_listed ("seal" ∷ []) x → Member x ("seal" ∷ []))
contract_is_dependency_closed_iff_example =
    contract_is_dependency_closed_iff relation relation_listed ("seal" ∷ []) seal_inside

closure_found : closure_of relation ("seal" ∷ []) ≡ ok ("hash" ∷ "log" ∷ [])
unfolding closure_of required_by
closure_found = refl

accepted : check_dependencies ids relation ≡ ok tt
unfolding check_dependencies
accepted = refl
