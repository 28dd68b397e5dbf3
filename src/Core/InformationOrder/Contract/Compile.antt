-- ===== src/Core/InformationOrder/Contract/Compile.antt =====
-- The public entry point: from raw rows and a raw catalog to a correct verdict, or to the error of
-- the check that failed.
use mathlib.Core.Path.{subst, sym}
use auditspec.Prelude.Int.{ℤ}
use auditspec.Core.InformationOrder.Closure.{Mechanisms}
use auditspec.Prelude.{String, ◌≡◌, ◌⊎◌, inl, inr, Option, List, arith}
use auditspec.Prelude.Result.{Result, ok, err, Error, Result-cases, >>=-eq-err}
use auditspec.Core.Value.{Value, Fields}
use auditspec.Core.InformationOrder.Rows.{ContractRow, contract_rows, mechanism_catalog}
use auditspec.Core.InformationOrder.Rows.Laws.{mechanism_catalog-AllPositive}
use auditspec.Core.InformationOrder.Contract.{Analysis, search, compile_minimum_contract}
use auditspec.Core.InformationOrder.Contract.Verdict.{Verdict, search-Verdict}

-- The parts of an analysis are the checked inputs and what the search says of them.
pub record IsFrom (claim_id : String) (raw : List Value) (catalog : Fields) (cap : Option ℤ)
    (a : Analysis) : Type 0 where
  pub claim : a.claim_id ≡ claim_id
  pub rows : contract_rows raw catalog ≡ ok a.rows
  pub mechanisms : mechanism_catalog catalog ≡ ok a.mechanisms
  pub status : search claim_id a.rows a.mechanisms cap ≡ ok a.status

compile-IsFrom :
    (claim_id : String) (raw : List Value) (catalog : Fields) (cap : Option ℤ) (a : Analysis)
    → compile_minimum_contract claim_id raw catalog cap ≡ ok a
    → IsFrom claim_id raw catalog cap a
unfolding compile_minimum_contract
compile-IsFrom claim_id raw catalog cap a h = ground arith

-- The inputs passed their checks, and the search failed.
abbrev pub SearchFails : String → List Value → Fields → Option ℤ → Error → Type 0
SearchFails claim_id raw catalog cap e =
    (rows : List ContractRow) × (mechanisms : Mechanisms) × (contract_rows raw catalog ≡ ok rows)
    × (mechanism_catalog catalog ≡ ok mechanisms)
    × Verdict rows mechanisms claim_id cap (err e)

-- An error is one of the checks'; an analysis consists of the checked inputs and a right verdict.
abbrev pub CompileVerdict : String → List Value → Fields → Option ℤ → Result Analysis → Type 0
CompileVerdict claim_id raw catalog cap (err e) =
    (contract_rows raw catalog ≡ err e)
    ⊎ ((mechanism_catalog catalog ≡ err e) ⊎ SearchFails claim_id raw catalog cap e)
CompileVerdict claim_id raw catalog cap (ok a) =
    IsFrom claim_id raw catalog cap a × Verdict a.rows a.mechanisms claim_id cap (ok a.status)

compile-error :
    (claim_id : String) (raw : List Value) (catalog : Fields) (cap : Option ℤ) (e : Error)
    → compile_minimum_contract claim_id raw catalog cap ≡ err e
    → CompileVerdict claim_id raw catalog cap (err e)
unfolding compile_minimum_contract
compile-error claim_id raw catalog cap e h = elim (>>=-eq-err (contract_rows raw catalog) _ h) [
  | inl f ↦ inl f
  | inr (rows, o, k) ↦ elim (>>=-eq-err (mechanism_catalog catalog) _ k) [
    | inl f ↦ inr (inl f)
    | inr (ms, p, l) ↦ elim (>>=-eq-err (search claim_id rows ms cap) _ l) [
      | inl f ↦
          let verdict =
            search-Verdict rows ms claim_id cap (mechanism_catalog-AllPositive catalog ms p) in
          inr (inr (rows, ms, o, p, subst (Verdict rows ms claim_id cap) f verdict))
      | inr (_, _, q) ↦ absurd (ground arith)
    ]
  ]
]

-- Compiling fails only with the error of a check: of the rows, of the catalog; of the claim's
-- identifier, which is checked when every subset was seen; or of a digest, and then some integer of
-- the certificate is out of the I-JSON safe range: a position in a pair, a cost in the catalog, and,
-- when every subset was seen, the number of pairs or of subsets or the cost of a candidate, or else
-- the cap. Otherwise these integers are in the range, the analysis is of the checked rows and
-- mechanisms, and its status is right. A contract is a list of feasible mechanisms that is closed
-- under requirements and determines the claim, of the least rank of all such, with correct
-- separation, deletion and optimality witnesses. A gap names two worlds with different claims that
-- all feasible mechanisms see alike, and no contract exists. It is incomplete only under a cap below
-- the number of subsets of the feasible mechanisms.
pub compile_minimum_contract-CompileVerdict :
    (claim_id : String) (raw : List Value) (catalog : Fields) (cap : Option ℤ)
    → CompileVerdict claim_id raw catalog cap (compile_minimum_contract claim_id raw catalog cap)
compile_minimum_contract-CompileVerdict claim_id raw catalog cap =
    elim (Result-cases (compile_minimum_contract claim_id raw catalog cap)) [
      | inr (e, h) ↦
          subst (CompileVerdict claim_id raw catalog cap) (sym h)
            (compile-error claim_id raw catalog cap e h)
      | inl (a, h) ↦
          let from = compile-IsFrom claim_id raw catalog cap a h in
          subst (CompileVerdict claim_id raw catalog cap) (sym h) (
            from,
            subst (Verdict a.rows a.mechanisms claim_id cap) from.status (
                search-Verdict a.rows a.mechanisms claim_id cap
                  (mechanism_catalog-AllPositive catalog a.mechanisms from.mechanisms)),
          )
    ]
