-- ===== src/Core/InformationOrder/Contract/Verdict.antt =====
-- The verdict of the whole search, on every branch.
use mathlib.Core.Path.{subst}
use auditspec.Prelude.{
  ℕ, ◌<◌, ◌≤◌, ◌^◌, String, Bool, true, false, Option, none, some, List, [], ◌∷◌, ◌≡◌, refl, sym,
  ap, ◌∙◌, inl, inr, arith, Member, length, not-every, keep, leb, leb→le, le→leb, leb→gt,
  Bool-cases, ◌++◌, ◌⊎◌, every, every-append, if◌then◌else◌,
}
use auditspec.Prelude.Combinations.{subsets, length-subsets}
use auditspec.Prelude.Int.{ℤ, pos}
use auditspec.Prelude.Result.{Result, ok, err, Result-cases, ◌>>◌}
use auditspec.Core.Value.{str}
use auditspec.Core.InformationOrder.Closure.{Mechanisms}
use auditspec.Core.InformationOrder.Rows.{ContractRow, identifier}
use auditspec.Core.InformationOrder.Contract.{
  Candidate, sufficient, feasible_ids, all_pairs, Status, contract, evidence_gap,
  analysis_incomplete, conclude, Explored, capped, complete, explore, finish, state_limit, allowed,
  search, in_safe_range, out_of_safe_range, digest, pair_positions, catalog_costs,
  incomplete_integers, complete_integers,
}
use auditspec.Core.InformationOrder.Contract.Cost.{AllPositive}
use auditspec.Core.InformationOrder.Contract.Exploration.{explore-complete, explore_limited}
use auditspec.Core.InformationOrder.Contract.Correct.{table}
use auditspec.Core.InformationOrder.Contract.Witnesses.{IsCertificate, certify-IsCertificate}
use auditspec.Core.InformationOrder.Contract.Gap.{IsGap, conclude-IsGap}

module _ (rows : List ContractRow) (ms : Mechanisms) where
  -- What a status says under the limit `state_cap`.
  abbrev pub IsStatus : Option ℤ → Status → Type 0
  IsStatus state_cap (contract c) = IsCertificate rows ms c
  IsStatus state_cap (evidence_gap obstruction) = IsGap rows ms obstruction
  IsStatus state_cap (analysis_incomplete limit explored) =
      (state_cap ≡ some limit)
      × (explored ≡ allowed limit)
      × (allowed limit < 2 ^ length (feasible_ids ms))

  -- Whether the limit leaves room for every subset.
  abbrev pub reaches_all : Option ℤ → Bool
  reaches_all state_cap = leb (2 ^ length (feasible_ids ms)) (allowed (state_limit ms state_cap))

  abbrev all_integers : List ℤ
  all_integers =
      complete_integers ms (all_pairs rows ms) (table rows ms) (2 ^ length (feasible_ids ms))

  abbrev few_integers : ℤ → List ℤ
  few_integers limit = incomplete_integers ms limit (allowed limit)

  -- The integers that the certificate holds.
  abbrev pub integers : Option ℤ → List ℤ
  integers state_cap =
      pair_positions (all_pairs rows ms)
      ++ (if reaches_all state_cap then all_integers else few_integers (state_limit ms state_cap))

  -- What the result of the search says under the limit `state_cap`.
  abbrev pub Verdict : String → Option ℤ → Result Status → Type 0
  Verdict claim_id state_cap (err e) =
      ((reaches_all state_cap ≡ true) × (identifier (str claim_id) ≡ err e))
      ⊎ ((e ≡ out_of_safe_range)
          × ((n : ℤ) × Member n (integers state_cap) × (in_safe_range n ≡ false)))
  Verdict claim_id state_cap (ok status) =
      IsStatus state_cap status × (every in_safe_range (integers state_cap) ≡ true)

  conclude-IsStatus :
      (state_cap : Option ℤ) (l : List Candidate)
      → AllPositive ms
      → keep sufficient (table rows ms) ≡ l
      → (status : Status) × (conclude ms (all_pairs rows ms) (table rows ms) l ≡ ok status)
        × IsStatus state_cap status
  unfolding conclude
  conclude-IsStatus state_cap [] h e = (_, refl, conclude-IsGap rows ms e)
  conclude-IsStatus state_cap (c ∷ cs) h e =
      let (cert, p, good) = certify-IsCertificate rows ms c cs h e in (contract cert, p, good)

  too_large :
      (claim_id : String) (state_cap : Option ℤ)
      → every in_safe_range (integers state_cap) ≡ false
      → Verdict claim_id state_cap (err out_of_safe_range)
  too_large claim_id state_cap f = inr (refl, not-every in_safe_range (integers state_cap) f)

  -- A result whose digest is made last.
  digested-Verdict :
      (claim_id : String) (state_cap : Option ℤ) (status : Status) (numbers : List ℤ)
      → every in_safe_range (integers state_cap) ≡ every in_safe_range numbers
      → IsStatus state_cap status
      → Verdict claim_id state_cap (digest numbers >> ok status)
  digested-Verdict claim_id state_cap status numbers same good =
      elim (Bool-cases (every in_safe_range numbers)) [
        | inl t ↦ rw t (good, same ∙ t)
        | inr f ↦ rw f (too_large claim_id state_cap (same ∙ f))
      ]

  after_pairs :
      (state_cap : Option ℤ) (numbers : List ℤ)
      → every in_safe_range (pair_positions (all_pairs rows ms)) ≡ true
      → (if reaches_all state_cap then all_integers else few_integers (state_limit ms state_cap))
        ≡ numbers
      → every in_safe_range (integers state_cap) ≡ every in_safe_range numbers
  after_pairs state_cap numbers t e =
      every-append in_safe_range (pair_positions (all_pairs rows ms)) _ ∙ (rw (t, e) refl)

  abbrev outcome : ℕ → Explored
  outcome limit = explore ms (all_pairs rows ms) limit 0 (subsets (feasible_ids ms)) []

  outcome-complete :
      (limit : ℕ)
      → 2 ^ length (feasible_ids ms) ≤ limit
      → outcome limit ≡ complete (table rows ms) (2 ^ length (feasible_ids ms))
  outcome-complete limit h =
      explore-complete ms (all_pairs rows ms) limit (subsets (feasible_ids ms))
        (omega (arith, length-subsets (feasible_ids ms)))
      ∙ ap (complete (table rows ms)) (length-subsets (feasible_ids ms))

  outcome_limited :
      (limit : ℕ) → limit < 2 ^ length (feasible_ids ms) → outcome limit ≡ capped limit
  outcome_limited limit h =
      explore_limited ms (all_pairs rows ms) limit (subsets (feasible_ids ms))
        (omega (arith, length-subsets (feasible_ids ms)))

  finish-Verdict :
      (claim_id : String) (state_cap : Option ℤ)
      → AllPositive ms
      → every in_safe_range (pair_positions (all_pairs rows ms)) ≡ true
      → reaches_all state_cap ≡ true
      → Verdict claim_id state_cap (
          finish claim_id ms
            (all_pairs rows ms)
            (state_limit ms state_cap)
            (complete (table rows ms) (2 ^ length (feasible_ids ms))))
  unfolding finish
  finish-Verdict claim_id state_cap h t r = elim (Result-cases (identifier (str claim_id))) [
    | inr (e, f) ↦ rw f (inl (r, f))
    | inl (_, f) ↦
        let (status, p, good) = conclude-IsStatus state_cap _ h refl in
        rw (f, p)
          (digested-Verdict claim_id state_cap status all_integers
            (after_pairs state_cap all_integers t (rw r refl)) good)
  ]

  -- A limit below the number of subsets leaves the analysis incomplete after as many states, none if
  -- it is negative, whatever the claim's identifier is; or the result has no digest, exactly if one
  -- of its integers is out of the safe range: a position in the pairs, the limit, or a cost in the
  -- catalog.
  pub search_limited :
      (claim_id : String) (cap : ℤ)
      → allowed cap < 2 ^ length (feasible_ids ms)
      → search claim_id rows ms (some cap) ≡ (
          if every in_safe_range
            (pair_positions (all_pairs rows ms) ++ cap ∷ pos (allowed cap) ∷ catalog_costs ms)
          then ok (analysis_incomplete cap (allowed cap))
          else err out_of_safe_range)
  unfolding search finish
  search_limited claim_id cap h =
      rw
        (
          outcome_limited (allowed cap) h,
          every-append in_safe_range (pair_positions (all_pairs rows ms)) (few_integers cap),
        )
        (elim (Bool-cases (every in_safe_range (pair_positions (all_pairs rows ms)))) [
          | inl t ↦ elim (Bool-cases (every in_safe_range (few_integers cap))) [
            | inl u ↦ rw (t, u) refl
            | inr g ↦ rw (t, g) refl
          ]
          | inr f ↦ rw f refl
        ])

  limited-Verdict :
      (claim_id : String) (cap : ℤ)
      → reaches_all (some cap) ≡ false
      → Verdict claim_id (some cap) (search claim_id rows ms (some cap))
  limited-Verdict claim_id cap r =
      let low = leb→gt _ _ r in
      let same : integers (some cap) ≡ pair_positions (all_pairs rows ms) ++ few_integers cap =
        rw r refl in
      subst (Verdict claim_id (some cap)) (sym (search_limited claim_id cap low))
        (elim (Bool-cases
          (every in_safe_range (pair_positions (all_pairs rows ms) ++ few_integers cap))) [
            | inl t ↦ rw t ((refl, refl, low), ap (every in_safe_range) same ∙ t)
            | inr f ↦ rw f (too_large claim_id (some cap) (ap (every in_safe_range) same ∙ f))
          ])

  reached-Verdict :
      (claim_id : String) (state_cap : Option ℤ)
      → AllPositive ms
      → reaches_all state_cap ≡ true
      → Verdict claim_id state_cap (search claim_id rows ms state_cap)
  unfolding search
  reached-Verdict claim_id state_cap h r =
      rw (outcome-complete (allowed (state_limit ms state_cap)) (leb→le _ _ r))
        (elim (Bool-cases (every in_safe_range (pair_positions (all_pairs rows ms)))) [
          | inl t ↦ rw t (finish-Verdict claim_id state_cap h t r)
          | inr f ↦ rw f (
              too_large claim_id state_cap
                (every-append in_safe_range (pair_positions (all_pairs rows ms)) _ ∙ (rw f refl)))
        ])

  -- The search returns a correct status, if all integers of the certificate are in the safe range and,
  -- when every subset is seen, the claim's identifier is one.
  pub search-Verdict :
      (claim_id : String) (state_cap : Option ℤ)
      → AllPositive ms
      → Verdict claim_id state_cap (search claim_id rows ms state_cap)
  search-Verdict claim_id none h = reached-Verdict claim_id none h (le→leb _ _ (omega arith))
  search-Verdict claim_id (some cap) h = elim (Bool-cases (reaches_all (some cap))) [
    | inl t ↦ reached-Verdict claim_id (some cap) h t
    | inr f ↦ limited-Verdict claim_id cap f
  ]
