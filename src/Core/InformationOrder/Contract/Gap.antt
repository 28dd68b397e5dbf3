-- ===== src/Core/InformationOrder/Contract/Gap.antt =====
-- When no candidate is sufficient: the first pair that nothing separates, of
-- `compile_minimum_contract` in src/auditspec/core/information_order.py.
use mathlib.Core.Path.{subst}
use auditspec.Prelude.{
  ℕ, String, true, false, not, Option, some, List, [], ◌∷◌, ◌≡◌, refl, sym, ap, ◌∙◌, inl, inr,
  Member, not-every, every_of_member, keep, first, first-some, first-none, map-member, Bool-cases,
  Option-cases,
}
use auditspec.Prelude.Combinations.{Sublist-refl}
use auditspec.Core.InformationOrder.Closure.{Mechanisms}
use auditspec.Core.InformationOrder.Rows.{ContractRow}
use auditspec.Core.InformationOrder.Contract.{
  CriticalPair, critical_pair, critical_pairs, sufficient, is_empty, meets, separates,
  with_separators, feasible_ids, all_pairs,
}
use auditspec.Core.InformationOrder.Contract.Feasible.{feasible-IsDependencyClosed}
use auditspec.Core.InformationOrder.Contract.Pairs.{Critical, critical_pairs-member}
use auditspec.Core.InformationOrder.Contract.Determines.{
  same_at, agree, hits, hits-Determines, member-meets, separates-pair, separator_iff,
}
use auditspec.Core.InformationOrder.Contract.Correct.{IsContract, table, IsContract-feasible}

no_member : (xs : List String) → is_empty xs ≡ true → (id : String) → ¬ Member id xs
no_member [] e id m = m
no_member (x ∷ xs) e id m = cc

is_empty_of_no_member : (xs : List String) → ((id : String) → ¬ Member id xs) → is_empty xs ≡ true
is_empty_of_no_member [] h = refl
is_empty_of_no_member (x ∷ xs) h = absurd (h x (inl refl))

module _ (rows : List ContractRow) (ms : Mechanisms) where
  -- Two worlds with different claims that every feasible mechanism sees alike.
  abbrev pub IsObstruction : CriticalPair → Type 0
  IsObstruction p =
      (a : ℕ) × (b : ℕ) × (r : ContractRow) × (s : ContractRow) × Critical rows a b r s
      × (agree (feasible_ids ms) r s ≡ true)
      × (p ≡ with_separators rows (feasible_ids ms) (critical_pair a r b s))

  IsObstruction-of_empty :
      (p : CriticalPair)
      → Member p (all_pairs rows ms)
      → is_empty p.separators ≡ true
      → IsObstruction p
  unfolding all_pairs
  IsObstruction-of_empty p m e =
      let (q, qm, f) =
        map-member (with_separators rows (feasible_ids ms)) p (critical_pairs rows) m in
      let (a, b, r, s, c, g) = critical_pairs-member rows q qm in
      let alike = every_of_member (same_at r s) (feasible_ids ms) λ id im.
        elim (Bool-cases (same_at r s id)) [
          | inl t ↦ t
          | inr d ↦
              let sep = (separator_iff rows ms q id).1 (
                im,
                subst (λ x. separates rows x id ≡ true) (sym g)
                    (separates-pair rows a b r s id c.left c.right ∙ ap not d),
              ) in
              absurd (
                no_member _ (subst (λ (x : CriticalPair). is_empty x.separators ≡ true) f e) id sep)
        ] in
      (a, b, r, s, c, alike, f ∙ ap (with_separators rows (feasible_ids ms)) g)

  unmet-empty :
      (p : CriticalPair)
      → Member p (all_pairs rows ms)
      → meets (feasible_ids ms) p ≡ false
      → is_empty p.separators ≡ true
  unfolding all_pairs
  unmet-empty p m h =
      let (q, qm, f) =
        map-member (with_separators rows (feasible_ids ms)) p (critical_pairs rows) m in
      is_empty_of_no_member p.separators λ id sm.
        let inside =
          ((separator_iff rows ms q id).0
            (subst (λ (x : CriticalPair). Member id x.separators) f sm)).0 in
        cc (h, member-meets (feasible_ids ms) p id inside sm)

  abbrev pub IsGap : Option CriticalPair → Type 0
  IsGap obstruction =
      (p : CriticalPair) × (obstruction ≡ some p)
      × IsObstruction p
      × ((s : List String) → ¬ IsContract rows ms s)

  pub conclude-IsGap :
      keep sufficient (table rows ms) ≡ []
      → IsGap (first (λ pair. is_empty pair.separators) (all_pairs rows ms))
  conclude-IsGap e =
      let none_fits : (s : List String) → ¬ IsContract rows ms s =
        λ s c. subst (Member _) e (IsContract-feasible rows ms s c) in
      elim (Bool-cases (hits rows ms (feasible_ids ms))) [
        | inl t ↦ absurd (
            none_fits (feasible_ids ms) (record {
              listed = Sublist-refl (feasible_ids ms);
              closed = feasible-IsDependencyClosed ms;
              determines = hits-Determines rows ms (feasible_ids ms) t;
            }))
        | inr f ↦
            let (q, qm, unmet) = not-every (meets (feasible_ids ms)) (all_pairs rows ms) f in
            elim (Option-cases
              (first (λ (pair : CriticalPair). is_empty pair.separators) (all_pairs rows ms))) [
                | inl n ↦ absurd (
                    cc (
                      unmet-empty q qm unmet,
                      first-none (λ (pair : CriticalPair). is_empty pair.separators) _ n q qm,
                    ))
                | inr (p, g) ↦
                    let (pm, empty) =
                      first-some (λ (pair : CriticalPair). is_empty pair.separators) _ g in
                    (p, g, IsObstruction-of_empty p pm empty, none_fits)
              ]
      ]
