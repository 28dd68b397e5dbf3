-- ===== src/Core/InformationOrder/Contract/Feasible.antt =====
-- The sets that `closes` accepts, and the feasible mechanisms taken together.
use mathlib.Core.Path.{sym, ◌∙◌}
use auditspec.Prelude.{
  String, Bool, true, false, List, [], ◌∷◌, ◌≡◌, refl, ◌↔◌, inl, inr, Member, keep-member,
  member-keep, &&-right,
}
use auditspec.Prelude.Text.{text_order, contains-member}
use auditspec.Prelude.Order.{member-sort_by, sort_by-member}
use auditspec.Prelude.Sets.{same_set, same_set-member, subset_of_member}
use auditspec.Core.InformationOrder.Closure.{
  Mechanisms, available, Outcome, found, refused, out_of_fuel, dependency_closure,
}
use auditspec.Core.InformationOrder.Closure.Needs.{
  Needs, start, step, IsClosed, Needs-closed, Needs-mono,
}
use auditspec.Core.InformationOrder.Closure.Correct.{Decides, dependency_closure-Decides}
use auditspec.Core.InformationOrder.Contract.{is_found, admissible_ids, feasible_ids, closes}

module _ (ms : Mechanisms) where
  -- `id` is in the catalog and admissible.
  abbrev pub Admitted : String → Type 0
  Admitted id = available ms (admissible_ids ms) id ≡ true

  -- All that a set needs is admitted and in the set.
  abbrev pub IsDependencyClosed : List String → Type 0
  IsDependencyClosed s = ((id : String) → Member id s → Admitted id) × IsClosed ms s

  abbrev closes_outcome : Outcome → List String → Bool
  closes_outcome (found closure) s = same_set closure s
  closes_outcome refused s = false
  closes_outcome out_of_fuel s = false

  closes-outcome :
      (s : List String)
      → closes ms s ≡ closes_outcome (dependency_closure ms (admissible_ids ms) s) s
  unfolding closes
  closes-outcome s = refine (dependency_closure ms (admissible_ids ms) s)
    where
      refine :
          (o : Outcome)
          → ◌≡◌ {A = Bool}
              (elim o [
                | found closure ↦ same_set closure s
                | refused ↦ false
                | out_of_fuel ↦ false
              ])
              (closes_outcome o s)
      refine (found c) = refl
      refine refused = refl
      refine out_of_fuel = refl

  outcome-closed :
      (s : List String) (o : Outcome)
      → Decides ms (admissible_ids ms) s o
      → closes_outcome o s ≡ true
      → IsDependencyClosed s
  outcome-closed s (found c) (sound, complete, d) h = (
    λ id m. (complete id (start m)).1,
    λ id m x r. (same_set-member c s h x).0 (complete x (step (start m) r)).0,
  )
  outcome-closed s refused b h = cc
  outcome-closed s out_of_fuel b h = cc

  closed-outcome :
      (s : List String) (o : Outcome)
      → Decides ms (admissible_ids ms) s o
      → IsDependencyClosed s
      → closes_outcome o s ≡ true
  closed-outcome s (found c) (sound, complete, d) (a, cl) =
      let left = subset_of_member c s (λ id m. Needs-closed s (λ x n. n) cl (sound id m)) in
      let right = subset_of_member s c (λ id m. (complete id (start m)).0) in rw (left, right)
  closed-outcome s refused (id, n, f) (a, cl) =
      absurd (cc (f, a id (Needs-closed s (λ x m. m) cl n)))
  closed-outcome s out_of_fuel b h = absurd b

  pub closes-IsDependencyClosed : (s : List String) → closes ms s ≡ true → IsDependencyClosed s
  closes-IsDependencyClosed s h =
      outcome-closed s _ (dependency_closure-Decides ms (admissible_ids ms) s)
        (sym (closes-outcome s) ∙ h)

  pub IsDependencyClosed-closes : (s : List String) → IsDependencyClosed s → closes ms s ≡ true
  IsDependencyClosed-closes s h =
      closes-outcome s ∙ closed-outcome s _ (dependency_closure-Decides ms (admissible_ids ms) s) h

  abbrev runs : String → Bool
  runs id = is_found (dependency_closure ms (admissible_ids ms) (id ∷ []))

  found-Needs :
      (id : String) (o : Outcome)
      → Decides ms (admissible_ids ms) (id ∷ []) o
      → is_found o ≡ true
      → (x : String) → Needs ms (id ∷ []) x
      → Admitted x
  found-Needs id (found c) (sound, complete, d) h x n = (complete x n).1
  found-Needs id refused b h x n = cc
  found-Needs id out_of_fuel b h x n = cc

  Needs-found :
      (id : String) (o : Outcome)
      → Decides ms (admissible_ids ms) (id ∷ []) o
      → ((x : String) → Needs ms (id ∷ []) x → Admitted x)
      → is_found o ≡ true
  Needs-found id (found c) d h = refl
  Needs-found id refused (x, n, f) h = absurd (cc (f, h x n))
  Needs-found id out_of_fuel b h = absurd b

  -- A mechanism is feasible exactly when all that it needs is admitted.
  pub feasible-Needs :
      (id : String) → Member id (feasible_ids ms) → (x : String) → Needs ms (id ∷ []) x → Admitted x
  unfolding feasible_ids
  feasible-Needs id m =
      let (a, h) =
        keep-member runs id (admissible_ids ms) (sort_by-member text_order (λ s. s) id _ m) in
      found-Needs id _ (dependency_closure-Decides ms (admissible_ids ms) (id ∷ [])) h

  pub Needs-feasible :
      (id : String)
      → ((x : String) → Needs ms (id ∷ []) x → Admitted x)
      → Member id (feasible_ids ms)
  unfolding feasible_ids
  Needs-feasible id h =
      let admitted =
        contains-member (admissible_ids ms) id (&&-right _ _ (h id (start (inl refl)))) in
      let r = Needs-found id _ (dependency_closure-Decides ms (admissible_ids ms) (id ∷ [])) h in
      member-sort_by text_order (λ s. s) id _ (member-keep runs id (admissible_ids ms) admitted r)

  pub feasible-IsDependencyClosed : IsDependencyClosed (feasible_ids ms)
  feasible-IsDependencyClosed = (
    λ id m. feasible-Needs id m id (start (inl refl)),
    λ id m d r. Needs-feasible d λ x n. feasible-Needs id m x (
        Needs-mono (λ a s. elim s [ inl e ↦ rw e (step (start (inl refl)) r) | inr z ↦ absurd z ])
          n),
  )

  -- A set passes the test of the loop over the subsets exactly when its elements are in the catalog
  -- and admissible and it holds all that they require.
  pub closes_iff : (s : List String) → (closes ms s ≡ true) ↔ IsDependencyClosed s
  closes_iff s = (closes-IsDependencyClosed s, IsDependencyClosed-closes s)

  -- A mechanism is feasible exactly when everything that it needs, through any number of
  -- requirements, is in the catalog and admissible.
  pub feasible_iff :
      (id : String)
      → Member id (feasible_ids ms) ↔ ((x : String) → Needs ms (id ∷ []) x → Admitted x)
  feasible_iff id = (feasible-Needs id, Needs-feasible id)
