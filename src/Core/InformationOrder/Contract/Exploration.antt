-- ===== src/Core/InformationOrder/Contract/Exploration.antt =====
-- What the loops over the subsets collect, and when the limit stops them.
use auditspec.Prelude.{
  ℕ, suc, ◌+◌, ◌<◌, ◌≤◌, String, true, false, List, [], ◌∷◌, ◌++◌, ◌≡◌, refl, ap, ◌∙◌, inl, inr,
  arith, leb, length, keep, map, Bool-cases, if◌then◌else◌,
}
use native.Mathlib.Nat.{zero-add, add-zero}
use mathlib.Core.List.{append-nil, append_assoc}
use auditspec.Core.InformationOrder.Closure.{Mechanisms}
use auditspec.Core.InformationOrder.Contract.{
  CriticalPair, Candidate, candidate, closes, capped, complete, explore,
}

module _ (ms : Mechanisms) (pairs : List CriticalPair) where
  -- The rows of the dependency-closed subsets, in their order.
  abbrev pub evaluated : List (List String) → List Candidate
  evaluated subs = map (candidate ms pairs) (keep (closes ms) subs)

  explore_capped :
      (limit explored : ℕ) (s : List String) (subs : List (List String)) (acc : List Candidate)
      → leb limit explored ≡ true
      → explore ms pairs limit explored (s ∷ subs) acc ≡ capped explored
  unfolding explore
  explore_capped limit explored s subs acc h = rw (h, explore)

  explore_next :
      (limit explored : ℕ) (s : List String) (subs : List (List String)) (acc : List Candidate)
      → leb limit explored ≡ false
      → explore ms pairs limit explored (s ∷ subs) acc
        ≡ explore ms pairs limit
            (suc explored)
            subs
            (if closes ms s then acc ++ candidate ms pairs s ∷ [] else acc)
  unfolding explore
  explore_next limit explored s subs acc h = rw (h, explore)

  next-evaluated :
      (s : List String) (subs : List (List String)) (acc : List Candidate)
      → (if closes ms s then acc ++ candidate ms pairs s ∷ [] else acc) ++ evaluated subs
        ≡ acc ++ evaluated (s ∷ subs)
  next-evaluated s subs acc = elim (Bool-cases (closes ms s)) [
    | inl t ↦ rw t (append_assoc acc (candidate ms pairs s ∷ []) (evaluated subs))
    | inr f ↦ rw f refl
  ]

  explore_all :
      (limit explored : ℕ) (subs : List (List String)) (acc : List Candidate)
      → explored + length subs ≤ limit
      → explore ms pairs limit explored subs acc
        ≡ complete (acc ++ evaluated subs) (explored + length subs)
  unfolding explore
  explore_all limit explored [] acc h = rw (append-nil, add-zero)
  explore_all limit explored (s ∷ subs) acc h =
      explore_next limit explored s subs acc (ground arith)
      ∙ explore_all limit (suc explored) subs _ (omega arith)
      ∙ cc (next-evaluated s subs acc, count)
    where
      count : suc explored + length subs ≡ explored + suc (length subs)
      count = omega arith

  explore_stops :
      (limit explored : ℕ) (subs : List (List String)) (acc : List Candidate)
      → explored ≤ limit
      → limit < explored + length subs
      → explore ms pairs limit explored subs acc ≡ capped limit
  explore_stops limit explored [] acc h k = absurd (omega arith)
  explore_stops limit explored (s ∷ subs) acc h k = elim (Bool-cases (leb limit explored)) [
    | inl t ↦
        let e : explored ≡ limit = ground arith in
        explore_capped limit explored s subs acc t ∙ ap capped e
    | inr f ↦
        explore_next limit explored s subs acc f
        ∙ explore_stops limit (suc explored) subs _ (ground arith) (omega arith)
  ]

  -- With room for every subset the search sees them all.
  pub explore-complete :
      (limit : ℕ) (subs : List (List String))
      → length subs ≤ limit
      → explore ms pairs limit 0 subs [] ≡ complete (evaluated subs) (length subs)
  explore-complete limit subs h = explore_all limit 0 subs [] (omega arith) ∙ rw zero-add

  -- Without it the search stops after as many states as the limit allows.
  pub explore_limited :
      (limit : ℕ) (subs : List (List String))
      → limit < length subs
      → explore ms pairs limit 0 subs [] ≡ capped limit
  explore_limited limit subs h = explore_stops limit 0 subs [] (omega arith) (omega arith)
