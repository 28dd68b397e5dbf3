-- ===== src/Core/InformationOrder/Closure/Correct.antt =====
-- The invariant of the search, and what it gives: the search ends, and decides what is needed.
use mathlib.Core.Path.{subst, sym}
use mathlib.Core.List.{reverse}
use auditspec.Prelude.{
  ℕ, zero, suc, ◌+◌, ◌≤◌, String, true, false, Option, none, some, List, [], ◌∷◌, ◌≡◌, refl, ◌⊎◌,
  inl, inr, arith, ltb, length, Member, Bool-cases, ltb→lt, every, every-member, not-every, &&-left,
  member-reverse, reverse-member, length-reverse,
}
use auditspec.Prelude.Text.{contains-member}
use auditspec.Prelude.Sets.{
  to_set, Distinct, missing-le, to_set-Distinct, to_set-member, member-to_set, Distinct-length-le,
}
use auditspec.Core.InformationOrder.Closure.{
  Mechanisms, mechanism_ids, requires_of, Outcome, found, refused, out_of_fuel, available, round,
  loop, dependency_closure,
}
use auditspec.Core.InformationOrder.Closure.Equations.{
  round_blocked, round_next, guarded, loop_refused, loop_next, loop_done,
}
use auditspec.Core.InformationOrder.Closure.Needs.{Needs, start, step}
use auditspec.Core.InformationOrder.Closure.Visit.{
  IsAvailable, measure, Visited, AfterVisit, visit-AfterVisit,
}

pub length-mechanism_ids : (ms : Mechanisms) → length (mechanism_ids ms) ≡ length ms
length-mechanism_ids [] = refl
length-mechanism_ids ((k, m) ∷ ms) = omega (arith, length-mechanism_ids ms)

module _ (mechanisms : Mechanisms) (admissible : List String) (selected : List String) where
  abbrev Needed : String → Type 0
  Needed = Needs mechanisms selected

  -- Some needed mechanism cannot be had.
  abbrev Blocked : Type 0
  Blocked = (id : String) × Needed id × (available mechanisms admissible id ≡ false)

  -- `id` is available, and all its requirements are in the set.
  abbrev Finished : List String → String → Type 0
  Finished closure id =
      IsAvailable mechanisms admissible id
      × ((d : String) → Member d (requires_of mechanisms id) → Member d closure)

  record Inv (closure pending : List String) : Type 0 where
    needed : (id : String) → Member id closure → Needed id
    queued : (id : String) → Member id pending → Member id closure
    finished : (id : String) → Member id closure → Member id pending ⊎ Finished closure id
    chosen : (id : String) → Member id selected → Member id closure
    distinct : Distinct closure

  Inv-Visited :
      (id : String) (closure pending closure' pending' : List String)
      → IsAvailable mechanisms admissible id
      → Inv closure (id ∷ pending)
      → Visited mechanisms admissible (requires_of mechanisms id) closure pending closure' pending'
      → Inv closure' pending'
  Inv-Visited id closure pending closure' pending' a i v = record {
    needed = λ x m. elim (v.new x m) [
      | inl old ↦ i.needed x old
      | inr (r, q) ↦ step (i.needed id (i.queued id (inl refl))) r
    ];
    queued = λ x m. elim (v.queued x m) [ inl q ↦ v.grows x (i.queued x (inr q)) | inr c ↦ c ];
    finished = λ x m. elim (v.new x m) [
      | inl old ↦ elim (i.finished x old) [
        | inl q ↦ elim q [
          | inl e ↦
              inr (rw e a, λ d r. v.covers d (subst (λ y. Member d (requires_of mechanisms y)) e r))
          | inr w ↦ inl (v.waits x w)
        ]
        | inr f ↦ inr (f.0, λ d r. v.grows d (f.1 d r))
      ]
      | inr (r, q) ↦ inl q
    ];
    chosen = λ x m. v.grows x (i.chosen x m);
    distinct = v.distinct i.distinct;
  }

  abbrev AfterRound : ℕ → Option (List String × List String) → Type 0
  AfterRound bound none = Blocked
  AfterRound bound (some (closure', pending')) =
      Inv closure' pending' × (measure mechanisms admissible closure' pending' ≤ bound)

  -- The guard on the size of the set refuses only what the tests of the loop would refuse.
  Blocked_of_large :
      (closure pending : List String)
      → Inv closure pending
      → ltb (length mechanisms) (length closure) ≡ true
      → Blocked
  Blocked_of_large closure pending i h =
      elim (Bool-cases (every (available mechanisms admissible) closure)) [
        | inl all ↦
            let fits = Distinct-length-le closure (mechanism_ids mechanisms) i.distinct (λ id m.
              contains-member _ id
                (&&-left _ _ (every-member (available mechanisms admissible) closure all id m))) in
            absurd (omega (arith, ltb→lt _ _ h, length-mechanism_ids mechanisms))
        | inr f ↦
            let (id, m, no_such) = not-every (available mechanisms admissible) closure f in
            (id, i.needed id m, no_such)
      ]

  guarded-AfterRound :
      (id : String) (closure pending : List String) (r : Option (List String × List String))
      → IsAvailable mechanisms admissible id
      → Inv closure (id ∷ pending)
      → AfterVisit mechanisms admissible (requires_of mechanisms id) closure pending r
      → AfterRound (measure mechanisms admissible closure pending) (guarded mechanisms admissible r)
  guarded-AfterRound id closure pending none a i (d, m, f) =
      (d, step (i.needed id (i.queued id (inl refl))) m, f)
  guarded-AfterRound id closure pending (some (closure', pending')) a i v =
      let j = Inv-Visited id closure pending closure' pending' a i v in
      elim (Bool-cases (ltb (length mechanisms) (length closure'))) [
        | inl h ↦ rw h (Blocked_of_large closure' pending' j h)
        | inr h ↦ rw h (j, v.smaller)
      ]

  round-AfterRound :
      (id : String) (closure pending : List String)
      → Inv closure (id ∷ pending)
      → AfterRound
          (measure mechanisms admissible closure pending)
          (round mechanisms admissible id closure pending)
  round-AfterRound id closure pending i = elim (Bool-cases (available mechanisms admissible id)) [
    | inr f ↦
        subst (AfterRound (measure mechanisms admissible closure pending))
          (sym (round_blocked mechanisms admissible id closure pending f))
          (id, i.needed id (i.queued id (inl refl)), f)
    | inl a ↦
        subst (AfterRound (measure mechanisms admissible closure pending))
          (sym (round_next mechanisms admissible id closure pending a))
          (guarded-AfterRound id closure pending _ a i
            (visit-AfterVisit mechanisms admissible (requires_of mechanisms id) closure pending))
  ]

  -- What the outcome says of the selection.
  abbrev pub Decides : Outcome → Type 0
  Decides (found closure) =
      ((id : String) → Member id closure → Needed id)
      × ((id : String) → Needed id → Member id closure × IsAvailable mechanisms admissible id)
      × Distinct closure
  Decides refused = Blocked
  Decides out_of_fuel = ⊥

  Needed-closure :
      (closure : List String) (id : String)
      → Inv closure []
      → Needed id
      → Member id closure × IsAvailable mechanisms admissible id
  Needed-closure closure id i (start m) =
      let c = i.chosen id m in elim (i.finished id c) [ inl q ↦ absurd q | inr f ↦ (c, f.0) ]
  Needed-closure closure id i (step n r) =
      let (m, a) = Needed-closure closure _ i n in
      elim (i.finished _ m) [
        | inl q ↦ absurd q
        | inr f ↦ let c = f.1 id r in elim (i.finished id c) [ inl q ↦ absurd q | inr g ↦ (c, g.0) ]
      ]

  loop-Decides :
      (fuel : ℕ) (closure pending : List String)
      → Inv closure pending
      → measure mechanisms admissible closure pending ≤ fuel
      → Decides (loop mechanisms admissible fuel closure pending)
  loop-Decides fuel closure [] i h =
      subst Decides (sym (loop_done mechanisms admissible fuel closure))
        (i.needed, λ id n. Needed-closure closure id i n, i.distinct)
  loop-Decides zero closure (id ∷ pending) i h = absurd (omega arith)
  loop-Decides (suc fuel) closure (id ∷ pending) i h =
      next (round mechanisms admissible id closure pending) refl
        (round-AfterRound id closure pending i) (loop-Decides fuel)
    where
      next :
          (r : Option (List String × List String))
          → round mechanisms admissible id closure pending ≡ r
          → AfterRound (measure mechanisms admissible closure pending) r
          → ((c p : List String)
              → Inv c p
              → measure mechanisms admissible c p ≤ fuel
              → Decides (loop mechanisms admissible fuel c p))
          → Decides (loop mechanisms admissible (suc fuel) closure (id ∷ pending))
      next none e b ih =
          subst Decides (sym (loop_refused mechanisms admissible fuel id closure pending e)) b
      next (some (c, p)) e (j, le) ih =
          subst Decides (sym (loop_next mechanisms admissible fuel id closure pending c p e))
            (ih c p j (omega arith))

  init-Inv : Inv (to_set selected) (reverse selected)
  init-Inv = record {
    needed = λ id m. start (to_set-member selected id m);
    queued = λ id m. member-to_set selected id (reverse-member id selected m);
    finished = λ id m. inl (member-reverse id selected (to_set-member selected id m));
    chosen = λ id m. member-to_set selected id m;
    distinct = to_set-Distinct selected;
  }

  -- The search ends. A set that it returns holds exactly what the selection needs, once each, and
  -- all of it is in the catalog and admissible; `None` comes with something needed that is not.
  pub dependency_closure-Decides : Decides (dependency_closure mechanisms admissible selected)
  unfolding dependency_closure
  dependency_closure-Decides =
      loop-Decides (length selected + length mechanisms) (to_set selected) (reverse selected)
        init-Inv
        (omega (
          arith,
          length-reverse selected,
          length-mechanism_ids mechanisms,
          missing-le (mechanism_ids mechanisms) (to_set selected),
        ))
