-- ===== src/Core/InformationOrder/Closure/Visit.antt =====
-- What the loop over the requirements of one mechanism leaves.
use mathlib.Core.Path.{subst, sym}
use auditspec.Prelude.{
  ℕ, ◌+◌, ◌≤◌, String, true, false, Option, none, some, List, [], ◌∷◌, ◌≡◌, refl, ◌⊎◌, inl, inr,
  arith, length, Member, if◌then◌else◌, Bool-cases, &&-left,
}
use auditspec.Prelude.Text.{contains, contains-member}
use auditspec.Prelude.Sets.{
  add, Distinct, missing, missing-cons_lt, add-Distinct, member-add, member-add_self,
}
use auditspec.Core.InformationOrder.Closure.{Mechanisms, mechanism_ids, available, visit}
use auditspec.Core.InformationOrder.Closure.Equations.{visit_blocked, visit_next}

module _ (mechanisms : Mechanisms) (admissible : List String) where
  abbrev pub IsAvailable : String → Type 0
  IsAvailable id = available mechanisms admissible id ≡ true

  abbrev pub measure : List String → List String → ℕ
  measure closure pending = length pending + missing (mechanism_ids mechanisms) closure

  -- What the inner loop leaves: everything from before, and the requirements seen so far.
  pub record Visited (ds closure pending closure' pending' : List String) : Type 0 where
    pub grows : (id : String) → Member id closure → Member id closure'
    pub waits : (id : String) → Member id pending → Member id pending'
    pub covers : (d : String) → Member d ds → Member d closure'
    pub new :
        (id : String) → Member id closure' → Member id closure ⊎ (Member id ds × Member id pending')
    pub queued : (id : String) → Member id pending' → Member id pending ⊎ Member id closure'
    pub distinct : Distinct closure → Distinct closure'
    pub smaller : measure closure' pending' ≤ measure closure pending

  abbrev pub pushed : String → List String → List String → List String
  pushed d closure pending = if contains closure d then pending else d ∷ pending

  abbrev pub AfterVisit :
      List String → List String → List String → Option (List String × List String) → Type 0
  AfterVisit ds closure pending none =
      (d : String) × Member d ds × (available mechanisms admissible d ≡ false)
  AfterVisit ds closure pending (some (closure', pending')) =
      Visited ds closure pending closure' pending'

  member-pushed :
      (d : String) (closure pending : List String) (id : String)
      → Member id pending
      → Member id (pushed d closure pending)
  member-pushed d closure pending id m = elim (Bool-cases (contains closure d)) [
    | inl h ↦ rw h m
    | inr h ↦ rw h (inr m)
  ]

  pushed-member :
      (d : String) (closure pending : List String) (id : String)
      → Member id (pushed d closure pending)
      → (id ≡ d) ⊎ Member id pending
  pushed-member d closure pending id m = elim (Bool-cases (contains closure d)) [
    | inl h ↦ inr (rw h at m)
    | inr h ↦ rw h at m
  ]

  added-cases :
      (d : String) (closure pending : List String) (id : String)
      → Member id (add d closure)
      → Member id closure ⊎ ((id ≡ d) × Member id (pushed d closure pending))
  added-cases d closure pending id m = elim (Bool-cases (contains closure d)) [
    | inl h ↦ inl (rw h at m)
    | inr h ↦ elim (rw h at m) [ inl e ↦ inr (e, rw h (inl e)) | inr r ↦ inl r ]
  ]

  pushed-smaller :
      (d : String) (closure pending : List String)
      → IsAvailable d
      → measure (add d closure) (pushed d closure pending) ≤ measure closure pending
  pushed-smaller d closure pending a = elim (Bool-cases (contains closure d)) [
    | inl h ↦ rw h (omega arith)
    | inr h ↦ rw h (
        omega (
          arith,
          missing-cons_lt d (mechanism_ids mechanisms) closure
              (contains-member (mechanism_ids mechanisms) d (&&-left _ _ a)) h,
        ))
  ]

  visit-cons :
      (d : String) (ds closure pending closure' pending' : List String)
      → IsAvailable d
      → Visited ds (add d closure) (pushed d closure pending) closure' pending'
      → Visited (d ∷ ds) closure pending closure' pending'
  visit-cons d ds closure pending closure' pending' a v = record {
    grows = λ id m. v.grows id (member-add d closure id m);
    waits = λ id m. v.waits id (member-pushed d closure pending id m);
    covers = λ x m. elim m [
      | inl e ↦ rw e (v.grows d (member-add_self d closure))
      | inr r ↦ v.covers x r
    ];
    new = λ id m. elim (v.new id m) [
      | inl old ↦ elim (added-cases d closure pending id old) [
        | inl c ↦ inl c
        | inr (e, q) ↦ inr (inl e, v.waits id q)
      ]
      | inr (s, q) ↦ inr (inr s, q)
    ];
    queued = λ id m. elim (v.queued id m) [
      | inl q ↦ elim (pushed-member d closure pending id q) [
        | inl e ↦ inr (rw e (v.grows d (member-add_self d closure)))
        | inr r ↦ inl r
      ]
      | inr c ↦ inr c
    ];
    distinct = λ h. v.distinct (add-Distinct d closure h);
    smaller = omega (arith, v.smaller, pushed-smaller d closure pending a);
  }

  AfterVisit-cons :
      (d : String) (ds closure pending : List String) (r : Option (List String × List String))
      → IsAvailable d
      → AfterVisit ds (add d closure) (pushed d closure pending) r
      → AfterVisit (d ∷ ds) closure pending r
  AfterVisit-cons d ds closure pending none a (x, m, f) = (x, inr m, f)
  AfterVisit-cons d ds closure pending (some (closure', pending')) a v =
      visit-cons d ds closure pending closure' pending' a v

  pub visit-AfterVisit :
      (ds closure pending : List String)
      → AfterVisit ds closure pending (visit mechanisms admissible ds closure pending)
  unfolding visit
  visit-AfterVisit [] closure pending = record {
    grows = λ id m. m;
    waits = λ id m. m;
    covers = λ d m. absurd m;
    new = λ id m. inl m;
    queued = λ id m. inl m;
    distinct = λ h. h;
    smaller = omega arith;
  }
  visit-AfterVisit (d ∷ ds) closure pending =
      elim (Bool-cases (available mechanisms admissible d)) [
        | inr f ↦
            subst (AfterVisit (d ∷ ds) closure pending)
              (sym (visit_blocked mechanisms admissible d ds closure pending f)) (d, inl refl, f)
        | inl a ↦
            subst (AfterVisit (d ∷ ds) closure pending)
              (sym (visit_next mechanisms admissible d ds closure pending a))
              (AfterVisit-cons d ds closure pending _ a
                (visit-AfterVisit ds (add d closure) (pushed d closure pending)))
      ]
