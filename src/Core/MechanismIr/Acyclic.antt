-- ===== src/Core/MechanismIr/Acyclic.antt =====
-- `_assert_acyclic` accepts a relation exactly when it has no cycle.
use mathlib.Core.Path.{subst}
use auditspec.Prelude.{
  ℕ, zero, suc, ◌≤◌, ◌<◌, String, true, false, List, [], ◌∷◌, ◌≡◌, refl, sym, ap, ◌∙◌, ◌⊎◌, inl,
  inr, arith, Member, length, every, every-member, Bool-cases, ◌==◌, &&-left, &&-right,
}
use auditspec.Prelude.Text.{contains, contains-member, ◌≟◌, ≟→eq, eq→≟}
use auditspec.Prelude.Sets.{
  missing, missing-cons_lt, missing-le, subset, subset-member, same_set, same_set-member, to_set,
}
use auditspec.Prelude.Result.{
  Result, ok, err, Error, value_error, ◌>>=◌, ok-injective, Result-cases,
}
use auditspec.Core.MechanismIr.{
  Dependencies, names, required_by, cycle, visit_each, visit_name, assert_acyclic, valid_entry,
  check_dependencies,
}
use auditspec.Core.MechanismIr.Relation.{
  Requires, Reaches, one, more, Grounded, grounded, Grounded-acyclic, cycle-shift,
}

pub required_by-returns :
    (ds : Dependencies) (a : String)
    → Member a (names ds)
    → (bs : List String) × (required_by ds a ≡ ok bs)
unfolding required_by
required_by-returns [] a m = absurd m
required_by-returns ((k, bs) ∷ ds) a (inl e) = (bs, rw (eq→≟ k a (sym e)))
required_by-returns ((k, bs) ∷ ds) a (inr m) = elim (Bool-cases (k ≟ a)) [
  | inl t ↦ (bs, rw t)
  | inr f ↦ let (cs, h) = required_by-returns ds a m in (cs, rw f h)
]

length-names : (ds : Dependencies) → length (names ds) ≡ length ds
length-names [] = refl
length-names ((k, bs) ∷ ds) = ap suc (length-names ds)

pub length-names_le : (ds : Dependencies) → missing (names ds) [] ≤ length ds
length-names_le ds = omega (arith, missing-le (names ds) [], length-names ds)

length-names_lt : (ds : Dependencies) → missing (names ds) [] < suc (length ds)
length-names_lt ds = omega (arith, length-names_le ds)

-- Every requirement is a mechanism of the relation.
abbrev pub Listed : Dependencies → Type 0
Listed ds = (a b : String) → Requires ds a b → Member b (names ds)

module _ (ds : Dependencies) (listed : Listed ds) where
  abbrev AllGrounded : List String → Type 0
  AllGrounded visited = (x : String) → Member x visited → Grounded ds x

  abbrev Cyclic : Error → Type 0
  Cyclic e = (e ≡ value_error "mechanism dependency cycle") × ((x : String) × Reaches ds x x)

  -- What a visit of `targets` gives.
  abbrev Visits : List String → List String → Result (List String) → Type 0
  Visits targets visited (err e) = Cyclic e
  Visits targets visited (ok after) =
      ((x : String) → Member x targets → Member x after)
      × ((x : String) → Member x visited → Member x after)
      × AllGrounded after

  visit_each-Visits :
      (visit : String → List String → Result (List String)) (targets visited : List String)
      → ((t : String) (v : List String)
          → Member t targets
          → AllGrounded v
          → Visits (t ∷ []) v (visit t v))
      → AllGrounded visited
      → Visits targets visited (visit_each visit targets visited)
  unfolding visit_each
  visit_each-Visits visit [] visited h g = (λ x m. absurd m, λ x m. m, g)
  visit_each-Visits visit (t ∷ targets) visited h g = elim (Result-cases (visit t visited)) [
    | inr (e, p) ↦ rw p (subst (Visits (t ∷ []) visited) p (h t visited (inl refl) g))
    | inl (after, p) ↦
        let (here, keeps, g') = subst (Visits (t ∷ []) visited) p (h t visited (inl refl) g) in
        let rest = visit_each-Visits visit targets after (λ u v m. h u v (inr m)) g' in
        rw p (both after here keeps (visit_each visit targets after) rest)
  ]
    where
      both :
          (after : List String)
          → ((x : String) → Member x (t ∷ []) → Member x after)
          → ((x : String) → Member x visited → Member x after)
          → (r : Result (List String)) → Visits targets after r
          → Visits (t ∷ targets) visited r
      both after here keeps (err e) c = c
      both after here keeps (ok last) (all, keep, g) = (
        λ x m. elim m [ inl e ↦ keep x (here x (inl e)) | inr n ↦ all x n ],
        λ x m. keep x (keeps x m),
        g,
      )

  visit_seen :
      (fuel : ℕ) (visiting : List String) (name : String) (visited : List String)
      → contains visiting name ≡ true
      → visit_name ds (suc fuel) visiting name visited ≡ cycle
  unfolding visit_name
  visit_seen fuel visiting name visited h = rw (h, visit_name)

  visit_known :
      (fuel : ℕ) (visiting : List String) (name : String) (visited : List String)
      → contains visiting name ≡ false
      → contains visited name ≡ true
      → visit_name ds (suc fuel) visiting name visited ≡ ok visited
  unfolding visit_name
  visit_known fuel visiting name visited h k = rw (h, k, visit_name)

  visit_children :
      (fuel : ℕ) (visiting : List String) (name : String) (visited children : List String)
      → contains visiting name ≡ false
      → contains visited name ≡ false
      → required_by ds name ≡ ok children
      → visit_name ds (suc fuel) visiting name visited ≡ (
          visit_each (visit_name ds fuel (name ∷ visiting)) children visited >>= λ after.
          ok (name ∷ after))
  unfolding visit_name
  visit_children fuel visiting name visited children h k e = rw (h, k, e, visit_name)

  finish :
      (name : String) (visited children : List String)
      → required_by ds name ≡ ok children
      → (r : Result (List String)) → Visits children visited r
      → Visits (name ∷ []) visited (r >>= λ after. ok (name ∷ after))
  finish name visited children e (err x) c = c
  finish name visited children e (ok after) (all, keep, g) = (
    λ x m. elim m [ inl p ↦ inl p | inr z ↦ absurd z ],
    λ x m. inr (keep x m),
    λ x m. elim m [
      | inr n ↦ g x n
      | inl p ↦ subst (Grounded ds) (sym p) (
          grounded
            λ b (bs, q, i). g b (all b (subst (Member b) (ok-injective bs children (sym q ∙ e)) i)))
    ],
  )

  visit_name-Visits :
      (fuel : ℕ) (visiting : List String) (name : String) (visited : List String)
      → missing (names ds) visiting < fuel
      → Member name (names ds)
      → ((v : String) → Member v visiting → Reaches ds v name)
      → AllGrounded visited
      → Visits (name ∷ []) visited (visit_name ds fuel visiting name visited)
  visit_name-Visits zero visiting name visited h m path g = absurd (omega arith)
  visit_name-Visits (suc fuel) visiting name visited h m path g =
      by_case (visit_name-Visits fuel) (Bool-cases (contains visiting name))
        (Bool-cases (contains visited name))
    where
      by_case :
          ((vs : List String) (n : String) (v : List String)
            → missing (names ds) vs < fuel
            → Member n (names ds)
            → ((x : String) → Member x vs → Reaches ds x n)
            → AllGrounded v
            → Visits (n ∷ []) v (visit_name ds fuel vs n v))
          → (contains visiting name ≡ true) ⊎ (contains visiting name ≡ false)
          → (contains visited name ≡ true) ⊎ (contains visited name ≡ false)
          → Visits (name ∷ []) visited (visit_name ds (suc fuel) visiting name visited)
      by_case ih (inl t) k =
          subst (Visits (name ∷ []) visited) (sym (visit_seen fuel visiting name visited t))
            (refl, (name, path name (contains-member visiting name t)))
      by_case ih (inr f) (inl t) =
          subst (Visits (name ∷ []) visited) (sym (visit_known fuel visiting name visited f t)) (
            λ x i. elim i [
              | inl e ↦ subst (λ y. Member y visited) (sym e) (contains-member visited name t)
              | inr z ↦ absurd z
            ],
            λ x i. i,
            g,
          )
      by_case ih (inr f) (inr n) =
          let (children, e) = required_by-returns ds name m in
          let fewer = missing-cons_lt name (names ds) visiting m f in
          subst (Visits (name ∷ []) visited)
            (sym (visit_children fuel visiting name visited children f n e))
            (finish name visited children e
              (visit_each (visit_name ds fuel (name ∷ visiting)) children visited)
              (visit_each-Visits (visit_name ds fuel (name ∷ visiting)) children visited
                (λ c v i a.
                  ih (name ∷ visiting) c v (omega (arith, h, fewer))
                    (listed name c (children, e, i))
                    (λ x j. elim j [
                      | inl p ↦ subst (λ y. Reaches ds y c) (sym p) (one (children, e, i))
                      | inr j' ↦ more (path x j') (children, e, i)
                    ])
                    a)
                g))

  -- Every path ends, or there is a cycle.
  abbrev pub AcyclicVerdict : Result (Unit {0}) → Type 0
  AcyclicVerdict (ok u) = (x : String) → Member x (names ds) → Grounded ds x
  AcyclicVerdict (err e) = Cyclic e

  finish_all :
      (r : Result (List String)) → Visits (names ds) [] r → AcyclicVerdict (r >>= λ _. ok tt)
  finish_all (err e) c = c
  finish_all (ok after) (all, keep, g) = λ x m. g x (all x m)

  pub assert_acyclic-AcyclicVerdict : AcyclicVerdict (assert_acyclic ds)
  unfolding assert_acyclic
  assert_acyclic-AcyclicVerdict =
      finish_all (visit_each (visit_name ds (suc (length ds)) []) (names ds) []) (
        visit_each-Visits (visit_name ds (suc (length ds)) []) (names ds) []
          (λ t v m g.
            visit_name-Visits (suc (length ds)) [] t v (length-names_lt ds) m (λ x i. absurd i) g)
          (λ x m. absurd m))

required_by-member :
    (ds : Dependencies) (a : String) (bs : List String)
    → required_by ds a ≡ ok bs
    → Member (a, bs) ds
unfolding required_by
required_by-member [] a bs h = absurd (ground arith)
required_by-member ((k, cs) ∷ ds) a bs h = elim (Bool-cases (k ≟ a)) [
  | inl t ↦ let same : cs ≡ bs = ok-injective cs bs (rw t at h) in inl (rw (≟→eq k a t, same) refl)
  | inr f ↦ inr (required_by-member ds a bs (rw f at h))
]

member-names :
    (ds : Dependencies) (a : String) (bs : List String) → Member (a, bs) ds → Member a (names ds)
member-names [] a bs m = absurd m
member-names ((k, cs) ∷ ds) a bs (inl e) = inl (ap (λ (x : String × List String). x.0) e)
member-names ((k, cs) ∷ ds) a bs (inr m) = inr (member-names ds a bs m)

pub check-Listed :
    (ids : List String) (ds : Dependencies)
    → same_set (names ds) ids ≡ true
    → every (valid_entry ids) ds ≡ true
    → Listed ds
check-Listed ids ds same valid a b (bs, p, m) =
    let v = every-member (valid_entry ids) ds valid (a, bs) (required_by-member ds a bs p) in
    let inside = &&-right (length bs == length (to_set bs)) (subset bs ids) (&&-left _ _ v) in
    (same_set-member (names ds) ids same b).1 (subset-member bs ids inside b m)

-- What the checks of a relation say: it covers exactly the mechanisms, its entries are valid and it
-- has no cycle, or the error of the first check that fails, which is never for want of fuel.
abbrev pub CheckVerdict : List String → Dependencies → Result (Unit {0}) → Type 0
CheckVerdict ids ds (ok u) =
    (same_set (names ds) ids ≡ true)
    × (every (valid_entry ids) ds ≡ true)
    × ((x : String) → ¬ Reaches ds x x)
CheckVerdict ids ds (err e) =
    ((e ≡ value_error "dependency map must cover every mechanism exactly")
      × (same_set (names ds) ids ≡ false))
    ⊎ (((e ≡ value_error "invalid mechanism dependency relation")
          × (every (valid_entry ids) ds ≡ false))
        ⊎ ((e ≡ value_error "mechanism dependency cycle") × ((x : String) × Reaches ds x x)))

no_cycle :
    (ds : Dependencies)
    → ((x : String) → Member x (names ds) → Grounded ds x)
    → (x : String) → ¬ Reaches ds x x
no_cycle ds g x p =
    let (b, (bs, e, m), q) = cycle-shift p in
    Grounded-acyclic (g x (member-names ds x bs (required_by-member ds x bs e))) p

-- The checks of the dependency relation accept it exactly when it covers the mechanisms, each entry
-- requires other mechanisms and none twice, and no mechanism requires itself through others; they
-- refuse it with the error of the first of these that fails.
pub check_dependencies-CheckVerdict :
    (ids : List String) (ds : Dependencies) → CheckVerdict ids ds (check_dependencies ids ds)
unfolding check_dependencies
check_dependencies-CheckVerdict ids ds = elim (Bool-cases (same_set (names ds) ids)) [
  | inr f ↦ rw f (inl (refl, f))
  | inl s ↦ rw s (elim (Bool-cases (every (valid_entry ids) ds)) [
    | inr f ↦ rw f (inr (inl (refl, f)))
    | inl v ↦ rw v (
        last s v (check-Listed ids ds s v) (assert_acyclic ds)
          (assert_acyclic-AcyclicVerdict ds (check-Listed ids ds s v)))
  ])
]
  where
    last :
        same_set (names ds) ids ≡ true
        → every (valid_entry ids) ds ≡ true
        → (listed : Listed ds) → (r : Result (Unit {0})) → AcyclicVerdict ds listed r
        → CheckVerdict ids ds r
    last s v listed (ok u) g = (s, v, no_cycle ds g)
    last s v listed (err e) c = inr (inr c)
