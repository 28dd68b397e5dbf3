-- ===== src/Core/MechanismIr/Closed.antt =====
-- `contract_is_dependency_closed` looks at direct requirements only, which is enough.
use mathlib.Core.Path.{subst}
use auditspec.Prelude.{
  String, Bool, true, false, List, [], ◌∷◌, ◌≡◌, refl, sym, ap, ◌∙◌, inl, inr, ◌↔◌, arith, Member,
  Bool-cases,
}
use auditspec.Prelude.Sets.{subset, subset-member, subset_of_member}
use auditspec.Prelude.Result.{Result, ok, err, ok-injective}
use auditspec.Core.MechanismIr.{
  Dependencies, names, required_by, and_then, is_dependency_closed, contract_is_dependency_closed,
}
use auditspec.Core.MechanismIr.Relation.{Requires, Reaches, one, more}
use auditspec.Core.MechanismIr.Acyclic.{Listed, required_by-returns}
use auditspec.Core.MechanismIr.Closure.{Below}

module _ (ds : Dependencies) (chosen : List String) where
  -- All direct requirements are chosen.
  abbrev AllChosen : List String → Type 0
  AllChosen selected = (x y : String) → Member x selected → Requires ds x y → Member y chosen

  abbrev ClosedVerdict : List String → Result Bool → Type 0
  ClosedVerdict selected (err e) = ⊥
  ClosedVerdict selected (ok b) = (b ≡ true) ↔ AllChosen selected

  closed_no :
      (name : String) (selected required : List String)
      → required_by ds name ≡ ok required
      → subset required chosen ≡ false
      → is_dependency_closed ds chosen (name ∷ selected) ≡ ok false
  unfolding is_dependency_closed
  closed_no name selected required e f =
      rw (e, is_dependency_closed)
        (ap (λ b. and_then b (is_dependency_closed ds chosen selected)) f)

  closed_on :
      (name : String) (selected required : List String)
      → required_by ds name ≡ ok required
      → subset required chosen ≡ true
      → is_dependency_closed ds chosen (name ∷ selected) ≡ is_dependency_closed ds chosen selected
  unfolding is_dependency_closed
  closed_on name selected required e t =
      rw (e, is_dependency_closed)
        (ap (λ b. and_then b (is_dependency_closed ds chosen selected)) t)

  closed-ClosedVerdict :
      (selected : List String)
      → ((x : String) → Member x selected → Member x (names ds))
      → ClosedVerdict selected (is_dependency_closed ds chosen selected)
  unfolding is_dependency_closed
  closed-ClosedVerdict [] inside = (λ e x y m. absurd m, λ a. refl)
  closed-ClosedVerdict (name ∷ selected) inside =
      let (required, e) = required_by-returns ds name (inside name (inl refl)) in
      elim (Bool-cases (subset required chosen)) [
        | inr f ↦
            subst (ClosedVerdict (name ∷ selected)) (sym (closed_no name selected required e f)) (
              λ h. absurd (ground arith),
              λ a.
                  let all =
                    subset_of_member required chosen
                      (λ y m. a name y (inl refl) (required, e, m)) in
                  cc (f, all),
            )
        | inl t ↦
            subst (ClosedVerdict (name ∷ selected)) (sym (closed_on name selected required e t)) (
              extend required e t (is_dependency_closed ds chosen selected)
                (closed-ClosedVerdict selected (λ x m. inside x (inr m))))
      ]
    where
      extend :
          (required : List String)
          → required_by ds name ≡ ok required
          → subset required chosen ≡ true
          → (r : Result Bool) → ClosedVerdict selected r
          → ClosedVerdict (name ∷ selected) r
      extend required e t (err x) c = c
      extend required e t (ok b) c = (
        λ h x y m r. elim m [
          | inr n ↦ c.0 h x y n r
          | inl d ↦
              let (bs, q, i) = r in
              subset-member required chosen t y
                (subst (Member y) (ok-injective bs required (sym q ∙ ap (required_by ds) d ∙ e)) i)
        ],
        λ a. c.1 (λ x y m r. a x y (inr m) r),
      )

reached-chosen :
    (ds : Dependencies) (selected : List String)
    → AllChosen ds selected selected
    → (s x : String) → Member s selected
    → Reaches ds s x
    → Member x selected
reached-chosen ds selected a s x m (one r) = a s x m r
reached-chosen ds selected a s x m (more p r) = a _ x (reached-chosen ds selected a s _ m p) r

-- A contract of mechanisms is dependency closed, by the test that looks at direct requirements only,
-- exactly when everything that its mechanisms require through any number of others is in it.
pub contract_is_dependency_closed_iff :
    (ds : Dependencies) (listed : Listed ds) (selected : List String)
    → ((x : String) → Member x selected → Member x (names ds))
    → (contract_is_dependency_closed ds selected ≡ ok true)
      ↔ ((x : String) → Below ds listed selected x → Member x selected)
unfolding contract_is_dependency_closed
contract_is_dependency_closed_iff ds listed selected inside = (
  λ h x (s, m, p).
      reached-chosen ds selected
        ((subst (ClosedVerdict ds selected selected) h
            (closed-ClosedVerdict ds selected selected inside)).0
          refl)
        s x m p,
  λ below.
      from (is_dependency_closed ds selected selected)
        (closed-ClosedVerdict ds selected selected inside) (λ x y m r. below y (x, m, one r)),
)
  where
    from :
        (r : Result Bool)
        → ClosedVerdict ds selected selected r
        → AllChosen ds selected selected
        → r ≡ ok true
    from (err e) c a = absurd c
    from (ok b) c a = ap ok (c.1 a)
