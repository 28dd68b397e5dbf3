-- ===== src/Prelude/Lists.antt =====
-- Lists measured and indexed by native numbers; membership and universal predicates by recursion,
-- which compute to sums and products.
use Prim.Native.Nat.{ℕ, zero, suc, ◌+◌}
use mathlib.Core.Path.{◌≡◌, refl, sym, ap}
use mathlib.Core.Logic.{◌⊎◌, inl, inr}
use mathlib.Core.Bool.{Bool, true, false, ◌&&◌}
use mathlib.Core.List.{List, [], ◌∷◌, ◌++◌, map, reverse, reverse-cons}
use mathlib.Core.Option.{Option, none, some}
use native.Mathlib.Omega.{arith}
use auditspec.Prelude.Tests.{if◌then◌else◌, Bool-cases}

module _ {ℓ} {A : Type ℓ} where
  abbrev pub length : List A → ℕ
  length [] = 0
  length (x ∷ xs) = suc (length xs)

  abbrev pub get_elem? : List A → ℕ → Option A
  get_elem? [] i = none
  get_elem? (x ∷ xs) zero = some x
  get_elem? (x ∷ xs) (suc i) = get_elem? xs i

  -- `[x for x in xs if test x]`
  abbrev pub keep : (A → Bool) → List A → List A
  keep test [] = []
  keep test (x ∷ xs) = if test x then x ∷ keep test xs else keep test xs

  -- `all(...)` and `any(...)`
  abbrev pub every : (A → Bool) → List A → Bool
  every test [] = true
  every test (x ∷ xs) = test x && every test xs

  -- `next((x for x in xs if test x), None)`
  abbrev pub first : (A → Bool) → List A → Option A
  first test [] = none
  first test (x ∷ xs) = if test x then some x else first test xs

  pub length-append : (xs ys : List A) → length (xs ++ ys) ≡ length xs + length ys
  length-append [] ys = omega arith
  length-append (x ∷ xs) ys = omega (arith, length-append xs ys)

-- `a` stands in the list.
abbrev pub Member : {A : Type 0} → A → List A → Type 0
Member a [] = ⊥
Member a (x ∷ xs) = (a ≡ x) ⊎ Member a xs

module _ {κ} {A : Type 0} where
  abbrev pub All : (A → Type κ) → List A → Type κ
  All P [] = Unit
  All P (x ∷ xs) = P x × All P xs

  pub All-member : (P : A → Type κ) (xs : List A) → All P xs → (a : A) → Member a xs → P a
  All-member P [] h a m = absurd m
  All-member P (x ∷ xs) h a (inl e) = rw e h.0
  All-member P (x ∷ xs) h a (inr m) = All-member P xs h.1 a m

  pub All-of_member : (P : A → Type κ) (xs : List A) → ((a : A) → Member a xs → P a) → All P xs
  All-of_member P [] h = tt
  All-of_member P (x ∷ xs) h = (h x (inl refl), All-of_member P xs (λ a m. h a (inr m)))

  pub All-append : (P : A → Type κ) (xs ys : List A) → All P xs → All P ys → All P (xs ++ ys)
  All-append P [] ys hx hy = hy
  All-append P (x ∷ xs) ys hx hy = (hx.0, All-append P xs ys hx.1 hy)

module _ {A B : Type 0} where
  pub member-map : (f : A → B) (a : A) (xs : List A) → Member a xs → Member (f a) (map f xs)
  member-map f a [] m = absurd m
  member-map f a (x ∷ xs) (inl e) = inl (ap f e)
  member-map f a (x ∷ xs) (inr m) = inr (member-map f a xs m)

  pub map-member :
      (f : A → B) (b : B) (xs : List A) → Member b (map f xs) → (a : A) × Member a xs × (b ≡ f a)
  map-member f b [] m = absurd m
  map-member f b (x ∷ xs) (inl e) = (x, inl refl, e)
  map-member f b (x ∷ xs) (inr m) = let (a, m', e) = map-member f b xs m in (a, inr m', e)

  pub length-map : (f : A → B) (xs : List A) → length (map f xs) ≡ length xs
  length-map f [] = refl
  length-map f (x ∷ xs) = ap suc (length-map f xs)

module _ {A : Type 0} where
  pub member-append_left : (a : A) (xs ys : List A) → Member a xs → Member a (xs ++ ys)
  member-append_left a [] ys m = absurd m
  member-append_left a (x ∷ xs) ys (inl e) = inl e
  member-append_left a (x ∷ xs) ys (inr m) = inr (member-append_left a xs ys m)

  pub member-append_right : (a : A) (xs ys : List A) → Member a ys → Member a (xs ++ ys)
  member-append_right a [] ys m = m
  member-append_right a (x ∷ xs) ys m = inr (member-append_right a xs ys m)

  pub append-member : (a : A) (xs ys : List A) → Member a (xs ++ ys) → Member a xs ⊎ Member a ys
  append-member a [] ys m = inr m
  append-member a (x ∷ xs) ys (inl e) = inl (inl e)
  append-member a (x ∷ xs) ys (inr m) = elim (append-member a xs ys m) [
    | inl p ↦ inl (inr p)
    | inr q ↦ inr q
  ]

  pub keep-member :
      (test : A → Bool) (a : A) (xs : List A)
      → Member a (keep test xs)
      → Member a xs × (test a ≡ true)
  keep-member test a [] m = absurd m
  keep-member test a (x ∷ xs) m = elim (Bool-cases (test x)) [
    | inl h ↦ elim (rw h at m) [
      | inl e ↦ (inl e, rw e h)
      | inr r ↦ let (p, q) = keep-member test a xs r in (inr p, q)
    ]
    | inr h ↦ let (p, q) = keep-member test a xs (rw h at m) in (inr p, q)
  ]

  pub member-keep :
      (test : A → Bool) (a : A) (xs : List A)
      → Member a xs
      → test a ≡ true
      → Member a (keep test xs)
  member-keep test a [] m t = absurd m
  member-keep test a (x ∷ xs) (inl e) t = rw (← e, t) (inl refl)
  member-keep test a (x ∷ xs) (inr m) t = elim (Bool-cases (test x)) [
    | inl h ↦ rw h (inr (member-keep test a xs m t))
    | inr h ↦ rw h (member-keep test a xs m t)
  ]

  pub every-member :
      (test : A → Bool) (xs : List A) → every test xs ≡ true → (a : A) → Member a xs → test a ≡ true
  every-member test [] h a m = absurd m
  every-member test (x ∷ xs) h a (inl e) = rw e (ground arith)
  every-member test (x ∷ xs) h a (inr m) = every-member test xs (ground arith) a m

  pub every_of_member :
      (test : A → Bool) (xs : List A)
      → ((a : A) → Member a xs → test a ≡ true)
      → every test xs ≡ true
  every_of_member test [] h = refl
  every_of_member test (x ∷ xs) h =
      rw (h x (inl refl)) (every_of_member test xs (λ a m. h a (inr m)))

  pub every-append :
      (test : A → Bool) (xs ys : List A) → every test (xs ++ ys) ≡ (every test xs && every test ys)
  every-append test [] ys = refl
  every-append test (x ∷ xs) ys = elim (Bool-cases (test x)) [
    | inl h ↦ rw h (every-append test xs ys)
    | inr h ↦ rw h refl
  ]

  pub not-every :
      (test : A → Bool) (xs : List A)
      → every test xs ≡ false
      → (a : A) × Member a xs × (test a ≡ false)
  not-every test [] h = cc
  not-every test (x ∷ xs) h = elim (Bool-cases (test x)) [
    | inl t ↦ let (a, m, f) = not-every test xs (rw t at h) in (a, inr m, f)
    | inr f ↦ (x, inl refl, f)
  ]

  pub first-some :
      (test : A → Bool) (xs : List A) {a : A}
      → first test xs ≡ some a
      → Member a xs × (test a ≡ true)
  first-some test [] h = cc
  first-some test (x ∷ xs) {a} h = elim (Bool-cases (test x)) [
    | inl t ↦ let e : a ≡ x = ground arith in (inl e, rw e t)
    | inr f ↦ let (m, t) = first-some test xs (rw f at h) in (inr m, t)
  ]

  pub first-none :
      (test : A → Bool) (xs : List A)
      → first test xs ≡ none
      → (a : A) → Member a xs
      → test a ≡ false
  first-none test [] h a m = absurd m
  first-none test (x ∷ xs) h a (inl e) = rw e (ground arith)
  first-none test (x ∷ xs) h a (inr m) = first-none test xs (ground arith) a m

  pub member-reverse : (a : A) (xs : List A) → Member a xs → Member a (reverse xs)
  member-reverse a [] m = absurd m
  member-reverse a (x ∷ xs) (inl e) =
      rw (reverse-cons x xs) (member-append_right a (reverse xs) (x ∷ []) (inl e))
  member-reverse a (x ∷ xs) (inr m) =
      rw (reverse-cons x xs) (member-append_left a (reverse xs) (x ∷ []) (member-reverse a xs m))

  pub reverse-member : (a : A) (xs : List A) → Member a (reverse xs) → Member a xs
  reverse-member a [] m = absurd m
  reverse-member a (x ∷ xs) m =
      elim (append-member a (reverse xs) (x ∷ []) (rw (reverse-cons x xs) at m)) [
        | inl p ↦ inr (reverse-member a xs p)
        | inr (inl e) ↦ inl e
        | inr (inr q) ↦ absurd q
      ]

  pub length-reverse : (xs : List A) → length (reverse xs) ≡ length xs
  length-reverse [] = refl
  length-reverse (x ∷ xs) =
      rw (reverse-cons x xs) (omega (arith, length-append (reverse xs) (x ∷ []), length-reverse xs))

  pub get_elem-member : (xs : List A) (i : ℕ) (a : A) → get_elem? xs i ≡ some a → Member a xs
  get_elem-member [] i a h = absurd (ground arith)
  get_elem-member (x ∷ xs) zero a h = inl (ground arith)
  get_elem-member (x ∷ xs) (suc i) a h = inr (get_elem-member xs i a h)

  pub member-get_elem : (xs : List A) (a : A) → Member a xs → (i : ℕ) × (get_elem? xs i ≡ some a)
  member-get_elem [] a m = absurd m
  member-get_elem (x ∷ xs) a (inl e) = (0, ap some (sym e))
  member-get_elem (x ∷ xs) a (inr m) = let (i, h) = member-get_elem xs a m in (suc i, h)
