-- ===== src/Prelude/Order.antt =====
-- Linear orders as Boolean tests, lists and pairs in lexicographic order, the stable sort, `min`.
use Prim.Native.Nat.{ℕ}
use mathlib.Core.Path.{◌≡◌, refl, ◌∙◌}
use mathlib.Core.Logic.{◌⊎◌, inl, inr}
use mathlib.Core.Bool.{Bool, true, false}
use mathlib.Core.List.{List, [], ◌∷◌}
use native.Mathlib.Omega.{arith}
use auditspec.Prelude.Tests.{leb, if◌then◌else◌, Bool-cases}
use auditspec.Prelude.Lists.{Member}

pub record Order {ℓ} (A : Type ℓ) : Type ℓ where
  pub le : A → A → Bool
  pub le_refl : (a : A) → le a a ≡ true
  pub le_trans : (a b c : A) → le a b ≡ true → le b c ≡ true → le a c ≡ true
  pub le_total : (a b : A) → le a b ≡ false → le b a ≡ true
  pub le_antisymm : (a b : A) → le a b ≡ true → le b a ≡ true → a ≡ b

pub leb_trans : (a b c : ℕ) → leb a b ≡ true → leb b c ≡ true → leb a c ≡ true
leb_trans a b c p q = ground arith

pub leb_total : (a b : ℕ) → leb a b ≡ false → leb b a ≡ true
leb_total a b h = ground arith

pub leb_antisymm : (a b : ℕ) → leb a b ≡ true → leb b a ≡ true → a ≡ b
leb_antisymm a b p q = ground arith

pub leb_refl : (a : ℕ) → leb a a ≡ true
leb_refl a = ground arith

abbrev pub nat_order : Order ℕ
nat_order = record {
  le = leb;
  le_refl = leb_refl;
  le_trans = leb_trans;
  le_total = leb_total;
  le_antisymm = leb_antisymm;
}

module _ {ℓ} {A : Type ℓ} (o : Order A) where
  -- Python's order on sequences: a proper prefix comes first.
  abbrev pub lex_le : List A → List A → Bool
  lex_le [] ys = true
  lex_le (x ∷ xs) [] = false
  lex_le (x ∷ xs) (y ∷ ys) = if o.le x y then (if o.le y x then lex_le xs ys else true) else false

  pub lex_le_refl : (xs : List A) → lex_le xs xs ≡ true
  lex_le_refl [] = refl
  lex_le_refl (x ∷ xs) = ground (arith, o.le_refl x, lex_le_refl xs)

  pub lex_le_trans :
      (xs ys zs : List A) → lex_le xs ys ≡ true → lex_le ys zs ≡ true → lex_le xs zs ≡ true
  lex_le_trans [] ys zs p q = refl
  lex_le_trans (x ∷ xs) [] zs p q = absurd (ground arith)
  lex_le_trans (x ∷ xs) (y ∷ ys) [] p q = absurd (ground arith)
  lex_le_trans (x ∷ xs) (y ∷ ys) (z ∷ zs) p q =
      ground (arith, o.le_trans x y z, o.le_trans z x y, o.le_trans y z x, lex_le_trans xs ys zs)

  pub lex_le_total : (xs ys : List A) → lex_le xs ys ≡ false → lex_le ys xs ≡ true
  lex_le_total [] ys h = absurd (ground arith)
  lex_le_total (x ∷ xs) [] h = refl
  lex_le_total (x ∷ xs) (y ∷ ys) h = ground (arith, o.le_total x y, lex_le_total xs ys)

  pub lex_le_antisymm : (xs ys : List A) → lex_le xs ys ≡ true → lex_le ys xs ≡ true → xs ≡ ys
  lex_le_antisymm [] [] p q = refl
  lex_le_antisymm [] (y ∷ ys) p q = absurd (ground arith)
  lex_le_antisymm (x ∷ xs) [] p q = absurd (ground arith)
  lex_le_antisymm (x ∷ xs) (y ∷ ys) p q = ground (arith, o.le_antisymm x y, lex_le_antisymm xs ys)

  abbrev pub list_order : Order (List A)
  list_order = record {
    le = lex_le;
    le_refl = lex_le_refl;
    le_trans = lex_le_trans;
    le_total = lex_le_total;
    le_antisymm = lex_le_antisymm;
  }

-- Pairs, the first part first.
module _ {ℓ κ} {A : Type ℓ} {B : Type κ} (o : Order A) (p : Order B) where
  abbrev pub pair_le : A × B → A × B → Bool
  pair_le (a, b) (c, d) = if o.le a c then (if o.le c a then p.le b d else true) else false

  pub pair_le_refl : (x : A × B) → pair_le x x ≡ true
  pair_le_refl (a, b) = ground (arith, o.le_refl a, p.le_refl b)

  pub pair_le_trans : (x y z : A × B) → pair_le x y ≡ true → pair_le y z ≡ true → pair_le x z ≡ true
  pair_le_trans (a, b) (c, d) (e, f) h k =
      ground (arith, o.le_trans a c e, o.le_trans e a c, o.le_trans c e a, p.le_trans b d f)

  pub pair_le_total : (x y : A × B) → pair_le x y ≡ false → pair_le y x ≡ true
  pair_le_total (a, b) (c, d) h = ground (arith, o.le_total a c, p.le_total b d)

  pub pair_le_antisymm : (x y : A × B) → pair_le x y ≡ true → pair_le y x ≡ true → x ≡ y
  pair_le_antisymm (a, b) (c, d) h k = ground (arith, o.le_antisymm a c, p.le_antisymm b d)

  abbrev pub pair_order : Order (A × B)
  pair_order = record {
    le = pair_le;
    le_refl = pair_le_refl;
    le_trans = pair_le_trans;
    le_total = pair_le_total;
    le_antisymm = pair_le_antisymm;
  }

module _ {κ} {A : Type 0} {K : Type κ} (o : Order K) (key : A → K) where
  abbrev pub insert_by : A → List A → List A
  insert_by x [] = x ∷ []
  insert_by x (y ∷ ys) = if o.le (key x) (key y) then x ∷ y ∷ ys else y ∷ insert_by x ys

  -- `sorted(xs, key=key)`, which is stable.
  abbrev pub sort_by : List A → List A
  sort_by [] = []
  sort_by (x ∷ xs) = insert_by x (sort_by xs)

  member-insert_by : (a x : A) (ys : List A) → (a ≡ x) ⊎ Member a ys → Member a (insert_by x ys)
  member-insert_by a x [] m = m
  member-insert_by a x (y ∷ ys) m = elim (Bool-cases (o.le (key x) (key y))) [
    | inl h ↦ rw h m
    | inr h ↦ rw h (elim m [
      | inl e ↦ inr (member-insert_by a x ys (inl e))
      | inr r ↦ elim r [ inl e ↦ inl e | inr s ↦ inr (member-insert_by a x ys (inr s)) ]
    ])
  ]

  insert_by-member : (a x : A) (ys : List A) → Member a (insert_by x ys) → (a ≡ x) ⊎ Member a ys
  insert_by-member a x [] m = m
  insert_by-member a x (y ∷ ys) m = elim (Bool-cases (o.le (key x) (key y))) [
    | inl h ↦ rw h at m
    | inr h ↦ elim (rw h at m) [
      | inl e ↦ inr (inl e)
      | inr r ↦ elim (insert_by-member a x ys r) [ inl e ↦ inl e | inr s ↦ inr (inr s) ]
    ]
  ]

  pub member-sort_by : (a : A) (xs : List A) → Member a xs → Member a (sort_by xs)
  member-sort_by a [] m = m
  member-sort_by a (x ∷ xs) (inl e) = member-insert_by a x (sort_by xs) (inl e)
  member-sort_by a (x ∷ xs) (inr m) =
      member-insert_by a x (sort_by xs) (inr (member-sort_by a xs m))

  pub sort_by-member : (a : A) (xs : List A) → Member a (sort_by xs) → Member a xs
  sort_by-member a [] m = m
  sort_by-member a (x ∷ xs) m = elim (insert_by-member a x (sort_by xs) m) [
    | inl e ↦ inl e
    | inr r ↦ inr (sort_by-member a xs r)
  ]

  -- `min(x, *rest, key=key)`: the first of the least.
  abbrev pub min_by : A → List A → A
  min_by x [] = x
  min_by x (y ∷ ys) = min_by (if o.le (key x) (key y) then x else y) ys

  pub min_by-member : (x : A) (xs : List A) → Member (min_by x xs) (x ∷ xs)
  min_by-member x [] = inl refl
  min_by-member x (y ∷ ys) = elim (min_by-member (if o.le (key x) (key y) then x else y) ys) [
    | inl e ↦ elim (Bool-cases (o.le (key x) (key y))) [
      | inl h ↦ inl (e ∙ rw h)
      | inr h ↦ inr (inl (e ∙ rw h))
    ]
    | inr m ↦ inr (inr m)
  ]

  min_by-le_first : (x : A) (xs : List A) → o.le (key (min_by x xs)) (key x) ≡ true
  min_by-le_first x [] = o.le_refl (key x)
  min_by-le_first x (y ∷ ys) = elim (Bool-cases (o.le (key x) (key y))) [
    | inl h ↦ rw h (min_by-le_first x ys)
    | inr h ↦ rw h (o.le_trans _ _ _ (min_by-le_first y ys) (o.le_total (key x) (key y) h))
  ]

  pub min_by-le :
      (x : A) (xs : List A) (a : A) → Member a (x ∷ xs) → o.le (key (min_by x xs)) (key a) ≡ true
  min_by-le x [] a (inl e) = rw e (o.le_refl (key x))
  min_by-le x [] a (inr m) = absurd m
  min_by-le x (y ∷ ys) a (inl e) = rw e (min_by-le_first x (y ∷ ys))
  min_by-le x (y ∷ ys) a (inr (inl e)) = rw e (elim (Bool-cases (o.le (key x) (key y))) [
    | inl h ↦ rw h (o.le_trans _ _ _ (min_by-le_first x ys) h)
    | inr h ↦ rw h (min_by-le_first y ys)
  ])
  min_by-le x (y ∷ ys) a (inr (inr m)) =
      min_by-le (if o.le (key x) (key y) then x else y) ys a (inr m)
