-- ===== src/Prelude/Sorting.antt =====
-- Sorting what is sorted already, and `sorted(set(xs))`.
use Prim.Native.String.{String}
use mathlib.Core.Path.{◌≡◌, refl, ap, ◌∙◌}
use mathlib.Core.Logic.{inl, inr}
use mathlib.Core.Bool.{true, false}
use mathlib.Core.List.{List, [], ◌∷◌}
use native.Mathlib.Omega.{arith}
use auditspec.Prelude.Tests.{Bool-cases}
use auditspec.Prelude.Text.{contains, ≟-sym, text_order, text_le}
use auditspec.Prelude.Order.{insert_by, sort_by}
use auditspec.Prelude.Sets.{Distinct, to_set, to_set-Distinct}

-- Each text is at most the next.
abbrev pub IsAscending : List String → Type 0
IsAscending [] = Unit
IsAscending (x ∷ []) = Unit
IsAscending (x ∷ y ∷ xs) = (text_le x y ≡ true) × IsAscending (y ∷ xs)

abbrev texts : List String → List String
texts xs = sort_by text_order (λ s. s) xs

abbrev put : String → List String → List String
put x xs = insert_by text_order (λ s. s) x xs

sort_by-ascending : (xs : List String) → IsAscending xs → texts xs ≡ xs
sort_by-ascending [] h = refl
sort_by-ascending (x ∷ []) h = refl
sort_by-ascending (x ∷ y ∷ xs) (h, k) = ap (put x) (sort_by-ascending (y ∷ xs) k) ∙ rw h refl

put_after :
    (y x : String) (xs : List String)
    → text_le y x ≡ true
    → IsAscending (y ∷ xs)
    → IsAscending (put x xs)
    → IsAscending (y ∷ put x xs)
put_after y x [] h a b = (h, tt)
put_after y x (z ∷ zs) h a b = elim (Bool-cases (text_le x z)) [
  | inl c ↦ rw c (h, (rw c at b))
  | inr c ↦ rw c (a.0, (rw c at b))
]

put-IsAscending : (x : String) (xs : List String) → IsAscending xs → IsAscending (put x xs)
put-IsAscending x [] h = tt
put-IsAscending x (y ∷ []) h = elim (Bool-cases (text_le x y)) [
  | inl c ↦ rw c (c, tt)
  | inr c ↦ rw c (text_order.le_total x y c, tt)
]
put-IsAscending x (y ∷ z ∷ zs) (h, k) = elim (Bool-cases (text_le x y)) [
  | inl c ↦ rw c (c, (h, k))
  | inr c ↦
      rw c
        (put_after y x (z ∷ zs) (text_order.le_total x y c) (h, k) (put-IsAscending x (z ∷ zs) k))
]

sort_by-IsAscending : (xs : List String) → IsAscending (texts xs)
sort_by-IsAscending [] = tt
sort_by-IsAscending (x ∷ xs) = put-IsAscending x (texts xs) (sort_by-IsAscending xs)

contains-put : (x y : String) (xs : List String) → contains (put x xs) y ≡ contains (x ∷ xs) y
contains-put x y [] = refl
contains-put x y (z ∷ zs) = elim (Bool-cases (text_le x z)) [
  | inl c ↦ rw c refl
  | inr c ↦ rw (c, contains-put x y zs) (ground arith)
]

contains-sort_by : (y : String) (xs : List String) → contains (texts xs) y ≡ contains xs y
contains-sort_by y [] = refl
contains-sort_by y (x ∷ xs) = rw (contains-put x y (texts xs), contains-sort_by y xs) refl

put-Distinct :
    (x : String) (xs : List String) → contains xs x ≡ false → Distinct xs → Distinct (put x xs)
put-Distinct x [] h d = (h, d)
put-Distinct x (z ∷ zs) h d = elim (Bool-cases (text_le x z)) [
  | inl c ↦ rw c (h, d)
  | inr c ↦
      rw (c, contains-put x z zs)
        (rw (≟-sym z x) (ground arith), put-Distinct x zs (ground arith) d.1)
]

sort_by-Distinct : (xs : List String) → Distinct xs → Distinct (texts xs)
sort_by-Distinct [] d = tt
sort_by-Distinct (x ∷ xs) (h, d) =
    put-Distinct x (texts xs) (contains-sort_by x xs ∙ h) (sort_by-Distinct xs d)

to_set-fixed : (xs : List String) → Distinct xs → to_set xs ≡ xs
to_set-fixed [] d = refl
to_set-fixed (x ∷ xs) (h, d) = rw (to_set-fixed xs d, h) refl

-- `sorted(set(xs))` of its own result changes nothing.
pub sorted_set-fixed : (xs : List String) → texts (to_set (texts (to_set xs))) ≡ texts (to_set xs)
sorted_set-fixed xs =
    ap texts (to_set-fixed (texts (to_set xs)) (sort_by-Distinct (to_set xs) (to_set-Distinct xs)))
    ∙ sort_by-ascending (texts (to_set xs)) (sort_by-IsAscending (to_set xs))
