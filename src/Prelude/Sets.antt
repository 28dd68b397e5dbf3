-- ===== src/Prelude/Sets.antt =====
-- Python sets of texts as lists without repetition.
use Prim.Native.Nat.{ℕ, suc, ◌+◌, ◌≤◌}
use Prim.Native.String.{String}
use mathlib.Core.Path.{◌≡◌, refl, ◌∙◌, sym}
use mathlib.Core.Logic.{◌⊎◌, inl, inr}
use mathlib.Core.Bool.{Bool, true, false, ◌&&◌}
use mathlib.Core.List.{List, [], ◌∷◌}
use native.Mathlib.Omega.{arith}
use auditspec.Prelude.Tests.{if◌then◌else◌, Bool-cases, &&-left, &&-right}
use auditspec.Prelude.Lists.{Member, length, every, every-member, every_of_member}
use auditspec.Prelude.Text.{◌≟◌, ≟→eq, eq→≟, contains, contains-member, member-contains}

-- No text is listed twice.
abbrev pub Distinct : List String → Type 0
Distinct [] = Unit
Distinct (x ∷ xs) = (contains xs x ≡ false) × Distinct xs

-- `set(xs) <= set(ys)`
abbrev pub subset : List String → List String → Bool
subset xs ys = every (contains ys) xs

-- `set(xs) == set(ys)`
abbrev pub same_set : List String → List String → Bool
same_set xs ys = subset xs ys && subset ys xs

-- `s.add(x)`
abbrev pub add : String → List String → List String
add x s = if contains s x then s else x ∷ s

-- `set(xs)`
abbrev pub to_set : List String → List String
to_set [] = []
to_set (x ∷ xs) = add x (to_set xs)

-- The texts of `xs` that are not in `s`, counted.
abbrev pub missing : List String → List String → ℕ
missing [] s = 0
missing (x ∷ xs) s = (if contains s x then 0 else 1) + missing xs s

pub subset-member :
    (xs ys : List String) → subset xs ys ≡ true → (a : String) → Member a xs → Member a ys
subset-member xs ys h a m = contains-member ys a (every-member (contains ys) xs h a m)

pub subset_of_member :
    (xs ys : List String) → ((a : String) → Member a xs → Member a ys) → subset xs ys ≡ true
subset_of_member xs ys h = every_of_member (contains ys) xs (λ a m. member-contains ys a (h a m))

pub same_set-member :
    (xs ys : List String)
    → same_set xs ys ≡ true
    → (a : String) → (Member a xs → Member a ys) × (Member a ys → Member a xs)
same_set-member xs ys h a =
    (subset-member xs ys (&&-left _ _ h) a, subset-member ys xs (&&-right (subset xs ys) _ h) a)

pub not-contains : (xs : List String) (a : String) → contains xs a ≡ false → ¬ (Member a xs)
not-contains xs a h m = cc (h, member-contains xs a m)

pub not-member : (xs : List String) (a : String) → ¬ (Member a xs) → contains xs a ≡ false
not-member xs a h = elim (Bool-cases (contains xs a)) [
  | inl t ↦ absurd (h (contains-member xs a t))
  | inr f ↦ f
]

pub member-add : (x : String) (s : List String) (a : String) → Member a s → Member a (add x s)
member-add x s a m = elim (Bool-cases (contains s x)) [ inl h ↦ rw h m | inr h ↦ rw h (inr m) ]

pub member-add_self : (x : String) (s : List String) → Member x (add x s)
member-add_self x s = elim (Bool-cases (contains s x)) [
  | inl h ↦ rw h (contains-member s x h)
  | inr h ↦ rw h (inl refl)
]

pub add-member :
    (x : String) (s : List String) (a : String) → Member a (add x s) → (a ≡ x) ⊎ Member a s
add-member x s a m = elim (Bool-cases (contains s x)) [
  | inl h ↦ inr (rw h at m)
  | inr h ↦ rw h at m
]

pub add-Distinct : (x : String) (s : List String) → Distinct s → Distinct (add x s)
add-Distinct x s d = elim (Bool-cases (contains s x)) [ inl h ↦ rw h d | inr h ↦ rw h (h, d) ]

pub to_set-Distinct : (xs : List String) → Distinct (to_set xs)
to_set-Distinct [] = tt
to_set-Distinct (x ∷ xs) = add-Distinct x (to_set xs) (to_set-Distinct xs)

pub member-to_set : (xs : List String) (a : String) → Member a xs → Member a (to_set xs)
member-to_set [] a m = absurd m
member-to_set (x ∷ xs) a (inl e) = rw e (member-add_self x (to_set xs))
member-to_set (x ∷ xs) a (inr m) = member-add x (to_set xs) a (member-to_set xs a m)

pub to_set-member : (xs : List String) (a : String) → Member a (to_set xs) → Member a xs
to_set-member [] a m = absurd m
to_set-member (x ∷ xs) a m = elim (add-member x (to_set xs) a m) [
  | inl e ↦ inl e
  | inr r ↦ inr (to_set-member xs a r)
]

-- One more element leaves no more texts missing, and one fewer if it was missing.
pub missing-cons : (x : String) (xs s : List String) → missing xs (x ∷ s) ≤ missing xs s
missing-cons x [] s = omega arith
missing-cons x (y ∷ ys) s = ground (arith, missing-cons x ys s)

pub missing-cons_lt :
    (x : String) (xs s : List String)
    → Member x xs
    → contains s x ≡ false
    → suc (missing xs (x ∷ s)) ≤ missing xs s
missing-cons_lt x [] s m h = absurd m
missing-cons_lt x (y ∷ ys) s (inl e) h =
    rw (← e, h, eq→≟ x x refl) (omega (arith, missing-cons x ys s))
missing-cons_lt x (y ∷ ys) s (inr m) h = ground (arith, missing-cons_lt x ys s m h)

pub missing-le : (xs s : List String) → missing xs s ≤ length xs
missing-le [] s = omega arith
missing-le (x ∷ xs) s = ground (arith, missing-le xs s)

-- `ys` without the first `x`.
abbrev remove : String → List String → List String
remove x [] = []
remove x (y ∷ ys) = if x ≟ y then ys else y ∷ remove x ys

member-remove :
    (x a : String) (ys : List String) → (a ≟ x) ≡ false → Member a ys → Member a (remove x ys)
member-remove x a [] n m = absurd m
member-remove x a (y ∷ ys) n (inl e) = elim (Bool-cases (x ≟ y)) [
  | inl h ↦ absurd (cc (n, eq→≟ a x (e ∙ sym (≟→eq x y h))))
  | inr h ↦ rw h (inl e)
]
member-remove x a (y ∷ ys) n (inr m) = elim (Bool-cases (x ≟ y)) [
  | inl h ↦ rw h m
  | inr h ↦ rw h (inr (member-remove x a ys n m))
]

length-remove :
    (x : String) (ys : List String) → Member x ys → suc (length (remove x ys)) ≡ length ys
length-remove x [] m = absurd m
length-remove x (y ∷ ys) (inl e) = rw (eq→≟ x y e)
length-remove x (y ∷ ys) (inr m) = ground (arith, length-remove x ys m)

ne_of_member :
    (x a : String) (xs : List String) → contains xs x ≡ false → Member a xs → (a ≟ x) ≡ false
ne_of_member x a xs h m = elim (Bool-cases (a ≟ x)) [
  | inl t ↦ absurd (not-contains xs x h (rw (≟→eq a x t) at m))
  | inr f ↦ f
]

-- A list without repetition whose elements all lie in `ys` is no longer than `ys`.
pub Distinct-length-le :
    (xs ys : List String)
    → Distinct xs
    → ((a : String) → Member a xs → Member a ys)
    → length xs ≤ length ys
Distinct-length-le [] ys d h = omega arith
Distinct-length-le (x ∷ xs) ys d h =
    let ih =
      Distinct-length-le xs (remove x ys) d.1
        (λ a m. member-remove x a ys (ne_of_member x a xs d.0 m) (h a (inr m))) in
    omega (arith, ih, length-remove x ys (h x (inl refl)))
