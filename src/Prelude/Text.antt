-- ===== src/Prelude/Text.antt =====
-- Python's `str`: the native text. Its order goes by code points.
use Prim.Native.Nat.{ℕ}
use Prim.Native.Char.{code}
use Prim.Native.String.{String}
use mathlib.Core.Path.{◌≡◌, refl, sym, ap₂, subst}
use mathlib.Core.Logic.{◌≢◌}
use mathlib.Core.Bool.{Bool, true, false, ◌||◌, ◌&&◌}
use mathlib.Core.Logic.{inl, inr}
use mathlib.Core.List.{List, [], ◌∷◌}
use mathlib.Core.List.{head-eq_of_cons-eq, tail-eq_of_cons-eq}
use text.Mathlib.Text.{◌==◌}
use text.Mathlib.TextEquality.{eq_iff, Char-path}
use native.Mathlib.Omega.{arith}
use auditspec.Prelude.Tests.{◌==◌ as nat_eq, Bool-cases, Bool-iff}
use auditspec.Prelude.Lists.{Member}
use auditspec.Prelude.Order.{Order, nat_order, list_order, lex_le}

abbrev pub codes : String → List ℕ
codes String.[] = []
codes (String.◌∷◌ c s) = code c ∷ codes s

codes-inj : (s t : String) → codes s ≡ codes t → s ≡ t
codes-inj String.[] String.[] h = refl
codes-inj String.[] (String.◌∷◌ c t) h = cc
codes-inj (String.◌∷◌ c s) String.[] h = cc
codes-inj (String.◌∷◌ c s) (String.◌∷◌ d t) h =
    ap₂ String.◌∷◌ (Char-path c d (head-eq_of_cons-eq h)) (codes-inj s t (tail-eq_of_cons-eq h))

abbrev pub text_le : String → String → Bool
text_le s t = lex_le nat_order (codes s) (codes t)

pub text_le_antisymm : (s t : String) → text_le s t ≡ true → text_le t s ≡ true → s ≡ t
text_le_antisymm s t p q =
    codes-inj s t ((list_order nat_order).le_antisymm (codes s) (codes t) p q)

abbrev pub text_order : Order String
text_order = record {
  le = text_le;
  le_refl = λ s. (list_order nat_order).le_refl (codes s);
  le_trans = λ s t u. (list_order nat_order).le_trans (codes s) (codes t) (codes u);
  le_total = λ s t. (list_order nat_order).le_total (codes s) (codes t);
  le_antisymm = text_le_antisymm;
}

infix 50 ◌≟◌
-- `s == t`
abbrev pub ◌≟◌ : String → String → Bool
s ≟ t = s == t

pub ≟→eq : (s t : String) → (s ≟ t) ≡ true → s ≡ t
≟→eq s t = (eq_iff s t).0

pub eq→≟ : (s t : String) → s ≡ t → (s ≟ t) ≡ true
eq→≟ s t = (eq_iff s t).1

-- `s in xs`
abbrev pub contains : List String → String → Bool
contains [] s = false
contains (x ∷ xs) s = (s ≟ x) || contains xs s

pub contains-member : (xs : List String) (s : String) → contains xs s ≡ true → Member s xs
contains-member [] s h = cc
contains-member (x ∷ xs) s h = elim (Bool-cases (s ≟ x)) [
  | inl e ↦ inl (≟→eq s x e)
  | inr n ↦ inr (contains-member xs s (rw n at h))
]

pub member-contains : (xs : List String) (s : String) → Member s xs → contains xs s ≡ true
member-contains [] s m = absurd m
member-contains (x ∷ xs) s (inl e) = rw (eq→≟ s x e)
member-contains (x ∷ xs) s (inr m) = ground (arith, member-contains xs s m)

-- Equality of texts that are lists of code points.
abbrev pub same_codes : List ℕ → List ℕ → Bool
same_codes [] [] = true
same_codes [] (y ∷ ys) = false
same_codes (x ∷ xs) [] = false
same_codes (x ∷ xs) (y ∷ ys) = (nat_eq x y) && same_codes xs ys

pub same_codes→eq : (xs ys : List ℕ) → same_codes xs ys ≡ true → xs ≡ ys
same_codes→eq [] [] h = refl
same_codes→eq [] (y ∷ ys) h = cc
same_codes→eq (x ∷ xs) [] h = cc
same_codes→eq (x ∷ xs) (y ∷ ys) h = ground (arith, same_codes→eq xs ys)

pub eq→same_codes : (xs ys : List ℕ) → xs ≡ ys → same_codes xs ys ≡ true
eq→same_codes xs ys e = subst (λ zs. same_codes xs zs ≡ true) e (same_codes_refl xs)
  where
    same_codes_refl : (zs : List ℕ) → same_codes zs zs ≡ true
    same_codes_refl [] = refl
    same_codes_refl (z ∷ zs) = ground (arith, same_codes_refl zs)

pub differ→same_codes : (xs ys : List ℕ) → same_codes xs ys ≡ false → xs ≢ ys
differ→same_codes xs ys h e = cc (h, eq→same_codes xs ys e)

pub ≟-refl : (s : String) → (s ≟ s) ≡ true
≟-refl s = eq→≟ s s refl

pub ≟-sym : (s t : String) → (s ≟ t) ≡ (t ≟ s)
≟-sym s t =
    Bool-iff (s ≟ t) (t ≟ s) (λ h. eq→≟ t s (sym (≟→eq s t h))) (λ h. eq→≟ s t (sym (≟→eq t s h)))
