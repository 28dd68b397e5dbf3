-- ===== src/Prelude/Combinations.antt =====
-- `itertools.combinations`, and all subsets of a list by size.
use Prim.Native.Nat.{ℕ, zero, suc, ◌+◌, ◌^◌, ◌≤◌, ◌<◌}
use mathlib.Core.Path.{◌≡◌, refl}
use mathlib.Core.Logic.{inl, inr}
use mathlib.Core.Bool.{Bool}
use mathlib.Core.List.{List, [], ◌∷◌, ◌++◌, map}
use native.Mathlib.Omega.{arith}
use native.Mathlib.Decide.{dec_le}
use native.Mathlib.Nat.{pow-suc}
use auditspec.Prelude.Tests.{Bool-cases}
use auditspec.Prelude.Lists.{
  Member, length, length-append, length-map, member-map, map-member, member-append_left,
  member-append_right, append-member, keep,
}

-- `xs` is `ys` with some elements left out.
pub data Sublist {A : Type 0} : List A → List A → Type 0 where
  nil : Sublist [] []
  skip : {x : A} {xs ys : List A} → Sublist xs ys → Sublist xs (x ∷ ys)
  take : {x : A} {xs ys : List A} → Sublist xs ys → Sublist (x ∷ xs) (x ∷ ys)

module _ {A : Type 0} where
  pub combinations : List A → ℕ → List (List A)
  combinations xs zero = [] ∷ []
  combinations [] (suc k) = []
  combinations (x ∷ xs) (suc k) = map (◌∷◌ x) (combinations xs k) ++ combinations xs (suc k)

  -- The subsets of sizes `k`, `k + 1` and so on, `sizes` of them.
  pub subsets_from : List A → ℕ → ℕ → List (List A)
  subsets_from xs k zero = []
  subsets_from xs k (suc sizes) = combinations xs k ++ subsets_from xs (suc k) sizes

  -- `for size in range(len(xs) + 1): for subset in combinations(xs, size)`
  unfoldable pub subsets : List A → List (List A)
  unfolding combinations subsets_from
  subsets xs = subsets_from xs 0 (suc (length xs))

  pub Sublist-nil : (xs : List A) → Sublist [] xs
  Sublist-nil [] = nil
  Sublist-nil (x ∷ xs) = skip (Sublist-nil xs)

  pub Sublist-refl : (xs : List A) → Sublist xs xs
  Sublist-refl [] = nil
  Sublist-refl (x ∷ xs) = take (Sublist-refl xs)

  pub Sublist-member : {xs ys : List A} → Sublist xs ys → (a : A) → Member a xs → Member a ys
  Sublist-member nil a m = m
  Sublist-member (skip s) a m = inr (Sublist-member s a m)
  Sublist-member (take s) a (inl e) = inl e
  Sublist-member (take s) a (inr m) = inr (Sublist-member s a m)

  pub Sublist-length : {xs ys : List A} → Sublist xs ys → length xs ≤ length ys
  Sublist-length nil = omega arith
  Sublist-length (skip s) = omega (arith, Sublist-length s)
  Sublist-length (take s) = omega (arith, Sublist-length s)

  pub Sublist-keep : (test : A → Bool) {xs ys : List A} → Sublist xs ys → Sublist (keep test xs) ys
  Sublist-keep test nil = nil
  Sublist-keep test (skip s) = skip (Sublist-keep test s)
  Sublist-keep test (take {x = x} s) = elim (Bool-cases (test x)) [
    | inl h ↦ rw h (take (Sublist-keep test s))
    | inr h ↦ rw h (skip (Sublist-keep test s))
  ]

  combinations-member :
      (xs : List A) (k : ℕ) (ys : List A) → Member ys (combinations xs k) → Sublist ys xs
  unfolding combinations
  combinations-member xs zero ys (inl e) = rw e (Sublist-nil xs)
  combinations-member xs zero ys (inr m) = absurd m
  combinations-member [] (suc k) ys m = absurd m
  combinations-member (x ∷ xs) (suc k) ys m =
      elim (append-member ys (map (◌∷◌ x) (combinations xs k)) (combinations xs (suc k)) m) [
        | inl p ↦
            let (zs, q, e) = map-member (◌∷◌ x) ys (combinations xs k) p in
            rw e (take (combinations-member xs k zs q))
        | inr p ↦ skip (combinations-member xs (suc k) ys p)
      ]

  member-combinations : {ys xs : List A} → Sublist ys xs → Member ys (combinations xs (length ys))
  unfolding combinations
  member-combinations nil = inl refl
  member-combinations {ys = []} (skip s) = inl refl
  member-combinations {ys = y ∷ ys} (skip {x = x} {ys = xs} s) =
      member-append_right (y ∷ ys) (map (◌∷◌ x) (combinations xs (length ys))) _
        (member-combinations s)
  member-combinations (take {x = x} {xs = ys} {ys = xs} s) =
      member-append_left (x ∷ ys) (map (◌∷◌ x) (combinations xs (length ys))) _
        (member-map (◌∷◌ x) ys (combinations xs (length ys)) (member-combinations s))

  subsets_from-member :
      (xs : List A) (k sizes : ℕ) (ys : List A)
      → Member ys (subsets_from xs k sizes)
      → Sublist ys xs
  unfolding subsets_from
  subsets_from-member xs k zero ys m = absurd m
  subsets_from-member xs k (suc sizes) ys m =
      elim (append-member ys (combinations xs k) (subsets_from xs (suc k) sizes) m) [
        | inl p ↦ combinations-member xs k ys p
        | inr p ↦ subsets_from-member xs (suc k) sizes ys p
      ]

  member-subsets_from :
      (xs : List A) (k sizes n : ℕ) (ys : List A)
      → k ≤ n
      → n < k + sizes
      → Member ys (combinations xs n)
      → Member ys (subsets_from xs k sizes)
  unfolding subsets_from
  member-subsets_from xs k zero n ys lo hi m = absurd (omega arith)
  member-subsets_from xs k (suc sizes) n ys lo hi m = elim (dec_le (suc k) n) [
    | yes h ↦
        member-append_right ys (combinations xs k) _
          (member-subsets_from xs (suc k) sizes n ys h (omega arith) m)
    | no h ↦ let e : n ≡ k = omega arith in member-append_left ys (combinations xs k) _ (rw e at m)
  ]

  -- Every subset that the loops reach is a sublist, and every sublist is reached.
  pub subsets-member : (xs ys : List A) → Member ys (subsets xs) → Sublist ys xs
  unfolding subsets
  subsets-member xs ys m = subsets_from-member xs 0 (suc (length xs)) ys m

  pub member-subsets : {ys xs : List A} → Sublist ys xs → Member ys (subsets xs)
  unfolding subsets
  member-subsets {ys} {xs} s =
      member-subsets_from xs 0 (suc (length xs)) (length ys) ys (omega arith)
        (omega (arith, Sublist-length s)) (member-combinations s)

  length-combinations_large : (xs : List A) (k : ℕ) → length xs < k → length (combinations xs k) ≡ 0
  unfolding combinations
  length-combinations_large xs zero h = absurd (omega arith)
  length-combinations_large [] (suc k) h = refl
  length-combinations_large (x ∷ xs) (suc k) h = omega (
    arith,
    length-append (map (◌∷◌ x) (combinations xs k)) (combinations xs (suc k)),
    length-map (◌∷◌ x) (combinations xs k),
    length-combinations_large xs k (omega arith),
    length-combinations_large xs (suc k) (omega arith),
  )

  length-subsets_from_large :
      (xs : List A) (k sizes : ℕ)
      → length xs < k + sizes
      → length (subsets_from xs k (suc sizes)) ≡ length (subsets_from xs k sizes)
  unfolding subsets_from
  length-subsets_from_large xs k zero h =
      omega
        (arith, length-append (combinations xs k) [], length-combinations_large xs k (omega arith))
  length-subsets_from_large xs k (suc sizes) h = omega (
    arith,
    length-append (combinations xs k) (subsets_from xs (suc k) (suc sizes)),
    length-append (combinations xs k) (subsets_from xs (suc k) sizes),
    length-subsets_from_large xs (suc k) sizes (omega arith),
  )

  length-subsets_from_cons :
      (x : A) (xs : List A) (k sizes : ℕ)
      → length (subsets_from (x ∷ xs) (suc k) sizes)
        ≡ length (subsets_from xs k sizes) + length (subsets_from xs (suc k) sizes)
  unfolding combinations subsets_from
  length-subsets_from_cons x xs k zero = omega arith
  length-subsets_from_cons x xs k (suc sizes) = omega (
    arith,
    length-append (map (◌∷◌ x) (combinations xs k) ++ combinations xs (suc k))
        (subsets_from (x ∷ xs) (suc (suc k)) sizes),
    length-append (map (◌∷◌ x) (combinations xs k)) (combinations xs (suc k)),
    length-map (◌∷◌ x) (combinations xs k),
    length-append (combinations xs k) (subsets_from xs (suc k) sizes),
    length-append (combinations xs (suc k)) (subsets_from xs (suc (suc k)) sizes),
    length-subsets_from_cons x xs (suc k) sizes,
  )

  -- There are 2^n subsets.
  pub length-subsets : (xs : List A) → length (subsets xs) ≡ 2 ^ length xs
  unfolding subsets
  length-subsets [] = refl
  length-subsets (x ∷ xs) = omega (
    arith,
    pow-suc 2 (length xs),
    length-subsets xs,
    length-append (combinations xs 0) (subsets_from xs 1 (length xs)),
    length-append (combinations (x ∷ xs) 0) (subsets_from (x ∷ xs) 1 (suc (length xs))),
    length-subsets_from_cons x xs 0 (suc (length xs)),
    length-subsets_from_large xs 1 (length xs) (omega arith),
  )
