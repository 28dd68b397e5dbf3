-- ===== src/Prelude/Result.antt =====
-- Exceptions as values.
use Prim.Native.String.{String}
use mathlib.Core.Path.{◌≡◌, refl, sym, ap, ◌∙◌, subst}
use mathlib.Core.Logic.{◌⊎◌, inl, inr}
use mathlib.Core.Bool.{Bool, true, false}
use mathlib.Core.List.{List, [], ◌∷◌}
use native.Mathlib.Omega.{arith}
use auditspec.Prelude.Lists.{All, Member}

-- The exception's class, with its message where the message is a literal of the code.
pub data Error : Type 0 where
  canonicalization information_order value_error wire_error vault_error : String → Error
  type_error key_error : Error
  -- The TypeError of a value that a set cannot hold.
  unhashable : Error
  -- A loop's fuel ran out, which no Python exception is.
  out_of_fuel : Error

pub data Result {ℓ} (A : Type ℓ) : Type ℓ where
  ok : A → Result A
  err : Error → Result A

-- `abbrev`, since proofs look through it: a run that returned goes on with its value.
infixl 5 ◌>>=◌ ◌>>◌
abbrev pub ◌>>=◌ {ℓ κ} : {A : Type ℓ} {B : Type κ} → Result A → (A → Result B) → Result B
ok value >>= next = next value
err raised >>= next = err raised

-- `if not b: raise e`
abbrev pub require : Bool → Error → Result (Unit {0})
require true raised = ok tt
require false raised = err raised

abbrev pub ◌>>◌ {ℓ} : {A : Type ℓ} → Result (Unit {0}) → Result A → Result A
checked >> next = checked >>= λ _. next

-- What a chain that returned says of its first run and of the rest.
pub >>=-eq-ok {ℓ κ} :
    {A : Type ℓ} {B : Type κ} (run : Result A) (next : A → Result B) {result : B}
    → (run >>= next) ≡ ok result
    → (value : A) × (run ≡ ok value) × (next value ≡ ok result)
>>=-eq-ok (ok value) next h = (value, refl, h)
>>=-eq-ok (err raised) next h = cc

pub require-eq-ok {κ} :
    {B : Type κ} (c : Bool) (e : Error) (k : Result B) {b : B}
    → (require c e >> k) ≡ ok b
    → (c ≡ true) × (k ≡ ok b)
require-eq-ok true e k h = (refl, h)
require-eq-ok false e k h = cc

-- A loop that may raise, over the elements of a list.
module _ {ℓ κ} {A : Type ℓ} {B : Type κ} where
  abbrev pub traverse : (A → Result B) → List A → Result (List B)
  traverse f [] = ok []
  traverse f (x ∷ xs) = f x >>= λ y. traverse f xs >>= λ ys. ok (y ∷ ys)

  pub traverse-eq-cons :
      (f : A → Result B) (x : A) (xs : List A) {ys : List B}
      → traverse f (x ∷ xs) ≡ ok ys
      → (y : B) × (zs : List B) × (f x ≡ ok y) × (traverse f xs ≡ ok zs) × (ok (y ∷ zs) ≡ ok ys)
  traverse-eq-cons f x xs h =
      let (y, e, k) = >>=-eq-ok (f x) (λ y. traverse f xs >>= λ ys. ok (y ∷ ys)) h in
      let (zs, d, l) = >>=-eq-ok (traverse f xs) (λ ys. ok (y ∷ ys)) k in (y, zs, e, d, l)

pub ok-injective {ℓ} : {A : Type ℓ} (a b : A) → ok a ≡ ok b → a ≡ b
ok-injective a b h = ground arith

-- A property of every value that `f` returns holds of all values that the loop returns.
pub traverse-All :
    {A B : Type 0} (P : B → Type 0) (f : A → Result B)
    → ((a : A) (b : B) → f a ≡ ok b → P b)
    → (xs : List A) (ys : List B) → traverse f xs ≡ ok ys
    → All P ys
traverse-All P f h [] ys e = subst (All P) (ok-injective [] ys e) tt
traverse-All P f h (x ∷ xs) ys e =
    let (y, zs, p, q, r) = traverse-eq-cons f x xs e in
    subst (All P) (ok-injective (y ∷ zs) ys r) (h x y p, traverse-All P f h xs zs q)

-- Two lists of one length, related element by element.
abbrev pub Each : {A B : Type 0} → (A → B → Type 0) → List A → List B → Type 0
Each R [] [] = Unit
Each R [] (y ∷ ys) = ⊥
Each R (x ∷ xs) [] = ⊥
Each R (x ∷ xs) (y ∷ ys) = R x y × Each R xs ys

-- The loop returns, with related values, if `f` does at each element.
pub traverse-Each :
    {A B : Type 0} (R : A → B → Type 0) (f : A → Result B) (xs : List A)
    → ((a : A) → Member a xs → (b : B) × (f a ≡ ok b) × R a b)
    → (ys : List B) × (traverse f xs ≡ ok ys) × Each R xs ys
traverse-Each R f [] h = ([], refl, tt)
traverse-Each R f (x ∷ xs) h =
    let (y, e, r) = h x (inl refl) in
    let (ys, d, rs) = traverse-Each R f xs (λ a m. h a (inr m)) in (y ∷ ys, rw (e, d), (r, rs))

pub Result-cases {ℓ} :
    {A : Type ℓ} (m : Result A) → ((a : A) × (m ≡ ok a)) ⊎ ((e : Error) × (m ≡ err e))
Result-cases (ok a) = inl (a, refl)
Result-cases (err e) = inr (e, refl)

-- The values that a loop returned are those of its elements.
module _ {A B : Type 0} (f : A → Result B) where
  pub traverse-member :
      (xs : List A) (ys : List B)
      → traverse f xs ≡ ok ys
      → (y : B) → Member y ys
      → (x : A) × Member x xs × (f x ≡ ok y)
  traverse-member [] ys e y m = absurd (subst (Member y) (sym (ok-injective [] ys e)) m)
  traverse-member (x ∷ xs) ys e y m =
      let (z, zs, p, q, r) = traverse-eq-cons f x xs e in
      elim (subst (Member y) (sym (ok-injective (z ∷ zs) ys r)) m) [
        | inl d ↦ (x, inl refl, p ∙ ap ok (sym d))
        | inr n ↦ let (a, i, h) = traverse-member xs zs q y n in (a, inr i, h)
      ]

  pub member-traverse :
      (xs : List A) (ys : List B)
      → traverse f xs ≡ ok ys
      → (x : A) → Member x xs
      → (y : B) × Member y ys × (f x ≡ ok y)
  member-traverse [] ys e x m = absurd m
  member-traverse (z ∷ xs) ys e x m =
      let (y, zs, p, q, r) = traverse-eq-cons f z xs e in
      let into =
        λ (b : B) (n : Member b (y ∷ zs)). subst (Member b) (ok-injective (y ∷ zs) ys r) n in
      elim m [
        | inl d ↦ (y, into y (inl refl), ap f d ∙ p)
        | inr n ↦ let (b, i, h) = member-traverse xs zs q x n in (b, into b (inr i), h)
      ]

abbrev pub is_ok {ℓ} : {A : Type ℓ} → Result A → Bool
is_ok (ok a) = true
is_ok (err e) = false

pub false-true : false ≡ true → ⊥
false-true h = ground arith

-- The value of a run that returns.
abbrev pub value_of {ℓ} : {A : Type ℓ} (m : Result A) → is_ok m ≡ true → (a : A) × (m ≡ ok a)
value_of (ok a) h = (a, refl)
value_of (err e) h = absurd (false-true h)

pub >>=-eq-err {ℓ κ} :
    {A : Type ℓ} {B : Type κ} (m : Result A) (f : A → Result B) {e : Error}
    → (m >>= f) ≡ err e
    → (m ≡ err e) ⊎ ((a : A) × (m ≡ ok a) × (f a ≡ err e))
>>=-eq-err (ok a) f h = inr (a, refl, h)
>>=-eq-err (err d) f {e} h = inl (ground arith)

pub require-eq-err {κ} :
    {B : Type κ} (c : Bool) (raised : Error) (k : Result B) {e : Error}
    → (require c raised >> k) ≡ err e
    → ((c ≡ false) × (raised ≡ e)) ⊎ ((c ≡ true) × (k ≡ err e))
require-eq-err true raised k h = inr (refl, h)
require-eq-err false raised k h = inl (refl, ground arith)
