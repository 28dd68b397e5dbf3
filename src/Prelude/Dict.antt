-- ===== src/Prelude/Dict.antt =====
-- Python dicts with text keys, as association lists in insertion order.
pub mod Laws
use Prim.Native.String.{String}
use mathlib.Core.Path.{◌≡◌, refl, ap, sym, ◌∙◌}
use mathlib.Core.Logic.{◌⊎◌, inl, inr}
use mathlib.Core.Bool.{Bool, true, false}
use mathlib.Core.Option.{Option, none, some}
use mathlib.Core.List.{List, [], ◌∷◌, ◌++◌, map}
use native.Mathlib.Omega.{arith}
use auditspec.Prelude.Tests.{if◌then◌else◌, Bool-cases}
use auditspec.Prelude.Lists.{Member}
use auditspec.Prelude.Text.{◌≟◌, ≟→eq, eq→≟}

abbrev pub Dict : Type 0 → Type 0
Dict A = List (String × A)

abbrev pub is_some {ℓ} : {A : Type ℓ} → Option A → Bool
is_some none = false
is_some (some a) = true

module _ {A : Type 0} where
  -- `d.get(key)`
  abbrev pub find : String → Dict A → Option A
  find key [] = none
  find key ((k, v) ∷ d) = if k ≟ key then some v else find key d

  -- `key in d`
  abbrev pub has : String → Dict A → Bool
  has key d = is_some (find key d)

  -- `d[key] = value` for a key that is not in `d`.
  abbrev pub insert_new : String → A → Dict A → Dict A
  insert_new key value [] = (key, value) ∷ []
  insert_new key value (p ∷ d) = p ∷ insert_new key value d

  -- The value under `key` changed in place.
  abbrev pub change : String → (A → A) → Dict A → Dict A
  change key f [] = []
  change key f ((k, v) ∷ d) = if k ≟ key then (k, f v) ∷ d else (k, v) ∷ change key f d

  pub has-find : (key : String) (d : Dict A) {v : A} → find key d ≡ some v → has key d ≡ true
  has-find key d h = rw h refl

  pub find-has : (key : String) (d : Dict A) → has key d ≡ true → (v : A) × (find key d ≡ some v)
  find-has key [] h = cc
  find-has key ((k, v) ∷ d) h = elim (Bool-cases (k ≟ key)) [
    | inl e ↦ (v, rw e refl)
    | inr e ↦ let (w, f) = find-has key d (rw e at h) in (w, rw e f)
  ]

  pub find-missing : (key : String) (d : Dict A) → has key d ≡ false → find key d ≡ none
  find-missing key [] h = refl
  find-missing key ((k, v) ∷ d) h = elim (Bool-cases (k ≟ key)) [
    | inl e ↦ cc (rw e at h)
    | inr e ↦ rw e (find-missing key d (rw e at h))
  ]

  -- A new key is found with its value, and every other key as before.
  pub find-insert_new :
      (key : String) (value : A) (d : Dict A)
      → has key d ≡ false
      → find key (insert_new key value d) ≡ some value
  find-insert_new key value [] h = rw (eq→≟ key key refl) refl
  find-insert_new key value ((k, v) ∷ d) h = elim (Bool-cases (k ≟ key)) [
    | inl e ↦ cc (rw e at h)
    | inr e ↦ rw e (find-insert_new key value d (rw e at h))
  ]

  pub find-insert_new_other :
      (key other : String) (value : A) (d : Dict A)
      → (key ≟ other) ≡ false
      → find other (insert_new key value d) ≡ find other d
  find-insert_new_other key other value [] h = rw h refl
  find-insert_new_other key other value ((k, v) ∷ d) h = elim (Bool-cases (k ≟ other)) [
    | inl e ↦ rw e refl
    | inr e ↦ rw e (find-insert_new_other key other value d h)
  ]

  pub find-change :
      (key : String) (f : A → A) (d : Dict A) {v : A}
      → find key d ≡ some v
      → find key (change key f d) ≡ some (f v)
  find-change key f [] h = cc
  find-change key f ((k, v) ∷ d) h = elim (Bool-cases (k ≟ key)) [
    | inl e ↦ ground arith
    | inr e ↦ rw (e, e) (find-change key f d (rw e at h))
  ]

  pub find-change-none :
      (key : String) (f : A → A) (d : Dict A) → find key d ≡ none → find key (change key f d) ≡ none
  find-change-none key f [] h = refl
  find-change-none key f ((k, v) ∷ d) h = elim (Bool-cases (k ≟ key)) [
    | inl e ↦ cc (rw e at h)
    | inr e ↦ rw (e, e) (find-change-none key f d (rw e at h))
  ]

  pub find-change_other :
      (key other : String) (f : A → A) (d : Dict A)
      → (key ≟ other) ≡ false
      → find other (change key f d) ≡ find other d
  find-change_other key other f [] h = refl
  find-change_other key other f ((k, v) ∷ d) h = elim (Bool-cases (k ≟ key)) [
    | inl e ↦ rw (e, ≟→eq k key e, h) refl
    | inr e ↦ elim (Bool-cases (k ≟ other)) [
      | inl g ↦ rw (e, g) refl
      | inr g ↦ rw (e, g) (find-change_other key other f d h)
    ]
  ]

-- `del d[key]`, or `d.pop(key, None)`
abbrev pub erase : {A : Type 0} → String → Dict A → Dict A
erase key [] = []
erase key ((k, v) ∷ d) = if k ≟ key then d else (k, v) ∷ erase key d
