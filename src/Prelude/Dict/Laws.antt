-- ===== src/Prelude/Dict/Laws.antt =====
-- What is found after an insertion, a change or a selection.
use Prim.Native.String.{String}
use mathlib.Core.Path.{◌≡◌, refl, ap, ap₂, sym, ◌∙◌}
use mathlib.Core.Logic.{◌⊎◌, inl, inr}
use mathlib.Core.Bool.{Bool, true, false}
use mathlib.Core.Option.{none, some}
use mathlib.Core.List.{[], ◌∷◌}
use native.Mathlib.Omega.{arith}
use auditspec.Prelude.Tests.{Bool-cases}
use auditspec.Prelude.Lists.{Member, keep}
use auditspec.Prelude.Text.{◌≟◌, ≟→eq}
use auditspec.Prelude.Dict.{
  Dict, is_some, find, has, insert_new, find-insert_new, find-insert_new_other,
}

module _ {A : Type 0} where
  pub find-Member : (key : String) (d : Dict A) {v : A} → find key d ≡ some v → Member (key, v) d
  find-Member key [] h = cc
  find-Member key ((k, w) ∷ d) {v} h = elim (Bool-cases (k ≟ key)) [
    | inl e ↦ inl (ap₂ (λ (s : String) (x : A). (s, x)) (sym (≟→eq k key e)) (ground arith))
    | inr e ↦ inr (find-Member key d (rw e at h))
  ]

  -- A new key is there, and no other key is new.
  pub insert_new-cases :
      (key other : String) (v w : A) (d : Dict A)
      → has key d ≡ false
      → find other (insert_new key v d) ≡ some w
      → ((key ≡ other) × (v ≡ w)) ⊎ (find other d ≡ some w)
  insert_new-cases key other v w d h f = elim (Bool-cases (key ≟ other)) [
    | inl e ↦ let p = ≟→eq key other e in let g = find-insert_new key v d h in inl (p, ground arith)
    | inr e ↦ inr (sym (find-insert_new_other key other v d e) ∙ f)
  ]

  pub has-insert_new_other :
      (key other : String) (v : A) (d : Dict A)
      → (key ≟ other) ≡ false
      → has other (insert_new key v d) ≡ has other d
  has-insert_new_other key other v d e = ap is_some (find-insert_new_other key other v d e)

  pub has-insert_new_kept :
      (key other : String) (v : A) (d : Dict A)
      → has other d ≡ true
      → has other (insert_new key v d) ≡ true
  has-insert_new_kept key other v [] h = cc
  has-insert_new_kept key other v ((k, w) ∷ d) h = elim (Bool-cases (k ≟ other)) [
    | inl e ↦ rw e refl
    | inr e ↦ rw e (has-insert_new_kept key other v d (rw e at h))
  ]

  pub has-insert_new_self :
      (key : String) (v : A) (d : Dict A) → has key (insert_new key v d) ≡ true
  has-insert_new_self key v d = elim (Bool-cases (has key d)) [
    | inl h ↦ has-insert_new_kept key key v d h
    | inr h ↦ ap is_some (find-insert_new key v d h)
  ]

  -- A key that passes is found as before, and another one is not there.
  pub find-keep :
      (test : String → Bool) (key : String) (d : Dict A)
      → test key ≡ true
      → find key (keep (λ p. test p.0) d) ≡ find key d
  find-keep test key [] h = refl
  find-keep test key ((k, v) ∷ d) h = elim (Bool-cases (k ≟ key)) [
    | inl e ↦ let t : test k ≡ true = ap test (≟→eq k key e) ∙ h in rw (t, e) refl
    | inr e ↦ elim (Bool-cases (test k)) [
      | inl t ↦ rw (t, e) (find-keep test key d h)
      | inr t ↦ rw (t, e) (find-keep test key d h)
    ]
  ]

  pub find-keep_out :
      (test : String → Bool) (key : String) (d : Dict A)
      → test key ≡ false
      → find key (keep (λ p. test p.0) d) ≡ none
  find-keep_out test key [] h = refl
  find-keep_out test key ((k, v) ∷ d) h = elim (Bool-cases (test k)) [
    | inl t ↦ elim (Bool-cases (k ≟ key)) [
      | inl e ↦ let f : test k ≡ false = ap test (≟→eq k key e) ∙ h in cc
      | inr e ↦ rw (t, e) (find-keep_out test key d h)
    ]
    | inr t ↦ rw t (find-keep_out test key d h)
  ]
