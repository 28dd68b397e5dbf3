-- ===== src/Core/Wire/RoundTrip.antt =====
-- Types and their wire form.
use mathlib.Core.Path.{subst}
use auditspec.Prelude.{
  Option, ◌↔◌, ℕ, zero, suc, ◌≤◌, ◌<◌, String, true, none, some, [], ◌∷◌, ◌≡◌, inl, inr, refl, ap,
  arith, Bool-cases,
}
use auditspec.Prelude.Text.{◌≟◌, ≟→eq, contains}
use auditspec.Prelude.Result.{Result, ok, >>=-eq-ok, require-eq-ok, ok-injective}
use auditspec.Core.Value.{Value, null, bool, int, str, arr, obj, other, Fields, get, keys}
use auditspec.Core.Wire.{
  TypeNode, scalar, optional, list, set, map, record_of, scalar_names, require_exact_keys, present,
  scalar_named, is_string, record_schema, scalar_from, item_from, map_from, record_from, kind_from,
  dispatch, from_wire_within, from_wire, to_wire,
}

-- The types that the wire format has: known scalars, and maps with text keys.
abbrev pub IsType : TypeNode → Type 0
IsType (scalar name) = contains scalar_names name ≡ true
IsType (optional item) = IsType item
IsType (list item) = IsType item
IsType (set item) = IsType item
IsType (map key value) = (key ≡ scalar "string") × IsType value
IsType (record_of schema) = Unit

-- How deep the nodes are nested.
abbrev pub height : TypeNode → ℕ
height (scalar name) = 0
height (optional item) = suc (height item)
height (list item) = suc (height item)
height (set item) = suc (height item)
height (map key value) = suc (height value)
height (record_of schema) = 0

to_wire-from :
    (n : ℕ) (t : TypeNode) → IsType t → height t < n → from_wire_within n (to_wire t) ≡ ok t
unfolding from_wire_within to_wire kind_from scalar_from item_from map_from record_from
    require_exact_keys scalar_named keys get
to_wire-from zero t i h = absurd (omega (arith, h))
to_wire-from (suc n) (scalar name) i h = rw i refl
to_wire-from (suc n) (optional item) i h = rw (to_wire-from n item i (omega (arith, h))) refl
to_wire-from (suc n) (list item) i h = rw (to_wire-from n item i (omega (arith, h))) refl
to_wire-from (suc n) (set item) i h = rw (to_wire-from n item i (omega (arith, h))) refl
to_wire-from (suc n) (map key value) (e, i) h =
    rw
      (
        e,
        to_wire-from n (scalar "string") refl (omega (arith, h)),
        to_wire-from n value i (omega (arith, h)),
      )
      refl
to_wire-from (suc n) (record_of schema) i h = refl

-- A type of the wire format whose nesting the depth allows.
abbrev pub Within : ℕ → TypeNode → Type 0
Within n t = IsType t × (height t < n)

is_string-eq : (t : TypeNode) → is_string t ≡ true → t ≡ scalar "string"
is_string-eq (scalar name) h = ap scalar (≟→eq name "string" h)
is_string-eq (optional t) h = cc
is_string-eq (list t) h = cc
is_string-eq (set t) h = cc
is_string-eq (map k t) h = cc
is_string-eq (record_of fs) h = cc

scalar_named-Within : (n : ℕ) (v : Value) (t : TypeNode) → scalar_named v ≡ ok t → Within (suc n) t
unfolding scalar_named
scalar_named-Within n (str s) t h = elim (Bool-cases (contains scalar_names s)) [
  | inl c ↦ subst (Within (suc n)) (ok-injective (scalar s) t (rw c at h)) (c, omega arith)
  | inr c ↦ cc (rw c at h)
]
scalar_named-Within n null t h = cc
scalar_named-Within n (bool b) t h = cc
scalar_named-Within n (int i) t h = cc
scalar_named-Within n (arr vs) t h = cc
scalar_named-Within n (obj fs) t h = cc
scalar_named-Within n (other b i) t h = cc

record_schema-Within :
    (n : ℕ) (v : Value) (t : TypeNode) → record_schema v ≡ ok t → Within (suc n) t
record_schema-Within n (obj fs) t h =
    subst (Within (suc n)) (ok-injective (record_of fs) t h) (tt, omega arith)
record_schema-Within n null t h = cc
record_schema-Within n (bool b) t h = cc
record_schema-Within n (int i) t h = cc
record_schema-Within n (str s) t h = cc
record_schema-Within n (arr vs) t h = cc
record_schema-Within n (other b i) t h = cc

module _ (n : ℕ) (nested : Value → Result TypeNode)
    (sound : (v : Value) (t : TypeNode) → nested v ≡ ok t → Within n t) where
  item_from-Within :
      (make : TypeNode → TypeNode) (fs : Fields) (t : TypeNode)
      → ((u : TypeNode) → Within n u → Within (suc n) (make u))
      → item_from nested make fs ≡ ok t
      → Within (suc n) t
  unfolding item_from
  item_from-Within make fs t w h =
      let (c1, h1, k1) = >>=-eq-ok (require_exact_keys fs ("kind" ∷ "item" ∷ [])) _ h in
      let (v, h2, k2) = >>=-eq-ok (present (get "item" fs)) _ k1 in
      let (u, h3, k3) = >>=-eq-ok (nested v) _ k2 in
      subst (Within (suc n)) (ok-injective (make u) t k3) (w u (sound v u h3))

  map_from-Within : (fs : Fields) (t : TypeNode) → map_from nested fs ≡ ok t → Within (suc n) t
  unfolding map_from
  map_from-Within fs t h =
      let (c1, h1, k1) = >>=-eq-ok (require_exact_keys fs ("kind" ∷ "key" ∷ "value" ∷ [])) _ h in
      let (v, h2, k2) = >>=-eq-ok (present (get "key" fs)) _ k1 in
      let (key, h3, k3) = >>=-eq-ok (nested v) _ k2 in
      let (h4, k4) = require-eq-ok (is_string key) _ _ k3 in
      let (w, h5, k5) = >>=-eq-ok (present (get "value" fs)) _ k4 in
      let (item, h6, k6) = >>=-eq-ok (nested w) _ k5 in
      let (i, l) = sound w item h6 in
      subst (Within (suc n)) (ok-injective (map key item) t k6)
        ((is_string-eq key h4, i), omega (arith, l))

  scalar_from-Within : (fs : Fields) (t : TypeNode) → scalar_from fs ≡ ok t → Within (suc n) t
  unfolding scalar_from
  scalar_from-Within fs t h =
      let (c1, h1, k1) = >>=-eq-ok (require_exact_keys fs ("kind" ∷ "name" ∷ [])) _ h in
      let (v, h2, k2) = >>=-eq-ok (present (get "name" fs)) _ k1 in scalar_named-Within n v t k2

  record_from-Within : (fs : Fields) (t : TypeNode) → record_from fs ≡ ok t → Within (suc n) t
  unfolding record_from
  record_from-Within fs t h =
      let (c1, h1, k1) = >>=-eq-ok (require_exact_keys fs ("kind" ∷ "schema" ∷ [])) _ h in
      let (v, h2, k2) = >>=-eq-ok (present (get "schema" fs)) _ k1 in record_schema-Within n v t k2

  nests : (u : TypeNode) → Within n u → IsType u × (suc (height u) < suc n)
  nests u (i, l) = (i, omega (arith, l))

  kind_from-Within :
      (kind : String) (fs : Fields) (t : TypeNode)
      → kind_from nested kind fs ≡ ok t
      → Within (suc n) t
  unfolding kind_from
  kind_from-Within kind fs t h = elim (Bool-cases (kind ≟ "scalar")) [
    | inl a ↦ scalar_from-Within fs t (rw a at h)
    | inr a ↦ elim (Bool-cases (kind ≟ "optional")) [
      | inl b ↦ item_from-Within optional fs t nests (rw (a, b) at h)
      | inr b ↦ elim (Bool-cases (kind ≟ "list")) [
        | inl c ↦ item_from-Within list fs t nests (rw (a, b, c) at h)
        | inr c ↦ elim (Bool-cases (kind ≟ "set")) [
          | inl d ↦ item_from-Within set fs t nests (rw (a, b, c, d) at h)
          | inr d ↦ elim (Bool-cases (kind ≟ "map")) [
            | inl e ↦ map_from-Within fs t (rw (a, b, c, d, e) at h)
            | inr e ↦ elim (Bool-cases (kind ≟ "record")) [
              | inl f ↦ record_from-Within fs t (rw (a, b, c, d, e, f) at h)
              | inr f ↦ cc (rw (a, b, c, d, e, f) at h)
            ]
          ]
        ]
      ]
    ]
  ]

  dispatch-Within :
      (o : Option Value) (fs : Fields) (t : TypeNode)
      → dispatch nested o fs ≡ ok t
      → Within (suc n) t
  dispatch-Within (some (str kind)) fs t h = kind_from-Within kind fs t h
  dispatch-Within none fs t h = cc
  dispatch-Within (some null) fs t h = cc
  dispatch-Within (some (bool b)) fs t h = cc
  dispatch-Within (some (int i)) fs t h = cc
  dispatch-Within (some (arr vs)) fs t h = cc
  dispatch-Within (some (obj gs)) fs t h = cc
  dispatch-Within (some (other b i)) fs t h = cc

from_wire_within-Within :
    (n : ℕ) (v : Value) (t : TypeNode) → from_wire_within n v ≡ ok t → Within n t
unfolding from_wire_within
from_wire_within-Within zero v t h = cc
from_wire_within-Within (suc n) (obj fs) t h =
    dispatch-Within n (from_wire_within n) (from_wire_within-Within n) (get "kind" fs) fs t h
from_wire_within-Within (suc n) null t h = cc
from_wire_within-Within (suc n) (bool b) t h = cc
from_wire_within-Within (suc n) (int i) t h = cc
from_wire_within-Within (suc n) (str s) t h = cc
from_wire_within-Within (suc n) (arr vs) t h = cc
from_wire_within-Within (suc n) (other b i) t h = cc

-- `from_wire` reads what `to_wire` writes, and nothing that it could not write: the types that it
-- returns for some value are those with known scalars and text keys that are nested at most 32 deep,
-- and for these, and no others, it returns the type again from its wire form.
pub from_wire-to_wire :
    (t : TypeNode)
    → ((IsType t × (height t ≤ 32)) ↔ (from_wire (to_wire t) ≡ ok t))
      × ((v : Value) → from_wire v ≡ ok t → from_wire (to_wire t) ≡ ok t)
unfolding from_wire
from_wire-to_wire t =
    let back = λ (v : Value) (h : from_wire_within 33 v ≡ ok t). from_wire_within-Within 33 v t h in
    (
      (
        λ (i, h). to_wire-from 33 t i (omega (arith, h)),
        λ h. let (i, l) = back (to_wire t) h in (i, omega (arith, l)),
      ),
      λ v h. let (i, l) = back v h in to_wire-from 33 t i l,
    )
