-- ===== src/Core/Value.antt =====
-- The Python values that the core handles: JSON, and one constructor for every other type.
-- A dict keeps its members in insertion order; its keys are texts.
use auditspec.Prelude.{
  ℕ, suc, String, Bool, true, false, not, ◌&&◌, Option, none, some, List, [], ◌∷◌, ◌==◌,
  if◌then◌else◌,
}
use auditspec.Prelude.Int.{ℤ, pos, ◌==ℤ◌}
use auditspec.Prelude.Text.{◌≟◌}

mutual
  pub data Value : Type 0 where
    null : Value
    bool : Bool → Value
    int : ℤ → Value
    str : String → Value
    arr : Items → Value
    obj : Fields → Value
    -- A float, bytes, a tuple or an object: its truth value, and a name for the value.
    other : Bool → ℕ → Value

  pub data Items : Type 0 where
    nil : Items
    cons : Value → Items → Items

  pub data Fields : Type 0 where
    end : Fields
    field : String → Value → Fields → Fields

-- `value.get(key)`
unfoldable pub get : String → Fields → Option Value
get key end = none
get key (field k v fs) = if k ≟ key then some v else get key fs

unfoldable pub keys : Fields → List String
keys end = []
keys (field k v fs) = k ∷ keys fs

unfoldable pub items : Items → List Value
items nil = []
items (cons v vs) = v ∷ items vs

unfoldable pub members : Fields → List (String × Value)
members end = []
members (field k v fs) = (k, v) ∷ members fs

unfoldable pub to_items : List Value → Items
to_items [] = nil
to_items (v ∷ vs) = cons v (to_items vs)

count : Fields → ℕ
count end = 0
count (field k v fs) = suc (count fs)

-- `bool(value)`
unfoldable pub truthy : Value → Bool
truthy null = false
truthy (bool b) = b
truthy (int n) = not (n ==ℤ pos 0)
truthy (str s) = not (s ≟ "")
truthy (arr nil) = false
truthy (arr (cons v vs)) = true
truthy (obj end) = false
truthy (obj (field k v fs)) = true
truthy (other truth n) = truth

abbrev of_bool : Bool → ℤ
of_bool true = pos 1
of_bool false = pos 0

abbrev same_bool : Bool → Bool → Bool
same_bool true b = b
same_bool false b = not b

-- `a == b`: a bool is the number 0 or 1, and a dict is compared without the order of its members.
unfoldable mutual
  unfolding count

  pub py_eq : Value → Value → Bool
  py_eq null null = true
  py_eq (bool a) (bool b) = same_bool a b
  py_eq (bool a) (int n) = of_bool a ==ℤ n
  py_eq (int m) (bool b) = m ==ℤ of_bool b
  py_eq (int m) (int n) = m ==ℤ n
  py_eq (str s) (str t) = s ≟ t
  py_eq (arr xs) (arr ys) = items_eq xs ys
  py_eq (obj fs) (obj gs) = count fs == count gs && fields_in fs gs
  py_eq (other a m) (other b n) = same_bool a b && m == n
  py_eq _ _ = false

  items_eq : Items → Items → Bool
  items_eq nil nil = true
  items_eq (cons x xs) (cons y ys) = py_eq x y && items_eq xs ys
  items_eq _ _ = false

  fields_in : Fields → Fields → Bool
  fields_in end gs = true
  fields_in (field k v fs) gs =
      (elim (get k gs) [ none ↦ false | some w ↦ py_eq v w ]) && fields_in fs gs
