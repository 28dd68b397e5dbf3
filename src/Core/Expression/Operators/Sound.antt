-- ===== src/Core/Expression/Operators/Sound.antt =====
-- Operators on arguments of the right types.
use mathlib.Core.Path.{subst}
use auditspec.Prelude.{
  String, Bool, true, false, ◌≡◌, ◌⊎◌, inl, inr, refl, ap, &&-left, &&-right, Bool-cases,
}
use auditspec.Prelude.Int.{ℤ, pos, ◌+ℤ◌}
use auditspec.Prelude.Text.{≟→eq}
use auditspec.Prelude.Result.{Result, ok, err, unhashable, ◌>>=◌, ok-injective}
use auditspec.Core.Wire.{TypeNode, scalar, optional, list, set, map, record_of}
use auditspec.Core.Expression.Datum.{
  Datum, nothing, boolean, integer, text, sequence, frozenset, bytes, decimal, mapping, Data, empty,
  more, all_hashable, set_of, has_type, all_have_type,
}
use auditspec.Core.Expression.Operators.{
  Op, not_, and_, or_, eq, neq, lt, lte, gt, gte, in_, contains as contains_, is_null, coalesce,
  if_then_else, add, sub, mul, count, sum, min, max, all_equal, unknown_op, is_scalar, is_boolean,
  is_integer, is_collection, is_optional, typed, boolean_type, integer_type, unary_type, elements,
  int_of, fold_ints, no_elements, extreme, unary,
}

-- A value of the type, or one of the two exceptions that typed operations raise: a list that would
-- go into a set, and the extreme of nothing.
abbrev pub Outcome : TypeNode → Result Datum → Type 0
Outcome t (ok d) = has_type d t ≡ true
Outcome t (err e) = (e ≡ unhashable) ⊎ (e ≡ no_elements)

pub is_scalar-eq : (name : String) (t : TypeNode) → is_scalar name t ≡ true → t ≡ scalar name
is_scalar-eq name (scalar s) h = ap scalar (≟→eq s name h)
is_scalar-eq name (optional t) h = cc
is_scalar-eq name (list t) h = cc
is_scalar-eq name (set t) h = cc
is_scalar-eq name (map k t) h = cc
is_scalar-eq name (record_of fs) h = cc

pub typed-eq-ok : (c : Bool) (u : TypeNode) {t : TypeNode} → typed c u ≡ ok t → (c ≡ true) × (u ≡ t)
typed-eq-ok true u h = (refl, ok-injective u _ h)
typed-eq-ok false u h = cc

pub integer-int_of : (d : Datum) → has_type d integer_type ≡ true → (n : ℤ) × (int_of d ≡ ok n)
unfolding has_type
integer-int_of (integer n) h = (n, refl)
integer-int_of nothing h = cc
integer-int_of (boolean b) h = cc
integer-int_of (text s) h = cc
integer-int_of (sequence ds) h = cc
integer-int_of (frozenset ds) h = cc
integer-int_of (bytes x) h = cc
integer-int_of (decimal x) h = cc
integer-int_of (mapping x) h = cc

-- The elements of a collection whose type has been checked.
pub record Elements (test : TypeNode → Bool) (d : Datum) : Type 0 where
  pub item : TypeNode
  pub data_ : Data
  pub passes : test item ≡ true
  pub read : elements d ≡ ok data_
  pub typed_ : all_have_type data_ item ≡ true

pub has_type-Elements :
    (test : TypeNode → Bool) (t : TypeNode) (d : Datum)
    → is_collection test t ≡ true
    → has_type d t ≡ true
    → Elements test d
unfolding has_type
has_type-Elements test (list item) (sequence ds) c h = record {
  item = item;
  data_ = ds;
  passes = c;
  read = refl;
  typed_ = h;
}
has_type-Elements test (set item) (frozenset ds) c h = record {
  item = item;
  data_ = ds;
  passes = c;
  read = refl;
  typed_ = h;
}
has_type-Elements test (list item) nothing c h = cc
has_type-Elements test (list item) (boolean x) c h = cc
has_type-Elements test (list item) (integer x) c h = cc
has_type-Elements test (list item) (text x) c h = cc
has_type-Elements test (list item) (frozenset x) c h = cc
has_type-Elements test (list item) (bytes x) c h = cc
has_type-Elements test (list item) (decimal x) c h = cc
has_type-Elements test (list item) (mapping x) c h = cc
has_type-Elements test (set item) nothing c h = cc
has_type-Elements test (set item) (boolean x) c h = cc
has_type-Elements test (set item) (integer x) c h = cc
has_type-Elements test (set item) (text x) c h = cc
has_type-Elements test (set item) (sequence x) c h = cc
has_type-Elements test (set item) (bytes x) c h = cc
has_type-Elements test (set item) (decimal x) c h = cc
has_type-Elements test (set item) (mapping x) c h = cc
has_type-Elements test (scalar name) d c h = cc
has_type-Elements test (optional t) d c h = cc
has_type-Elements test (map k t) d c h = cc
has_type-Elements test (record_of fs) d c h = cc

fold_ints-ok :
    (f : ℤ → ℤ → ℤ) (start : ℤ) (ds : Data)
    → all_have_type ds integer_type ≡ true
    → (n : ℤ) × (fold_ints f start ds ≡ ok n)
unfolding fold_ints has_type
fold_ints-ok f start empty h = (start, refl)
fold_ints-ok f start (more d ds) h =
    let (m, e) =
      integer-int_of d (&&-left (has_type d integer_type) (all_have_type ds integer_type) h) in
    let (n, g) =
      fold_ints-ok f (f start m) ds
        (&&-right (has_type d integer_type) (all_have_type ds integer_type) h) in
    (n, rw (e, g) refl)

extreme-Outcome :
    (f : ℤ → ℤ → ℤ) (ds : Data)
    → all_have_type ds integer_type ≡ true
    → Outcome integer_type (extreme f ds)
unfolding extreme has_type
extreme-Outcome f empty h = inr refl
extreme-Outcome f (more d ds) h =
    let (m, e) =
      integer-int_of d (&&-left (has_type d integer_type) (all_have_type ds integer_type) h) in
    let (n, g) =
      fold_ints-ok f m ds (&&-right (has_type d integer_type) (all_have_type ds integer_type) h) in
    rw (e, g) refl

pub Outcome-boolean : (b : Bool) → Outcome boolean_type (ok (boolean b))
unfolding has_type
Outcome-boolean b = refl

pub Outcome-integer : (n : ℤ) → Outcome integer_type (ok (integer n))
unfolding has_type
Outcome-integer n = refl

set_of-Outcome :
    (f : Data → Bool) (ds : Data) → Outcome boolean_type (set_of ds >>= λ x. ok (boolean (f x)))
unfolding set_of has_type
set_of-Outcome f ds = elim (Bool-cases (all_hashable ds)) [
  | inl h ↦ rw h refl
  | inr h ↦ rw h (inl refl)
]

is_null-Outcome : (d : Datum) → Outcome boolean_type (unary is_null d)
unfolding unary has_type
is_null-Outcome nothing = refl
is_null-Outcome (boolean b) = refl
is_null-Outcome (integer n) = refl
is_null-Outcome (text s) = refl
is_null-Outcome (sequence ds) = refl
is_null-Outcome (frozenset ds) = refl
is_null-Outcome (bytes x) = refl
is_null-Outcome (decimal x) = refl
is_null-Outcome (mapping x) = refl

is_int_items :
    (ds : Data) (item : TypeNode)
    → is_integer item ≡ true
    → all_have_type ds item ≡ true
    → all_have_type ds integer_type ≡ true
is_int_items ds item i h = subst (λ t. all_have_type ds t ≡ true) (is_scalar-eq "integer" item i) h

pub unary-Outcome :
    (op : Op) (a : TypeNode) (d : Datum) {t : TypeNode}
    → unary_type op a ≡ ok t
    → has_type d a ≡ true
    → Outcome t (unary op d)
unfolding unary_type unary
unary-Outcome not_ a d h k =
    subst (λ t. Outcome t (unary not_ d)) (typed-eq-ok (is_boolean a) boolean_type h).1
      (Outcome-boolean _)
unary-Outcome and_ a d h k =
    subst (λ t. Outcome t (unary and_ d)) (typed-eq-ok (is_boolean a) boolean_type h).1
      (Outcome-boolean _)
unary-Outcome or_ a d h k =
    subst (λ t. Outcome t (unary or_ d)) (typed-eq-ok (is_boolean a) boolean_type h).1
      (Outcome-boolean _)
unary-Outcome is_null a d h k =
    subst (λ t. Outcome t (unary is_null d))
      (typed-eq-ok (is_optional (λ item. true) a) boolean_type h).1 (is_null-Outcome d)
unary-Outcome count a d h k =
    let (c, e) = typed-eq-ok (is_collection (λ item. true) a) integer_type h in
    let l = has_type-Elements (λ item. true) a d c k in
    subst (λ t. Outcome t (unary count d)) e (rw l.read (Outcome-integer _))
unary-Outcome sum a d h k =
    let (c, e) = typed-eq-ok (is_collection is_integer a) integer_type h in
    let l = has_type-Elements is_integer a d c k in
    let (n, g) =
      fold_ints-ok (λ m n. m +ℤ n) (pos 0) l.data_
        (is_int_items l.data_ l.item l.passes l.typed_) in
    subst (λ t. Outcome t (unary sum d)) e (rw (l.read, g) (Outcome-integer n))
unary-Outcome min a d h k =
    let (c, e) = typed-eq-ok (is_collection is_integer a) integer_type h in
    let l = has_type-Elements is_integer a d c k in
    subst (λ t. Outcome t (unary min d)) e
      (rw l.read (extreme-Outcome _ l.data_ (is_int_items l.data_ l.item l.passes l.typed_)))
unary-Outcome max a d h k =
    let (c, e) = typed-eq-ok (is_collection is_integer a) integer_type h in
    let l = has_type-Elements is_integer a d c k in
    subst (λ t. Outcome t (unary max d)) e
      (rw l.read (extreme-Outcome _ l.data_ (is_int_items l.data_ l.item l.passes l.typed_)))
unary-Outcome all_equal a d h k =
    let (c, e) = typed-eq-ok (is_collection (λ item. true) a) boolean_type h in
    let l = has_type-Elements (λ item. true) a d c k in
    subst (λ t. Outcome t (unary all_equal d)) e (rw l.read (set_of-Outcome _ l.data_))
unary-Outcome eq a d h k = cc
unary-Outcome neq a d h k = cc
unary-Outcome lt a d h k = cc
unary-Outcome lte a d h k = cc
unary-Outcome gt a d h k = cc
unary-Outcome gte a d h k = cc
unary-Outcome in_ a d h k = cc
unary-Outcome contains_ a d h k = cc
unary-Outcome coalesce a d h k = cc
unary-Outcome if_then_else a d h k = cc
unary-Outcome add a d h k = cc
unary-Outcome sub a d h k = cc
unary-Outcome mul a d h k = cc
unary-Outcome (unknown_op name) a d h k = cc
