-- ===== src/Core/Expression/Operators/Pairs.antt =====
-- Operators of two arguments.
use mathlib.Core.Path.{subst}
use auditspec.Prelude.{
  String, Bool, true, false, not, ◌&&◌, ◌||◌, ◌≡◌, ◌⊎◌, inl, inr, refl, sym, ◌∙◌, ap, &&-left,
  &&-right, Bool-cases,
}
use auditspec.Prelude.Int.{ℤ, ◌+ℤ◌, ◌-ℤ◌, ◌*ℤ◌, leb_ℤ}
use auditspec.Prelude.Text.{◌≟◌, ≟→eq, text_le}
use auditspec.Prelude.Result.{Result, ok, ◌>>=◌}
use auditspec.Core.Wire.{TypeNode, scalar, optional, list, set, map, record_of}
use auditspec.Core.Expression.Datum.{
  Datum, nothing, boolean, integer, text, sequence, frozenset, bytes, decimal, mapping, is_hashable,
  has_type,
}
use auditspec.Core.Expression.Operators.{
  Op, not_, and_, or_, eq, neq, lt, lte, gt, gte, in_, contains as contains_, is_null, coalesce,
  if_then_else, add, sub, mul, count, sum, min, max, all_equal, unknown_op, same_type, is_boolean,
  is_integer, is_collection, is_optional, is_ordered, is_hashable_type, ordered_type, boolean_type,
  integer_type, binary_type, member_of, at_most, arithmetic, binary, or_else,
}
use auditspec.Core.Expression.Operators.Equality.{same_type-has_type}
use auditspec.Core.Expression.Operators.Sound.{
  Outcome, Outcome-boolean, Outcome-integer, is_scalar-eq, typed-eq-ok, integer-int_of,
}

string_type : TypeNode
string_type = scalar "string"

scalar-same_type : (s : String) (b : TypeNode) → same_type (scalar s) b ≡ true → scalar s ≡ b
unfolding same_type
scalar-same_type s (scalar t) h = ap scalar (≟→eq s t h)
scalar-same_type s (optional t) h = cc
scalar-same_type s (list t) h = cc
scalar-same_type s (set t) h = cc
scalar-same_type s (map k t) h = cc
scalar-same_type s (record_of fs) h = cc

integer-value : (d : Datum) → has_type d integer_type ≡ true → (n : ℤ) × (d ≡ integer n)
unfolding has_type
integer-value (integer n) h = (n, refl)
integer-value nothing h = cc
integer-value (boolean b) h = cc
integer-value (text s) h = cc
integer-value (sequence ds) h = cc
integer-value (frozenset ds) h = cc
integer-value (bytes x) h = cc
integer-value (decimal x) h = cc
integer-value (mapping x) h = cc

text-value : (d : Datum) → has_type d (scalar "string") ≡ true → (s : String) × (d ≡ text s)
unfolding has_type
text-value (text s) h = (s, refl)
text-value nothing h = cc
text-value (boolean b) h = cc
text-value (integer n) h = cc
text-value (sequence ds) h = cc
text-value (frozenset ds) h = cc
text-value (bytes x) h = cc
text-value (decimal x) h = cc
text-value (mapping x) h = cc

integer-at_most :
    (d e : Datum)
    → has_type d integer_type ≡ true
    → has_type e integer_type ≡ true
    → (x : Bool) × (at_most d e ≡ ok x)
unfolding at_most
integer-at_most d e h k =
    let (m, p) = integer-value d h in let (n, q) = integer-value e k in (leb_ℤ m n, rw (p, q) refl)

text-at_most :
    (d e : Datum)
    → has_type d (scalar "string") ≡ true
    → has_type e (scalar "string") ≡ true
    → (x : Bool) × (at_most d e ≡ ok x)
unfolding at_most
text-at_most d e h k =
    let (m, p) = text-value d h in let (n, q) = text-value e k in (text_le m n, rw (p, q) refl)

-- Both values of an ordered pair of types are of one of the two types that have an order.
record Ordered (d e : Datum) : Type 0 where
  forth : (x : Bool) × (at_most d e ≡ ok x)
  back : (x : Bool) × (at_most e d ≡ ok x)

||-cases : (a b : Bool) → (a || b) ≡ true → (a ≡ true) ⊎ (b ≡ true)
||-cases true b h = inl refl
||-cases false b h = inr h

scalar-Ordered :
    (s : String) (b : TypeNode) (d e : Datum)
    → same_type (scalar s) b ≡ true
    → (s ≟ "integer" || s ≟ "string") ≡ true
    → has_type d (scalar s) ≡ true
    → has_type e b ≡ true
    → Ordered d e
scalar-Ordered s b d e p q h k =
    let l = same_type-has_type (scalar s) b e p ∙ k in
    elim (||-cases (s ≟ "integer") (s ≟ "string") q) [
      | inl i ↦
          (let u = ≟→eq s "integer" i in
            let x = subst (λ v. has_type d (scalar v) ≡ true) u h in
            let y = subst (λ v. has_type e (scalar v) ≡ true) u l in
            record { forth = integer-at_most d e x y; back = integer-at_most e d y x })
      | inr i ↦
          (let u = ≟→eq s "string" i in
            let x = subst (λ v. has_type d (scalar v) ≡ true) u h in
            let y = subst (λ v. has_type e (scalar v) ≡ true) u l in
            record { forth = text-at_most d e x y; back = text-at_most e d y x })
    ]

is_ordered-Ordered :
    (a b : TypeNode) (d e : Datum)
    → is_ordered a b ≡ true
    → has_type d a ≡ true
    → has_type e b ≡ true
    → Ordered d e
unfolding is_ordered
is_ordered-Ordered (scalar s) b d e o h k =
    scalar-Ordered s b d e (&&-left (same_type (scalar s) b) (s ≟ "integer" || s ≟ "string") o)
      (&&-right (same_type (scalar s) b) (s ≟ "integer" || s ≟ "string") o) h k
is_ordered-Ordered (optional a) b d e o h k = cc (&&-right (same_type (optional a) b) false o)
is_ordered-Ordered (list a) b d e o h k = cc (&&-right (same_type (list a) b) false o)
is_ordered-Ordered (set a) b d e o h k = cc (&&-right (same_type (set a) b) false o)
is_ordered-Ordered (map c a) b d e o h k = cc (&&-right (same_type (map c a) b) false o)
is_ordered-Ordered (record_of fs) b d e o h k = cc (&&-right (same_type (record_of fs) b) false o)

ordered_type-eq-ok :
    (a b : TypeNode) {t : TypeNode}
    → ordered_type a b ≡ ok t
    → (is_ordered a b ≡ true) × (boolean_type ≡ t)
unfolding ordered_type
ordered_type-eq-ok a b g = elim (Bool-cases (same_type a b && not (is_hashable_type a))) [
  | inl u ↦ cc (rw u at g)
  | inr f ↦ typed-eq-ok (is_ordered a b) boolean_type (rw f at g)
]

bound-boolean :
    (r : Result Bool) (f : Bool → Bool)
    → (x : Bool) × (r ≡ ok x)
    → Outcome boolean_type (r >>= λ le. ok (boolean (f le)))
bound-boolean r f (x, p) = rw p (Outcome-boolean (f x))

member_of-Outcome :
    (test : TypeNode → Bool) (t : TypeNode) (d e : Datum)
    → is_collection test t ≡ true
    → has_type e t ≡ true
    → Outcome boolean_type (member_of d e)
unfolding member_of has_type
member_of-Outcome test (list item) d (sequence ds) c h = refl
member_of-Outcome test (set item) d (frozenset ds) c h = elim (Bool-cases (is_hashable d)) [
  | inl i ↦ rw i refl
  | inr i ↦ rw i (inl refl)
]
member_of-Outcome test (list item) d nothing c h = cc
member_of-Outcome test (list item) d (boolean x) c h = cc
member_of-Outcome test (list item) d (integer x) c h = cc
member_of-Outcome test (list item) d (text x) c h = cc
member_of-Outcome test (list item) d (frozenset x) c h = cc
member_of-Outcome test (list item) d (bytes x) c h = cc
member_of-Outcome test (list item) d (decimal x) c h = cc
member_of-Outcome test (list item) d (mapping x) c h = cc
member_of-Outcome test (set item) d nothing c h = cc
member_of-Outcome test (set item) d (boolean x) c h = cc
member_of-Outcome test (set item) d (integer x) c h = cc
member_of-Outcome test (set item) d (text x) c h = cc
member_of-Outcome test (set item) d (sequence x) c h = cc
member_of-Outcome test (set item) d (bytes x) c h = cc
member_of-Outcome test (set item) d (decimal x) c h = cc
member_of-Outcome test (set item) d (mapping x) c h = cc
member_of-Outcome test (scalar name) d e c h = cc
member_of-Outcome test (optional t) d e c h = cc
member_of-Outcome test (map k t) d e c h = cc
member_of-Outcome test (record_of fs) d e c h = cc

or_else-has_type :
    (a b : TypeNode) (d e : Datum)
    → is_optional (λ item. same_type item b) a ≡ true
    → has_type d a ≡ true
    → has_type e b ≡ true
    → has_type (or_else d e) b ≡ true
unfolding has_type
or_else-has_type (optional a) b nothing e c h k = k
or_else-has_type (optional a) b (boolean x) e c h k = sym (same_type-has_type a b (boolean x) c) ∙ h
or_else-has_type (optional a) b (integer x) e c h k = sym (same_type-has_type a b (integer x) c) ∙ h
or_else-has_type (optional a) b (text x) e c h k = sym (same_type-has_type a b (text x) c) ∙ h
or_else-has_type (optional a) b (sequence x) e c h k =
    sym (same_type-has_type a b (sequence x) c) ∙ h
or_else-has_type (optional a) b (frozenset x) e c h k =
    sym (same_type-has_type a b (frozenset x) c) ∙ h
or_else-has_type (optional a) b (bytes x) e c h k = sym (same_type-has_type a b (bytes x) c) ∙ h
or_else-has_type (optional a) b (decimal x) e c h k = sym (same_type-has_type a b (decimal x) c) ∙ h
or_else-has_type (optional a) b (mapping x) e c h k = sym (same_type-has_type a b (mapping x) c) ∙ h
or_else-has_type (list a) b d e c h k = cc
or_else-has_type (set a) b d e c h k = cc
or_else-has_type (scalar a) b d e c h k = cc
or_else-has_type (map j a) b d e c h k = cc
or_else-has_type (record_of a) b d e c h k = cc

arithmetic-Outcome :
    (f : ℤ → ℤ → ℤ) (a b : TypeNode) (d e : Datum)
    → (is_integer a && is_integer b) ≡ true
    → has_type d a ≡ true
    → has_type e b ≡ true
    → Outcome integer_type (arithmetic f d e)
unfolding arithmetic
arithmetic-Outcome f a b d e c h k =
    let (m, p) = integer-int_of d (
      subst (λ t. has_type d t ≡ true)
        (is_scalar-eq "integer" a (&&-left (is_integer a) (is_integer b) c)) h) in
    let (n, q) = integer-int_of e (
      subst (λ t. has_type e t ≡ true)
        (is_scalar-eq "integer" b (&&-right (is_integer a) (is_integer b) c)) k) in
    rw (p, q) (Outcome-integer (f m n))

pub binary-Outcome :
    (op : Op) (a b : TypeNode) (d e : Datum) {t : TypeNode}
    → binary_type op a b ≡ ok t
    → has_type d a ≡ true
    → has_type e b ≡ true
    → Outcome t (binary op d e)
unfolding binary_type binary
binary-Outcome and_ a b d e g h k =
    let (c, p) = typed-eq-ok (is_boolean a && is_boolean b) boolean_type g in
    subst (λ t. Outcome t (binary and_ d e)) p (Outcome-boolean _)
binary-Outcome or_ a b d e g h k =
    let (c, p) = typed-eq-ok (is_boolean a && is_boolean b) boolean_type g in
    subst (λ t. Outcome t (binary or_ d e)) p (Outcome-boolean _)
binary-Outcome eq a b d e g h k =
    let (c, p) = typed-eq-ok (same_type a b) boolean_type g in
    subst (λ t. Outcome t (binary eq d e)) p (Outcome-boolean _)
binary-Outcome neq a b d e g h k =
    let (c, p) = typed-eq-ok (same_type a b) boolean_type g in
    subst (λ t. Outcome t (binary neq d e)) p (Outcome-boolean _)
binary-Outcome lt a b d e g h k =
    let (c, p) = ordered_type-eq-ok a b g in
    subst (λ t. Outcome t (binary lt d e)) p
      (bound-boolean (at_most e d) (λ le. not le) (is_ordered-Ordered a b d e c h k).back)
binary-Outcome lte a b d e g h k =
    let (c, p) = ordered_type-eq-ok a b g in
    subst (λ t. Outcome t (binary lte d e)) p
      (bound-boolean (at_most d e) (λ le. le) (is_ordered-Ordered a b d e c h k).forth)
binary-Outcome gt a b d e g h k =
    let (c, p) = ordered_type-eq-ok a b g in
    subst (λ t. Outcome t (binary gt d e)) p
      (bound-boolean (at_most d e) (λ le. not le) (is_ordered-Ordered a b d e c h k).forth)
binary-Outcome gte a b d e g h k =
    let (c, p) = ordered_type-eq-ok a b g in
    subst (λ t. Outcome t (binary gte d e)) p
      (bound-boolean (at_most e d) (λ le. le) (is_ordered-Ordered a b d e c h k).back)
binary-Outcome in_ a b d e g h k =
    let (c, p) = typed-eq-ok (is_collection (λ item. same_type item a) b) boolean_type g in
    subst (λ t. Outcome t (binary in_ d e)) p
      (member_of-Outcome (λ item. same_type item a) b d e c k)
binary-Outcome contains_ a b d e g h k =
    let (c, p) = typed-eq-ok (is_collection (λ item. same_type item b) a) boolean_type g in
    subst (λ t. Outcome t (binary contains_ d e)) p
      (member_of-Outcome (λ item. same_type item b) a e d c h)
binary-Outcome coalesce a b d e g h k =
    let (c, p) = typed-eq-ok (is_optional (λ item. same_type item b) a) b g in
    subst (λ t. Outcome t (binary coalesce d e)) p (or_else-has_type a b d e c h k)
binary-Outcome add a b d e g h k =
    let (c, p) = typed-eq-ok (is_integer a && is_integer b) integer_type g in
    subst (λ t. Outcome t (binary add d e)) p (arithmetic-Outcome (λ m n. m +ℤ n) a b d e c h k)
binary-Outcome sub a b d e g h k =
    let (c, p) = typed-eq-ok (is_integer a && is_integer b) integer_type g in
    subst (λ t. Outcome t (binary sub d e)) p (arithmetic-Outcome (λ m n. m -ℤ n) a b d e c h k)
binary-Outcome mul a b d e g h k =
    let (c, p) = typed-eq-ok (is_integer a && is_integer b) integer_type g in
    subst (λ t. Outcome t (binary mul d e)) p (arithmetic-Outcome (λ m n. m *ℤ n) a b d e c h k)
binary-Outcome not_ a b d e g h k = cc
binary-Outcome is_null a b d e g h k = cc
binary-Outcome if_then_else a b d e g h k = cc
binary-Outcome count a b d e g h k = cc
binary-Outcome sum a b d e g h k = cc
binary-Outcome min a b d e g h k = cc
binary-Outcome max a b d e g h k = cc
binary-Outcome all_equal a b d e g h k = cc
binary-Outcome (unknown_op name) a b d e g h k = cc
