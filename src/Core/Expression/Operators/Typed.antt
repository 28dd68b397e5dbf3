-- ===== src/Core/Expression/Operators/Typed.antt =====
-- The type of an operator's result.
use mathlib.Core.Path.{subst}
use auditspec.Prelude.{
  Bool, true, false, ◌&&◌, List, [], ◌∷◌, every, ◌≡◌, inl, inr, ◌∙◌, &&-left, &&-right, Bool-cases,
  if◌then◌else◌,
}
use auditspec.Prelude.Result.{ok}
use auditspec.Core.Wire.{TypeNode}
use auditspec.Core.Expression.Datum.{Datum, is_true, has_type}
use auditspec.Core.Expression.Operators.{
  Op, not_, and_, or_, eq, neq, lt, lte, gt, gte, in_, contains as contains_, is_null, coalesce,
  if_then_else, add, sub, mul, count, sum, min, max, all_equal, unknown_op, same_type, is_boolean,
  boolean_type, many_type, operator_type, many, all_true, any_true, apply_operator,
}
use auditspec.Core.Expression.Operators.Equality.{same_type-has_type}
use auditspec.Core.Expression.Operators.Sound.{Outcome, Outcome-boolean, typed-eq-ok, unary-Outcome}
use auditspec.Core.Expression.Operators.Pairs.{binary-Outcome}

-- Values of the types, one for each.
unfoldable pub have_types : List Datum → List TypeNode → Bool
unfolding has_type
have_types [] [] = true
have_types (d ∷ ds) (t ∷ ts) = has_type d t && have_types ds ts
have_types _ _ = false

-- The branches of `many_type` and `many` for a conditional.
if_then_else-has_type :
    (c a b : TypeNode) (x y z : Datum)
    → same_type a b ≡ true
    → has_type y a ≡ true
    → has_type z b ≡ true
    → has_type (if is_true x then y else z) a ≡ true
if_then_else-has_type c a b x y z s h k = elim (Bool-cases (is_true x)) [
  | inl i ↦ rw i h
  | inr i ↦ rw i (same_type-has_type a b z s ∙ k)
]

many-Outcome :
    (op : Op) (a b c : TypeNode) (ts : List TypeNode) (x y z : Datum) (ds : List Datum)
    {t : TypeNode}
    → many_type op (a ∷ b ∷ c ∷ ts) ≡ ok t
    → have_types (x ∷ y ∷ z ∷ ds) (a ∷ b ∷ c ∷ ts) ≡ true
    → Outcome t (many op (x ∷ y ∷ z ∷ ds))
unfolding many_type many have_types
many-Outcome and_ a b c ts x y z ds g h =
    let (v, p) = typed-eq-ok (every is_boolean (a ∷ b ∷ c ∷ ts)) boolean_type g in
    subst (λ t. Outcome t (many and_ (x ∷ y ∷ z ∷ ds))) p
      (Outcome-boolean (all_true (x ∷ y ∷ z ∷ ds)))
many-Outcome or_ a b c ts x y z ds g h =
    let (v, p) = typed-eq-ok (every is_boolean (a ∷ b ∷ c ∷ ts)) boolean_type g in
    subst (λ t. Outcome t (many or_ (x ∷ y ∷ z ∷ ds))) p
      (Outcome-boolean (any_true (x ∷ y ∷ z ∷ ds)))
many-Outcome if_then_else a b c [] x y z [] g h =
    let (v, p) = typed-eq-ok (is_boolean a && same_type b c) b g in
    let k = &&-right (has_type x a) (has_type y b && (has_type z c && true)) h in
    let l = &&-right (has_type y b) (has_type z c && true) k in
    subst (λ t. Outcome t (many if_then_else (x ∷ y ∷ z ∷ []))) p
      (if_then_else-has_type a b c x y z (&&-right (is_boolean a) (same_type b c) v)
        (&&-left (has_type y b) (has_type z c && true) k) (&&-left (has_type z c) true l))
many-Outcome if_then_else a b c [] x y z (d ∷ ds) g h = cc (
    &&-right (has_type z c) false (
      &&-right (has_type y b) (has_type z c && false)
        (&&-right (has_type x a) (has_type y b && (has_type z c && false)) h)))
many-Outcome if_then_else a b c (t ∷ ts) x y z ds g h = cc
many-Outcome not_ a b c ts x y z ds g h = cc
many-Outcome eq a b c ts x y z ds g h = cc
many-Outcome neq a b c ts x y z ds g h = cc
many-Outcome lt a b c ts x y z ds g h = cc
many-Outcome lte a b c ts x y z ds g h = cc
many-Outcome gt a b c ts x y z ds g h = cc
many-Outcome gte a b c ts x y z ds g h = cc
many-Outcome in_ a b c ts x y z ds g h = cc
many-Outcome contains_ a b c ts x y z ds g h = cc
many-Outcome is_null a b c ts x y z ds g h = cc
many-Outcome coalesce a b c ts x y z ds g h = cc
many-Outcome add a b c ts x y z ds g h = cc
many-Outcome sub a b c ts x y z ds g h = cc
many-Outcome mul a b c ts x y z ds g h = cc
many-Outcome count a b c ts x y z ds g h = cc
many-Outcome sum a b c ts x y z ds g h = cc
many-Outcome min a b c ts x y z ds g h = cc
many-Outcome max a b c ts x y z ds g h = cc
many-Outcome all_equal a b c ts x y z ds g h = cc
many-Outcome (unknown_op name) a b c ts x y z ds g h = cc

-- If an operator accepts a list of argument types, then, on any values of these types, applying it
-- gives a value of the type that the operator's signature names, or it raises one of two exceptions:
-- a list is asked to be hashed, or the least or the greatest element of an empty collection is taken.
pub apply_operator-Outcome :
    (op : Op) (ts : List TypeNode) (ds : List Datum) {t : TypeNode}
    → operator_type op ts ≡ ok t
    → have_types ds ts ≡ true
    → Outcome t (apply_operator op ds)
unfolding operator_type apply_operator have_types
apply_operator-Outcome op [] ds g h = cc
apply_operator-Outcome op (a ∷ []) (d ∷ []) g h =
    unary-Outcome op a d g (&&-left (has_type d a) true h)
apply_operator-Outcome op (a ∷ b ∷ []) (d ∷ e ∷ []) g h =
    binary-Outcome op a b d e g (&&-left (has_type d a) (has_type e b && true) h)
      (&&-left (has_type e b) true (&&-right (has_type d a) (has_type e b && true) h))
apply_operator-Outcome op (a ∷ b ∷ c ∷ ts) (x ∷ y ∷ z ∷ ds) g h =
    many-Outcome op a b c ts x y z ds g h
apply_operator-Outcome op (a ∷ []) [] g h = cc
apply_operator-Outcome op (a ∷ []) (d ∷ e ∷ ds) g h = cc (&&-right (has_type d a) false h)
apply_operator-Outcome op (a ∷ b ∷ []) [] g h = cc
apply_operator-Outcome op (a ∷ b ∷ []) (d ∷ []) g h = cc (&&-right (has_type d a) false h)
apply_operator-Outcome op (a ∷ b ∷ []) (d ∷ e ∷ f ∷ ds) g h =
    cc (&&-right (has_type e b) false (&&-right (has_type d a) (has_type e b && false) h))
apply_operator-Outcome op (a ∷ b ∷ c ∷ ts) [] g h = cc
apply_operator-Outcome op (a ∷ b ∷ c ∷ ts) (d ∷ []) g h = cc (&&-right (has_type d a) false h)
apply_operator-Outcome op (a ∷ b ∷ c ∷ ts) (d ∷ e ∷ []) g h =
    cc (&&-right (has_type e b) false (&&-right (has_type d a) (has_type e b && false) h))
