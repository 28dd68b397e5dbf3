-- ===== src/Core/Wire/Decimal/Sum.antt =====
-- What ExactDecimal.__add__ returns.
use auditspec.Prelude.{
  ℕ, zero, suc, ◌+◌, ◌-◌, ◌*◌, ◌^◌, Bool, true, false, ◌&&◌, ◌≡◌, inl, inr, refl, sym, ◌∙◌, ap,
  arith, Bool-cases, leb,
}
use auditspec.Prelude.Int.{ℤ, pos, ◌+ℤ◌, ◌*ℤ◌, abs_ℤ}
use auditspec.Prelude.Result.{Result, ok, err}
use auditspec.Core.Canonical.{ijson_max}
use auditspec.Core.Wire.Decimal.{
  ExactDecimal, out_of_range, require_int, require_natural, is_normal, exact_decimal, reduce,
  scaled, max_ℕ, decimal_sum,
}
use auditspec.Core.Wire.Decimal.Reduced.{Reduces, reduce-Reduces, power_suc, scale_twice, scale_sum}

power_sum : (x y : ℕ) → 10 ^ x * 10 ^ y ≡ 10 ^ (x + y)
power_sum zero y =
    let k : 1 * 10 ^ y ≡ 10 ^ y = omega arith in
    let l : y ≡ 0 + y = omega arith in k ∙ ap (λ n. 10 ^ n) l
power_sum (suc x) y =
    let m : 10 * 10 ^ x * 10 ^ y ≡ 10 * (10 ^ x * 10 ^ y) = omega arith in
    let l : suc (x + y) ≡ suc x + y = omega arith in
    ap (λ z. z * 10 ^ y) (power_suc x)
    ∙ m
    ∙ ap (λ z. 10 * z) (power_sum x y)
    ∙ sym (power_suc (x + y))
    ∙ ap (λ n. 10 ^ n) l

pub scale_by :
    (c : ℤ) (x y z : ℕ) → x + y ≡ z → (c *ℤ pos (10 ^ x)) *ℤ pos (10 ^ y) ≡ c *ℤ pos (10 ^ z)
scale_by c x y z h =
    scale_twice c (10 ^ x) (10 ^ y)
    ∙ ap (λ q. c *ℤ pos q) (power_sum x y)
    ∙ ap (λ n. c *ℤ pos (10 ^ n)) h

-- A normal form of a + b: their fractions have the sum of the fractions as its value.
pub record IsSum (a b d : ExactDecimal) : Type 0 where
  fraction_eq :
      d.coefficient *ℤ pos (10 ^ (a.scale + b.scale))
      ≡ (a.coefficient *ℤ pos (10 ^ b.scale) +ℤ b.coefficient *ℤ pos (10 ^ a.scale))
        *ℤ pos (10 ^ d.scale)
  normal : is_normal d ≡ true

Reduces-IsSum :
    (a b d : ExactDecimal) (s t : ℕ)
    → s ≡ max_ℕ a.scale b.scale
    → t ≡ a.scale + b.scale - s
    → Reduces (scaled a s +ℤ scaled b s) s d
    → IsSum a b d
Reduces-IsSum a b d s t e f r =
    let x = scaled a s in
    let y = scaled b s in
    let ha : s - a.scale + t ≡ b.scale = ground arith in
    let hb : s - b.scale + t ≡ a.scale = ground arith in
    let h = r.scale_eq in
    let hd : r.digits + (t + d.scale) ≡ a.scale + b.scale = ground arith in
    let rise : x *ℤ pos (10 ^ t) +ℤ y *ℤ pos (10 ^ t)
        ≡ a.coefficient *ℤ pos (10 ^ b.scale) +ℤ b.coefficient *ℤ pos (10 ^ a.scale) =
      rw
        (
          scale_by a.coefficient (s - a.scale) t b.scale ha,
          scale_by b.coefficient (s - b.scale) t a.scale hb,
        )
        refl in
    record {
      normal = r.normal;
      fraction_eq =
          sym (scale_by d.coefficient r.digits (t + d.scale) (a.scale + b.scale) hd)
          ∙ ap (λ n. n *ℤ pos (10 ^ (t + d.scale))) (sym r.coefficient_eq)
          ∙ sym (scale_by (x +ℤ y) t d.scale (t + d.scale) refl)
          ∙ ap (λ n. n *ℤ pos (10 ^ d.scale)) (scale_sum x y (10 ^ t) ∙ rise);
    }

-- `coefficient` and `scale` are in the range of require_int.
abbrev pub is_representable : ExactDecimal → Bool
is_representable d = leb (abs_ℤ d.coefficient) ijson_max && leb d.scale ijson_max

unfoldable pub SumVerdict : ExactDecimal → ExactDecimal → Result ExactDecimal → Type 0
SumVerdict a b (ok d) = IsSum a b d × (is_representable d ≡ true)
SumVerdict a b (err e) =
    (e ≡ out_of_range) × (d : ExactDecimal) × IsSum a b d × (is_representable d ≡ false)

exact_decimal-verdict :
    (a b d : ExactDecimal)
    → IsSum a b d
    → SumVerdict a b (exact_decimal d.coefficient (pos d.scale))
unfolding exact_decimal require_int require_natural SumVerdict
exact_decimal-verdict a b d s = elim (Bool-cases (leb (abs_ℤ d.coefficient) ijson_max)) [
  | inl c ↦ elim (Bool-cases (leb d.scale ijson_max)) [
    | inl n ↦ rw (c, n, s.normal) (s, rw (c, n) refl)
    | inr n ↦ rw (c, n) (refl, d, s, rw (c, n) refl)
  ]
  | inr c ↦ rw c (refl, d, s, rw c refl)
]

-- The sum of two decimals is the normal form of the sum of their fractions, if its coefficient and
-- its scale are in the range of a wire integer, and else there is such a normal form outside that
-- range and the range error is raised; the error for a decimal that is not normalized never is.
pub decimal_sum-SumVerdict : (a b : ExactDecimal) → SumVerdict a b (decimal_sum a b)
unfolding decimal_sum
decimal_sum-SumVerdict a b =
    let s = max_ℕ a.scale b.scale in
    let r = reduce (scaled a s +ℤ scaled b s) s in
    exact_decimal-verdict a b r (
      Reduces-IsSum a b r s (a.scale + b.scale - s) refl refl
        (reduce-Reduces (scaled a s +ℤ scaled b s) s))
