-- ===== src/Core/Wire/Decimal/Reduced.antt =====
-- The normal form of a decimal.
use mathlib.Core.Path.{subst}
use auditspec.Prelude.{
  ℕ, zero, suc, ◌+◌, ◌*◌, ◌^◌, true, false, ◌≡◌, inl, inr, refl, sym, ◌∙◌, ap, arith, Bool-cases,
  ◌==◌,
}
use auditspec.Prelude.Int.{ℤ, pos, negsuc, pos_part, neg_part, sub_ℕ, ◌+ℤ◌, ◌*ℤ◌}
use auditspec.Core.Wire.Decimal.{ExactDecimal, mod_ten, div_ten, is_normal, reduce}

times_ten : (c : ℤ) → (mod_ten c == 0) ≡ true → c ≡ div_ten c *ℤ pos 10
times_ten (pos n) h = ground arith
times_ten (negsuc n) h = ground arith

scale_ten : (d : ℤ) (q : ℕ) → (d *ℤ pos q) *ℤ pos 10 ≡ d *ℤ pos (10 * q)
scale_ten (pos n) q = ground arith
scale_ten (negsuc n) q = ground arith

scale_one : (d : ℤ) → d ≡ d *ℤ pos 1
scale_one (pos n) = ground arith
scale_one (negsuc n) = ground arith

pub power_suc : (k : ℕ) → 10 ^ suc k ≡ 10 * 10 ^ k
power_suc k = ground arith

-- The same number as c / 10 ** scale, in normal form.
pub record Reduces (c : ℤ) (scale : ℕ) (d : ExactDecimal) : Type 0 where
  pub digits : ℕ
  pub scale_eq : scale ≡ d.scale + digits
  pub coefficient_eq : c ≡ d.coefficient *ℤ pos (10 ^ digits)
  pub normal : is_normal d ≡ true

reduce_on :
    (c : ℤ) (scale : ℕ) → (mod_ten c == 0) ≡ true → reduce c (suc scale) ≡ reduce (div_ten c) scale
unfolding reduce
reduce_on c scale h = rw h refl

reduce_done :
    (c : ℤ) (scale : ℕ)
    → (mod_ten c == 0) ≡ false
    → reduce c (suc scale) ≡ record { coefficient = c; scale = suc scale }
unfolding reduce
reduce_done c scale h = rw h refl

Reduces-again :
    (c : ℤ) (scale : ℕ) (d : ExactDecimal)
    → (mod_ten c == 0) ≡ true
    → Reduces (div_ten c) scale d
    → Reduces c (suc scale) d
Reduces-again c scale d h r = record {
  digits = suc r.digits;
  scale_eq = grind arith;
  coefficient_eq =
      times_ten c h
      ∙ ap (λ x. x *ℤ pos 10) r.coefficient_eq
      ∙ scale_ten d.coefficient (10 ^ r.digits)
      ∙ ap (λ q. d.coefficient *ℤ pos q) (sym (power_suc r.digits));
  normal = r.normal;
}

arith_zero : (n : ℕ) → suc n ≡ suc n + 0
arith_zero n = omega arith

Reduces-now :
    (c : ℤ) (scale : ℕ)
    → (mod_ten c == 0) ≡ false
    → Reduces c (suc scale) (record { coefficient = c; scale = suc scale })
Reduces-now c scale h = record {
  digits = 0;
  scale_eq = arith_zero scale;
  coefficient_eq = scale_one c;
  normal = ground arith;
}

pub reduce-Reduces : (c : ℤ) (scale : ℕ) → Reduces c scale (reduce c scale)
unfolding reduce
reduce-Reduces c zero = record {
  digits = 0;
  scale_eq = refl;
  coefficient_eq = scale_one c;
  normal = refl;
}
reduce-Reduces c (suc scale) = elim (Bool-cases (mod_ten c == 0)) [
  | inl h ↦
      subst (λ d. Reduces c (suc scale) d) (sym (reduce_on c scale h))
        (Reduces-again c scale (reduce (div_ten c) scale) h (reduce-Reduces (div_ten c) scale))
  | inr h ↦
      subst (λ d. Reduces c (suc scale) d) (sym (reduce_done c scale h)) (Reduces-now c scale h)
]

-- Sums and products of integers by their parts.
parts_sub : (a b : ℕ) → pos_part (sub_ℕ a b) + b ≡ a + neg_part (sub_ℕ a b)
parts_sub a b = ground arith

sub_eq : (a b c d : ℕ) → a + d ≡ c + b → sub_ℕ a b ≡ sub_ℕ c d
sub_eq a b c d h = ground arith

times_right : (a b c d q : ℕ) → a + b ≡ c + d → a * q + b * q ≡ c * q + d * q
times_right a b c d q h = let k = ap (λ x. x * q) h in omega arith

pub parts_times :
    (d : ℤ) (p : ℕ)
    → pos_part (d *ℤ pos p) + neg_part d * p ≡ pos_part d * p + neg_part (d *ℤ pos p)
parts_times d p =
    let k = parts_sub (pos_part d * p + neg_part d * 0) (pos_part d * 0 + neg_part d * p) in
    omega arith

pub scale_twice : (d : ℤ) (p q : ℕ) → (d *ℤ pos p) *ℤ pos q ≡ d *ℤ pos (p * q)
scale_twice d p q =
    let x = d *ℤ pos p in
    let k =
      times_right (pos_part x) (neg_part d * p) (pos_part d * p) (neg_part x) q (parts_times d p) in
    sub_eq (pos_part x * q + neg_part x * 0) (pos_part x * 0 + neg_part x * q)
      (pos_part d * (p * q) + neg_part d * 0) (pos_part d * 0 + neg_part d * (p * q)) (omega arith)

pub scale_sum : (c d : ℤ) (p : ℕ) → (c +ℤ d) *ℤ pos p ≡ c *ℤ pos p +ℤ d *ℤ pos p
scale_sum c d p =
    let x = c +ℤ d in
    let k =
      times_right (pos_part x) (neg_part c + neg_part d) (pos_part c + pos_part d) (neg_part x) p
        (parts_sub (pos_part c + pos_part d) (neg_part c + neg_part d)) in
    let l = parts_times c p in
    let m = parts_times d p in
    sub_eq (pos_part x * p + neg_part x * 0) (pos_part x * 0 + neg_part x * p)
      (pos_part (c *ℤ pos p) + pos_part (d *ℤ pos p))
      (neg_part (c *ℤ pos p) + neg_part (d *ℤ pos p)) (omega arith)
