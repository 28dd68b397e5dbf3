-- ===== src/Core/Wire/Decimal/Unique.antt =====
-- Which decimals are equal, and their wire form.
use native.Mathlib.Nat.{mul-div_cancel, one-le-pow}
use mathlib.Core.Path.{subst}
use auditspec.Prelude.{
  ℕ, suc, ◌+◌, ◌-◌, ◌*◌, ◌/◌, ◌^◌, ◌<◌, Bool, true, false, ◌≡◌, inl, inr, refl, sym, ◌∙◌, ap, arith,
  Bool-cases, &&-left, &&-right, leb, ltb, ◌==◌, if◌then◌else◌,
}
use auditspec.Prelude.Int.{ℤ, pos, negsuc, pos_part, neg_part, ◌*ℤ◌, ==ℤ→eq, abs_ℤ}
use auditspec.Prelude.Result.{ok, err, Error, wire_error, >>=-eq-ok, require-eq-ok, ok-injective}
use auditspec.Core.Canonical.{ijson_max}
use auditspec.Core.Value.{get, keys}
use auditspec.Core.Wire.{require_exact_keys}
use auditspec.Core.Wire.Decimal.{
  ExactDecimal, mod_ten, out_of_range, require_int, require_natural, is_normal, exact_decimal,
  same_fraction, decimal_to_wire, decimal_from_wire,
}
use auditspec.Core.Wire.Decimal.Reduced.{power_suc, parts_times}
use auditspec.Core.Wire.Decimal.Sum.{scale_by, is_representable}

cancel_ℕ : (a b q : ℕ) → 0 < q → a * q ≡ b * q → a ≡ b
cancel_ℕ a b q z h = sym (mul-div_cancel a z) ∙ ap (λ n. n / q) h ∙ mul-div_cancel b z

parts_eq : (c d : ℤ) → pos_part c + neg_part d ≡ pos_part d + neg_part c → c ≡ d
parts_eq c d h = ground arith

cancel : (c d : ℤ) (q : ℕ) → 0 < q → c *ℤ pos q ≡ d *ℤ pos q → c ≡ d
cancel c d q z h =
    let k = parts_times c q in
    let l = parts_times d q in
    let e = ap pos_part h in
    let f = ap neg_part h in
    parts_eq c d (cancel_ℕ (pos_part c + neg_part d) (pos_part d + neg_part c) q z (omega arith))

power_pos : (n : ℕ) → 0 < 10 ^ n
power_pos n = let h = one-le-pow n 10 (omega arith) in omega arith

tenfold_parts :
    (x : ℤ) (m n : ℕ) → pos_part x + 10 * m ≡ 10 * n + neg_part x → (mod_ten x == 0) ≡ true
tenfold_parts (pos x) m n h = ground arith
tenfold_parts (negsuc x) m n h = ground arith

mod_ten-scaled : (c : ℤ) (q : ℕ) → (mod_ten (c *ℤ pos (10 * q)) == 0) ≡ true
mod_ten-scaled c q =
    let h = parts_times c (10 * q) in
    tenfold_parts (c *ℤ pos (10 * q)) (neg_part c * q) (pos_part c * q) (omega arith)

-- A decimal in normal form has no more digits after the point than another one of its value.
no_more_digits :
    (d e : ExactDecimal) (k : ℕ)
    → d.scale + suc k ≡ e.scale
    → d.coefficient *ℤ pos (10 ^ e.scale) ≡ e.coefficient *ℤ pos (10 ^ d.scale)
    → is_normal e ≡ true
    → false ≡ true
no_more_digits d e k s h n =
    let t : suc k + d.scale ≡ e.scale = omega arith in
    let c =
      cancel (d.coefficient *ℤ pos (10 ^ suc k)) e.coefficient (10 ^ d.scale) (power_pos d.scale)
        (scale_by d.coefficient (suc k) d.scale e.scale t ∙ h) in
    let u = ap (λ q. d.coefficient *ℤ pos q) (sym (power_suc k)) ∙ c in
    let m : (mod_ten e.coefficient == 0) ≡ true =
      subst (λ x. (mod_ten x == 0) ≡ true) u (mod_ten-scaled d.coefficient (10 ^ k)) in
    let z : (e.scale == 0) ≡ false = ground arith in
    let v : is_normal e ≡ false = rw (z, m) refl in sym v ∙ n

same_scale :
    (d e : ExactDecimal)
    → d.scale ≡ e.scale
    → d.coefficient *ℤ pos (10 ^ e.scale) ≡ e.coefficient *ℤ pos (10 ^ d.scale)
    → d ≡ e
same_scale d e s h =
    let c =
      cancel d.coefficient e.coefficient (10 ^ e.scale) (power_pos e.scale)
        (h ∙ ap (λ n. e.coefficient *ℤ pos (10 ^ n)) s) in
    λ i. record { coefficient = c i; scale = s i }

normal_unique :
    (d e : ExactDecimal)
    → is_normal d ≡ true
    → is_normal e ≡ true
    → d.coefficient *ℤ pos (10 ^ e.scale) ≡ e.coefficient *ℤ pos (10 ^ d.scale)
    → d ≡ e
normal_unique d e n m h = elim (Bool-cases (ltb d.scale e.scale)) [
  | inl l ↦ cc (no_more_digits d e (e.scale - d.scale - 1) (ground arith) h m)
  | inr l ↦ elim (Bool-cases (ltb e.scale d.scale)) [
    | inl k ↦ cc (no_more_digits e d (d.scale - e.scale - 1) (ground arith) (sym h) n)
    | inr k ↦ same_scale d e (ground arith) h
  ]
]

if-eq-ok {ℓ} :
    {A : Type ℓ} (b : Bool) (x : A) (e : Error) {y : A}
    → (if b then ok x else err e) ≡ ok y
    → (b ≡ true) × (x ≡ y)
if-eq-ok true x e h = (refl, ok-injective x _ h)
if-eq-ok false x e h = cc

require_natural-eq-ok :
    (s : ℤ) (n : ℕ) → require_natural s ≡ ok n → (s ≡ pos n) × (leb n ijson_max ≡ true)
unfolding require_natural
require_natural-eq-ok (pos m) n h =
    let (b, e) = if-eq-ok (leb m ijson_max) m out_of_range h in
    (ap pos e, subst (λ k. leb k ijson_max ≡ true) e b)
require_natural-eq-ok (negsuc m) n h = cc

-- What the constructor has checked of the decimal that it returns.
record Checked (c s : ℤ) (d : ExactDecimal) : Type 0 where
  coefficient_eq : c ≡ d.coefficient
  scale_eq : s ≡ pos d.scale
  normal : is_normal d ≡ true
  representable : is_representable d ≡ true

exact_decimal-Checked : (c s : ℤ) {d : ExactDecimal} → exact_decimal c s ≡ ok d → Checked c s d
unfolding exact_decimal require_int
exact_decimal-Checked c s {d} h =
    let (m, hm, h1) = >>=-eq-ok (require_int c) _ h in
    let (n, hn, h2) = >>=-eq-ok (require_natural s) _ h1 in
    let (b, cm) = if-eq-ok (leb (abs_ℤ c) ijson_max) c out_of_range hm in
    let (sn, bn) = require_natural-eq-ok s n hn in
    let x : ExactDecimal = record { coefficient = m; scale = n } in
    let (nx, h3) = require-eq-ok (is_normal x) (wire_error "decimal is not normalized") (ok x) h2 in
    let bm = subst (λ z. leb (abs_ℤ z) ijson_max ≡ true) cm b in
    subst (λ z. Checked c s z) (ok-injective x d h3)
      (record { coefficient_eq = cm; scale_eq = sn; normal = nx; representable = rw (bm, bn) refl })

-- Two decimals that the constructor accepts and that denote the same fraction are the same decimal.
pub same_fraction_unique :
    (c s k t : ℤ) (d e : ExactDecimal)
    → exact_decimal c s ≡ ok d
    → exact_decimal k t ≡ ok e
    → same_fraction d e ≡ true
    → d ≡ e
unfolding same_fraction
same_fraction_unique c s k t d e h j f =
    normal_unique d e (exact_decimal-Checked c s h).normal (exact_decimal-Checked k t j).normal
      (==ℤ→eq (d.coefficient *ℤ pos (10 ^ e.scale)) (e.coefficient *ℤ pos (10 ^ d.scale)) f)

range_parts :
    (d : ExactDecimal)
    → is_representable d ≡ true
    → (leb (abs_ℤ d.coefficient) ijson_max ≡ true) × (leb d.scale ijson_max ≡ true)
range_parts d h = (
  &&-left (leb (abs_ℤ d.coefficient) ijson_max) (leb d.scale ijson_max) h,
  &&-right (leb (abs_ℤ d.coefficient) ijson_max) (leb d.scale ijson_max) h,
)

exact_decimal-again :
    (d : ExactDecimal)
    → is_normal d ≡ true
    → is_representable d ≡ true
    → exact_decimal d.coefficient (pos d.scale) ≡ ok d
unfolding exact_decimal require_int require_natural
exact_decimal-again d n h = let (a, b) = range_parts d h in rw (a, b, n) refl

-- A decimal that the constructor accepts comes back from its wire form.
pub decimal_from_wire-to_wire :
    (c s : ℤ) (d : ExactDecimal)
    → exact_decimal c s ≡ ok d
    → decimal_from_wire (decimal_to_wire d) ≡ ok d
unfolding decimal_from_wire decimal_to_wire require_exact_keys require_int require_natural keys get
decimal_from_wire-to_wire c s d h =
    let k = exact_decimal-Checked c s h in
    let (a, b) = range_parts d k.representable in
    rw (a, b, exact_decimal-again d k.normal k.representable) refl
