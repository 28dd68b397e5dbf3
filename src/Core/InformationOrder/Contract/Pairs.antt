-- ===== src/Core/InformationOrder/Contract/Pairs.antt =====
-- The critical pairs are the pairs of worlds with different claims, and hitting them all is the
-- same as determining the claim.
use mathlib.Core.Path.{subst, ap₂}
use mathlib.Core.Option.{some-injective}
use native.Mathlib.Nat.{add-zero, zero-add}
use auditspec.Prelude.{
  ℕ, zero, suc, ◌+◌, ◌<◌, false, some, List, [], ◌∷◌, ◌≡◌, refl, sym, ap, ◌∙◌, ◌↔◌, inl, inr, arith,
  Member, get_elem?, append-member, member-append_left, member-append_right, Bool-cases,
}
use auditspec.Core.Value.{py_eq}
use auditspec.Core.InformationOrder.Rows.{ContractRow}
use auditspec.Core.InformationOrder.Contract.{
  CriticalPair, critical_pair, pairs_with, pairs_from, critical_pairs,
}

abbrev Differ : ContractRow → ContractRow → Type 0
Differ r s = py_eq r.claim_value s.claim_value ≡ false

-- Two worlds with different claims, at the positions `a < b`.
pub record Critical (rows : List ContractRow) (a b : ℕ) (r s : ContractRow) : Type 0 where
  pub before : a < b
  pub left : get_elem? rows a ≡ some r
  pub right : get_elem? rows b ≡ some s
  pub claims : py_eq r.claim_value s.claim_value ≡ false

-- `p` pairs `left` with the row at `k`.
abbrev PairedWith : ℕ → ContractRow → ℕ → List ContractRow → CriticalPair → Type 0
PairedWith i left j rows p =
    (k : ℕ) × (s : ContractRow) × (get_elem? rows k ≡ some s)
    × Differ left s
    × (p ≡ critical_pair i left (j + k) s)

PairedWith-cons :
    (i : ℕ) (left : ContractRow) (j : ℕ) (s : ContractRow) (rows : List ContractRow)
    (p : CriticalPair)
    → PairedWith i left (suc j) rows p
    → PairedWith i left j (s ∷ rows) p
PairedWith-cons i left j s rows p (k, t, g, d, e) =
    let shift : suc j + k ≡ j + suc k = omega arith in
    (suc k, t, g, d, e ∙ ap (λ n. critical_pair i left n t) shift)

pairs_with-member :
    (i : ℕ) (left : ContractRow) (j : ℕ) (rows : List ContractRow) (p : CriticalPair)
    → Member p (pairs_with i left j rows)
    → PairedWith i left j rows p
unfolding pairs_with
pairs_with-member i left j [] p m = absurd m
pairs_with-member i left j (s ∷ rows) p m =
    elim (Bool-cases (py_eq left.claim_value s.claim_value)) [
      | inl same ↦
          PairedWith-cons i left j s rows p (pairs_with-member i left (suc j) rows p (rw same at m))
      | inr other ↦ elim (rw other at m) [
        | inl e ↦ (0, s, refl, other, e ∙ ap (λ n. critical_pair i left n s) (sym (add-zero j)))
        | inr r ↦ PairedWith-cons i left j s rows p (pairs_with-member i left (suc j) rows p r)
      ]
    ]

member-pairs_with :
    (i : ℕ) (left : ContractRow) (j n : ℕ) (rows : List ContractRow) (k : ℕ) (s : ContractRow)
    → get_elem? rows k ≡ some s
    → Differ left s
    → n ≡ j + k
    → Member (critical_pair i left n s) (pairs_with i left j rows)
unfolding pairs_with
member-pairs_with i left j n [] k s g d e = absurd (cc)
member-pairs_with i left j n (t ∷ rows) zero s g d e =
    let same : t ≡ s = some-injective t s g in
    let place : n ≡ j = omega arith in rw (same, d, place) (inl refl)
member-pairs_with i left j n (t ∷ rows) (suc k) s g d e =
    let later = member-pairs_with i left (suc j) n rows k s g d (omega arith) in
    elim (Bool-cases (py_eq left.claim_value t.claim_value)) [
      | inl same ↦ rw same later
      | inr other ↦ rw other (inr later)
    ]

-- `p` is the critical pair of two rows, at the positions from `i` on.
abbrev PairOf : ℕ → List ContractRow → CriticalPair → Type 0
PairOf i rows p =
    (a : ℕ) × (b : ℕ) × (r : ContractRow) × (s : ContractRow) × Critical rows a b r s
    × (p ≡ critical_pair (i + a) r (i + b) s)

PairOf-cons :
    (i : ℕ) (row : ContractRow) (rows : List ContractRow) (p : CriticalPair)
    → PairOf (suc i) rows p
    → PairOf i (row ∷ rows) p
PairOf-cons i row rows p (a, b, r, s, c, e) =
    let left : suc i + a ≡ i + suc a = omega arith in
    let right : suc i + b ≡ i + suc b = omega arith in
    (
      suc a,
      suc b,
      r,
      s,
      record {
        before = omega (arith, c.before);
        left = c.left;
        right = c.right;
        claims = c.claims;
      },
      e ∙ ap₂ (λ m n. critical_pair m r n s) left right,
    )

pairs_from-member :
    (i : ℕ) (rows : List ContractRow) (p : CriticalPair)
    → Member p (pairs_from i rows)
    → PairOf i rows p
unfolding pairs_from
pairs_from-member i [] p m = absurd m
pairs_from-member i (row ∷ rows) p m =
    elim (append-member p (pairs_with i row (suc i) rows) (pairs_from (suc i) rows) m) [
      | inl q ↦
          let (k, s, g, d, e) = pairs_with-member i row (suc i) rows p q in
          let left : i ≡ i + 0 = omega arith in
          let right : suc i + k ≡ i + suc k = omega arith in
          (
            0,
            suc k,
            row,
            s,
            record { before = omega arith; left = refl; right = g; claims = d },
            e ∙ ap₂ (λ m n. critical_pair m row n s) left right,
          )
      | inr q ↦ PairOf-cons i row rows p (pairs_from-member (suc i) rows p q)
    ]

member-pairs_from :
    (i : ℕ) (rows : List ContractRow) (a b m n : ℕ) (r s : ContractRow)
    → Critical rows a b r s
    → m ≡ i + a
    → n ≡ i + b
    → Member (critical_pair m r n s) (pairs_from i rows)
unfolding pairs_from
member-pairs_from i [] a b m n r s c e f = absurd (cc (c.left))
member-pairs_from i (row ∷ rows) zero zero m n r s c e f = absurd (omega (arith, c.before))
member-pairs_from i (row ∷ rows) zero (suc b) m n r s c e f =
    let same : row ≡ r = some-injective row r c.left in
    let place : m ≡ i = omega arith in
    member-append_left (critical_pair m r n s) (pairs_with i row (suc i) rows) _
      (rw (same, place) (member-pairs_with i r (suc i) n rows b s c.right c.claims (omega arith)))
member-pairs_from i (row ∷ rows) (suc a) zero m n r s c e f = absurd (omega (arith, c.before))
member-pairs_from i (row ∷ rows) (suc a) (suc b) m n r s c e f =
    member-append_right (critical_pair m r n s) (pairs_with i row (suc i) rows) _ (
      member-pairs_from (suc i) rows a b m n r s
        (record {
          before = omega (arith, c.before);
          left = c.left;
          right = c.right;
          claims = c.claims;
        })
        (omega arith) (omega arith))

-- The critical pairs are the pairs of worlds whose claims Differ, at their positions.
pub critical_pairs-member :
    (rows : List ContractRow) (p : CriticalPair)
    → Member p (critical_pairs rows)
    → (a : ℕ) × (b : ℕ) × (r : ContractRow) × (s : ContractRow) × Critical rows a b r s
      × (p ≡ critical_pair a r b s)
unfolding critical_pairs
critical_pairs-member rows p m =
    let (a, b, r, s, c, e) = pairs_from-member 0 rows p m in
    (a, b, r, s, c, e ∙ ap₂ (λ m n. critical_pair m r n s) (zero-add a) (zero-add b))

pub member-critical_pairs :
    (rows : List ContractRow) (a b : ℕ) (r s : ContractRow)
    → Critical rows a b r s
    → Member (critical_pair a r b s) (critical_pairs rows)
unfolding critical_pairs
member-critical_pairs rows a b r s c =
    member-pairs_from 0 rows a b a b r s c (omega arith) (omega arith)

-- The critical pairs are exactly the pairs of worlds, in order, whose claims Differ.
pub critical_pairs_iff :
    (rows : List ContractRow) (p : CriticalPair)
    → Member p (critical_pairs rows) ↔ (
        (a : ℕ) × (b : ℕ) × (r : ContractRow) × (s : ContractRow) × Critical rows a b r s
        × (p ≡ critical_pair a r b s))
critical_pairs_iff rows p = (
  critical_pairs-member rows p,
  λ (a, b, r, s, c, e).
      subst (λ x. Member x (critical_pairs rows)) (sym e) (member-critical_pairs rows a b r s c),
)
