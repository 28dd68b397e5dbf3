-- ===== src/Core/InformationOrder/Twin/Invariant.antt =====
-- The invariant of the loop of `_first_twin`: what its buckets say of the rows that it has passed.
use mathlib.Core.Path.{subst}
use mathlib.Core.Option.{some-injective}
use native.Mathlib.Decide.{dec_lt}
use auditspec.Prelude.{
  ℕ, suc, ◌+◌, ◌-◌, ◌<◌, String, Bool, true, Option, none, some, List, [], ◌∷◌, ◌≡◌, refl, sym, ap,
  ◌∙◌, inl, inr, arith, get_elem?, Bool-cases, if◌then◌else◌,
}
use auditspec.Prelude.Text.{same_codes, same_codes→eq, eq→same_codes}
use auditspec.Prelude.Result.{ok-injective}
use auditspec.Core.Value.{Value}
use auditspec.Core.InformationOrder.Twin.{Key, Bucket, bucket}
use auditspec.Core.InformationOrder.Twin.Verdict.{HasValue, HasClaim, Factors}
use auditspec.Core.InformationOrder.Twin.Equations.{bucket_new}

module _ {Row : Type 0} (row_id : Row → String) (value : Row → Value) (claim : Row → Value) where
  -- The first row of a bucket, and its claim.
  pub record Opened (rows : List Row) (index : ℕ) (k : Key) (j : ℕ) (c : Key) : Type 0 where
    pub row : Row
    pub place : get_elem? rows j ≡ some row
    pub has_value : HasValue row_id value claim row k
    pub has_claim : HasClaim row_id value claim row c
    pub earlier : j < index

  -- A row that was passed has the claim of its bucket.
  pub record Passed (buckets : List Bucket) (r : Row) : Type 0 where
    pub k : Key
    pub j : ℕ
    pub c : Key
    pub has_value : HasValue row_id value claim r k
    pub has_claim : HasClaim row_id value claim r c
    pub found : bucket k buckets ≡ some (j, c)

  pub record Inv (rows : List Row) (index : ℕ) (rest : List Row) (buckets : List Bucket)
      : Type 0 where
    pub opened :
        (k : Key) (j : ℕ) (c : Key) → bucket k buckets ≡ some (j, c) → Opened rows index k j c
    pub passed : (a : ℕ) (r : Row) → a < index → get_elem? rows a ≡ some r → Passed buckets r
    pub suffix : (m n : ℕ) → m ≡ index + n → get_elem? rows m ≡ get_elem? rest n

  pub Opened-suc :
      (rows : List Row) (index : ℕ) (k : Key) (j : ℕ) (c : Key)
      → Opened rows index k j c
      → Opened rows (suc index) k j c
  Opened-suc rows index k j c o = record {
    row = o.row;
    place = o.place;
    has_value = o.has_value;
    has_claim = o.has_claim;
    earlier = omega (arith, o.earlier);
  }

  pub row_at :
      (rows : List Row) (index : ℕ) (row : Row) (rest : List Row) (buckets : List Bucket)
      → Inv rows index (row ∷ rest) buckets
      → get_elem? rows index ≡ some row
  row_at rows index row rest buckets i = i.suffix index 0 (omega arith)

  -- One more row is passed, over the same buckets or over more.
  pub Inv-suc :
      (rows : List Row) (index : ℕ) (row : Row) (rest : List Row) (buckets more : List Bucket)
      → Inv rows index (row ∷ rest) buckets
      → ((k : Key) (j : ℕ) (c : Key) → bucket k more ≡ some (j, c) → Opened rows (suc index) k j c)
      → ((r : Row) → Passed buckets r → Passed more r)
      → Passed more row
      → Inv rows (suc index) rest more
  Inv-suc rows index row rest buckets more i opens keep new = record {
    opened = opens;
    passed = λ a r lt g. elim (dec_lt a index) [
      | yes before ↦ keep r (i.passed a r before g)
      | no late ↦
          let here : a ≡ index = omega arith in
          let same : row ≡ r =
            some-injective row r
              (sym (row_at rows index row rest buckets i) ∙ ap (get_elem? rows) (sym here) ∙ g) in
          subst (Passed more) same new
    ];
    suffix = λ m n e. i.suffix m (suc n) (omega arith);
  }

  pub Inv-known :
      (rows : List Row) (index : ℕ) (row : Row) (rest : List Row) (buckets : List Bucket) (k : Key)
      (c : Key) (j : ℕ) (p : Key)
      → Inv rows index (row ∷ rest) buckets
      → HasValue row_id value claim row k
      → HasClaim row_id value claim row c
      → bucket k buckets ≡ some (j, p)
      → same_codes p c ≡ true
      → Inv rows (suc index) rest buckets
  Inv-known rows index row rest buckets k c j p i h g b same =
      Inv-suc rows index row rest buckets buckets i
        (λ k j c b. Opened-suc rows index k j c (i.opened k j c b)) (λ r q. q)
        (record {
          k = k;
          j = j;
          c = p;
          has_value = h;
          has_claim = rw (same_codes→eq p c same) g;
          found = b;
        })

  pub Inv-fresh :
      (rows : List Row) (index : ℕ) (row : Row) (rest : List Row) (buckets : List Bucket) (k : Key)
      (c : Key)
      → Inv rows index (row ∷ rest) buckets
      → HasValue row_id value claim row k
      → HasClaim row_id value claim row c
      → bucket k buckets ≡ none
      → Inv rows (suc index) rest ((k, (index, c)) ∷ buckets)
  Inv-fresh rows index row rest buckets k c i h g b =
      Inv-suc rows index row rest buckets ((k, (index, c)) ∷ buckets) i
        (λ k' j d e. elim (Bool-cases (same_codes k k')) [
          | inl t ↦
              let hit : ◌≡◌ {A = Option (ℕ × Key)} (some (index, c)) (some (j, d)) =
                sym (
                  bucket_new row_id value claim k k' (index, c) buckets
                  ∙ ap (λ (b : Bool). if b then some (index, c) else bucket k' buckets) t)
                ∙ e in
              let pair = some-injective (index, c) (j, d) hit in
              record {
                row = row;
                place =
                    subst (λ (x : ℕ × Key). get_elem? rows x.0 ≡ some row) pair
                      (row_at rows index row rest buckets i);
                has_value = subst (HasValue row_id value claim row) (same_codes→eq k k' t) h;
                has_claim = subst (λ (x : ℕ × Key). HasClaim row_id value claim row x.1) pair g;
                earlier = subst (λ (x : ℕ × Key). x.0 < suc index) pair (omega arith);
              }
          | inr f ↦
              let old : bucket k' buckets ≡ some (j, d) =
                sym (
                  bucket_new row_id value claim k k' (index, c) buckets
                  ∙ ap (λ (b : Bool). if b then some (index, c) else bucket k' buckets) f)
                ∙ e in
              Opened-suc rows index k' j d (i.opened k' j d old)
        ])
        (λ r q. record {
          k = q.k;
          j = q.j;
          c = q.c;
          has_value = q.has_value;
          has_claim = q.has_claim;
          found =
              bucket_new row_id value claim k q.k (index, c) buckets
              ∙ elim (Bool-cases (same_codes k q.k)) [
                | inr f ↦ rw f q.found
                | inl t ↦ cc (b, q.found, same_codes→eq k q.k t)
              ];
        })
        (record {
          k = k;
          j = index;
          c = c;
          has_value = h;
          has_claim = g;
          found =
              bucket_new row_id value claim k k (index, c) buckets ∙ rw (eq→same_codes k k refl);
        })

  pub Inv-Factors :
      (rows : List Row) (index : ℕ) (buckets : List Bucket)
      → Inv rows index [] buckets
      → Factors row_id value claim rows
  Inv-Factors rows index buckets i a b r s k c d g h vr vs cr cs =
      let p = i.passed a r (inside a r g) g in
      let q = i.passed b s (inside b s h) h in
      let same_key : p.k ≡ q.k =
        ok-injective p.k k (sym p.has_value ∙ vr)
        ∙ sym (ok-injective q.k k (sym q.has_value ∙ vs)) in
      let pair =
        some-injective (p.j, p.c) (q.j, q.c)
          (sym p.found ∙ ap (λ x. bucket x buckets) same_key ∙ q.found) in
      ok-injective c p.c (sym cr ∙ p.has_claim)
      ∙ ap (λ (x : ℕ × Key). x.1) pair
      ∙ ok-injective q.c d (sym q.has_claim ∙ cs)
    where
      inside : (a : ℕ) (r : Row) → get_elem? rows a ≡ some r → a < index
      inside a r g = elim (dec_lt a index) [
        | yes lt ↦ lt
        | no late ↦ absurd (cc (g, i.suffix a (a - index) (omega arith)))
      ]
