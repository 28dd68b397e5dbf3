-- ===== src/Core/InformationOrder/Twin/Laws.antt =====
-- `_first_twin` finds two rows with one value and different claims, or the value determines the claim.
use mathlib.Core.Path.{subst}
use native.Mathlib.Nat.{zero-add}
use auditspec.Prelude.{
  ℕ, suc, String, Option, none, some, List, [], ◌∷◌, ◌≡◌, refl, sym, ap, ◌∙◌, inl, inr, arith,
  get_elem?, Bool-cases,
}
use auditspec.Prelude.Text.{same_codes, differ→same_codes}
use auditspec.Prelude.Result.{Result-cases}
use auditspec.Core.Value.{Value}
use auditspec.Core.Canonical.{canonical_json}
use auditspec.Core.InformationOrder.Twin.{Key, Bucket, bucket, look, twin_from, first_twin}
use auditspec.Core.InformationOrder.Twin.Verdict.{HasValue, HasClaim, TwinVerdict}
use auditspec.Core.InformationOrder.Twin.Equations.{
  value_fails, claim_fails, next, next_eq, look-none, look_known, look_collision, twin_of-some,
  bucket_nil,
}
use auditspec.Core.InformationOrder.Twin.Invariant.{Inv, row_at, Inv-known, Inv-fresh, Inv-Factors}

module _ {Row : Type 0} (row_id : Row → String) (value : Row → Value) (claim : Row → Value) where
  twin_from-TwinVerdict :
      (rows : List Row) (index : ℕ) (rest : List Row) (buckets : List Bucket)
      → Inv row_id value claim rows index rest buckets
      → TwinVerdict row_id value claim rows (twin_from row_id value claim rows index rest buckets)
  unfolding twin_from
  twin_from-TwinVerdict rows index [] buckets i =
      Inv-Factors row_id value claim rows index buckets i
  twin_from-TwinVerdict rows index (row ∷ rest) buckets i =
      let here = row_at row_id value claim rows index row rest buckets i in
      elim (Result-cases (canonical_json (value row))) [
        | inr (e, h) ↦
            subst (TwinVerdict row_id value claim rows)
              (sym (value_fails row_id value claim rows index row rest buckets e h))
              (index, row, here, inl h)
        | inl (k, h) ↦ elim (Result-cases (canonical_json (claim row))) [
          | inr (e, g) ↦
              subst (TwinVerdict row_id value claim rows)
                (sym (claim_fails row_id value claim rows index row rest buckets k e h g))
                (index, row, here, inr g)
          | inl (c, g) ↦
              subst (TwinVerdict row_id value claim rows)
                (sym (next_eq row_id value claim rows index row rest buckets k c h g))
                (step k c h g (bucket k buckets) refl (twin_from-TwinVerdict rows (suc index) rest))
        ]
      ]
    where
      step :
          (k c : Key)
          → HasValue row_id value claim row k
          → HasClaim row_id value claim row c
          → (o : Option (ℕ × Key)) → bucket k buckets ≡ o
          → ((bs : List Bucket)
              → Inv row_id value claim rows (suc index) rest bs
              → TwinVerdict row_id value claim rows
                  (twin_from row_id value claim rows (suc index) rest bs))
          → TwinVerdict row_id value claim rows (
              next row_id value claim rows index row rest buckets k c (look row_id value claim o c))
      step k c h g none e ih =
          subst
            (λ s.
              TwinVerdict row_id value claim rows
                (next row_id value claim rows index row rest buckets k c s))
            (sym (look-none row_id value claim c))
            (ih ((k, (index, c)) ∷ buckets)
              (Inv-fresh row_id value claim rows index row rest buckets k c i h g e))
      step k c h g (some (j, p)) e ih = elim (Bool-cases (same_codes p c)) [
        | inl t ↦
            subst
              (λ s.
                TwinVerdict row_id value claim rows
                  (next row_id value claim rows index row rest buckets k c s))
              (sym (look_known row_id value claim j p c t))
              (ih buckets
                (Inv-known row_id value claim rows index row rest buckets k c j p i h g e t))
        | inr f ↦
            let o = i.opened k j p e in
            subst
              (λ s.
                TwinVerdict row_id value claim rows
                  (next row_id value claim rows index row rest buckets k c s))
              (sym (look_collision row_id value claim j p c f))
              (subst (TwinVerdict row_id value claim rows)
                (sym (twin_of-some row_id value claim rows j o.row row o.place))
                (record {
                  a = j;
                  b = index;
                  r = o.row;
                  s = row;
                  k = k;
                  c = p;
                  d = c;
                  before = o.earlier;
                  left = o.place;
                  right = row_at row_id value claim rows index row rest buckets i;
                  left_value = o.has_value;
                  right_value = h;
                  left_claim = o.has_claim;
                  right_claim = g;
                  differ = differ→same_codes p c f;
                  shown = refl;
                }))
      ]

  -- The loop ends with a twin of two rows, or the value determines the claim; it fails only at a
  -- row that has no canonical encoding.
  pub first_twin-TwinVerdict :
      (rows : List Row) → TwinVerdict row_id value claim rows (first_twin row_id value claim rows)
  unfolding first_twin
  first_twin-TwinVerdict rows = twin_from-TwinVerdict rows 0 rows [] (record {
    opened = λ k j c e. absurd (cc (e, bucket_nil row_id value claim k));
    passed = λ a r lt g. absurd (omega arith);
    suffix = λ m n e. ap (get_elem? rows) (e ∙ zero-add n);
  })
