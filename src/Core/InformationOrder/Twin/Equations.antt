-- ===== src/Core/InformationOrder/Twin/Equations.antt =====
-- The steps of `_first_twin`, one equation for each case.
use auditspec.Prelude.{
  ℕ, suc, String, true, false, Option, none, some, List, [], ◌∷◌, ◌≡◌, refl, get_elem?,
  if◌then◌else◌,
}
use auditspec.Prelude.Text.{same_codes}
use auditspec.Prelude.Result.{Result, ok, err, Error}
use auditspec.Core.Value.{Value}
use auditspec.Core.Canonical.{canonical_json}
use auditspec.Core.InformationOrder.Twin.{
  Key, AuditTwin, Bucket, bucket, twin_of, Seen, collision, known, fresh, look, twin_from,
}
use auditspec.Core.InformationOrder.Twin.Verdict.{HasValue, HasClaim, twin_record}

module _ {Row : Type 0} (row_id : Row → String) (value : Row → Value) (claim : Row → Value) where
  module _ (rows : List Row) (index : ℕ) (row : Row) (rest : List Row) (buckets : List Bucket) where
    pub value_fails :
        (e : Error)
        → canonical_json (value row) ≡ err e
        → twin_from row_id value claim rows index (row ∷ rest) buckets ≡ err e
    unfolding twin_from
    value_fails e h = rw (h, twin_from)

    pub claim_fails :
        (k : Key) (e : Error)
        → HasValue row_id value claim row k
        → canonical_json (claim row) ≡ err e
        → twin_from row_id value claim rows index (row ∷ rest) buckets ≡ err e
    unfolding twin_from
    claim_fails k e h g = rw (h, g, twin_from)

    abbrev pub next : Key → Key → Seen row_id value claim → Result (Option AuditTwin)
    next k c (collision prior) = twin_of row_id value claim rows prior row
    next k c known = twin_from row_id value claim rows (suc index) rest buckets
    next k c fresh = twin_from row_id value claim rows (suc index) rest ((k, (index, c)) ∷ buckets)

    pub next_eq :
        (k c : Key)
        → HasValue row_id value claim row k
        → HasClaim row_id value claim row c
        → twin_from row_id value claim rows index (row ∷ rest) buckets
          ≡ next k c (look row_id value claim (bucket k buckets) c)
    unfolding twin_from
    next_eq k c h g = rw (h, g, twin_from) (by_cases (look row_id value claim (bucket k buckets) c))
      where
        by_cases :
            (s : Seen row_id value claim)
            → ◌≡◌ {A = Result (Option AuditTwin)}
                (elim s [
                  | collision prior ↦ twin_of row_id value claim rows prior row
                  | known ↦ twin_from row_id value claim rows (suc index) rest buckets
                  | fresh ↦
                      twin_from row_id value claim rows (suc index) rest ((k, (index, c)) ∷ buckets)
                ])
                (next k c s)
        by_cases (collision p) = refl
        by_cases known = refl
        by_cases fresh = refl

  pub look-none : (c : Key) → look row_id value claim none c ≡ fresh
  unfolding look
  look-none c = refl

  pub look_known :
      (j : ℕ) (p c : Key) → same_codes p c ≡ true → look row_id value claim (some (j, p)) c ≡ known
  unfolding look
  look_known j p c h = rw h

  pub look_collision :
      (j : ℕ) (p c : Key)
      → same_codes p c ≡ false
      → look row_id value claim (some (j, p)) c ≡ collision j
  unfolding look
  look_collision j p c h = rw h

  pub twin_of-some :
      (rows : List Row) (j : ℕ) (left right : Row)
      → get_elem? rows j ≡ some left
      → twin_of row_id value claim rows j right
        ≡ ok (some (twin_record row_id value claim left right))
  unfolding twin_of
  twin_of-some rows j left right h = rw (h, twin_of)

  pub bucket_new :
      (k key : Key) (b : ℕ × Key) (buckets : List Bucket)
      → bucket key ((k, b) ∷ buckets) ≡ (if same_codes k key then some b else bucket key buckets)
  unfolding bucket
  bucket_new k key b buckets = refl

  pub bucket_nil : (key : Key) → bucket key [] ≡ none
  unfolding bucket
  bucket_nil key = refl
