-- ===== src/Core/InformationOrder/Twin/Verdict.antt =====
-- What a result of `_first_twin` says of the rows.
use auditspec.Prelude.{ℕ, ◌<◌, String, Option, none, some, List, ◌≡◌, ◌≢◌, ◌⊎◌, get_elem?}
use auditspec.Prelude.Result.{Result, ok, err, Error}
use auditspec.Core.Value.{Value}
use auditspec.Core.Canonical.{canonical_json}
use auditspec.Core.InformationOrder.Twin.{Key, AuditTwin}

module _ {Row : Type 0} (row_id : Row → String) (value : Row → Value) (claim : Row → Value) where
  abbrev pub HasValue : Row → Key → Type 0
  HasValue r k = canonical_json (value r) ≡ ok k

  abbrev pub HasClaim : Row → Key → Type 0
  HasClaim r c = canonical_json (claim r) ≡ ok c

  abbrev pub twin_record : Row → Row → AuditTwin
  twin_record left right = record {
    left_id = row_id left;
    right_id = row_id right;
    shared_value = value right;
    left_claim_value = claim left;
    right_claim_value = claim right;
  }

  -- The claim factors through the value: rows with one value have one claim.
  abbrev pub Factors : List Row → Type 0
  Factors rows =
      (a b : ℕ) (r s : Row) (k c d : Key)
      → get_elem? rows a ≡ some r
      → get_elem? rows b ≡ some s
      → HasValue r k
      → HasValue s k
      → HasClaim r c
      → HasClaim s d
      → c ≡ d

  -- Two rows with one value and different claims.
  pub record IsTwin (rows : List Row) (t : AuditTwin) : Type 0 where
    pub a : ℕ
    pub b : ℕ
    pub r : Row
    pub s : Row
    pub k : Key
    pub c : Key
    pub d : Key
    pub before : a < b
    pub left : get_elem? rows a ≡ some r
    pub right : get_elem? rows b ≡ some s
    pub left_value : HasValue r k
    pub right_value : HasValue s k
    pub left_claim : HasClaim r c
    pub right_claim : HasClaim s d
    pub differ : c ≢ d
    pub shown : t ≡ twin_record r s

  -- A row without an encoding.
  abbrev pub Unencoded : List Row → Error → Type 0
  Unencoded rows e =
      (a : ℕ) × (r : Row) × (get_elem? rows a ≡ some r)
      × ((canonical_json (value r) ≡ err e) ⊎ (canonical_json (claim r) ≡ err e))

  abbrev pub TwinVerdict : List Row → Result (Option AuditTwin) → Type 0
  TwinVerdict rows (err e) = Unencoded rows e
  TwinVerdict rows (ok none) = Factors rows
  TwinVerdict rows (ok (some t)) = IsTwin rows t
