-- ===== src/Core/InformationOrder/Lifecycle/Verdict.antt =====
-- What `analyze_lifecycle_transformation` returns or raises.
use Prim.Native.String
use mathlib.Core.Path.{subst}
use auditspec.Prelude.{
  String, false, Option, none, some, List, [], map, ◌≡◌, refl, sym, ◌⊎◌, inl, inr, arith,
}
use auditspec.Prelude.Result.{
  Result, ok, err, Error, information_order, >>=-eq-err, require-eq-err, Result-cases,
}
use auditspec.Core.Value.{Value, str}
use auditspec.Core.InformationOrder.Rows.{identifier}
use auditspec.Core.InformationOrder.Twin.{AuditTwin, first_twin}
use auditspec.Core.InformationOrder.Auditability.{Entry, QuotientCertificate, analyze_auditability}
use auditspec.Core.InformationOrder.Auditability.Total.{
  AllEncoded, partition-returns, first_twin-returns, decoder_table-returns,
}
use auditspec.Core.InformationOrder.Lifecycle.{
  LifecycleRow, lifecycle_rows, source_row, LifecycleCertificate, induced_table, descend,
  analyze_lifecycle_transformation, state_of, transformed_of, claim_of,
}
use auditspec.Core.InformationOrder.Lifecycle.Checks.{lifecycle_rows-Encoded}
use auditspec.Core.InformationOrder.Lifecycle.Descent.{
  LifecycleVerdict, certificate-LifecycleVerdict, analyze-IsFrom_source,
}

abbrev unsupported : Error
unsupported = information_order "capture-time evidence does not support the supplied claim"

module _ (claim_id transformation_id : String) where
  abbrev source_analysis : List LifecycleRow → Result QuotientCertificate
  source_analysis rows =
      analyze_auditability claim_id (String.◌++◌ transformation_id ":source") (map source_row rows)

  abbrev InvalidIdentifier : Error → Type 0
  InvalidIdentifier e =
      (identifier (str claim_id) ≡ err e) ⊎ (identifier (str transformation_id) ≡ err e)

  -- The source channel is refused, does not support the claim, or an identifier is invalid.
  abbrev SourceError : List LifecycleRow → Error → Type 0
  SourceError rows e =
      (source_analysis rows ≡ err e)
      ⊎ ((q : QuotientCertificate) × (source_analysis rows ≡ ok q)
          × (((q.factorization_exists ≡ false) × (unsupported ≡ e)) ⊎ InvalidIdentifier e))

  abbrev pub TransformationVerdict : List Value → Result LifecycleCertificate → Type 0
  TransformationVerdict raw (err e) =
      (lifecycle_rows raw ≡ err e)
      ⊎ ((rows : List LifecycleRow) × (lifecycle_rows raw ≡ ok rows) × SourceError rows e)
  TransformationVerdict raw (ok a) = (lifecycle_rows raw ≡ ok a.rows) × LifecycleVerdict a

  induced_table-returns :
      (o : Option AuditTwin) (rows : List LifecycleRow)
      → AllEncoded state_of transformed_of claim_of rows
      → (table : List Entry) × (induced_table o rows ≡ ok table)
  unfolding induced_table
  induced_table-returns (some t) rows h = ([], refl)
  induced_table-returns none rows h =
      let (groups, p) = partition-returns state_of transformed_of claim_of rows h in
      let (table, q) = decoder_table-returns state_of transformed_of claim_of rows groups h p in
      (table, rw p q)

  descend-error :
      (rows : List LifecycleRow) (q : QuotientCertificate) (e : Error)
      → AllEncoded state_of transformed_of claim_of rows
      → descend claim_id transformation_id rows q ≡ err e
      → ((q.factorization_exists ≡ false) × (unsupported ≡ e)) ⊎ InvalidIdentifier e
  unfolding descend
  descend-error rows q e h d = elim (require-eq-err q.factorization_exists unsupported _ d) [
    | inl f ↦ inl f
    | inr (_, k) ↦ elim (>>=-eq-err (first_twin state_of transformed_of claim_of rows) _ k) [
      | inl f ↦
          let (o, t) = first_twin-returns state_of transformed_of claim_of rows h in
          absurd (cc (f, t))
      | inr (o, _, k) ↦ elim (>>=-eq-err (induced_table o rows) _ k) [
        | inl f ↦ let (table, t) = induced_table-returns o rows h in absurd (cc (f, t))
        | inr (_, _, k) ↦ elim (>>=-eq-err (identifier (str claim_id)) _ k) [
          | inl f ↦ inr (inl f)
          | inr (_, _, k) ↦ elim (>>=-eq-err (identifier (str transformation_id)) _ k) [
            | inl f ↦ inr (inr f)
            | inr (_, _, k) ↦ absurd (ground arith)
          ]
        ]
      ]
    ]
  ]

  transformation-error :
      (raw : List Value) (e : Error)
      → analyze_lifecycle_transformation claim_id transformation_id raw ≡ err e
      → TransformationVerdict raw (err e)
  unfolding analyze_lifecycle_transformation
  transformation-error raw e h = elim (>>=-eq-err (lifecycle_rows raw) _ h) [
    | inl f ↦ inl f
    | inr (rows, p, k) ↦ elim (>>=-eq-err (source_analysis rows) _ k) [
      | inl f ↦ inr (rows, p, inl f)
      | inr (q, s, d) ↦
          inr (rows, p, inr (q, s, descend-error rows q e (lifecycle_rows-Encoded raw rows p) d))
    ]
  ]

  -- The analysis fails when the checks refuse the rows, the source channel or an identifier, or when
  -- the source evidence does not determine the claim. Otherwise the certificate's rows have source
  -- evidence that determines the claim and a transformation that is a function of it. Without a
  -- twin, the induced decoder gives every state's claim from its transformed evidence; with one, two
  -- states have one transformed evidence, different claims and different source evidence.
  pub analyze_lifecycle-TransformationVerdict :
      (raw : List Value)
      → TransformationVerdict raw (analyze_lifecycle_transformation claim_id transformation_id raw)
  analyze_lifecycle-TransformationVerdict raw =
      elim (Result-cases (analyze_lifecycle_transformation claim_id transformation_id raw)) [
        | inr (e, h) ↦ subst (TransformationVerdict raw) (sym h) (transformation-error raw e h)
        | inl (a, h) ↦
            let (_, from) = analyze-IsFrom_source claim_id transformation_id raw a h in
            subst (TransformationVerdict raw) (sym h)
              (from.rows, certificate-LifecycleVerdict claim_id transformation_id raw a h)
      ]
