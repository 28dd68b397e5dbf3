-- ===== src/Core/InformationOrder/Auditability/Correct.antt =====
-- A certificate of auditability decodes every row, or shows two rows that no decoder can tell apart.
use mathlib.Core.Path.{subst}
use auditspec.Prelude.{
  String, Bool, true, false, Option, none, some, List, [], map, ◌≡◌, refl, sym, ap, ◌∙◌, arith,
  Member, inl, inr, ◌⊎◌,
}
use auditspec.Prelude.Text.{text_order}
use auditspec.Prelude.Order.{sort_by, sort_by-member}
use auditspec.Prelude.Result.{
  Result, Error, ok, err, ◌>>◌, >>=-eq-ok, >>=-eq-err, require-eq-ok, ok-injective, traverse,
  traverse-member, Result-cases, information_order, require,
}
use auditspec.Core.Value.{Value, obj, str}
use auditspec.Core.Canonical.{canonical_json}
use auditspec.Core.InformationOrder.Rows.{
  ChannelRow, channel_row, channel_rows, populated, json, identifier,
}
use auditspec.Core.InformationOrder.Twin.{Key, AuditTwin, Group, first_twin, partition}
use auditspec.Core.InformationOrder.Twin.Verdict.{IsTwin, TwinVerdict}
use auditspec.Core.InformationOrder.Twin.Laws.{first_twin-TwinVerdict}
use auditspec.Core.InformationOrder.Auditability.{
  Entry, decoder_unless, QuotientCertificate, is_none, analyze_auditability,
}
use auditspec.Core.InformationOrder.Auditability.Total.{
  AllEncoded, partition-returns, first_twin-returns, decoder_unless-returns,
}
use auditspec.Core.InformationOrder.Auditability.Decoder.{Encoded, Decodes, decoder_table-Decodes}

abbrev pub id_of : ChannelRow → String
id_of r = r.world_id

abbrev pub evidence_of : ChannelRow → Value
evidence_of r = r.evidence_value

abbrev pub claim_of : ChannelRow → Value
claim_of r = r.claim_value

-- What `_json` returns is its argument, which has an encoding.
pub json-encodes : (v w : Value) → json v ≡ ok w → (k : Key) × (canonical_json w ≡ ok k)
unfolding json
json-encodes v w h = elim (Result-cases (canonical_json v)) [
  | inl (k, e) ↦
      let d : v ≡ w = ok-injective v w (sym (rw (e, json)) ∙ h) in
      (k, sym (ap canonical_json d) ∙ e)
  | inr (e, f) ↦ absurd (cc (h, json_fails v e f))
]
  where
    json_fails :
        (v : Value) (e : _)
        → canonical_json v ≡ err e
        → json v ≡ err (information_order "value is not canonical JSON")
    json_fails v e f = rw (f, json)

channel_row-checked :
    (raw : Value) (r : ChannelRow)
    → channel_row raw ≡ ok r
    → ((v : Value) × (json v ≡ ok r.evidence_value)) × ((w : Value) × (json w ≡ ok r.claim_value))
unfolding channel_row
channel_row-checked (obj row) r h = grind arith
channel_row-checked _ r h = ground arith

pub channel_rows-rows :
    (raw : List Value) (rows : List ChannelRow)
    → channel_rows raw ≡ ok rows
    → (normalized : List ChannelRow) × (traverse channel_row raw ≡ ok normalized)
      × (sort_by text_order id_of normalized ≡ rows)
unfolding channel_rows
channel_rows-rows raw rows h =
    let (normalized, p, k) =
      >>=-eq-ok (traverse channel_row raw)
        (λ normalized.
          require (populated (map id_of normalized))
            (information_order "finite channel worlds are empty or duplicated")
          >> ok (sort_by text_order id_of normalized))
        h in
    let (_, l) =
      require-eq-ok (populated (map id_of normalized))
        (information_order "finite channel worlds are empty or duplicated")
        (ok (sort_by text_order id_of normalized)) k in
    (normalized, p, ok-injective (sort_by text_order id_of normalized) rows l)

-- The rows that the checks admit have encodings.
pub channel_rows-Encoded :
    (raw : List Value) (rows : List ChannelRow)
    → channel_rows raw ≡ ok rows
    → (r : ChannelRow) → Member r rows
    → Encoded id_of evidence_of claim_of r
channel_rows-Encoded raw rows h r m =
    let (normalized, p, d) = channel_rows-rows raw rows h in
    let n = sort_by-member text_order id_of r normalized (subst (Member r) (sym d) m) in
    let (v, _, e) = traverse-member channel_row raw normalized p r n in
    let ((x, hx), (y, hy)) = channel_row-checked v r e in
    let (k, ek) = json-encodes x r.evidence_value hx in
    let (c, ec) = json-encodes y r.claim_value hy in (k, c, ek, ec)

-- The parts of a certificate.
pub record IsFrom (raw : List Value) (q : QuotientCertificate) : Type 0 where
  pub rows : channel_rows raw ≡ ok q.rows
  pub evidence : partition id_of evidence_of q.rows ≡ ok q.evidence_partition
  pub twin : first_twin id_of evidence_of claim_of q.rows ≡ ok q.twin
  pub decoder :
      decoder_unless evidence_of claim_of q.twin q.rows q.evidence_partition ≡ ok q.decoder
  pub exists : q.factorization_exists ≡ is_none q.twin

pub analyze-IsFrom :
    (claim_id evidence_id : String) (raw : List Value) (q : QuotientCertificate)
    → analyze_auditability claim_id evidence_id raw ≡ ok q
    → IsFrom raw q
unfolding analyze_auditability
analyze-IsFrom claim_id evidence_id raw q h = ground arith

-- With a twin, two rows share their evidence and differ in their claim; without, the decoder gives
-- every row's claim from its evidence. The flag tells which.
abbrev pub QuotientVerdict : List ChannelRow → Option AuditTwin → List Entry → Bool → Type 0
QuotientVerdict rows none table flag = Decodes id_of evidence_of claim_of rows table × (flag ≡ true)
QuotientVerdict rows (some t) table flag =
    IsTwin id_of evidence_of claim_of rows t × (table ≡ []) × (flag ≡ false)

pub verdict-by_twin :
    (raw : List Value) (rows : List ChannelRow) (groups : List Group) (o : Option AuditTwin)
    (table : List Entry)
    → channel_rows raw ≡ ok rows
    → partition id_of evidence_of rows ≡ ok groups
    → TwinVerdict id_of evidence_of claim_of rows (ok o)
    → decoder_unless evidence_of claim_of o rows groups ≡ ok table
    → QuotientVerdict rows o table (is_none o)
unfolding decoder_unless
verdict-by_twin raw rows groups none table hr hp factors ht = (
  decoder_table-Decodes id_of evidence_of claim_of rows groups table
      (channel_rows-Encoded raw rows hr) factors hp ht,
  refl,
)
verdict-by_twin raw rows groups (some t) table hr hp twin ht =
    (twin, sym (ok-injective [] table ht), refl)

pub certificate-QuotientVerdict :
    (claim_id evidence_id : String) (raw : List Value) (q : QuotientCertificate)
    → analyze_auditability claim_id evidence_id raw ≡ ok q
    → QuotientVerdict q.rows q.twin q.decoder q.factorization_exists
certificate-QuotientVerdict claim_id evidence_id raw q h =
    let from = analyze-IsFrom claim_id evidence_id raw q h in
    let twin =
      subst (TwinVerdict id_of evidence_of claim_of q.rows) from.twin
        (first_twin-TwinVerdict id_of evidence_of claim_of q.rows) in
    subst (QuotientVerdict q.rows q.twin q.decoder) (sym from.exists) (
      verdict-by_twin raw q.rows q.evidence_partition q.twin q.decoder from.rows from.evidence twin
        from.decoder)

-- An error is that of a check; a certificate is of the checked rows, and right.
abbrev pub AnalysisVerdict : String → String → List Value → Result QuotientCertificate → Type 0
AnalysisVerdict claim_id evidence_id raw (err e) =
    (channel_rows raw ≡ err e)
    ⊎ ((identifier (str claim_id) ≡ err e) ⊎ (identifier (str evidence_id) ≡ err e))
AnalysisVerdict claim_id evidence_id raw (ok q) =
    (channel_rows raw ≡ ok q.rows) × QuotientVerdict q.rows q.twin q.decoder q.factorization_exists

analyze-error :
    (claim_id evidence_id : String) (raw : List Value) (e : Error)
    → analyze_auditability claim_id evidence_id raw ≡ err e
    → AnalysisVerdict claim_id evidence_id raw (err e)
unfolding analyze_auditability
analyze-error claim_id evidence_id raw e h = elim (>>=-eq-err (channel_rows raw) _ h) [
  | inl f ↦ inl f
  | inr (rows, p, k) ↦
      let encoded = channel_rows-Encoded raw rows p in
      let by_claim : AllEncoded id_of claim_of claim_of rows =
        λ r m. let (a, c, v, w) = encoded r m in (c, c, w, w) in
      let (groups, g) = partition-returns id_of evidence_of claim_of rows encoded in
      let (claims, c) = partition-returns id_of claim_of claim_of rows by_claim in
      let (twin, t) = first_twin-returns id_of evidence_of claim_of rows encoded in
      let (table, d) =
        decoder_unless-returns id_of evidence_of claim_of twin rows groups encoded g in
      elim (>>=-eq-err (partition id_of evidence_of rows) _ k) [
        | inl f ↦ absurd (cc (f, g))
        | inr (groups', g', k) ↦ elim (>>=-eq-err (partition id_of claim_of rows) _ k) [
          | inl f ↦ absurd (cc (f, c))
          | inr (claims', _, k) ↦
              elim (>>=-eq-err (first_twin id_of evidence_of claim_of rows) _ k) [
                | inl f ↦ absurd (cc (f, t))
                | inr (twin', _, k) ↦
                    elim (>>=-eq-err (decoder_unless evidence_of claim_of twin' rows groups') _ k) [
                      | inl f ↦
                          let (other, d') =
                            decoder_unless-returns id_of evidence_of claim_of twin' rows groups'
                              encoded g' in
                          absurd (cc (f, d'))
                      | inr (_, _, k) ↦ elim (>>=-eq-err (identifier (str claim_id)) _ k) [
                        | inl f ↦ inr (inl f)
                        | inr (_, _, k) ↦ elim (>>=-eq-err (identifier (str evidence_id)) _ k) [
                          | inl f ↦ inr (inr f)
                          | inr (_, _, k) ↦ absurd (ground arith)
                        ]
                      ]
                    ]
              ]
        ]
      ]
]

-- The analysis fails only with the error of a check: of the rows or of an identifier. Otherwise the
-- certificate is of the checked rows, and its decoder gives every row's claim from its evidence, or
-- its twin is two of the rows with one evidence and different claims.
pub analyze_auditability-AnalysisVerdict :
    (claim_id evidence_id : String) (raw : List Value)
    → AnalysisVerdict claim_id evidence_id raw (analyze_auditability claim_id evidence_id raw)
analyze_auditability-AnalysisVerdict claim_id evidence_id raw =
    elim (Result-cases (analyze_auditability claim_id evidence_id raw)) [
      | inr (e, h) ↦
          subst (AnalysisVerdict claim_id evidence_id raw) (sym h)
            (analyze-error claim_id evidence_id raw e h)
      | inl (q, h) ↦
          let from = analyze-IsFrom claim_id evidence_id raw q h in
          subst (AnalysisVerdict claim_id evidence_id raw) (sym h)
            (from.rows, certificate-QuotientVerdict claim_id evidence_id raw q h)
    ]
