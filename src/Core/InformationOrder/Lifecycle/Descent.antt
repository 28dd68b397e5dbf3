-- ===== src/Core/InformationOrder/Lifecycle/Descent.antt =====
-- The claim's decoder descends through the transformation, or two states show what it lost.
use Prim.Native.String
use mathlib.Core.Path.{subst}
use auditspec.Prelude.{
  String, Bool, true, false, Option, none, some, List, [], map, ◌≡◌, ◌≢◌, refl, sym, ap, ◌∙◌, arith,
  Member, member-map, get_elem-member, if◌then◌else◌,
}
use auditspec.Prelude.Text.{text_order}
use auditspec.Prelude.Order.{member-sort_by}
use auditspec.Prelude.Result.{ok, >>=-eq-ok, ok-injective, member-traverse}
use auditspec.Core.Value.{Value, get}
use auditspec.Core.Canonical.{canonical_json}
use auditspec.Core.InformationOrder.Rows.{ChannelRow, channel_row, channel_rows, json, item}
use auditspec.Core.InformationOrder.Twin.{Key, AuditTwin, first_twin, partition}
use auditspec.Core.InformationOrder.Twin.Verdict.{IsTwin, TwinVerdict}
use auditspec.Core.InformationOrder.Twin.Laws.{first_twin-TwinVerdict}
use auditspec.Core.InformationOrder.Auditability.{
  Entry, QuotientCertificate, analyze_auditability, is_none,
}
use auditspec.Core.InformationOrder.Auditability.Decoder.{Decodes, decoder_table-Decodes}
use auditspec.Core.InformationOrder.Auditability.Correct.{
  QuotientVerdict, certificate-QuotientVerdict, analyze-IsFrom, channel_rows-rows, id_of,
  evidence_of,
}
use auditspec.Core.InformationOrder.Lifecycle.{
  LifecycleRow, lifecycle_rows, source_row, LifecycleStatus, preserved, hard_semantic_gap,
  LifecycleCertificate, induced_table, descend, analyze_lifecycle_transformation, state_of,
  transformed_of, claim_of,
}
use auditspec.Core.InformationOrder.Lifecycle.Checks.{
  IsFunction, lifecycle_rows-IsFunction, lifecycle_rows-Encoded,
}

source_row-row :
    (r : LifecycleRow) (c : ChannelRow)
    → channel_row (source_row r) ≡ ok c
    → (r.source_evidence ≡ c.evidence_value) × (r.claim_value ≡ c.claim_value)
unfolding channel_row source_row item get json
source_row-row r c h = grind arith

-- Each state is a world of the source channel.
source-world :
    (rows : List LifecycleRow) (worlds : List ChannelRow)
    → channel_rows (map source_row rows) ≡ ok worlds
    → (r : LifecycleRow) → Member r rows
    → (c : ChannelRow) × Member c worlds
      × (r.source_evidence ≡ c.evidence_value)
      × (r.claim_value ≡ c.claim_value)
source-world rows worlds h r m =
    let (normalized, p, d) = channel_rows-rows (map source_row rows) worlds h in
    let (c, n, e) =
      member-traverse channel_row (map source_row rows) normalized p (source_row r)
        (member-map source_row r rows m) in
    let (x, y) = source_row-row r c e in
    (c, subst (Member c) d (member-sort_by text_order id_of c normalized n), x, y)

-- The source evidence determines the claim.
abbrev pub Supports : List LifecycleRow → Type 0
Supports rows =
    (r s : LifecycleRow) (k c d : Key)
    → Member r rows
    → Member s rows
    → canonical_json r.source_evidence ≡ ok k
    → canonical_json s.source_evidence ≡ ok k
    → canonical_json r.claim_value ≡ ok c
    → canonical_json s.claim_value ≡ ok d
    → c ≡ d

verdict-Decodes :
    (rows : List ChannelRow) (o : Option AuditTwin) (table : List Entry)
    → QuotientVerdict rows o table true
    → Decodes id_of evidence_of (λ r. r.claim_value) rows table
verdict-Decodes rows none table v = v.0
verdict-Decodes rows (some t) table (_, _, v) = absurd (ground arith)

source-Supports :
    (claim_id evidence_id : String) (rows : List LifecycleRow) (q : QuotientCertificate)
    → analyze_auditability claim_id evidence_id (map source_row rows) ≡ ok q
    → q.factorization_exists ≡ true
    → Supports rows
source-Supports claim_id evidence_id rows q h f r s k c d i j p p' w w' =
    let from = analyze-IsFrom claim_id evidence_id (map source_row rows) q h in
    let decodes = verdict-Decodes q.rows q.twin q.decoder (
      subst (QuotientVerdict q.rows q.twin q.decoder) f
        (certificate-QuotientVerdict claim_id evidence_id (map source_row rows) q h)) in
    let (x, m, x_evidence, x_claim) = source-world rows q.rows from.rows r i in
    let (y, n, y_evidence, y_claim) = source-world rows q.rows from.rows s j in
    let dx = decodes x m in
    let dy = decodes y n in
    let kx : dx.k ≡ k =
      ok-injective dx.k k (sym dx.has_value ∙ ap canonical_json (sym x_evidence) ∙ p) in
    let ky : dy.k ≡ k =
      ok-injective dy.k k (sym dy.has_value ∙ ap canonical_json (sym y_evidence) ∙ p') in
    let (e, o, g) = dx.found in
    let to_x = dx.right e o g in
    let to_y = dy.right e o (g ∙ ap ok (kx ∙ sym ky)) in
    let cx : dx.c ≡ c =
      ok-injective dx.c c (sym dx.has_claim ∙ ap canonical_json (sym x_claim) ∙ w) in
    let cy : dy.c ≡ d =
      ok-injective dy.c d (sym dy.has_claim ∙ ap canonical_json (sym y_claim) ∙ w') in
    sym cx ∙ ok-injective dx.c dy.c (sym to_x ∙ to_y) ∙ cy

-- Two states that the transformation makes one though their claims differ: their sources differ.
pub record IsLost (rows : List LifecycleRow) (t : AuditTwin) : Type 0 where
  pub twin : IsTwin state_of transformed_of claim_of rows t
  pub apart :
      (k l : Key)
      → canonical_json twin.r.source_evidence ≡ ok k
      → canonical_json twin.s.source_evidence ≡ ok l
      → k ≢ l

abbrev pub DescentVerdict :
    List LifecycleRow → Option AuditTwin → List Entry → LifecycleStatus → Bool → Type 0
DescentVerdict rows none table status flag =
    Decodes state_of transformed_of claim_of rows table × (status ≡ preserved) × (flag ≡ true)
DescentVerdict rows (some t) table status flag =
    IsLost rows t × (table ≡ []) × (status ≡ hard_semantic_gap) × (flag ≡ false)

pub record LifecycleVerdict (a : LifecycleCertificate) : Type 0 where
  pub supports : Supports a.rows
  pub function : IsFunction a.rows
  pub descends :
      DescentVerdict a.rows a.lifecycle_twin a.induced_decoder a.status a.kernel_inclusion

twin-IsLost :
    (rows : List LifecycleRow) (t : AuditTwin)
    → Supports rows
    → IsTwin state_of transformed_of claim_of rows t
    → IsLost rows t
twin-IsLost rows t supports twin = record {
  twin = twin;
  apart = λ k l p q e. twin.differ (
      supports twin.r twin.s l twin.c twin.d (get_elem-member rows twin.a twin.r twin.left)
        (get_elem-member rows twin.b twin.s twin.right) (p ∙ ap ok e) q twin.left_claim
        twin.right_claim);
}

descent-by_twin :
    (raw : List Value) (rows : List LifecycleRow) (o : Option AuditTwin) (table : List Entry)
    → lifecycle_rows raw ≡ ok rows
    → Supports rows
    → TwinVerdict state_of transformed_of claim_of rows (ok o)
    → induced_table o rows ≡ ok table
    → DescentVerdict rows o table (if is_none o then preserved else hard_semantic_gap) (is_none o)
unfolding induced_table
descent-by_twin raw rows none table h s factors e =
    let (groups, p, q) = >>=-eq-ok (partition state_of transformed_of rows) _ e in
    (
      decoder_table-Decodes state_of transformed_of claim_of rows groups table
          (lifecycle_rows-Encoded raw rows h) factors p q,
      refl,
      refl,
    )
descent-by_twin raw rows (some t) table h s twin e =
    (twin-IsLost rows t s twin, sym (ok-injective [] table e), refl, refl)

pub record IsFrom (claim_id evidence_id : String) (raw : List Value) (a : LifecycleCertificate)
    : Type 0 where
  pub source : QuotientCertificate
  pub rows : lifecycle_rows raw ≡ ok a.rows
  pub analyzed : analyze_auditability claim_id evidence_id (map source_row a.rows) ≡ ok source
  pub supported : source.factorization_exists ≡ true
  pub twin : first_twin state_of transformed_of claim_of a.rows ≡ ok a.lifecycle_twin
  pub table : induced_table a.lifecycle_twin a.rows ≡ ok a.induced_decoder
  pub status : a.status ≡ (if is_none a.lifecycle_twin then preserved else hard_semantic_gap)
  pub flag : a.kernel_inclusion ≡ is_none a.lifecycle_twin

record Descends (a : LifecycleCertificate) (rows : List LifecycleRow) (source : QuotientCertificate)
    : Type 0 where
  same : a.rows ≡ rows
  supported : source.factorization_exists ≡ true
  twin : first_twin state_of transformed_of claim_of rows ≡ ok a.lifecycle_twin
  table : induced_table a.lifecycle_twin rows ≡ ok a.induced_decoder
  status : a.status ≡ (if is_none a.lifecycle_twin then preserved else hard_semantic_gap)
  flag : a.kernel_inclusion ≡ is_none a.lifecycle_twin

descend-Descends :
    (claim_id transformation_id : String) (rows : List LifecycleRow) (q : QuotientCertificate)
    (a : LifecycleCertificate)
    → descend claim_id transformation_id rows q ≡ ok a
    → Descends a rows q
unfolding descend
descend-Descends claim_id transformation_id rows q a h = ground arith

pub analyze-IsFrom_source :
    (claim_id transformation_id : String) (raw : List Value) (a : LifecycleCertificate)
    → analyze_lifecycle_transformation claim_id transformation_id raw ≡ ok a
    → (evidence_id : String) × IsFrom claim_id evidence_id raw a
unfolding analyze_lifecycle_transformation
analyze-IsFrom_source claim_id transformation_id raw a h =
    let (rows, p, k) = >>=-eq-ok (lifecycle_rows raw) _ h in
    let evidence_id = String.◌++◌ transformation_id ":source" in
    let (source, q, l) =
      >>=-eq-ok (analyze_auditability claim_id evidence_id (map source_row rows)) _ k in
    let d = descend-Descends claim_id transformation_id rows source a l in
    (
      evidence_id,
      record {
        source = source;
        rows = p ∙ ap ok (sym d.same);
        analyzed =
            subst (λ x. analyze_auditability claim_id evidence_id (map source_row x) ≡ ok source)
              (sym d.same) q;
        supported = d.supported;
        twin =
            subst (λ x. first_twin state_of transformed_of claim_of x ≡ ok a.lifecycle_twin)
              (sym d.same) d.twin;
        table =
            subst (λ x. induced_table a.lifecycle_twin x ≡ ok a.induced_decoder) (sym d.same)
              d.table;
        status = d.status;
        flag = d.flag;
      },
    )

pub certificate-LifecycleVerdict :
    (claim_id transformation_id : String) (raw : List Value) (a : LifecycleCertificate)
    → analyze_lifecycle_transformation claim_id transformation_id raw ≡ ok a
    → LifecycleVerdict a
certificate-LifecycleVerdict claim_id transformation_id raw a h =
    let (evidence_id, from) = analyze-IsFrom_source claim_id transformation_id raw a h in
    let supports =
      source-Supports claim_id evidence_id a.rows from.source from.analyzed from.supported in
    let twin =
      subst (TwinVerdict state_of transformed_of claim_of a.rows) from.twin
        (first_twin-TwinVerdict state_of transformed_of claim_of a.rows) in
    let v =
      descent-by_twin raw a.rows a.lifecycle_twin a.induced_decoder from.rows supports twin
        from.table in
    record {
      supports = supports;
      function = lifecycle_rows-IsFunction raw a.rows from.rows;
      descends =
          subst (λ b. DescentVerdict a.rows a.lifecycle_twin a.induced_decoder a.status b)
            (sym from.flag)
            (subst
              (λ s.
                DescentVerdict a.rows a.lifecycle_twin a.induced_decoder s
                  (is_none a.lifecycle_twin))
              (sym from.status) v);
    }
