-- ===== src/Core/InformationOrder/Auditability/Total.antt =====
-- On rows that have encodings, the partition, the twin and the decoder are computed without an error.
use mathlib.Core.Path.{subst}
use auditspec.Prelude.{
  ℕ, suc, String, Option, none, some, List, [], ◌∷◌, map, ◌≡◌, refl, sym, ap, ◌∙◌, inl, inr, Member,
  get_elem-member, map-member,
}
use auditspec.Prelude.Order.{nat_order, list_order, sort_by}
use auditspec.Prelude.Result.{
  ok, >>=-eq-ok, ok-injective, traverse-Each, traverse-member, Result-cases,
}
use auditspec.Core.Value.{Value}
use auditspec.Core.Canonical.{canonical_json}
use auditspec.Core.InformationOrder.Twin.{
  Key, AuditTwin, Group, Groups, add_to, groups_from, keyed_partition, partition, first_twin,
}
use auditspec.Core.InformationOrder.Twin.Verdict.{TwinVerdict}
use auditspec.Core.InformationOrder.Twin.Laws.{first_twin-TwinVerdict}
use auditspec.Core.InformationOrder.Twin.Groups.{keyed_partition-IsPartition}
use auditspec.Core.InformationOrder.Auditability.{
  Entry, group_entry, keyed_entry, decoder_table, decoder_unless,
}
use auditspec.Core.InformationOrder.Auditability.Decoder.{
  Encoded, entry_of, head_entry, group_entry-row,
}

module _ {Row : Type 0} (row_id : Row → String) (value : Row → Value) (claim : Row → Value) where
  abbrev pub AllEncoded : List Row → Type 0
  AllEncoded rows = (r : Row) → Member r rows → Encoded row_id value claim r

  groups_from-returns :
      (index : ℕ) (rows : List Row) (groups : Groups)
      → AllEncoded rows
      → (result : Groups) × (groups_from row_id value index rows groups ≡ ok result)
  unfolding groups_from
  groups_from-returns index [] groups h = (groups, refl)
  groups_from-returns index (row ∷ rows) groups h =
      let (k, _, v, _) = h row (inl refl) in
      let (result, e) =
        groups_from-returns (suc index) rows (add_to k index (row_id row) (value row) groups)
          (λ r m. h r (inr m)) in
      (result, rw (v, groups_from) e)

  pub partition-returns :
      (rows : List Row)
      → AllEncoded rows
      → (groups : List Group) × (partition row_id value rows ≡ ok groups)
  unfolding partition keyed_partition
  partition-returns rows h =
      let (groups, e) = groups_from-returns 0 rows [] h in
      (
        map (λ (g : Key × Group). g.1)
            (sort_by (list_order nat_order) (λ (g : Key × Group). g.0) groups),
        rw e refl,
      )

  pub first_twin-returns :
      (rows : List Row)
      → AllEncoded rows
      → (o : Option AuditTwin) × (first_twin row_id value claim rows ≡ ok o)
  first_twin-returns rows h = elim (Result-cases (first_twin row_id value claim rows)) [
    | inl r ↦ r
    | inr (e, d) ↦
        let (a, r, g, bad) =
          subst (TwinVerdict row_id value claim rows) d
            (first_twin-TwinVerdict row_id value claim rows) in
        let (k, c, v, w) = h r (get_elem-member rows a r g) in
        elim bad [ inl b ↦ absurd (cc (b, v)) | inr b ↦ absurd (cc (b, w)) ]
  ]

  pub decoder_table-returns :
      (rows : List Row) (groups : List Group)
      → AllEncoded rows
      → partition row_id value rows ≡ ok groups
      → (table : List Entry) × (decoder_table value claim rows groups ≡ ok table)
  unfolding decoder_table partition keyed_entry
  decoder_table-returns rows groups h hp =
      let (keyed, q, l) =
        >>=-eq-ok (keyed_partition row_id value rows) (λ groups. ok (map (λ g. g.1) groups)) hp in
      let part = keyed_partition-IsPartition row_id value rows keyed q in
      let same = ok-injective (map (λ g. g.1) keyed) groups l in
      let (entries, e, _) =
        traverse-Each (λ (g : Group) (x : Entry). Unit {0})
          (λ (g : Group). group_entry value claim rows g.row_indexes) groups
          (λ g m.
            let ((k, g'), n, d) =
              map-member (λ (x : Key × Group). x.1) g keyed (subst (Member g) (sym same) m) in
            let (i, more, s, f, p, u) = part.headed k g' n in
            (
              entry_of row_id value claim s,
              head_entry row_id value claim rows g.row_indexes more i s
                  (ap (λ (x : Group). x.row_indexes) d ∙ f) p,
              tt,
            )) in
      let (pairs, f, _) =
        traverse-Each (λ (x : Entry) (y : Key × Entry). Unit {0}) (keyed_entry value claim) entries
          (λ x m.
            let (g, _, b) =
              traverse-member (λ (g : Group). group_entry value claim rows g.row_indexes) groups
                entries e x m in
            let (r, n, d) = group_entry-row row_id value claim rows g.row_indexes x b in
            let (k, c, v, w) = h r n in
            ((k, x), keys_of x k (ap (λ (y : Entry). canonical_json (y.0)) d ∙ v), tt)) in
      (
        map (λ (p : Key × Entry). p.1)
            (sort_by (list_order nat_order) (λ (p : Key × Entry). p.0) pairs),
        rw (e, f) refl,
      )
    where
      keys_of :
          (x : Entry) (k : Key)
          → canonical_json (x.0) ≡ ok k
          → keyed_entry value claim x ≡ ok (k, x)
      keys_of x k e = rw e refl

  pub decoder_unless-returns :
      (o : Option AuditTwin) (rows : List Row) (groups : List Group)
      → AllEncoded rows
      → partition row_id value rows ≡ ok groups
      → (table : List Entry) × (decoder_unless value claim o rows groups ≡ ok table)
  unfolding decoder_unless
  decoder_unless-returns none rows groups h hp = decoder_table-returns rows groups h hp
  decoder_unless-returns (some t) rows groups h hp = ([], refl)
