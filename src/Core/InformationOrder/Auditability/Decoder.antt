-- ===== src/Core/InformationOrder/Auditability/Decoder.antt =====
-- A decoder table gives every row's claim from its evidence.
use mathlib.Core.Path.{subst}
use auditspec.Prelude.{
  ℕ, String, Option, none, some, List, [], ◌∷◌, map, ◌≡◌, refl, sym, ap, ◌∙◌, arith, Member,
  map-member, member-map, get_elem?, get_elem-member, member-get_elem,
}
use auditspec.Prelude.Order.{nat_order, list_order, sort_by, member-sort_by, sort_by-member}
use auditspec.Prelude.Result.{
  ok, ◌>>=◌, >>=-eq-ok, ok-injective, traverse, traverse-member, member-traverse,
}
use auditspec.Core.Value.{Value}
use auditspec.Core.Canonical.{canonical_json}
use auditspec.Core.InformationOrder.Twin.{Key, Group, keyed_partition, partition}
use auditspec.Core.InformationOrder.Twin.Verdict.{HasValue, HasClaim, Factors}
use auditspec.Core.InformationOrder.Twin.Groups.{keyed_partition-IsPartition}
use auditspec.Core.InformationOrder.Auditability.{
  Entry, row_entry, group_entry, keyed_entry, decoder_table,
}

module _ {Row : Type 0} (row_id : Row → String) (value : Row → Value) (claim : Row → Value) where
  abbrev pub entry_of : Row → Entry
  entry_of r = (value r, claim r)

  -- A row with both encodings.
  abbrev pub Encoded : Row → Type 0
  Encoded r =
      (k : Key) × (c : Key) × HasValue row_id value claim r k × HasClaim row_id value claim r c

  -- What the table says of a row: it has an entry with the row's evidence, and every such entry has
  -- the row's claim.
  pub record Decoded (table : List Entry) (r : Row) : Type 0 where
    pub k : Key
    pub c : Key
    pub has_value : HasValue row_id value claim r k
    pub has_claim : HasClaim row_id value claim r c
    pub found : (e : Entry) × Member e table × (canonical_json (e.0) ≡ ok k)
    pub right :
        (e : Entry) → Member e table → canonical_json (e.0) ≡ ok k → canonical_json (e.1) ≡ ok c

  abbrev pub Decodes : List Row → List Entry → Type 0
  Decodes rows table = (r : Row) → Member r rows → Decoded table r

  abbrev sorted_entries : List (Key × Entry) → List Entry
  sorted_entries keyed =
      map (λ p. p.1) (sort_by (list_order nat_order) (λ (p : Key × Entry). p.0) keyed)

  record Parts (rows : List Row) (groups : List Group) (table : List Entry) : Type 0 where
    entries : List Entry
    keyed : List (Key × Entry)
    entries_eq :
        traverse (λ (g : Group). group_entry value claim rows g.row_indexes) groups ≡ ok entries
    keyed_eq : traverse (keyed_entry value claim) entries ≡ ok keyed
    table_eq : sorted_entries keyed ≡ table

  decoder_table-Parts :
      (rows : List Row) (groups : List Group) (table : List Entry)
      → decoder_table value claim rows groups ≡ ok table
      → Parts rows groups table
  unfolding decoder_table
  decoder_table-Parts rows groups table h =
      let (entries, p, k) =
        >>=-eq-ok (traverse (λ (g : Group). group_entry value claim rows g.row_indexes) groups)
          (λ entries.
            traverse (keyed_entry value claim) entries >>= λ keyed. ok (sorted_entries keyed))
          h in
      let (keyed, q, l) =
        >>=-eq-ok (traverse (keyed_entry value claim) entries) (λ keyed. ok (sorted_entries keyed))
          k in
      record {
        entries = entries;
        keyed = keyed;
        entries_eq = p;
        keyed_eq = q;
        table_eq = ok-injective (sorted_entries keyed) table l;
      }

  keyed_entry-second : (e : Entry) (p : Key × Entry) → keyed_entry value claim e ≡ ok p → e ≡ p.1
  unfolding keyed_entry
  keyed_entry-second e p h =
      let (k, _, l) = >>=-eq-ok (canonical_json (e.0)) (λ key. ok (key, e)) h in
      ap (λ (x : Key × Entry). x.1) (ok-injective (k, e) p l)

  -- The table's entries are those of the groups' first rows.
  entry-member :
      (rows : List Row) (groups : List Group) (table : List Entry)
      → Parts rows groups table
      → (e : Entry) → Member e table
      → (g : Group) × Member g groups × (group_entry value claim rows g.row_indexes ≡ ok e)
  entry-member rows groups table parts e m =
      let (p, i, d) =
        map-member (λ (p : Key × Entry). p.1) e
          (sort_by (list_order nat_order) (λ (p : Key × Entry). p.0) parts.keyed)
          (subst (Member e) (sym parts.table_eq) m) in
      let j = sort_by-member (list_order nat_order) (λ (p : Key × Entry). p.0) p parts.keyed i in
      let (x, n, h) =
        traverse-member (keyed_entry value claim) parts.entries parts.keyed parts.keyed_eq p j in
      let same : x ≡ e = keyed_entry-second x p h ∙ sym d in
      traverse-member (λ (g : Group). group_entry value claim rows g.row_indexes) groups
        parts.entries parts.entries_eq e (subst (λ y. Member y parts.entries) same n)

  member-entry :
      (rows : List Row) (groups : List Group) (table : List Entry)
      → Parts rows groups table
      → (g : Group) → Member g groups
      → (e : Entry) × Member e table × (group_entry value claim rows g.row_indexes ≡ ok e)
  member-entry rows groups table parts g m =
      let (e, n, h) =
        member-traverse (λ (g : Group). group_entry value claim rows g.row_indexes) groups
          parts.entries parts.entries_eq g m in
      let (p, i, k) =
        member-traverse (keyed_entry value claim) parts.entries parts.keyed parts.keyed_eq e n in
      let j = member-sort_by (list_order nat_order) (λ (p : Key × Entry). p.0) p parts.keyed i in
      (
        e,
        subst (Member e) parts.table_eq (
            subst (λ x. Member x (sorted_entries parts.keyed)) (sym (keyed_entry-second e p k))
              (member-map (λ (p : Key × Entry). p.1) p
                (sort_by (list_order nat_order) (λ (p : Key × Entry). p.0) parts.keyed) j)),
        h,
      )

  pub group_entry-row :
      (rows : List Row) (indexes : List ℕ) (e : Entry)
      → group_entry value claim rows indexes ≡ ok e
      → (r : Row) × Member r rows × (e ≡ entry_of r)
  unfolding group_entry row_entry
  group_entry-row rows [] e h = absurd (ground arith)
  group_entry-row rows (i ∷ is) e h = of_place (get_elem? rows i) refl h
    where
      of_place :
          (o : Option Row)
          → get_elem? rows i ≡ o
          → row_entry value claim o ≡ ok e
          → (r : Row) × Member r rows × (e ≡ entry_of r)
      of_place none p h = absurd (ground arith)
      of_place (some r) p h = (r, get_elem-member rows i r p, sym (ok-injective (entry_of r) e h))

  pub head_entry :
      (rows : List Row) (indexes more : List ℕ) (i : ℕ) (r : Row)
      → indexes ≡ i ∷ more
      → get_elem? rows i ≡ some r
      → group_entry value claim rows indexes ≡ ok (entry_of r)
  unfolding group_entry row_entry
  head_entry rows indexes more i r d p = rw (d, p)

  -- A table built over the partition by a value that the claim factors through decodes every row.
  pub decoder_table-Decodes :
      (rows : List Row) (groups : List Group) (table : List Entry)
      → ((r : Row) → Member r rows → Encoded r)
      → Factors row_id value claim rows
      → partition row_id value rows ≡ ok groups
      → decoder_table value claim rows groups ≡ ok table
      → Decodes rows table
  unfolding partition
  decoder_table-Decodes rows groups table encoded factors hp ht r m =
      let parts = decoder_table-Parts rows groups table ht in
      let (k, c, v, w) = encoded r m in
      let (a, g) = member-get_elem rows r m in
      let (keyed, q, l) =
        >>=-eq-ok (keyed_partition row_id value rows) (λ groups. ok (map (λ g. g.1) groups)) hp in
      let part = keyed_partition-IsPartition row_id value rows keyed q in
      let (group, n) = part.covers a r k g v in
      let (i, more, s, d, p, u) = part.headed k group n in
      let inside =
        subst (Member group) (ok-injective (map (λ g. g.1) keyed) groups l)
          (member-map (λ (x : Key × Group). x.1) (k, group) keyed n) in
      let (e, o, h) = member-entry rows groups table parts group inside in
      let same : entry_of s ≡ e =
        ok-injective (entry_of s) e (sym (head_entry rows group.row_indexes more i s d p) ∙ h) in
      record {
        k = k;
        c = c;
        has_value = v;
        has_claim = w;
        found = (e, o, subst (λ (x : Entry). canonical_json (x.0) ≡ ok k) same u);
        right = λ f o h.
            let (group, _, h') = entry-member rows groups table parts f o in
            let (t, n, d) = group_entry-row rows group.row_indexes f h' in
            let (_, b, _, w') = encoded t n in
            let (j, p) = member-get_elem rows t n in
            let value_t = subst (λ (x : Entry). canonical_json (x.0) ≡ ok k) d h in
            let same_claim = factors a j r t k c b g p v value_t w w' in
            subst (λ (x : Entry). canonical_json (x.1) ≡ ok c) (sym d)
              (w' ∙ ap ok (sym same_claim));
      }
