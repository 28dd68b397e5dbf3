-- ===== src/Core/InformationOrder/Twin/Groups.antt =====
-- The partition by a value: each row's key has a group, and a group's first row has its key.
use mathlib.Core.Path.{subst}
use mathlib.Core.Option.{some-injective}
use native.Mathlib.Decide.{dec_lt}
use native.Mathlib.Nat.{zero-add}
use auditspec.Prelude.{
  ℕ, suc, ◌+◌, ◌-◌, ◌<◌, String, some, List, [], ◌∷◌, ◌++◌, ◌≡◌, refl, sym, ap, ◌∙◌, inl, inr,
  arith, Member, All, All-member, get_elem?, Bool-cases,
}
use auditspec.Prelude.Text.{same_codes, same_codes→eq}
use auditspec.Prelude.Order.{nat_order, list_order, sort_by, member-sort_by, sort_by-member}
use auditspec.Prelude.Result.{ok, >>=-eq-ok, ok-injective}
use auditspec.Core.Value.{Value}
use auditspec.Core.Canonical.{canonical_json}
use auditspec.Core.InformationOrder.Twin.{Key, Group, Groups, add_to, groups_from, keyed_partition}

abbrev keys_of : Groups → List Key
keys_of [] = []
keys_of ((k, g) ∷ groups) = k ∷ keys_of groups

keys_of-member :
    (k : Key) (groups : Groups) → Member k (keys_of groups) → (g : Group) × Member (k, g) groups
keys_of-member k [] m = absurd m
keys_of-member k ((j, g) ∷ groups) (inl e) = (g, inl (ap (λ x. (x, g)) e))
keys_of-member k ((j, g) ∷ groups) (inr m) = let (h, r) = keys_of-member k groups m in (h, inr r)

add_to-key :
    (key : Key) (index : ℕ) (id : String) (v : Value) (groups : Groups)
    → Member key (keys_of (add_to key index id v groups))
unfolding add_to
add_to-key key index id v [] = inl refl
add_to-key key index id v ((k, g) ∷ groups) = elim (Bool-cases (same_codes k key)) [
  | inl t ↦ rw t (inl (sym (same_codes→eq k key t)))
  | inr f ↦ rw f (inr (add_to-key key index id v groups))
]

add_to-keeps :
    (key : Key) (index : ℕ) (id : String) (v : Value) (groups : Groups) (k : Key)
    → Member k (keys_of groups)
    → Member k (keys_of (add_to key index id v groups))
unfolding add_to
add_to-keeps key index id v [] k m = absurd m
add_to-keeps key index id v ((j, g) ∷ groups) k m = elim (Bool-cases (same_codes j key)) [
  | inl t ↦ rw t m
  | inr f ↦ rw f (elim m [ inl e ↦ inl e | inr r ↦ inr (add_to-keeps key index id v groups k r) ])
]

module _ {Row : Type 0} (row_id : Row → String) (value : Row → Value) (rows : List Row) where
  -- The group's first index is the place of a row with the group's key.
  abbrev pub IsHeaded : Key × Group → Type 0
  IsHeaded (k, g) =
      (i : ℕ) × (more : List ℕ) × (r : Row) × (g.row_indexes ≡ i ∷ more)
      × (get_elem? rows i ≡ some r)
      × (canonical_json (value r) ≡ ok k)

  add_to-IsHeaded :
      (key : Key) (index : ℕ) (row : Row) (groups : Groups)
      → get_elem? rows index ≡ some row
      → canonical_json (value row) ≡ ok key
      → All IsHeaded groups
      → All IsHeaded (add_to key index (row_id row) (value row) groups)
  unfolding add_to
  add_to-IsHeaded key index row [] g h a = ((index, [], row, refl, g, h), tt)
  add_to-IsHeaded key index row ((k, group) ∷ groups) g h ((i, more, r, e, p, v), a) =
      elim (Bool-cases (same_codes k key)) [
        | inl t ↦ rw t ((i, more ++ index ∷ [], r, rw e, p, v), a)
        | inr f ↦ rw f ((i, more, r, e, p, v), add_to-IsHeaded key index row groups g h a)
      ]

  record Inv (index : ℕ) (rest : List Row) (groups : Groups) : Type 0 where
    headed : All IsHeaded groups
    passed :
        (a : ℕ) (r : Row) (k : Key)
        → a < index
        → get_elem? rows a ≡ some r
        → canonical_json (value r) ≡ ok k
        → Member k (keys_of groups)
    suffix : (m n : ℕ) → m ≡ index + n → get_elem? rows m ≡ get_elem? rest n

  Inv-suc :
      (index : ℕ) (row : Row) (rest : List Row) (groups : Groups) (key : Key)
      → Inv index (row ∷ rest) groups
      → canonical_json (value row) ≡ ok key
      → Inv (suc index) rest (add_to key index (row_id row) (value row) groups)
  Inv-suc index row rest groups key i h =
      let here = i.suffix index 0 (omega arith) in
      record {
        headed = add_to-IsHeaded key index row groups here h i.headed;
        passed = λ a r k lt g v. elim (dec_lt a index) [
          | yes before ↦
              add_to-keeps key index (row_id row) (value row) groups k (i.passed a r k before g v)
          | no late ↦
              let place : index ≡ a = omega arith in
              let same : row ≡ r =
                some-injective row r (sym here ∙ ap (get_elem? rows) place ∙ g) in
              let same_key : key ≡ k =
                ok-injective key k (sym h ∙ ap (λ x. canonical_json (value x)) same ∙ v) in
              subst (λ x. Member x (keys_of (add_to key index (row_id row) (value row) groups)))
                same_key (add_to-key key index (row_id row) (value row) groups)
        ];
        suffix = λ m n e. i.suffix m (suc n) (omega arith);
      }

  -- A finished partition: headed groups, and a group for the key of every row.
  pub record IsPartition (groups : Groups) : Type 0 where
    pub headed : (k : Key) (g : Group) → Member (k, g) groups → IsHeaded (k, g)
    pub covers :
        (a : ℕ) (r : Row) (k : Key)
        → get_elem? rows a ≡ some r
        → canonical_json (value r) ≡ ok k
        → (g : Group) × Member (k, g) groups

  groups_from-IsPartition :
      (index : ℕ) (rest : List Row) (groups result : Groups)
      → Inv index rest groups
      → groups_from row_id value index rest groups ≡ ok result
      → IsPartition result
  unfolding groups_from
  groups_from-IsPartition index [] groups result i e =
      subst IsPartition (ok-injective groups result e) (record {
        headed = λ k g m. All-member IsHeaded groups i.headed (k, g) m;
        covers = λ a r k g v. keys_of-member k groups (i.passed a r k (inside a r g) g v);
      })
    where
      inside : (a : ℕ) (r : Row) → get_elem? rows a ≡ some r → a < index
      inside a r g = elim (dec_lt a index) [
        | yes lt ↦ lt
        | no late ↦ absurd (cc (g, i.suffix a (a - index) (omega arith)))
      ]
  groups_from-IsPartition index (row ∷ rest) groups result i e =
      let (key, h, k) =
        >>=-eq-ok (canonical_json (value row))
          (λ key.
            groups_from row_id value (suc index) rest
              (add_to key index (row_id row) (value row) groups))
          e in
      groups_from-IsPartition (suc index) rest (add_to key index (row_id row) (value row) groups)
        result (Inv-suc index row rest groups key i h) k

  -- A partition that is returned has a group under the key of every row, and the first index of each
  -- group is the place of a row with the group's key.
  pub keyed_partition-IsPartition :
      (result : Groups) → keyed_partition row_id value rows ≡ ok result → IsPartition result
  unfolding keyed_partition
  keyed_partition-IsPartition result e =
      let by_key =
        λ (groups : Groups). sort_by (list_order nat_order) (λ (g : Key × Group). g.0) groups in
      let (groups, h, k) =
        >>=-eq-ok (groups_from row_id value 0 rows []) (λ gs. ok (by_key gs)) e in
      let p =
        groups_from-IsPartition 0 rows [] groups
          (record {
            headed = tt;
            passed = λ a r k lt g v. absurd (omega arith);
            suffix = λ m n e. ap (get_elem? rows) (e ∙ zero-add n);
          })
          h in
      subst IsPartition (ok-injective (by_key groups) result k) (record {
        headed = λ k g m.
            p.headed k g
              (sort_by-member (list_order nat_order) (λ (x : Key × Group). x.0) (k, g) groups m);
        covers = λ a r k g v.
            let (group, m) = p.covers a r k g v in
            (
              group,
              member-sort_by (list_order nat_order) (λ (x : Key × Group). x.0) (k, group) groups m,
            );
      })
