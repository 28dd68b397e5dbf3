-- ===== src/Core/InformationOrder/Lifecycle/Checks.antt =====
-- Rows that pass the checks of a lifecycle are encoded, and their transformation is a function.
use mathlib.Core.Path.{subst}
use mathlib.Core.Option.{some-injective}
use auditspec.Prelude.{
  true, Option, none, some, List, [], ◌∷◌, map, ◌≡◌, refl, sym, ap, ◌∙◌, inl, inr, arith, Member,
  Bool-cases, if◌then◌else◌,
}
use auditspec.Prelude.Text.{text_order, same_codes, same_codes→eq, eq→same_codes}
use auditspec.Prelude.Order.{sort_by, sort_by-member}
use auditspec.Prelude.Result.{
  ok, ◌>>=◌, >>=-eq-ok, require-eq-ok, ok-injective, traverse, traverse-member, information_order,
}
use auditspec.Core.Value.{Value, obj}
use auditspec.Core.Canonical.{canonical_json}
use auditspec.Core.InformationOrder.Rows.{json, populated}
use auditspec.Core.InformationOrder.Twin.{Key}
use auditspec.Core.InformationOrder.Auditability.Correct.{json-encodes}
use auditspec.Core.InformationOrder.Auditability.Decoder.{Encoded}
use auditspec.Core.InformationOrder.Lifecycle.{
  LifecycleRow, lifecycle_row, lifecycle_rows, SourceMap, image_of, set_default, deterministic,
  state_of, transformed_of, claim_of,
}

-- The transformation is a function of the source evidence.
abbrev pub IsFunction : List LifecycleRow → Type 0
IsFunction rows =
    (r s : LifecycleRow) (k t u : Key)
    → Member r rows
    → Member s rows
    → canonical_json r.source_evidence ≡ ok k
    → canonical_json s.source_evidence ≡ ok k
    → canonical_json r.transformed_evidence ≡ ok t
    → canonical_json s.transformed_evidence ≡ ok u
    → t ≡ u

image_of-cons :
    (k key image : Key) (m : SourceMap)
    → image_of key ((k, image) ∷ m) ≡ (if same_codes k key then some image else image_of key m)
unfolding image_of
image_of-cons k key image m = refl

set_default-image :
    (key t : Key) (m : SourceMap) (o : Option Key)
    → image_of key m ≡ o
    → same_codes ((set_default key t m o).0) t ≡ true
    → image_of key ((set_default key t m o).1) ≡ some t
unfolding set_default
set_default-image key t m (some p) h c = h ∙ ap some (same_codes→eq p t c)
set_default-image key t m none h c =
    image_of-cons key key t m ∙ rw (eq→same_codes key key refl) refl

set_default-keeps :
    (key t : Key) (m : SourceMap) (o : Option Key)
    → image_of key m ≡ o
    → (k v : Key) → image_of k m ≡ some v
    → image_of k ((set_default key t m o).1) ≡ some v
unfolding set_default
set_default-keeps key t m (some p) h k v e = e
set_default-keeps key t m none h k v e = elim (Bool-cases (same_codes key k)) [
  | inl c ↦ absurd (cc (h, e, same_codes→eq key k c))
  | inr f ↦ image_of-cons key k t m ∙ rw f e
]

record Step (row : LifecycleRow) (rows : List LifecycleRow) (m : SourceMap) : Type 0 where
  key : Key
  transformed : Key
  has_key : canonical_json row.source_evidence ≡ ok key
  has_transformed : canonical_json row.transformed_evidence ≡ ok transformed
  agrees : same_codes ((set_default key transformed m (image_of key m)).0) transformed ≡ true
  rest : deterministic rows ((set_default key transformed m (image_of key m)).1) ≡ ok tt

deterministic-Step :
    (row : LifecycleRow) (rows : List LifecycleRow) (m : SourceMap)
    → deterministic (row ∷ rows) m ≡ ok tt
    → Step row rows m
unfolding deterministic
deterministic-Step row rows m h =
    let (key, p, k) = >>=-eq-ok (canonical_json row.source_evidence) _ h in
    let (t, q, l) = >>=-eq-ok (canonical_json row.transformed_evidence) _ k in
    let (c, e) =
      require-eq-ok (same_codes ((set_default key t m (image_of key m)).0) t)
        (information_order "lifecycle transformation is not deterministic")
        (deterministic rows ((set_default key t m (image_of key m)).1)) l in
    record { key = key; transformed = t; has_key = p; has_transformed = q; agrees = c; rest = e }

-- A key that the map holds has its image in all the rows that follow.
deterministic-image :
    (rows : List LifecycleRow) (m : SourceMap)
    → deterministic rows m ≡ ok tt
    → (k v : Key) → image_of k m ≡ some v
    → (r : LifecycleRow) → Member r rows
    → canonical_json r.source_evidence ≡ ok k
    → canonical_json r.transformed_evidence ≡ ok v
deterministic-image [] m h k v e r i p = absurd i
deterministic-image (row ∷ rows) m h k v e r (inl d) p =
    let step = deterministic-Step row rows m h in
    let same : step.key ≡ k = ok-injective step.key k (
      sym step.has_key ∙ ap (λ (x : LifecycleRow). canonical_json x.source_evidence) (sym d) ∙ p) in
    let now =
      set_default-image step.key step.transformed m (image_of step.key m) refl step.agrees in
    let old = set_default-keeps step.key step.transformed m (image_of step.key m) refl k v e in
    let image : step.transformed ≡ v = some-injective step.transformed v (
      sym now
      ∙ ap (λ x. image_of x ((set_default step.key step.transformed m (image_of step.key m)).1))
          same
      ∙ old) in
    ap (λ (x : LifecycleRow). canonical_json x.transformed_evidence) d
    ∙ step.has_transformed
    ∙ ap ok image
deterministic-image (row ∷ rows) m h k v e r (inr i) p =
    let step = deterministic-Step row rows m h in
    deterministic-image rows ((set_default step.key step.transformed m (image_of step.key m)).1)
      step.rest k v (set_default-keeps step.key step.transformed m (image_of step.key m) refl k v e)
      r i p

-- All rows with one source have one image.
deterministic-common :
    (rows : List LifecycleRow) (m : SourceMap)
    → deterministic rows m ≡ ok tt
    → (s : LifecycleRow) (k u : Key) → Member s rows
    → canonical_json s.source_evidence ≡ ok k
    → canonical_json s.transformed_evidence ≡ ok u
    → (r : LifecycleRow) → Member r rows
    → canonical_json r.source_evidence ≡ ok k
    → canonical_json r.transformed_evidence ≡ ok u
deterministic-common [] m h s k u i p q r j o = absurd i
deterministic-common (row ∷ rows) m h s k u i p q r j o = elim j [
  | inl d ↦ elim i [
    | inl e ↦ ap (λ (x : LifecycleRow). canonical_json x.transformed_evidence) (d ∙ sym e) ∙ q
    | inr i' ↦
        let here = subst (λ (x : LifecycleRow). canonical_json x.source_evidence ≡ ok k) d o in
        let v = later s i' p here in
        ap (λ (x : LifecycleRow). canonical_json x.transformed_evidence) d
        ∙ step.has_transformed
        ∙ sym v
        ∙ q
  ]
  | inr j' ↦ elim i [
    | inl e ↦
        let here = subst (λ (x : LifecycleRow). canonical_json x.source_evidence ≡ ok k) e p in
        later r j' o here
        ∙ sym step.has_transformed
        ∙ ap (λ (x : LifecycleRow). canonical_json x.transformed_evidence) (sym e)
        ∙ q
    | inr i' ↦
        deterministic-common rows
          ((set_default step.key step.transformed m (image_of step.key m)).1) step.rest s k u i' p q
          r j' o
  ]
]
  where
    step : Step row rows m
    step = deterministic-Step row rows m h

    later :
        (x : LifecycleRow)
        → Member x rows
        → canonical_json x.source_evidence ≡ ok k
        → canonical_json row.source_evidence ≡ ok k
        → canonical_json x.transformed_evidence ≡ ok step.transformed
    later x i p here =
        deterministic-image rows ((set_default step.key step.transformed m (image_of step.key m)).1)
          step.rest step.key step.transformed
          (set_default-image step.key step.transformed m (image_of step.key m) refl step.agrees) x i
          (p ∙ sym here ∙ step.has_key)

lifecycle_row-checked :
    (raw : Value) (r : LifecycleRow)
    → lifecycle_row raw ≡ ok r
    → ((v : Value) × (json v ≡ ok r.transformed_evidence))
      × ((w : Value) × (json w ≡ ok r.claim_value))
unfolding lifecycle_row
lifecycle_row-checked (obj row) r h = grind arith
lifecycle_row-checked _ r h = ground arith

record Admitted (raw : List Value) (rows : List LifecycleRow) : Type 0 where
  normalized : List LifecycleRow
  checked : traverse lifecycle_row raw ≡ ok normalized
  ordered : sort_by text_order state_of normalized ≡ rows
  function : deterministic rows [] ≡ ok tt

lifecycle_rows-Admitted :
    (raw : List Value) (rows : List LifecycleRow) → lifecycle_rows raw ≡ ok rows → Admitted raw rows
unfolding lifecycle_rows
lifecycle_rows-Admitted raw rows h =
    let (normalized, p, k) = >>=-eq-ok (traverse lifecycle_row raw) _ h in
    let ordered = sort_by text_order state_of normalized in
    let (_, l) =
      require-eq-ok (populated (map state_of normalized))
        (information_order "lifecycle states are empty or duplicated")
        (deterministic ordered [] >>= λ _. ok ordered) k in
    let (_, q, m) = >>=-eq-ok (deterministic ordered []) (λ _. ok ordered) l in
    let d = ok-injective ordered rows m in
    record {
      normalized = normalized;
      checked = p;
      ordered = d;
      function = subst (λ x. deterministic x [] ≡ ok tt) d q;
    }

-- Rows that pass the checks have encodings.
pub lifecycle_rows-Encoded :
    (raw : List Value) (rows : List LifecycleRow)
    → lifecycle_rows raw ≡ ok rows
    → (r : LifecycleRow) → Member r rows
    → Encoded state_of transformed_of claim_of r
lifecycle_rows-Encoded raw rows h r m =
    let a = lifecycle_rows-Admitted raw rows h in
    let n =
      sort_by-member text_order state_of r a.normalized (subst (Member r) (sym a.ordered) m) in
    let (v, _, e) = traverse-member lifecycle_row raw a.normalized a.checked r n in
    let ((x, hx), (y, hy)) = lifecycle_row-checked v r e in
    let (k, ek) = json-encodes x r.transformed_evidence hx in
    let (c, ec) = json-encodes y r.claim_value hy in (k, c, ek, ec)

-- In rows that pass the checks, equal source evidence is transformed to equal evidence.
pub lifecycle_rows-IsFunction :
    (raw : List Value) (rows : List LifecycleRow) → lifecycle_rows raw ≡ ok rows → IsFunction rows
lifecycle_rows-IsFunction raw rows h r s k t u i j p q v w =
    let a = lifecycle_rows-Admitted raw rows h in
    ok-injective t u (sym v ∙ deterministic-common rows [] a.function s k u j q w r i p)
