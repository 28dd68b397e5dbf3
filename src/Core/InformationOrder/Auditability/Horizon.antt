-- ===== src/Core/InformationOrder/Auditability/Horizon.antt =====
-- The horizon of a timeline: the flag, the last index and the points' analyses.
use mathlib.Core.Path.{subst}
use auditspec.Prelude.{
  ℕ, zero, suc, ◌<◌, ◌+◌, String, Bool, true, false, not, ◌&&◌, ◌||◌, Option, none, some, List, [],
  ◌∷◌, ◌≡◌, refl, sym, ap, ◌∙◌, arith, get_elem?, if◌then◌else◌, leb,
}
use auditspec.Prelude.Result.{ok, >>=-eq-ok, ok-injective, Each}
use auditspec.Core.InformationOrder.Auditability.{
  QuotientCertificate, analyze_auditability, TimelinePoint, HorizonRow, Scan, scan, max_with,
  last_sufficient, AuditHorizon, semantic_audit_horizon,
}

-- No row is sufficient after one that is not.
abbrev pub PrefixClosed : List HorizonRow → Type 0
PrefixClosed rows =
    (i j : ℕ) (p q : HorizonRow)
    → i < j
    → get_elem? rows i ≡ some p
    → get_elem? rows j ≡ some q
    → p.sufficient ≡ false
    → q.sufficient ≡ false

-- What the flag says after a scan that begins with `seen`.
abbrev closed_from : Bool → List HorizonRow → Bool
closed_from seen [] = true
closed_from seen (r ∷ rows) =
    not (seen && r.sufficient) && closed_from (seen || not r.sufficient) rows

abbrev Analyzed : String → TimelinePoint → HorizonRow → Type 0
Analyzed claim_id point row =
    (q : QuotientCertificate) × (analyze_auditability claim_id point.evidence_id point.rows ≡ ok q)
    × (row.sufficient ≡ q.factorization_exists)

abbrev Numbered : ℕ → List HorizonRow → Type 0
Numbered n [] = Unit
Numbered n (r ∷ rows) = (r.index ≡ n) × Numbered (suc n) rows

record Scanned (claim_id : String) (n : ℕ) (points : List TimelinePoint) (seen closed : Bool)
    (s : Scan) : Type 0 where
  analyzed : Each (Analyzed claim_id) points s.rows
  numbered : Numbered n s.rows
  flag : s.prefix_closed ≡ (closed && closed_from seen s.rows)

flag_step :
    (seen sufficient closed : Bool) (rest : Bool)
    → ((if seen && sufficient then false else closed) && rest)
      ≡ (closed && (not (seen && sufficient) && rest))
flag_step seen sufficient closed rest = ground arith

scan-Scanned :
    (claim_id : String) (n : ℕ) (points : List TimelinePoint) (seen closed : Bool) (s : Scan)
    → scan claim_id n points seen closed ≡ ok s
    → Scanned claim_id n points seen closed s
unfolding scan
scan-Scanned claim_id n [] seen closed s h =
    subst (Scanned claim_id n [] seen closed) (ok-injective _ s h)
      (record { analyzed = tt; numbered = tt; flag = ground arith })
scan-Scanned claim_id n (point ∷ points) seen closed s h =
    let (q, e, k) = >>=-eq-ok (analyze_auditability claim_id point.evidence_id point.rows) _ h in
    let (rest, d, l) =
      >>=-eq-ok
        (scan claim_id (suc n) points (seen || not q.factorization_exists)
          (if seen && q.factorization_exists then false else closed))
        _ k in
    let next =
      scan-Scanned claim_id (suc n) points (seen || not q.factorization_exists)
        (if seen && q.factorization_exists then false else closed) rest d in
    subst (Scanned claim_id n (point ∷ points) seen closed) (ok-injective _ s l) (record {
      analyzed = ((q, e, refl), next.analyzed);
      numbered = (refl, next.numbered);
      flag =
          next.flag
          ∙ flag_step seen q.factorization_exists closed
              (closed_from (seen || not q.factorization_exists) rest.rows);
    })

abbrev AllHard : List HorizonRow → Type 0
AllHard rows = (i : ℕ) (p : HorizonRow) → get_elem? rows i ≡ some p → p.sufficient ≡ false

closed_from-PrefixClosed :
    (seen : Bool) (rows : List HorizonRow)
    → closed_from seen rows ≡ true
    → PrefixClosed rows × (seen ≡ true → AllHard rows)
closed_from-PrefixClosed seen [] h =
    ((λ i j p q lt e f b. absurd (ground arith)), (λ s i p e. absurd (ground arith)))
closed_from-PrefixClosed seen (r ∷ rows) h =
    let (rest, hard) = closed_from-PrefixClosed (seen || not r.sufficient) rows (ground arith) in
    (prefix rest hard, all rest hard)
  where
    prefix :
        PrefixClosed rows
        → ((seen || not r.sufficient) ≡ true → AllHard rows)
        → PrefixClosed (r ∷ rows)
    prefix rest hard i zero p q lt e f b = absurd (omega arith)
    prefix rest hard zero (suc j) p q lt e f b =
        let same : r ≡ p = ground arith in hard (rw (same, b) (ground arith)) j q f
    prefix rest hard (suc i) (suc j) p q lt e f b = rest i j p q (omega arith) e f b

    all :
        PrefixClosed rows
        → ((seen || not r.sufficient) ≡ true → AllHard rows)
        → seen ≡ true
        → AllHard (r ∷ rows)
    all rest hard s zero p e =
        let same : r ≡ p = ground arith in
        subst (λ (x : HorizonRow). x.sufficient ≡ false) same (ground arith)
    all rest hard s (suc i) p e = hard (rw s refl) i p e

PrefixClosed-closed_from :
    (seen : Bool) (rows : List HorizonRow)
    → PrefixClosed rows
    → (seen ≡ true → AllHard rows)
    → closed_from seen rows ≡ true
PrefixClosed-closed_from seen [] c hard = refl
PrefixClosed-closed_from seen (r ∷ rows) c hard =
    rw
      (
        first seen hard,
        PrefixClosed-closed_from (seen || not r.sufficient) rows
            (λ i j p q lt e f b. c (suc i) (suc j) p q (omega arith) e f b) (rest seen hard),
      )
      refl
  where
    first : (b : Bool) → (b ≡ true → AllHard (r ∷ rows)) → not (b && r.sufficient) ≡ true
    first false h = refl
    first true h = rw (h refl 0 r refl) refl

    rest :
        (b : Bool) → (b ≡ true → AllHard (r ∷ rows)) → (b || not r.sufficient) ≡ true → AllHard rows
    rest true h e i p g = h refl (suc i) p g
    rest false h e i p g = c 0 (suc i) r p (omega arith) refl g (ground arith)

-- The last sufficient row of rows that are numbered from `n`.
abbrev IsLastFrom : ℕ → List HorizonRow → Option ℕ → Type 0
IsLastFrom n rows none = AllHard rows
IsLastFrom n rows (some m) =
    (i : ℕ) × (p : HorizonRow) × (m ≡ n + i)
    × (get_elem? rows i ≡ some p)
    × (p.sufficient ≡ true)
    × ((j : ℕ) (q : HorizonRow) → i < j → get_elem? rows j ≡ some q → q.sufficient ≡ false)

IsLastFrom-suc :
    (n : ℕ) (r : HorizonRow) (rows : List HorizonRow) (b : Bool) (o : Option ℕ)
    → r.sufficient ≡ b
    → r.index ≡ n
    → IsLastFrom (suc n) rows o
    → IsLastFrom n (r ∷ rows) (max_with b r.index o)
unfolding max_with
IsLastFrom-suc n r rows false none s e h = all
  where
    all : AllHard (r ∷ rows)
    all zero p g =
        let same : r ≡ p = ground arith in subst (λ (x : HorizonRow). x.sufficient ≡ false) same s
    all (suc i) p g = h i p g
IsLastFrom-suc n r rows true none s e h = (0, r, omega arith, refl, s, later)
  where
    later :
        (j : ℕ) (q : HorizonRow) → 0 < j → get_elem? (r ∷ rows) j ≡ some q → q.sufficient ≡ false
    later zero q lt g = absurd (omega arith)
    later (suc j) q lt g = h j q g
IsLastFrom-suc n r rows false (some m) s e (i, p, d, g, t, hard) =
    (suc i, p, omega arith, g, t, later)
  where
    later :
        (j : ℕ) (q : HorizonRow)
        → suc i < j
        → get_elem? (r ∷ rows) j ≡ some q
        → q.sufficient ≡ false
    later zero q lt g = absurd (omega arith)
    later (suc j) q lt g = hard j q (omega arith) g
IsLastFrom-suc n r rows true (some m) s e (i, p, d, g, t, hard) =
    let bigger : leb r.index m ≡ true = ground arith in
    rw bigger (suc i, p, omega arith, g, t, later)
  where
    later :
        (j : ℕ) (q : HorizonRow)
        → suc i < j
        → get_elem? (r ∷ rows) j ≡ some q
        → q.sufficient ≡ false
    later zero q lt g = absurd (omega arith)
    later (suc j) q lt g = hard j q (omega arith) g

last_sufficient-IsLast :
    (n : ℕ) (rows : List HorizonRow) → Numbered n rows → IsLastFrom n rows (last_sufficient rows)
unfolding last_sufficient
last_sufficient-IsLast n [] t = λ i p e. absurd (ground arith)
last_sufficient-IsLast n (r ∷ rows) (e, t) =
    IsLastFrom-suc n r rows r.sufficient (last_sufficient rows) refl e
      (last_sufficient-IsLast (suc n) rows t)

-- What a horizon says: each row tells whether its point factors, the flag tells whether the
-- sufficient rows come first, and the index is the last of them.
pub record HorizonVerdict (claim_id : String) (points : List TimelinePoint) (no_new : Bool)
    (h : AuditHorizon) : Type 0 where
  pub analyzed : Each (Analyzed claim_id) points h.timeline
  pub closed : h.prefix_closed ≡ true → PrefixClosed h.timeline
  pub is_closed : PrefixClosed h.timeline → h.prefix_closed ≡ true
  pub last : IsLastFrom 0 h.timeline h.last_index
  pub no_regain : no_new ≡ true → PrefixClosed h.timeline

record Parts (claim_id : String) (points : List TimelinePoint) (no_new : Bool) (h : AuditHorizon)
    : Type 0 where
  found : Scan
  scanned : scan claim_id 0 points false true ≡ ok found
  rows : found.rows ≡ h.timeline
  flag : found.prefix_closed ≡ h.prefix_closed
  last_eq : last_sufficient found.rows ≡ h.last_index
  admitted : not (no_new && not found.prefix_closed) ≡ true

horizon-Parts :
    (claim_id : String) (points : List TimelinePoint) (no_new : Bool) (h : AuditHorizon)
    → semantic_audit_horizon claim_id points no_new ≡ ok h
    → Parts claim_id points no_new h
unfolding semantic_audit_horizon
horizon-Parts claim_id points no_new h e = ground arith

-- When the horizon is reported, each row tells whether its point's analysis factors, the flag is set
-- exactly when no sufficient row follows an insufficient one, the index is that of the last
-- sufficient row, and without new evidence no sufficient row follows an insufficient one.
pub semantic_audit_horizon-HorizonVerdict :
    (claim_id : String) (points : List TimelinePoint) (no_new : Bool) (h : AuditHorizon)
    → semantic_audit_horizon claim_id points no_new ≡ ok h
    → HorizonVerdict claim_id points no_new h
semantic_audit_horizon-HorizonVerdict claim_id points no_new h e =
    let parts = horizon-Parts claim_id points no_new h e in
    let s = scan-Scanned claim_id 0 points false true parts.found parts.scanned in
    let flag_eq : h.prefix_closed ≡ closed_from false h.timeline =
      sym parts.flag ∙ s.flag ∙ ap (closed_from false) parts.rows in
    let closes = λ (f : h.prefix_closed ≡ true).
      (closed_from-PrefixClosed false h.timeline (sym flag_eq ∙ f)).0 in
    record {
      analyzed = subst (Each (Analyzed claim_id) points) parts.rows s.analyzed;
      closed = closes;
      is_closed =
          λ c. flag_eq ∙ PrefixClosed-closed_from false h.timeline c (λ b. absurd (ground arith));
      last = subst (IsLastFrom 0 h.timeline) parts.last_eq (
          subst (λ rows. IsLastFrom 0 rows (last_sufficient parts.found.rows)) parts.rows
            (last_sufficient-IsLast 0 parts.found.rows s.numbered));
      no_regain = λ n. closes (ground (arith, parts.flag, parts.admitted));
    }
