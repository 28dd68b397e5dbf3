-- ===== src/Topology/Scanning.antt =====
-- What the loops of `verify_mediation` over the pairs find.
use mathlib.Core.Path.{subst}
use auditspec.Prelude.{
  String, Bool, true, false, ◌||◌, Option, none, some, List, [], ◌∷◌, ◌++◌, ◌≡◌, ◌≢◌, refl, sym, ap,
  ◌⊎◌, inl, inr, arith, Member, member-append_right, append-member, Bool-cases,
}
use auditspec.Prelude.Text.{◌≟◌, ≟→eq, contains, contains-member}
use auditspec.Prelude.Sets.{not-contains}
use auditspec.Topology.{
  Edge, Found, path_found, no_path, no_fuel, shortest_path, Reason, unknown_channel, unreachable,
  mediator_does_not_dominate, mediates, Scan, cut, scanned, with_bypass, is_path, scan_pairs,
  proof_of,
}
use auditspec.Topology.Walks.{
  IsWalk, Connected, IsWalk-source, IsWalk-last, IsWalk-avoid, avoid-IsWalk,
}
use auditspec.Topology.Search.{SearchVerdict, shortest_path-SearchVerdict}

module _ (edges : List Edge) (mediator : String) where
  -- The sink is reached from the source, and only through the mediator.
  abbrev pub Mediated : String → String → Type 0
  Mediated source sink =
      Connected edges none source sink
      × ((p : List String) → IsWalk edges none source p sink → Member mediator p)

  -- A walk of one of the pairs that does not meet the mediator.
  abbrev pub IsBypass : List Edge → List String → Type 0
  IsBypass pairs b =
      (source : String) × (sink : String) × Member (source, sink) pairs
      × IsWalk edges none source b sink
      × (¬ Member mediator b)

  abbrev pub ScanVerdict : List Edge → List (List String) → Scan → Type 0
  ScanVerdict pairs bypasses (cut checked source sink) =
      Member (source, sink) pairs × (¬ Connected edges none source sink)
  ScanVerdict pairs bypasses (scanned checked found) =
      (found ≡ []
        → (bypasses ≡ [])
          × ((source sink : String) → Member (source, sink) pairs → Mediated source sink))
      × ((b : List String) → Member b found → Member b bypasses ⊎ IsBypass pairs b)

  -- One more pair in front.
  ScanVerdict-cons :
      (source sink : String) (pairs : List Edge) (bypasses more : List (List String)) (s : Scan)
      → (more ≡ [] → (bypasses ≡ []) × Mediated source sink)
      → ((b : List String)
          → Member b more
          → Member b bypasses ⊎ IsBypass ((source, sink) ∷ pairs) b)
      → ScanVerdict pairs more s
      → ScanVerdict ((source, sink) ∷ pairs) bypasses s
  ScanVerdict-cons source sink pairs bypasses more (cut checked a b) here new (m, none_there) =
      (inr m, none_there)
  ScanVerdict-cons source sink pairs bypasses more (scanned checked found) here new (all, real) = (
    λ e.
        let (d, rest) = all e in
        let (c, mediated) = here d in
        (
          c,
          λ a b m. elim m [
            | inr n ↦ rest a b n
            | inl same ↦
                let left : source ≡ a = sym (ap (λ (x : Edge). x.0) same) in
                let right : sink ≡ b = sym (ap (λ (x : Edge). x.1) same) in
                subst (λ x. Mediated x b) left (subst (λ y. Mediated source y) right mediated)
          ],
        ),
    λ b m. elim (real b m) [
      | inl old ↦ new b old
      | inr (x, y, i, w, far) ↦ inr (x, y, inr i, w, far)
    ],
  )

  ends_mediate :
      (source sink : String)
      → mediates mediator source sink ≡ true
      → (p : List String) → IsWalk edges none source p sink
      → Member mediator p
  ends_mediate source sink t p w = elim (Bool-cases (source ≟ mediator)) [
    | inl s ↦ subst (λ x. Member x p) (≟→eq source mediator s) (IsWalk-source w)
    | inr f ↦ subst (λ x. Member x p) (≟→eq sink mediator (rw f at t)) (IsWalk-last w)
  ]

  scan_cut :
      (source sink : String) (pairs checked : List Edge) (bypasses : List (List String))
      → is_path (shortest_path edges source sink none) ≡ false
      → scan_pairs edges mediator ((source, sink) ∷ pairs) checked bypasses
        ≡ cut (checked ++ (source, sink) ∷ []) source sink
  unfolding scan_pairs
  scan_cut source sink pairs checked bypasses h = rw (h, scan_pairs)

  scan_mediates :
      (source sink : String) (pairs checked : List Edge) (bypasses : List (List String))
      → is_path (shortest_path edges source sink none) ≡ true
      → mediates mediator source sink ≡ true
      → scan_pairs edges mediator ((source, sink) ∷ pairs) checked bypasses
        ≡ scan_pairs edges mediator pairs (checked ++ (source, sink) ∷ []) bypasses
  unfolding scan_pairs
  scan_mediates source sink pairs checked bypasses h k = rw (h, scan_pairs) (ap pick k)
    where
      pick : Bool → Scan
      pick b = elim b [
        | true ↦ scan_pairs edges mediator pairs (checked ++ (source, sink) ∷ []) bypasses
        | false ↦
            scan_pairs edges mediator pairs (checked ++ (source, sink) ∷ [])
              (with_bypass (shortest_path edges source sink (some mediator)) bypasses)
      ]

  scan_bypass :
      (source sink : String) (pairs checked : List Edge) (bypasses : List (List String))
      → is_path (shortest_path edges source sink none) ≡ true
      → mediates mediator source sink ≡ false
      → scan_pairs edges mediator ((source, sink) ∷ pairs) checked bypasses
        ≡ scan_pairs edges mediator pairs
            (checked ++ (source, sink) ∷ [])
            (with_bypass (shortest_path edges source sink (some mediator)) bypasses)
  unfolding scan_pairs
  scan_bypass source sink pairs checked bypasses h k = rw (h, scan_pairs) (ap pick k)
    where
      pick : Bool → Scan
      pick b = elim b [
        | true ↦ scan_pairs edges mediator pairs (checked ++ (source, sink) ∷ []) bypasses
        | false ↦
            scan_pairs edges mediator pairs (checked ++ (source, sink) ∷ [])
              (with_bypass (shortest_path edges source sink (some mediator)) bypasses)
      ]

  is_path-false :
      (source sink : String) (f : Found)
      → SearchVerdict edges none source sink f
      → is_path f ≡ false
      → ¬ Connected edges none source sink
  is_path-false source sink (path_found p) v h = absurd (ground arith)
  is_path-false source sink no_path v h = v
  is_path-false source sink no_fuel v h = absurd v

  is_path-true :
      (source sink : String) (f : Found)
      → SearchVerdict edges none source sink f
      → is_path f ≡ true
      → Connected edges none source sink
  is_path-true source sink (path_found p) v h = (refl, (p, v))
  is_path-true source sink no_path v h = absurd (ground arith)
  is_path-true source sink no_fuel v h = absurd v

  -- The search without the mediator gives a bypass, or shows that every walk meets the mediator.
  with_bypass-means :
      (source sink : String) (pairs : List Edge) (bypasses : List (List String)) (f : Found)
      → (source ≟ mediator) ≡ false
      → Connected edges none source sink
      → SearchVerdict edges (some mediator) source sink f
      → (with_bypass f bypasses ≡ [] → (bypasses ≡ []) × Mediated source sink)
        × ((b : List String)
            → Member b (with_bypass f bypasses)
            → Member b bypasses ⊎ IsBypass ((source, sink) ∷ pairs) b)
  with_bypass-means source sink pairs bypasses (path_found p) far c v = (
    λ e. absurd (subst (Member p) e (member-append_right p bypasses (p ∷ []) (inl refl))),
    λ b m. elim (append-member b bypasses (p ∷ []) m) [
      | inl old ↦ inl old
      | inr (inr z) ↦ absurd z
      | inr (inl e) ↦
          let (w, avoids) = avoid-IsWalk far v in
          subst (λ x. Member x bypasses ⊎ IsBypass ((source, sink) ∷ pairs) x) (sym e)
            (inr (source, sink, inl refl, w, avoids))
    ],
  )
  with_bypass-means source sink pairs bypasses no_path far c v = (
    λ e. (
      e,
      (
        c,
        λ p w. elim (Bool-cases (contains p mediator)) [
          | inl t ↦ contains-member p mediator t
          | inr f ↦ absurd (v (far, (p, IsWalk-avoid (not-contains p mediator f) w)))
        ],
      ),
    ),
    λ b m. inl m,
  )
  with_bypass-means source sink pairs bypasses no_fuel far c v = absurd v

  pub scan_pairs-ScanVerdict :
      (pairs checked : List Edge) (bypasses : List (List String))
      → ScanVerdict pairs bypasses (scan_pairs edges mediator pairs checked bypasses)
  unfolding scan_pairs
  scan_pairs-ScanVerdict [] checked bypasses = (λ e. (e, λ a b m. absurd m), λ b m. inl m)
  scan_pairs-ScanVerdict ((source, sink) ∷ pairs) checked bypasses =
      let v = shortest_path-SearchVerdict edges none source sink in
      elim (Bool-cases (is_path (shortest_path edges source sink none))) [
        | inr f ↦
            subst (ScanVerdict ((source, sink) ∷ pairs) bypasses)
              (sym (scan_cut source sink pairs checked bypasses f))
              (inl refl, is_path-false source sink (shortest_path edges source sink none) v f)
        | inl t ↦
            let c = is_path-true source sink (shortest_path edges source sink none) v t in
            elim (Bool-cases (mediates mediator source sink)) [
              | inl k ↦
                  subst (ScanVerdict ((source, sink) ∷ pairs) bypasses)
                    (sym (scan_mediates source sink pairs checked bypasses t k))
                    (ScanVerdict-cons source sink pairs bypasses bypasses _
                      (λ e. (e, (c, ends_mediate source sink k))) (λ b m. inl m)
                      (scan_pairs-ScanVerdict pairs (checked ++ (source, sink) ∷ []) bypasses))
              | inr k ↦
                  let f = shortest_path edges source sink (some mediator) in
                  let (here, new) =
                    with_bypass-means source sink pairs bypasses f
                      (left_false (source ≟ mediator) (sink ≟ mediator) k) c
                      (shortest_path-SearchVerdict edges (some mediator) source sink) in
                  subst (ScanVerdict ((source, sink) ∷ pairs) bypasses)
                    (sym (scan_bypass source sink pairs checked bypasses t k))
                    (ScanVerdict-cons source sink pairs bypasses (with_bypass f bypasses) _ here new
                      (scan_pairs-ScanVerdict pairs (checked ++ (source, sink) ∷ [])
                        (with_bypass f bypasses)))
            ]
      ]
    where
      left_false : (a b : Bool) → (a || b) ≡ false → a ≡ false
      left_false a b h = ground arith

  -- What a proof says of the pairs: it is valid, and every pair is mediated; or it names a pair that
  -- is not connected; or it has bypasses, each a walk of some pair that does not meet the mediator.
  abbrev pub ProofVerdict : List Edge → Bool → List (List String) → Option Reason → Type 0
  ProofVerdict pairs valid bypasses none =
      (valid ≡ true) × ((source sink : String) → Member (source, sink) pairs → Mediated source sink)
  ProofVerdict pairs valid bypasses (some unknown_channel) = ⊥
  ProofVerdict pairs valid bypasses (some mediator_does_not_dominate) =
      (valid ≡ false) × (bypasses ≢ []) × ((b : List String) → Member b bypasses → IsBypass pairs b)
  ProofVerdict pairs valid bypasses (some (unreachable source sink)) =
      (valid ≡ false) × Member (source, sink) pairs × (¬ Connected edges none source sink)

  pub proof_of-ProofVerdict :
      (name : String) (pairs : List Edge) (s : Scan)
      → ScanVerdict pairs [] s
      → ProofVerdict pairs
          (proof_of name mediator s).valid
          (proof_of name mediator s).bypass_witnesses
          (proof_of name mediator s).reason
  proof_of-ProofVerdict name pairs (cut checked a b) (m, none_there) = (refl, m, none_there)
  proof_of-ProofVerdict name pairs (scanned checked []) (all, real) = (refl, (all refl).1)
  proof_of-ProofVerdict name pairs (scanned checked (p ∷ ps)) (all, real) = (
    refl,
    λ e. absurd (subst (Member p) e (inl refl)),
    λ b m. elim (real b m) [ inl z ↦ absurd z | inr y ↦ y ],
  )
