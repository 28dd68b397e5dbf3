-- ===== src/Core/EvidenceVault/Replay/Tamper.antt =====
-- The vault's root fixes the journal: the chain of roots is tamper evident.
use mathlib.Core.Path.{subst, fun_ext}
use mathlib.Core.List.{head-eq_of_cons-eq, tail-eq_of_cons-eq}
use auditspec.Prelude.{
  ℕ, zero, suc, ◌≤◌, String, true, Option, none, some, List, [], ◌∷◌, ◌++◌, map, ◌≡◌, ◌⊎◌, inl, inr,
  refl, sym, ◌∙◌, ap, arith, length, length-append, All, Member, member-append_left,
  member-append_right, &&-left, &&-right,
}
use auditspec.Prelude.Text.{≟→eq}
use auditspec.Prelude.Result.{ok, ◌>>=◌, >>=-eq-ok, require-eq-ok, ok-injective}
use auditspec.Core.EvidenceVault.Records.{World, Payload, Event}
use auditspec.Core.EvidenceVault.Chain.{
  Progress, begin, same_root, links, verify_event, check_event, check_events,
}
use auditspec.Core.EvidenceVault.Tables.{Tables, no_tables}
use auditspec.Core.EvidenceVault.Fold.{apply, apply_all}
use auditspec.Core.EvidenceVault.Replay.{EvidenceVault, VaultState, root_or, replay}
use auditspec.Core.EvidenceVault.Replay.Steps.{
  Counts, nothing_read, read_to, check_event-counted, check_events-append, check_events-Counts,
  check_events-length, replay-Replayed,
}

abbrev pub payloads : List Event → List Payload
payloads es = map (λ (e : Event). e.payload) es

-- Among the events of the two journals, SHA-256 has no collision.
abbrev pub CollisionFree : World → List Event → List Event → Type 0
CollisionFree world es fs =
    (e f : Event)
    → Member e es
    → Member f fs
    → world.event_digest e.payload ≡ world.event_digest f.payload
    → e.payload ≡ f.payload

snoc_view {ℓ} :
    {A : Type ℓ} (xs : List A) → (xs ≡ []) ⊎ ((ys : List A) × (y : A) × (xs ≡ ys ++ y ∷ []))
snoc_view [] = inl refl
snoc_view (x ∷ xs) = elim (snoc_view xs) [
  | inl e ↦ inr ([], x, ap (λ zs. x ∷ zs) e)
  | inr (ys, y, e) ↦ inr (x ∷ ys, y, ap (λ zs. x ∷ zs) e)
]

some-injective : {a b : String} → some a ≡ some b → a ≡ b
some-injective h = ground arith

same_root-eq : (a b : Option String) → same_root a b ≡ true → a ≡ b
same_root-eq none none h = refl
same_root-eq (some a) (some b) h = ap some (≟→eq a b h)
same_root-eq none (some b) h = cc
same_root-eq (some a) none h = cc

Counts-root :
    (manifest_root : String) {n : ℕ} {o : Option String}
    → Counts n o
    → 1 ≤ n
    → o ≡ some (root_or manifest_root o)
Counts-root manifest_root nothing_read h = absurd (omega arith)
Counts-root manifest_root (read_to n root) h = refl

module _ (world : World) where
  -- What a checked event says of the one before.
  record IsLinked (e : Event) (p : Progress) : Type 0 where
    previous : e.payload.previous_event_root ≡ p.previous
    root : e.event_root ≡ world.event_digest e.payload

  check_event-IsLinked :
      (vault_id : String) (e : Event) (p q : Progress)
      → check_event world vault_id e p ≡ ok q
      → IsLinked e p
  unfolding check_event verify_event links
  check_event-IsLinked vault_id e p q h =
      let (u, v, k) = >>=-eq-ok (verify_event world vault_id p e) _ h in
      let (l, m) = require-eq-ok (links world vault_id p e) _ _ v in
      record {
        previous = same_root-eq _ _ (&&-right _ _ (&&-left _ _ (&&-left _ _ l)));
        root = ≟→eq _ _ (&&-right _ _ l);
      }

  -- The last event of a checked journal.
  record LastChecked (vault_id : String) (es : List Event) (e : Event) (p0 p : Progress)
      : Type 0 where
    before : Progress
    rest : check_events world vault_id es p0 ≡ ok before
    last : check_event world vault_id e before ≡ ok p

  last_checked :
      (vault_id : String) (es : List Event) (e : Event) (p0 p : Progress)
      → check_events world vault_id (es ++ e ∷ []) p0 ≡ ok p
      → LastChecked vault_id es e p0 p
  last_checked vault_id es e p0 p h =
      let (q, h1, k1) =
        >>=-eq-ok (check_events world vault_id es p0) (check_event world vault_id e)
          (sym (check_events-append world vault_id es e p0) ∙ h) in
      record { before = q; rest = h1; last = k1 }

  started_not_empty :
      (vault_id other_id key other_key : String) (gs : List Event) (f : Event) (p q : Progress)
      → check_events world vault_id [] (begin key) ≡ ok p
      → check_events world other_id (gs ++ f ∷ []) (begin other_key) ≡ ok q
      → p.previous ≡ q.previous
      → ⊥
  unfolding check_events
  started_not_empty vault_id other_id key other_key gs f p q hp hq same =
      let l = last_checked other_id gs f (begin other_key) q hq in
      let (n, r) = check_event-counted world other_id f l.before q l.last in
      let e : none ≡ p.previous =
        ap (λ (x : Progress). x.previous) (ok-injective (begin key) p hp) in
      let c : none ≡ some f.event_root = e ∙ same ∙ r in cc

  -- Two journals that end in events with the same root: the events are the same, and so is the root
  -- that they continue.
  same_last :
      (vault_id other_id : String) (e f : Event) (p p1 q q1 : Progress)
      → check_event world vault_id e p ≡ ok p1
      → check_event world other_id f q ≡ ok q1
      → p1.previous ≡ q1.previous
      → (world.event_digest e.payload ≡ world.event_digest f.payload → e.payload ≡ f.payload)
      → (e.payload ≡ f.payload) × (p.previous ≡ q.previous)
  same_last vault_id other_id e f p p1 q q1 he hf same free =
      let (m, r) = check_event-counted world vault_id e p p1 he in
      let (n, t) = check_event-counted world other_id f q q1 hf in
      let i = check_event-IsLinked vault_id e p p1 he in
      let j = check_event-IsLinked other_id f q q1 hf in
      let roots : e.event_root ≡ f.event_root = some-injective (sym r ∙ same ∙ t) in
      let equal = free (sym i.root ∙ roots ∙ j.root) in
      (equal, sym i.previous ∙ ap (λ (x : Payload). x.previous_event_root) equal ∙ j.previous)

  payloads-snoc :
      (es : List Event) (e : Event) → payloads (es ++ e ∷ []) ≡ payloads es ++ e.payload ∷ []
  payloads-snoc [] e = refl
  payloads-snoc (d ∷ es) e = ap (λ ps. d.payload ∷ ps) (payloads-snoc es e)

  payloads_unique :
      (n : ℕ) (vault_id other_id key other_key : String) (es fs : List Event) (p q : Progress)
      → length es ≡ n
      → check_events world vault_id es (begin key) ≡ ok p
      → check_events world other_id fs (begin other_key) ≡ ok q
      → p.previous ≡ q.previous
      → CollisionFree world es fs
      → payloads es ≡ payloads fs
  payloads_unique zero vault_id other_id key other_key [] fs p q len hp hq same free =
      elim (snoc_view fs) [
        | inl b ↦ rw b refl
        | inr (gs, f, b) ↦ absurd (
            started_not_empty vault_id other_id key other_key gs f p q hp
              (subst (λ xs. check_events world other_id xs (begin other_key) ≡ ok q) b hq) same)
      ]
  payloads_unique zero vault_id other_id key other_key (x ∷ xs) fs p q len hp hq same free =
      absurd (omega (arith, len))
  payloads_unique (suc n) vault_id other_id key other_key es fs p q len hp hq same free =
      elim (snoc_view es) [
        | inl a ↦ absurd (omega (arith, len, ap length a))
        | inr (ds, e, a) ↦
            let hp1 = subst (λ xs. check_events world vault_id xs (begin key) ≡ ok p) a hp in
            elim (snoc_view fs) [
              | inl b ↦ absurd (
                  started_not_empty other_id vault_id other_key key ds e q p
                    (subst (λ xs. check_events world other_id xs (begin other_key) ≡ ok q) b hq) hp1
                    (sym same))
              | inr (gs, f, b) ↦
                  let l = last_checked vault_id ds e (begin key) p hp1 in
                  let m =
                    last_checked other_id gs f (begin other_key) q (
                      subst (λ xs. check_events world other_id xs (begin other_key) ≡ ok q) b hq) in
                  let (equal, before) =
                    same_last vault_id other_id e f l.before p m.before q l.last m.last same (
                      free e f
                        (subst (Member e) (sym a) (member-append_right e ds (e ∷ []) (inl refl)))
                        (subst (Member f) (sym b)
                          (member-append_right f gs (f ∷ []) (inl refl)))) in
                  let rest =
                    payloads_unique n vault_id other_id key other_key ds gs l.before m.before
                      (omega (arith, len, ap length a, length-append ds (e ∷ []))) l.rest m.rest
                      before
                      (λ c d i j.
                        free c d (subst (Member c) (sym a) (member-append_left c ds (e ∷ []) i))
                          (subst (Member d) (sym b) (member-append_left d gs (f ∷ []) j))) in
                  rw (a, b)
                    (payloads-snoc ds e
                      ∙ ap (λ ps. ps ++ e.payload ∷ []) rest
                      ∙ ap (λ x. payloads gs ++ x ∷ []) equal
                      ∙ sym (payloads-snoc gs f))
            ]
      ]

  -- Every event of a checked journal has the root of its payload.
  checked-Rooted :
      (vault_id : String) (es : List Event) (p q : Progress)
      → check_events world vault_id es p ≡ ok q
      → All (λ (e : Event). e.event_root ≡ world.event_digest e.payload) es
  unfolding check_events
  checked-Rooted vault_id [] p q h = tt
  checked-Rooted vault_id (e ∷ es) p q h =
      let (r, c, k) = >>=-eq-ok (check_event world vault_id e p) _ h in
      let i = check_event-IsLinked vault_id e p r c in (i.root, checked-Rooted vault_id es r q k)

  -- The fold reads payloads and roots only.
  apply_all-payloads :
      (es fs : List Event) (t : Tables)
      → All (λ (e : Event). e.event_root ≡ world.event_digest e.payload) es
      → All (λ (e : Event). e.event_root ≡ world.event_digest e.payload) fs
      → payloads es ≡ payloads fs
      → apply_all world es t ≡ apply_all world fs t
  unfolding apply_all
  apply_all-payloads [] [] t re rf h = refl
  apply_all-payloads [] (f ∷ fs) t re rf h = cc
  apply_all-payloads (e ∷ es) [] t re rf h = cc
  apply_all-payloads (e ∷ es) (f ∷ fs) t (re, res) (rf, rfs) h =
      let p = head-eq_of_cons-eq h in
      let root : e.event_root ≡ f.event_root = re ∙ ap world.event_digest p ∙ sym rf in
      let body : e.payload.body ≡ f.payload.body = ap (λ (x : Payload). x.body) p in
      rw (root, body)
        (ap (λ k. apply world f.payload.body f.event_root t >>= k)
          (fun_ext λ u. apply_all-payloads es fs u res rfs (tail-eq_of_cons-eq h)))

  root_of :
      (v : EvidenceVault) (s : VaultState)
      → replay world v ≡ ok s
      → 1 ≤ length v.events
      → s.journal_authority.previous ≡ some s.vault_root
  root_of v s h some_event =
      let r = replay-Replayed world v s h in
      let p = s.journal_authority in
      let first = begin v.initial_public_key_hex in
      let n = check_events-length world v.vault_id v.events first p r.chain in
      let c = check_events-Counts world v.vault_id v.events first p nothing_read r.chain in
      Counts-root v.manifest_root c (omega (arith, n, some_event))
      ∙ ap some (sym (ap (λ (x : VaultState). x.vault_root) r.state))

  -- Two vaults that replay to the same root, each with at least one event, hold the same payloads in
  -- the same order and have the same tables, if the digest has no collision among their events.
  pub vault_root_unique :
      (v w : EvidenceVault) (s t : VaultState)
      → replay world v ≡ ok s
      → replay world w ≡ ok t
      → 1 ≤ length v.events
      → 1 ≤ length w.events
      → s.vault_root ≡ t.vault_root
      → CollisionFree world v.events w.events
      → (payloads v.events ≡ payloads w.events) × (s.tables ≡ t.tables)
  vault_root_unique v w s t hv hw nv nw same free =
      let rv = replay-Replayed world v s hv in
      let rw' = replay-Replayed world w t hw in
      let roots = root_of v s hv nv ∙ ap some same ∙ sym (root_of w t hw nw) in
      let equal =
        payloads_unique (length v.events) v.vault_id w.vault_id v.initial_public_key_hex
          w.initial_public_key_hex v.events w.events s.journal_authority t.journal_authority refl
          rv.chain rw'.chain roots free in
      let tables =
        apply_all-payloads v.events w.events no_tables
          (checked-Rooted v.vault_id v.events _ _ rv.chain)
          (checked-Rooted w.vault_id w.events _ _ rw'.chain) equal in
      (equal, ok-injective s.tables t.tables (sym rv.fold ∙ tables ∙ rw'.fold))
