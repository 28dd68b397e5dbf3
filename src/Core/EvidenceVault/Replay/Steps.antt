-- ===== src/Core/EvidenceVault/Replay/Steps.antt =====
-- An appended event is one more round of both loops of the replay.
use mathlib.Core.Path.{subst}
use native.Mathlib.Nat.{zero-add}
use auditspec.Prelude.{
  ℕ, suc, ◌+◌, String, true, Option, none, some, List, [], ◌∷◌, ◌++◌, ◌==◌, length, ◌≡◌, refl, sym,
  ◌∙◌, ap, arith, if◌then◌else◌,
}
use auditspec.Prelude.Text.{◌≟◌, ≟-refl, ≟→eq}
use auditspec.Prelude.Result.{Error, Result, ok, err, ◌>>=◌, >>=-eq-ok, require-eq-ok, ok-injective}
use auditspec.Core.EvidenceVault.Records.{
  World, Body, component_archived, evidence_appended, bundle_sealed, legal_hold_placed,
  legal_hold_released, evidence_deletion_intent, evidence_deleted, component_retired,
  journal_authority_rotated, unknown_type, Event,
}
use auditspec.Core.EvidenceVault.Checks.{is_sha256, sha256, instant}
use auditspec.Core.EvidenceVault.Chain.{
  Progress, begin, same_root, links, is_signed, verify_event, validate_rotation, rotate,
  check_event, check_events,
}
use auditspec.Core.EvidenceVault.Tables.{Tables, no_tables}
use auditspec.Core.EvidenceVault.Fold.{apply, apply_all}
use auditspec.Core.EvidenceVault.Replay.{
  EvidenceVault, VaultState, VaultSigner, vault_state, root_or, the_signer, replay, event_of,
  append_event,
}

-- The number of events read and the root of the last one.
pub data Counts : ℕ → Option String → Type 0 where
  nothing_read : Counts 0 none
  read_to : (n : ℕ) (root : String) → Counts (suc n) (some root)

same_root_refl : (r : Option String) → same_root r r ≡ true
same_root_refl none = refl
same_root_refl (some s) = ≟-refl s

>>=-ok : {A : Type 0} (m : Result A) → (m >>= λ a. ok a) ≡ m
>>=-ok (ok a) = refl
>>=-ok (err e) = refl

-- Two chains that go on alike from every value.
>>=-ap :
    {A B C : Type 0} (m : Result A) (f : A → Result B) (g : B → Result C) (k : A → Result C)
    → ((a : A) → k a ≡ (f a >>= g))
    → (m >>= k) ≡ ((m >>= f) >>= g)
>>=-ap (ok a) f g k h = h a
>>=-ap (err e) f g k h = refl

the_signer-ok :
    (raised : Error) (o : Option VaultSigner) {s : VaultSigner}
    → the_signer raised o ≡ ok s
    → o ≡ some s
the_signer-ok raised none h = cc
the_signer-ok raised (some t) h = ground arith

sha256-ok : (s : String) {r : String} → sha256 s ≡ ok r → is_sha256 s ≡ true
unfolding sha256 is_sha256
sha256-ok s h = ground arith

Counts-previous :
    (n : ℕ) (r : Option String) (root : String)
    → Counts n r
    → same_root (if n == 0 then none else some (root_or root r)) r ≡ true
Counts-previous _ _ root nothing_read = refl
Counts-previous _ _ root (read_to n s) = ground (arith, ≟-refl s)

==-refl : (n : ℕ) → (n == n) ≡ true
==-refl n = ground arith

signer-injective : {a b : VaultSigner} → some a ≡ some b → a ≡ b
signer-injective {a} {b} h = ap (λ o. elim o [ none ↦ a | some c ↦ c ]) h

-- Ed25519 verifies what the signer signs.
abbrev pub IsHonest : World → VaultSigner → Type 0
IsHonest world signer =
    (root : String) → world.verify signer.public_key_hex root (signer.sign root) ≡ true

module _ (world : World) where
  -- What the two loops of the replay left.
  pub record Replayed (v : EvidenceVault) (s : VaultState) : Type 0 where
    pub chain :
        check_events world v.vault_id v.events (begin v.initial_public_key_hex)
        ≡ ok s.journal_authority
    pub fold : apply_all world v.events no_tables ≡ ok s.tables
    pub state : s ≡ vault_state v s.journal_authority s.tables

  rotate-counted :
      (body : Body) (event : Event) (p q : Progress)
      → rotate world body event p ≡ ok q
      → (q.sequence ≡ suc p.sequence) × (q.previous ≡ some event.event_root)
  unfolding rotate
  rotate-counted (journal_authority_rotated r) event p q h =
      let (successor, v, e) = >>=-eq-ok (validate_rotation world p r) _ h in ground arith
  rotate-counted (component_archived b) event p q h = ground arith
  rotate-counted (evidence_appended b) event p q h = ground arith
  rotate-counted (bundle_sealed b) event p q h = ground arith
  rotate-counted (legal_hold_placed b) event p q h = ground arith
  rotate-counted (legal_hold_released b) event p q h = ground arith
  rotate-counted (evidence_deletion_intent b) event p q h = ground arith
  rotate-counted (evidence_deleted b) event p q h = ground arith
  rotate-counted (component_retired b) event p q h = ground arith
  rotate-counted (unknown_type b) event p q h = ground arith

  pub check_event-counted :
      (vault_id : String) (event : Event) (p q : Progress)
      → check_event world vault_id event p ≡ ok q
      → (q.sequence ≡ suc p.sequence) × (q.previous ≡ some event.event_root)
  unfolding check_event
  check_event-counted vault_id event p q h =
      let (u, v, e) = >>=-eq-ok (verify_event world vault_id p event) _ h in
      rotate-counted event.payload.body event p q e

  pub check_events-length :
      (vault_id : String) (es : List Event) (p q : Progress)
      → check_events world vault_id es p ≡ ok q
      → q.sequence ≡ p.sequence + length es
  unfolding check_events
  check_events-length vault_id [] p q h = ground arith
  check_events-length vault_id (e ∷ es) p q h =
      let (r, c, k) = >>=-eq-ok (check_event world vault_id e p) _ h in
      omega (arith, (check_event-counted vault_id e p r c).0, check_events-length vault_id es r q k)

  pub check_events-Counts :
      (vault_id : String) (es : List Event) (p q : Progress)
      → Counts p.sequence p.previous
      → check_events world vault_id es p ≡ ok q
      → Counts q.sequence q.previous
  unfolding check_events
  check_events-Counts vault_id [] p q c h =
      subst (λ (x : Progress). Counts x.sequence x.previous) (ok-injective p q h) c
  check_events-Counts vault_id (e ∷ es) p q c h =
      let (r, d, k) = >>=-eq-ok (check_event world vault_id e p) _ h in
      let (n, s) = check_event-counted vault_id e p r d in
      check_events-Counts vault_id es r q (rw (n, s) (read_to p.sequence e.event_root)) k

  pub check_events-append :
      (vault_id : String) (es : List Event) (e : Event) (p : Progress)
      → check_events world vault_id (es ++ e ∷ []) p
        ≡ (check_events world vault_id es p >>= check_event world vault_id e)
  unfolding check_events
  check_events-append vault_id [] e p = >>=-ok (check_event world vault_id e p)
  check_events-append vault_id (d ∷ es) e p =
      >>=-ap (check_event world vault_id d p) (check_events world vault_id es)
        (check_event world vault_id e) _ (check_events-append vault_id es e)

  apply_all-append :
      (es : List Event) (e : Event) (t : Tables)
      → apply_all world (es ++ e ∷ []) t
        ≡ (apply_all world es t >>= apply world e.payload.body e.event_root)
  unfolding apply_all
  apply_all-append [] e t = >>=-ok (apply world e.payload.body e.event_root t)
  apply_all-append (d ∷ es) e t =
      >>=-ap (apply world d.payload.body d.event_root t) (apply_all world es)
        (apply world e.payload.body e.event_root) _ (apply_all-append es e)

  -- What `append_event` checked and built when it returned.
  pub record Appended (body : Body) (at : String) (v : EvidenceVault) (e : Event)
      (after : EvidenceVault) : Type 0 where
    pub signer : VaultSigner
    pub recorded : ℕ
    pub before : VaultState
    pub has_signer : v.signer ≡ some signer
    pub parsed : instant world at ≡ ok recorded
    pub replayed : replay world v ≡ ok before
    pub is_active : signer.public_key_hex ≡ before.journal_authority.active_public_key_hex
    pub event : e ≡ event_of world body at v before signer
    pub digest : is_sha256 e.event_root ≡ true
    pub vault : after ≡ record v { events = v.events ++ e ∷ [] }

  pub append_event-Appended :
      (body : Body) (at : String) (v : EvidenceVault) (e : Event) (after : EvidenceVault)
      → append_event world body at v ≡ ok (e, after)
      → Appended body at v e after
  unfolding append_event
  append_event-Appended body at v e after h =
      let (signer, hs, k) = >>=-eq-ok (the_signer _ v.signer) _ h in
      let (recorded, hr, k1) = >>=-eq-ok (instant world at) _ k in
      let (s, hp, k2) = >>=-eq-ok (replay world v) _ k1 in
      let (ha, k3) =
        require-eq-ok (signer.public_key_hex ≟ s.journal_authority.active_public_key_hex) _ _ k2 in
      let (root, hd, k4) = >>=-eq-ok (sha256 (event_of world body at v s signer).event_root) _ k3 in
      let pair = ok-injective _ (e, after) k4 in
      subst (λ (x : Event × EvidenceVault). Appended body at v (x.0) (x.1)) pair
        (record {
          signer = signer;
          recorded = recorded;
          before = s;
          has_signer = the_signer-ok _ v.signer hs;
          parsed = hr;
          replayed = hp;
          is_active = ≟→eq _ _ ha;
          event = refl;
          digest = sha256-ok (event_of world body at v s signer).event_root hd;
          vault = refl;
        })

  pub replay-Replayed : (v : EvidenceVault) (s : VaultState) → replay world v ≡ ok s → Replayed v s
  unfolding replay
  replay-Replayed v s h =
      let (p, hp, k) =
        >>=-eq-ok (check_events world v.vault_id v.events (begin v.initial_public_key_hex)) _ h in
      let (t, ht, k1) = >>=-eq-ok (apply_all world v.events no_tables) _ k in
      let e = ok-injective _ s k1 in
      subst (Replayed v) e (record { chain = hp; fold = ht; state = refl })

  links-event_of :
      (body : Body) (at : String) (v : EvidenceVault) (s : VaultState) (signer : VaultSigner)
      → Replayed v s
      → links world v.vault_id s.journal_authority (event_of world body at v s signer) ≡ true
  unfolding links
  links-event_of body at v s signer r =
      let p = s.journal_authority in
      let first = begin v.initial_public_key_hex in
      let count =
        check_events-length v.vault_id v.events first p r.chain
        ∙ zero-add (length v.events)
        ∙ sym (ap (λ (x : VaultState). x.event_count) r.state) in
      let previous = Counts-previous s.event_count p.previous v.manifest_root (
        subst (λ n. Counts n p.previous) count
          (check_events-Counts v.vault_id v.events first p nothing_read r.chain)) in
      let root = ap (λ (x : VaultState). x.vault_root) r.state in
      simp (≟-refl, count, ==-refl, root, previous)

  -- The event that the signer builds passes the checks of the replay.
  verify_event-event_of :
      (body : Body) (at : String) (v : EvidenceVault) (s : VaultState) (signer : VaultSigner)
      (recorded : ℕ)
      → Replayed v s
      → IsHonest world signer
      → instant world at ≡ ok recorded
      → signer.public_key_hex ≡ s.journal_authority.active_public_key_hex
      → is_sha256 (event_of world body at v s signer).event_root ≡ true
      → verify_event world v.vault_id s.journal_authority (event_of world body at v s signer)
        ≡ ok tt
  unfolding verify_event is_signed
  verify_event-event_of body at v s signer recorded r honest hr ha hd =
      rw (links-event_of body at v s signer r, hr, ≟-refl, hd, ← ha, honest _) refl

  abbrev pub extended : EvidenceVault → Event → EvidenceVault
  extended v e = record v { events = v.events ++ e ∷ [] }

  replay-extended :
      (v : EvidenceVault) (s : VaultState) (e : Event)
      → Replayed v s
      → verify_event world v.vault_id s.journal_authority e ≡ ok tt
      → replay world (extended v e) ≡ (
          rotate world e.payload.body e s.journal_authority >>= λ p.
          apply world e.payload.body e.event_root s.tables >>= λ t.
          ok (vault_state (extended v e) p t))
  unfolding replay check_event
  replay-extended v s e r h =
      rw
        (
          check_events-append v.vault_id v.events e (begin v.initial_public_key_hex),
          r.chain,
          apply_all-append v.events e no_tables,
          r.fold,
          h,
        )
        refl

  -- After an append, the replay is the one before and one more round of each loop.
  pub append_event-replay :
      (body : Body) (at : String) (v : EvidenceVault) (e : Event) (after : EvidenceVault)
      (a : Appended body at v e after)
      → IsHonest world a.signer
      → replay world after ≡ (
          rotate world body e a.before.journal_authority >>= λ p.
          apply world body e.event_root a.before.tables >>= λ t. ok (vault_state after p t))
  append_event-replay body at v e after a honest =
      let r = replay-Replayed v a.before a.replayed in
      let h =
        verify_event-event_of body at v a.before a.signer a.recorded r honest a.parsed a.is_active
          (subst (λ (x : Event). is_sha256 x.event_root ≡ true) a.event a.digest) in
      rw (a.vault, a.event)
        (replay-extended v a.before (event_of world body at v a.before a.signer) r h)

  -- An event that `append_event` returns, for a signer whose signatures verify, extends the vault by
  -- one step: the vault before replays to a state, and the vault after replays to what one more
  -- round of each loop makes of that state. The signed event's own checks never fail.
  pub append_event-refines :
      (body : Body) (at : String) (v after : EvidenceVault) (e : Event) (signer : VaultSigner)
      → v.signer ≡ some signer
      → IsHonest world signer
      → append_event world body at v ≡ ok (e, after)
      → (s : VaultState) × (replay world v ≡ ok s)
        × (after.events ≡ v.events ++ e ∷ [])
        × (replay world after ≡ (
            rotate world body e s.journal_authority >>= λ p.
            apply world body e.event_root s.tables >>= λ t. ok (vault_state after p t)))
  append_event-refines body at v after e signer hs honest h =
      let a = append_event-Appended body at v e after h in
      let same : signer ≡ a.signer = signer-injective (sym hs ∙ a.has_signer) in
      (
        a.before,
        a.replayed,
        ap (λ (x : EvidenceVault). x.events) a.vault,
        append_event-replay body at v e after a (subst (IsHonest world) same honest),
      )
