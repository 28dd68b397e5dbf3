-- ===== src/Core/EvidenceVault/Commands/Recorded.antt =====
-- An event whose body the state accepts is recorded: the vault after it replays.
use mathlib.Core.Path.{subst}
use auditspec.Prelude.{String, false, Option, none, some, [], ◌∷◌, ◌++◌, ◌≡◌, refl, sym, ◌∙◌, ap}
use auditspec.Prelude.Dict.{Dict, has, insert_new}
use auditspec.Prelude.Result.{ok, ◌>>=◌, ok-injective}
use auditspec.Core.EvidenceVault.Records.{World, Body, Event}
use auditspec.Core.EvidenceVault.Chain.{Progress, rotate}
use auditspec.Core.EvidenceVault.Tables.{Tables, insert_once}
use auditspec.Core.EvidenceVault.Fold.{apply}
use auditspec.Core.EvidenceVault.Replay.{
  EvidenceVault, VaultSigner, VaultState, vault_state, replay, append_event,
}
use auditspec.Core.EvidenceVault.Replay.Steps.{IsHonest, append_event-Appended, append_event-replay}
use auditspec.Core.EvidenceVault.Holds.{Permitted}

-- The vault's signer, if it has one, makes signatures that verify.
abbrev pub HonestSigner : World → Option VaultSigner → Type 0
HonestSigner world none = Unit
HonestSigner world (some signer) = IsHonest world signer

pub insert_once-new :
    {A : Type 0} (key : String) (v : A) (d : Dict A)
    → has key d ≡ false
    → insert_once key v d ≡ ok (insert_new key v d)
unfolding insert_once
insert_once-new key v d h = rw h refl

-- A new key is inserted, whatever is made of the dict.
pub inserted :
    {A : Type 0} (key : String) (v : A) (d : Dict A) (f : Dict A → Tables)
    → has key d ≡ false
    → (t : Tables) × ((insert_once key v d >>= λ x. ok (f x)) ≡ ok t)
inserted key v d f h = (f (insert_new key v d), rw (insert_once-new key v d h) refl)

-- The body continues the state: both loops of the replay take it, whatever its root.
pub record Accepts (world : World) (body : Body) (s : VaultState) : Type 0 where
  pub permitted : Permitted s.tables body
  pub rotated :
      (event : Event) → (q : Progress) × (rotate world body event s.journal_authority ≡ ok q)
  pub applied : (root : String) → (t : Tables) × (apply world body root s.tables ≡ ok t)

-- `after` is the vault with one more event, of this body and root, which the replay takes.
pub record Recorded (world : World) (v after : EvidenceVault) (body : Body) (root : String)
    (before : VaultState) : Type 0 where
  pub progress : Progress
  pub tables : Tables
  pub replayed : replay world v ≡ ok before
  pub permitted : Permitted before.tables body
  pub applied : apply world body root before.tables ≡ ok tables
  pub result : replay world after ≡ ok (vault_state after progress tables)
  pub signer : after.signer ≡ v.signer

-- The journal is as before.
pub record SameJournal (world : World) (v after : EvidenceVault) : Type 0 where
  pub replays : replay world after ≡ replay world v
  pub signer : after.signer ≡ v.signer

-- From a vault to another by recorded events, and by changes of objects.
pub data Course (world : World) : EvidenceVault → EvidenceVault → Type 0 where
  still : (v after : EvidenceVault) → SameJournal world v after → Course world v after
  step :
      (v mid after : EvidenceVault) (body : Body) (root : String) (before : VaultState)
      → Recorded world v mid body root before
      → Course world mid after
      → Course world v after

pub same_journal : (world : World) (v : EvidenceVault) → SameJournal world v v
same_journal world v = record { replays = refl; signer = refl }

module _ (world : World) where
  -- `v1` is `v` with other objects.
  pub append_event-Recorded :
      (v v1 after : EvidenceVault) (body : Body) (at : String) (e : Event) (s : VaultState)
      → replay world v ≡ ok s
      → SameJournal world v v1
      → HonestSigner world v.signer
      → append_event world body at v1 ≡ ok (e, after)
      → Accepts world body s
      → Recorded world v after body e.event_root s
  append_event-Recorded v v1 after body at e s hv j honest h acc =
      let a = append_event-Appended world body at v1 e after h in
      let same : s ≡ a.before = ok-injective s a.before (sym hv ∙ sym j.replays ∙ a.replayed) in
      let (q, hq) = acc.rotated e in
      let (t, ht) = acc.applied e.event_root in
      let honest1 : IsHonest world a.signer =
        subst (HonestSigner world) (sym j.signer ∙ a.has_signer) honest in
      record {
        progress = q;
        tables = t;
        replayed = hv;
        permitted = acc.permitted;
        applied = ht;
        result =
            append_event-replay world body at v1 e after a honest1 ∙ (rw (← same, hq, ht) refl);
        signer = ap (λ (x : EvidenceVault). x.signer) a.vault ∙ j.signer;
      }

  pub append_event-events :
      (body : Body) (at : String) (v : EvidenceVault) (e : Event) (after : EvidenceVault)
      → append_event world body at v ≡ ok (e, after)
      → after.events ≡ v.events ++ e ∷ []
  append_event-events body at v e after h =
      let a = append_event-Appended world body at v e after h in
      ap (λ (x : EvidenceVault). x.events) a.vault

  pub append_event-body :
      (body : Body) (at : String) (v : EvidenceVault) (e : Event) (after : EvidenceVault)
      → append_event world body at v ≡ ok (e, after)
      → e.payload.body ≡ body
  append_event-body body at v e after h =
      let a = append_event-Appended world body at v e after h in
      ap (λ (x : Event). x.payload.body) a.event

  -- An operation that ends in one append.
  pub append_event-Course :
      (v v1 after : EvidenceVault) (body : Body) (at : String) (e : Event) (s : VaultState)
      → replay world v ≡ ok s
      → SameJournal world v v1
      → HonestSigner world v.signer
      → append_event world body at v1 ≡ ok (e, after)
      → Accepts world body s
      → Course world v after
  append_event-Course v v1 after body at e s hv j honest h acc =
      step v after after body e.event_root s
        (append_event-Recorded v v1 after body at e s hv j honest h acc)
        (still after after (same_journal world after))

  pub Course-trans :
      (v mid after : EvidenceVault)
      → Course world v mid
      → Course world mid after
      → Course world v after
  Course-trans _ _ after (still v mid j) (still _ _ i) =
      still v after (record { replays = i.replays ∙ j.replays; signer = i.signer ∙ j.signer })
  Course-trans _ _ after (still v mid j) (step _ next _ body root before r c) =
      step v next after body root before
        (record {
          progress = r.progress;
          tables = r.tables;
          replayed = sym j.replays ∙ r.replayed;
          permitted = r.permitted;
          applied = r.applied;
          result = r.result;
          signer = r.signer ∙ j.signer;
        })
        c
  Course-trans _ _ after (step v next mid body root before r c) d =
      step v next after body root before r (Course-trans next mid after c d)

  pub Course-signer : (v after : EvidenceVault) → Course world v after → after.signer ≡ v.signer
  Course-signer _ _ (still v after j) = j.signer
  Course-signer _ _ (step v mid after body root before r c) = Course-signer mid after c ∙ r.signer
