-- ===== src/Core/EvidenceVault/Commands/Reached.antt =====
-- The vaults that the public methods reach.
use mathlib.Core.Path.{subst}
use auditspec.Prelude.{String, Option, none, some, [], ◌≡◌, refl, sym, ◌∙◌, Bool-cases, inl, inr}
use auditspec.Prelude.Result.{ok, >>=-eq-ok, require-eq-ok, ok-injective}
use auditspec.Core.EvidenceVault.Records.{World, Event}
use auditspec.Core.EvidenceVault.Chain.{begin}
use auditspec.Core.EvidenceVault.Tables.{no_tables}
use auditspec.Core.EvidenceVault.Replay.{
  EvidenceVault, VaultState, VaultSigner, vault_state, replay,
}
use auditspec.Core.EvidenceVault.Recovery.{recover_locked}
use auditspec.Core.EvidenceVault.Holds.{HoldsRespected, apply-HoldsRespected}
use auditspec.Core.EvidenceVault.Trust.{
  VaultTrustPins, has_cryptographic_pin, check_pins, verify_manifest_pins, verify_vault_root_pin,
  open_as, open_vault,
}
use auditspec.Core.EvidenceVault.Commands.{Command, run}
use auditspec.Core.EvidenceVault.Commands.Recorded.{HonestSigner, Course, still, step}
use auditspec.Core.EvidenceVault.Commands.Courses.{
  HasIdentifiers, recover_locked-Course, run-Course,
}

-- A directory that `create` has made.
abbrev pub empty_vault : String → String → String → EvidenceVault
empty_vault vault_id manifest_root key = record {
  vault_id = vault_id;
  manifest_root = manifest_root;
  initial_public_key_hex = key;
  events = [];
  objects = [];
  signer = none;
}

module _ (world : World) where
  -- A new vault, opened and changed by any signers whose signatures verify.
  pub data Reached : EvidenceVault → Type 0 where
    created :
        (vault_id manifest_root key : String) → Reached (empty_vault vault_id manifest_root key)
    opened :
        (pins : VaultTrustPins) (signer : Option VaultSigner) (before after : EvidenceVault)
        → Reached before
        → HonestSigner world signer
        → open_vault world pins signer before ≡ ok after
        → Reached after
    ran :
        (command : Command) (before after : EvidenceVault) (event : Event)
        → Reached before
        → HonestSigner world before.signer
        → HasIdentifiers command
        → run world command before ≡ ok (event, after)
        → Reached after

  -- The vault replays to a state that respects the holds.
  pub record Sound (v : EvidenceVault) : Type 0 where
    pub state : VaultState
    pub replayed : replay world v ≡ ok state
    pub respected : HoldsRespected state.tables

  Course-Sound : (v after : EvidenceVault) → Course world v after → Sound v → Sound after
  Course-Sound _ _ (still v after j) s = record {
    state = s.state;
    replayed = j.replays ∙ s.replayed;
    respected = s.respected;
  }
  Course-Sound _ _ (step v mid after body root before r c) s =
      let same : s.state ≡ before = ok-injective s.state before (sym s.replayed ∙ r.replayed) in
      Course-Sound mid after c (record {
        state = vault_state mid r.progress r.tables;
        replayed = r.result;
        respected =
            apply-HoldsRespected world body root before.tables r.tables r.applied r.permitted
              (subst (λ (x : VaultState). HoldsRespected x.tables) same s.respected);
      })

  with_signer-Sound :
      (v : EvidenceVault) (signer : Option VaultSigner)
      → Sound v
      → Sound (record v { signer = signer })
  unfolding replay
  with_signer-Sound v signer s = record {
    state = s.state;
    replayed = s.replayed;
    respected = s.respected;
  }

  open_as-Sound :
      (pins : VaultTrustPins) (signer : Option VaultSigner) (v after : EvidenceVault)
      → HonestSigner world v.signer
      → open_as world pins signer v ≡ ok after
      → Sound v
      → Sound after
  unfolding open_as
  open_as-Sound pins (some signer) v after honest h s =
      let (state, h1, k1) = >>=-eq-ok (replay world v) _ h in
      let (u, h2, k2) = >>=-eq-ok (verify_vault_root_pin pins state) _ k1 in
      let (h3, k3) = require-eq-ok _ _ (recover_locked world v) k2 in
      Course-Sound v after (recover_locked-Course world v after honest k3) s
  open_as-Sound pins none v after honest h s = elim (Bool-cases (has_cryptographic_pin pins)) [
    | inl c ↦
        let (state, h1, k1) = >>=-eq-ok (replay world v) _ (rw c at h) in
        let (u, h2, k2) = >>=-eq-ok (verify_vault_root_pin pins state) _ k1 in
        subst Sound (ok-injective v after k2) s
    | inr c ↦ subst Sound (ok-injective v after (rw c at h)) s
  ]

  empty_vault-Sound :
      (vault_id manifest_root key : String) → Sound (empty_vault vault_id manifest_root key)
  unfolding replay
  empty_vault-Sound vault_id manifest_root key = record {
    state = vault_state (empty_vault vault_id manifest_root key) (begin key) no_tables;
    replayed = refl;
    respected = record { held = λ hold_id hold f. cc; intended = λ id h. cc };
  }

  -- Every vault that is created, opened and changed through the public methods, by signers whose
  -- signatures verify, and whose retirements name identifiers, replays; and in the replayed state
  -- no evidence under a hold that is not released has a deletion intent, and no evidence is deleted
  -- without an intent.
  pub Reached-Sound : (v : EvidenceVault) → Reached v → Sound v
  unfolding open_vault
  Reached-Sound _ (created vault_id manifest_root key) =
      empty_vault-Sound vault_id manifest_root key
  Reached-Sound _ (opened pins signer before after r honest h) =
      let (u, h1, k1) = >>=-eq-ok (check_pins world pins) _ h in
      let (w, h2, k2) = >>=-eq-ok (verify_manifest_pins pins before) _ k1 in
      open_as-Sound pins signer (record before { signer = signer }) after honest k2
        (with_signer-Sound before signer (Reached-Sound before r))
  Reached-Sound _ (ran command before after event r honest i h) =
      Course-Sound before after (run-Course world command before after event honest i h)
        (Reached-Sound before r)
