-- ===== src/Core/EvidenceVault/Trust.antt =====
-- src/auditspec/core/evidence_vault.py: `VaultTrustPins`, and the constructor of the vault.
use auditspec.Prelude.{
  String, Bool, true, not, ◌||◌, Option, none, some, List, [], ◌∷◌, ◌++◌, if◌then◌else◌,
}
use auditspec.Prelude.Text.{◌≟◌}
use auditspec.Prelude.Dict.{is_some}
use auditspec.Prelude.Result.{Result, ok, vault_error, require, ◌>>=◌, ◌>>◌}
use auditspec.Core.EvidenceVault.Records.{World}
use auditspec.Core.EvidenceVault.Checks.{vault_identifier, sha256, public_key}
use auditspec.Core.EvidenceVault.Replay.{EvidenceVault, VaultSigner, VaultState, replay}
use auditspec.Core.EvidenceVault.Recovery.{recover_locked}

pub record VaultTrustPins : Type 0 where
  pub expected_vault_id : Option String
  pub expected_manifest_root : Option String
  pub expected_public_key_hex : Option String
  pub expected_vault_root : Option String

unfoldable pub has_cryptographic_pin : VaultTrustPins → Bool
has_cryptographic_pin pins =
    is_some pins.expected_manifest_root
    || is_some pins.expected_public_key_hex
    || is_some pins.expected_vault_root

abbrev pub named : String → Option String → List String
named name none = []
named name (some value) = name ∷ []

unfoldable pub pin_names : VaultTrustPins → List String
pin_names pins =
    named "vault_id" pins.expected_vault_id
    ++ named "manifest_root" pins.expected_manifest_root
    ++ named "public_key" pins.expected_public_key_hex
    ++ named "vault_root" pins.expected_vault_root

unfoldable pub authentication_status : VaultTrustPins → String
authentication_status pins =
    if is_some pins.expected_vault_root || is_some pins.expected_manifest_root
    then "EXTERNALLY_AUTHENTICATED"
    else if is_some pins.expected_public_key_hex
    then "AUTHORITY_PINNED"
    else "SELF_CONSISTENT"

unfoldable pub authentication_scope : VaultTrustPins → String
authentication_scope pins =
    if is_some pins.expected_vault_root
    then "SNAPSHOT"
    else if is_some pins.expected_manifest_root
    then "GENESIS"
    else if is_some pins.expected_public_key_hex
    then "SIGNING_AUTHORITY"
    else "INTERNAL_ONLY"

-- A pin that is given is the actual value.
abbrev pub agrees : String → Option String → Bool
agrees actual none = true
agrees actual (some pinned) = actual ≟ pinned

unfoldable pub verify_manifest_pins : VaultTrustPins → EvidenceVault → Result (Unit {0})
verify_manifest_pins pins vault = do
  require (agrees vault.vault_id pins.expected_vault_id)
      (vault_error "external vault id pin mismatch")
  require (agrees vault.manifest_root pins.expected_manifest_root)
      (vault_error "external manifest root pin mismatch")
  require (agrees vault.initial_public_key_hex pins.expected_public_key_hex)
      (vault_error "external initial public key pin mismatch")
  ok tt

unfoldable pub verify_vault_root_pin : VaultTrustPins → VaultState → Result (Unit {0})
verify_vault_root_pin pins state = do
  require (agrees state.vault_root pins.expected_vault_root)
      (vault_error "external vault root pin mismatch")
  ok tt

abbrev pub checked_by : (String → Result String) → Option String → Result (Unit {0})
checked_by check none = ok tt
checked_by check (some value) = check value >>= λ checked. ok tt

module _ (world : World) where
  -- `__post_init__`
  unfoldable pub check_pins : VaultTrustPins → Result (Unit {0})
  unfolding vault_identifier sha256 public_key has_cryptographic_pin
  check_pins pins = do
    checked_by vault_identifier pins.expected_vault_id
    checked_by sha256 pins.expected_manifest_root
    checked_by sha256 pins.expected_vault_root
    checked_by (public_key world) pins.expected_public_key_hex
    require (not (is_some pins.expected_vault_id) || has_cryptographic_pin pins)
        (vault_error "expected_vault_id requires a manifest, public-key, or vault-root pin")
    ok tt

  -- The replay's root is compared only where a pin calls for it.
  unfoldable pub open_as :
      VaultTrustPins → Option VaultSigner → EvidenceVault → Result EvidenceVault
  unfolding replay verify_vault_root_pin recover_locked has_cryptographic_pin
  open_as pins (some signer) vault = do
    state ← replay world vault
    verify_vault_root_pin pins state
    require (signer.public_key_hex ≟ state.journal_authority.active_public_key_hex)
        (vault_error "vault signer does not match active journal authority")
    recover_locked world vault
  open_as pins none vault =
      if has_cryptographic_pin pins
      then (replay world vault >>= λ state. verify_vault_root_pin pins state >> ok vault)
      else ok vault

  -- `__init__`, on a directory whose manifest has loaded.
  unfoldable pub open_vault :
      VaultTrustPins → Option VaultSigner → EvidenceVault → Result EvidenceVault
  unfolding check_pins verify_manifest_pins open_as
  open_vault pins signer vault = do
    check_pins pins
    verify_manifest_pins pins vault
    open_as pins signer (record vault { signer = signer })
