-- ===== src/Program/Lifecycle.antt =====
-- programs/a402_vault/src/instructions: initialize_vault, pause_vault, announce_migration,
-- retire_vault and rotate_auditor. `signer` is the account that signs as governance, `now` the clock.
pub mod Transitions
use a.Prelude.{ℕ, zero, suc, Bool, true, false, ◌||◌, ◌∷◌, [], u32_mod}
use a.Prelude.Int.{ℤ, pos, ltb_ℤ, leb_ℤ}
use a.Prelude.Equality.{Bytes, Pubkey, ◌==◌, nat_eq, bytes_eq}
use a.Prelude.Outcome.{Result, ok, checked_add}
use a.Prelude.Fallible.{◌>>=◌, ◌>>◌, require, ok_or}
use a.Program.Error.{
  VaultError, vault_inactive, vault_already_paused, exit_deadline_exceeded,
  exit_deadline_not_reached, invalid_status_transition, arithmetic_overflow, constraint_violated,
}
use a.Program.State.{
  VaultConfig, vault_status_active, vault_status_paused, vault_status_migrating,
  vault_status_retired,
}

abbrev zeros : ℕ → Bytes
zeros zero = []
zeros (suc n) = 0 ∷ zeros n

-- `Pubkey::default()`
abbrev pub default_pubkey : Pubkey
default_pubkey = zeros 32

unfoldable pub initialize_vault :
    ℕ → Pubkey → Pubkey → Pubkey → ℕ → Pubkey → Bytes → Bytes → VaultConfig
initialize_vault bump governance usdc_mint vault_token_account vault_id vault_signer_pubkey
      auditor_master_pubkey attestation_policy_hash =
    record {
      bump = bump;
      vault_id = vault_id;
      governance = governance;
      status = vault_status_active;
      vault_signer_pubkey = vault_signer_pubkey;
      usdc_mint = usdc_mint;
      vault_token_account = vault_token_account;
      auditor_master_pubkey = auditor_master_pubkey;
      auditor_epoch = 0;
      attestation_policy_hash = attestation_policy_hash;
      successor_vault = default_pubkey;
      exit_deadline = pos 0;
      lifetime_deposited = 0;
      lifetime_withdrawn = 0;
      lifetime_settled = 0;
    }

unfoldable pub pause_vault : Pubkey → VaultConfig → Result VaultError VaultConfig
pause_vault signer vault = do
  require (vault.governance == signer) constraint_violated
  require (vault.status == vault_status_active) vault_already_paused
  ok (record vault { status = vault_status_paused })

unfoldable pub announce_migration :
    Pubkey → Pubkey → ℤ → ℤ → VaultConfig → Result VaultError VaultConfig
announce_migration signer successor_vault exit_deadline now vault = do
  require (vault.governance == signer) constraint_violated
  require (vault.status == vault_status_active) vault_inactive
  require (ltb_ℤ now exit_deadline) exit_deadline_exceeded
  ok (record vault {
    status = vault_status_migrating;
    successor_vault = successor_vault;
    exit_deadline = exit_deadline;
  })

-- `if vault.status == VAULT_STATUS_MIGRATING { require!(..) }`
abbrev pub when_migrating : VaultConfig → Bool → VaultError → Result VaultError Unit
when_migrating vault test e = elim (vault.status == vault_status_migrating) [
  | true ↦ require test e
  | false ↦ ok tt
]

unfoldable pub retire_vault : Pubkey → ℤ → VaultConfig → Result VaultError VaultConfig
retire_vault signer now vault = do
  require (vault.governance == signer) constraint_violated
  require (vault.status == vault_status_paused || vault.status == vault_status_migrating)
      invalid_status_transition
  when_migrating vault (leb_ℤ vault.exit_deadline now) exit_deadline_not_reached
  ok (record vault { status = vault_status_retired })

unfoldable pub rotate_auditor : Pubkey → Bytes → VaultConfig → Result VaultError VaultConfig
rotate_auditor signer new_auditor_master_pubkey vault = do
  require (vault.governance == signer) constraint_violated
  auditor_epoch ← ok_or (checked_add u32_mod vault.auditor_epoch 1) arithmetic_overflow
  ok (record vault {
    auditor_master_pubkey = new_auditor_master_pubkey;
    auditor_epoch = auditor_epoch;
  })
