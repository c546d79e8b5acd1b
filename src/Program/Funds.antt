-- ===== src/Program/Funds.antt =====
-- programs/a402_vault/src/instructions: deposit and withdraw. `client` signs, the token accounts are
-- those that the transaction names, and `now` is the clock.
pub mod Accounting
use a.Prelude.{ℕ, ◌||◌, Option, none, some, List, ◌++◌, ltb, u64_mod}
use a.Prelude.Int.{ℤ, leb_ℤ}
use a.Prelude.Equality.{Bytes, Pubkey, ◌==◌, nat_eq, bytes_eq}
use a.Prelude.Codec.{le_bytes, i64_bits}
use a.Prelude.Map.{Map, lookup, insert}
use a.Prelude.Outcome.{Result, ok, err, checked_add}
use a.Prelude.Fallible.{◌>>=◌, ◌>>◌, require, ok_or}
use a.Program.Error.{
  VaultError, vault_inactive, exit_deadline_exceeded, withdraw_expired, invalid_amount,
  invalid_participant_receipt, arithmetic_overflow, constraint_violated, account_in_use,
  token_error,
}
use a.Program.State.{
  VaultConfig, UsedWithdrawNonce, Accounts, vault_status_active, vault_status_migrating,
}
use a.Program.Runtime.{InstructionsSysvar, TokenProgram}
use a.Program.Ed25519.{verify_ed25519_signature}
use a.Program.Lifecycle.{when_migrating}

-- `init`: the account must not exist yet.
abbrev pub init_account : {V : Type 0} → Bytes → Map Bytes V → Result VaultError Unit
init_account seeds accounts = elim (lookup seeds accounts) [
  | none ↦ ok tt
  | some account ↦ err account_in_use
]

unfoldable pub withdraw_nonce_seeds : Pubkey → ℕ → Bytes
withdraw_nonce_seeds client withdraw_nonce = client ++ le_bytes 8 withdraw_nonce

-- client (32) + recipient_ata (32) + amount (8) + withdraw_nonce (8) + expires_at (8)
-- + vault_config (32) = 120 bytes
unfoldable pub expected_withdraw_message : Pubkey → Pubkey → ℕ → ℕ → ℤ → Pubkey → Bytes
expected_withdraw_message client recipient_ata amount withdraw_nonce expires_at vault_config =
    client
    ++ (recipient_ata
        ++ (le_bytes 8 amount
            ++ (le_bytes 8 withdraw_nonce ++ (le_bytes 8 (i64_bits expires_at) ++ vault_config))))

module _ (p : TokenProgram) where
  open p use {Tokens, mint_of, owner_of, transfer}

  unfoldable pub deposit :
      Pubkey → Pubkey → Pubkey → ℕ → VaultConfig → Tokens → Result VaultError (VaultConfig × Tokens)
  deposit client client_token_account vault_token_account amount vault tokens = do
    require (vault.status == vault_status_active) vault_inactive
    require (mint_of tokens client_token_account == vault.usdc_mint) constraint_violated
    require (owner_of tokens client_token_account == client) constraint_violated
    require (vault_token_account == vault.vault_token_account) constraint_violated
    require (ltb 0 amount) invalid_amount
    tokens' ←
        ok_or (transfer client_token_account vault_token_account client amount tokens) token_error
    lifetime_deposited ←
        ok_or (checked_add u64_mod vault.lifetime_deposited amount) arithmetic_overflow
    ok (record vault { lifetime_deposited = lifetime_deposited }, tokens')

  unfoldable pub withdraw :
      Pubkey
      → InstructionsSysvar
      → ℕ
      → ℤ
      → Pubkey
      → Pubkey
      → Pubkey
      → ℕ
      → ℕ
      → ℤ
      → Accounts
      → Tokens
      → Result VaultError (Accounts × Tokens)
  withdraw ed25519_program sysvar bump now client vault_token_account client_token_account amount
        withdraw_nonce expires_at accounts tokens =
      do
        let vault = accounts.vault_config
        init_account (withdraw_nonce_seeds client withdraw_nonce) accounts.used_withdraw_nonces
        require (vault.status == vault_status_active || vault.status == vault_status_migrating)
            vault_inactive
        require (vault_token_account == vault.vault_token_account) constraint_violated
        require (mint_of tokens client_token_account == vault.usdc_mint) constraint_violated
        require (owner_of tokens client_token_account == client) constraint_violated
        require (ltb 0 amount) invalid_amount
        when_migrating vault (leb_ℤ now vault.exit_deadline) exit_deadline_exceeded
        require (leb_ℤ now expires_at) withdraw_expired
        signed_message ← verify_ed25519_signature ed25519_program sysvar vault.vault_signer_pubkey
        require
            (signed_message
              == expected_withdraw_message client client_token_account amount withdraw_nonce
                  expires_at accounts.vault_key)
            invalid_participant_receipt
        tokens' ←
            ok_or
              (transfer vault_token_account client_token_account accounts.vault_key amount tokens)
              token_error
        lifetime_withdrawn ←
            ok_or (checked_add u64_mod vault.lifetime_withdrawn amount) arithmetic_overflow
        ok (
          record accounts {
            vault_config = record vault { lifetime_withdrawn = lifetime_withdrawn };
            used_withdraw_nonces =
                insert (withdraw_nonce_seeds client withdraw_nonce)
                  (record {
                    bump = bump;
                    vault = accounts.vault_key;
                    client = client;
                    withdraw_nonce = withdraw_nonce;
                  })
                  accounts.used_withdraw_nonces;
          },
          tokens',
        )
