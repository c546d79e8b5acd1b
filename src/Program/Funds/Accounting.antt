-- ===== src/Program/Funds/Accounting.antt =====
-- What deposits and withdrawals do to the vault's tokens and counters
-- (programs/a402_vault/src/instructions).
use a.Prelude.{ℕ, ◌+◌, ◌<◌, ◌≡◌, ◌≢◌, ◌⊎◌, inl, inr, some, true, arith, Option-cases, u64_mod}
use a.Prelude.Int.{ℤ, leb_ℤ}
use a.Prelude.Equality.{Pubkey, bytes_eq, bytes_beq_iff}
use a.Prelude.Map.{lookup, lookup-insert_self}
use a.Prelude.Outcome.{Result-cases, ok, err, checked_add}
use a.Program.Error.{account_in_use}
use a.Program.State.{
  VaultConfig, Accounts, UsedWithdrawNonce, vault_status_active, vault_status_migrating,
}
use a.Program.Runtime.{InstructionsSysvar, TokenProgram, TokenLaws}
use a.Program.Ed25519.{verify_ed25519_signature}
use a.Program.Funds.{withdraw_nonce_seeds, expected_withdraw_message, deposit, withdraw}

module _ (p : TokenProgram) where
  open p use {Tokens, amount_of}

  nonce_used :
      (program : Pubkey) (sysvar : InstructionsSysvar) (bump : ℕ) (now : ℤ)
      (client vault_account client_account : Pubkey) (amount nonce : ℕ) (expires_at : ℤ)
      (a a' : Accounts) (tokens tokens' : Tokens)
      → withdraw p program sysvar bump now client vault_account client_account amount nonce
          expires_at a tokens
        ≡ ok (a', tokens')
      → lookup (withdraw_nonce_seeds client nonce) a'.used_withdraw_nonces
        ≡ some
            (record { bump = bump; vault = a.vault_key; client = client; withdraw_nonce = nonce })
  unfolding withdraw
  nonce_used program sysvar bump now client va ca amount nonce ex a a' tokens tokens' h =
      let entry : UsedWithdrawNonce = record {
        bump = bump;
        vault = a.vault_key;
        client = client;
        withdraw_nonce = nonce;
      } in
      ground (
        arith,
        lookup-insert_self {V = UsedWithdrawNonce} (withdraw_nonce_seeds client nonce) entry
            a.used_withdraw_nonces,
      )

  -- A withdrawal that succeeds uses up its nonce: afterwards every withdrawal of the same client
  -- with the same nonce is refused, whatever its amount, accounts, signature and time.
  pub withdraw_once :
      (program : Pubkey) (sysvar sysvar' : InstructionsSysvar) (bump bump' : ℕ) (now now' : ℤ)
      (client vault_account client_account vault_account' client_account' : Pubkey)
      (amount amount' nonce : ℕ) (expires_at expires_at' : ℤ) (a a' : Accounts)
      (tokens tokens' tokens'' : Tokens)
      → withdraw p program sysvar bump now client vault_account client_account amount nonce
          expires_at a tokens
        ≡ ok (a', tokens')
      → withdraw p program sysvar' bump' now' client vault_account' client_account' amount' nonce
          expires_at' a' tokens''
        ≡ err account_in_use
  unfolding withdraw
  withdraw_once program sysvar sysvar' bump bump' now now' client va ca va' ca' amount amount' nonce
        ex ex' a a' tokens tokens' tokens'' h =
      let used =
        nonce_used program sysvar bump now client va ca amount nonce ex a a' tokens tokens' h in
      ground arith

-- The vault's signer has authorized the withdrawal, in time, and the amount has moved.
abbrev pub IsWithdrawn :
    (p : TokenProgram)
    → Pubkey
    → InstructionsSysvar
    → ℤ
    → Pubkey
    → Pubkey
    → Pubkey
    → ℕ
    → ℕ
    → ℤ
    → Accounts
    → Accounts
    → p.Tokens
    → p.Tokens
    → Type 0
IsWithdrawn p program sysvar now client vault_account client_account amount nonce expires_at a a'
      tokens tokens' =
    (verify_ed25519_signature program sysvar a.vault_config.vault_signer_pubkey
      ≡ ok (expected_withdraw_message client client_account amount nonce expires_at a.vault_key))
    × (0 < amount)
    × (leb_ℤ now expires_at ≡ true)
    × ((a.vault_config.status ≡ vault_status_active)
        ⊎ ((a.vault_config.status ≡ vault_status_migrating)
            × (leb_ℤ now a.vault_config.exit_deadline ≡ true)))
    × (p.amount_of tokens' vault_account + amount ≡ p.amount_of tokens vault_account)
    × (p.amount_of tokens' client_account ≡ p.amount_of tokens client_account + amount)
    × (a'.vault_config.lifetime_withdrawn ≡ a.vault_config.lifetime_withdrawn + amount)

-- The vault is active, and the amount has moved into it.
abbrev pub IsDeposited :
    (p : TokenProgram)
    → Pubkey
    → Pubkey
    → ℕ
    → VaultConfig
    → VaultConfig
    → p.Tokens
    → p.Tokens
    → Type 0
IsDeposited p client_account vault_account amount v v' tokens tokens' =
    (v.status ≡ vault_status_active)
    × (vault_account ≡ v.vault_token_account)
    × (p.amount_of tokens' client_account + amount ≡ p.amount_of tokens client_account)
    × (p.amount_of tokens' vault_account ≡ p.amount_of tokens vault_account + amount)
    × (v' ≡ record v { lifetime_deposited = v.lifetime_deposited + amount })
    × (v'.lifetime_deposited < u64_mod)

module _ (p : TokenProgram) (laws : TokenLaws p) where
  open p use {Tokens, amount_of}

  -- A withdrawal that succeeds, to an account other than the vault's, was signed by the vault's
  -- signer for exactly this client, account, amount, nonce, expiry and vault, in time, while the
  -- vault is active or migrating; it moves the amount to the client's account and adds it to the
  -- lifetime counter.
  pub withdraw-Pays :
      (program : Pubkey) (sysvar : InstructionsSysvar) (bump : ℕ) (now : ℤ)
      (client vault_account client_account : Pubkey) (amount nonce : ℕ) (expires_at : ℤ)
      (a a' : Accounts) (tokens tokens' : Tokens)
      → vault_account ≢ client_account
      → withdraw p program sysvar bump now client vault_account client_account amount nonce
          expires_at a tokens
        ≡ ok (a', tokens')
      → IsWithdrawn p program sysvar now client vault_account client_account amount nonce expires_at
          a a' tokens tokens'
  unfolding withdraw checked_add
  withdraw-Pays program sysvar bump now client va ca amount nonce expires_at a a' tokens tokens'
        differ h =
      elim (Option-cases (p.transfer va ca a.vault_key amount tokens)) [
        | inl refused ↦ absurd (ground arith)
        | inr (paid, transferred) ↦
            elim (Result-cases
              (verify_ed25519_signature program sysvar a.vault_config.vault_signer_pubkey)) [
                | inl (m, signed) ↦
                    let from =
                      laws.transfer-from va ca a.vault_key amount tokens paid differ transferred in
                    let to =
                      laws.transfer-to va ca a.vault_key amount tokens paid differ transferred in
                    ground (
                      arith,
                      bytes_beq_iff m
                          (expected_withdraw_message client ca amount nonce expires_at a.vault_key),
                    )
                | inr other ↦ absurd (ground arith)
              ]
      ]

  -- A deposit that succeeds, from an account other than the vault's, moves the amount into the
  -- vault's account and adds it to the lifetime counter, in range, and it is made only while the
  -- vault is active.
  pub deposit-Pays :
      (client client_account vault_account : Pubkey) (amount : ℕ) (v v' : VaultConfig)
      (tokens tokens' : Tokens)
      → client_account ≢ vault_account
      → deposit p client client_account vault_account amount v tokens ≡ ok (v', tokens')
      → IsDeposited p client_account vault_account amount v v' tokens tokens'
  unfolding deposit checked_add
  deposit-Pays client ca va amount v v' tokens tokens' differ h =
      elim (Option-cases (p.transfer ca va client amount tokens)) [
        | inl refused ↦ absurd (ground arith)
        | inr (paid, transferred) ↦
            let from = laws.transfer-from ca va client amount tokens paid differ transferred in
            let to = laws.transfer-to ca va client amount tokens paid differ transferred in
            ground (arith, bytes_beq_iff va v.vault_token_account)
      ]
