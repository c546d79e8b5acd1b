-- ===== src/Program/ForceSettle.antt =====
-- programs/a402_vault/src/instructions: force_settle_init, force_settle_challenge and
-- force_settle_finalize. A participant claims the balance of a receipt that the vault has signed,
-- anyone may answer with a newer receipt during the dispute window, and after it the vault pays.
pub mod Dispute
pub mod Runs
use a.Prelude.{
  ℕ, ◌∷◌, [], ◌++◌, Bool, true, false, not, ◌&&◌, Option, leb, ltb, u64_mod, if◌then◌else◌,
}
use a.Prelude.Int.{beq_ℤ, ℤ, ◌+ℤ◌, in_i64, ltb_ℤ, leb_ℤ}
use a.Prelude.Equality.{Bytes, Pubkey, ◌==◌, nat_eq, bytes_eq}
use a.Prelude.Map.{lookup, insert}
use a.Prelude.Outcome.{Result, ok, err, checked_add}
use a.Prelude.Fallible.{◌>>=◌, ◌>>◌, require, ok_or}
use a.Program.Error.{
  VaultError, vault_insolvent, invalid_participant_receipt, invalid_receipt_message,
  stale_receipt_nonce, dispute_window_active, dispute_window_expired, already_resolved,
  arithmetic_overflow, constraint_violated, token_error,
}
use a.Program.State.{VaultConfig, ForceSettleRequest, Accounts, dispute_window_sec}
use a.Program.Runtime.{InstructionsSysvar, TokenProgram}
use a.Program.Ed25519.{VerifiedEd25519Signature, verify_ed25519_signature_details}
use a.Program.Receipt.{ParticipantReceiptMessage, decode_participant_receipt_message}
use a.Program.Funds.{init_account}

unfoldable pub force_settle_seeds : Pubkey → ℕ → Bytes
force_settle_seeds participant participant_kind = participant ++ participant_kind ∷ []

-- What the caller says the receipt holds.
pub record ClaimedReceipt : Type 0 where
  pub recipient_ata : Pubkey
  pub free_balance : ℕ
  pub locked_balance : ℕ
  pub max_lock_expires_at : ℤ
  pub receipt_nonce : ℕ
  pub receipt_signature : Bytes
  pub receipt_message : Bytes

-- The checks that `force_settle_init` and `force_settle_challenge` share: the vault has signed the
-- message, and the message says what the caller says.
unfoldable pub verify_receipt :
    Pubkey → InstructionsSysvar → Accounts → Pubkey → ℕ → ClaimedReceipt → Result VaultError Unit
unfolding beq_ℤ
verify_receipt ed25519_program sysvar accounts participant participant_kind claimed = do
  verified ←
      verify_ed25519_signature_details ed25519_program sysvar
        accounts.vault_config.vault_signer_pubkey
  require (verified.message == claimed.receipt_message) invalid_participant_receipt
  require (verified.signature == claimed.receipt_signature) invalid_participant_receipt
  decoded ← decode_participant_receipt_message claimed.receipt_message
  require (decoded.participant == participant) invalid_receipt_message
  require (decoded.participant_kind == participant_kind) invalid_receipt_message
  require (decoded.recipient_ata == claimed.recipient_ata) invalid_receipt_message
  require (decoded.free_balance == claimed.free_balance) invalid_receipt_message
  require (decoded.locked_balance == claimed.locked_balance) invalid_receipt_message
  require (beq_ℤ decoded.max_lock_expires_at claimed.max_lock_expires_at) invalid_receipt_message
  require (decoded.nonce == claimed.receipt_nonce) invalid_receipt_message
  require (decoded.vault_config == accounts.vault_key) invalid_receipt_message

unfoldable pub force_settle_init :
    Pubkey
    → InstructionsSysvar
    → ℕ
    → ℤ
    → Pubkey
    → ℕ
    → ClaimedReceipt
    → Accounts
    → Result VaultError Accounts
force_settle_init ed25519_program sysvar bump now participant participant_kind claimed accounts = do
  init_account (force_settle_seeds participant participant_kind) accounts.force_settle_requests
  verify_receipt ed25519_program sysvar accounts participant participant_kind claimed
  dispute_deadline ←
      ok_or
        (if in_i64 (now +ℤ dispute_window_sec)
          then Option.some (now +ℤ dispute_window_sec)
          else Option.none)
        arithmetic_overflow
  ok (record accounts {
    force_settle_requests =
        insert (force_settle_seeds participant participant_kind)
          (record {
            bump = bump;
            vault = accounts.vault_key;
            participant = participant;
            participant_kind = participant_kind;
            recipient_ata = claimed.recipient_ata;
            free_balance_due = claimed.free_balance;
            locked_balance_due = claimed.locked_balance;
            max_lock_expires_at = claimed.max_lock_expires_at;
            receipt_nonce = claimed.receipt_nonce;
            receipt_signature = claimed.receipt_signature;
            initiated_at = now;
            dispute_deadline = dispute_deadline;
            is_resolved = false;
          })
          accounts.force_settle_requests;
  })

-- The handler of `force_settle_challenge` on the request that the transaction names.
unfoldable pub challenge_request :
    Pubkey
    → InstructionsSysvar
    → ℤ
    → ClaimedReceipt
    → Accounts
    → ForceSettleRequest
    → Result VaultError ForceSettleRequest
challenge_request ed25519_program sysvar now newer accounts request = do
  require (request.vault == accounts.vault_key) constraint_violated
  require (not request.is_resolved) already_resolved
  require (leb_ℤ now request.dispute_deadline) dispute_window_expired
  require (ltb request.receipt_nonce newer.receipt_nonce) stale_receipt_nonce
  verify_receipt ed25519_program sysvar accounts request.participant request.participant_kind newer
  ok (record request {
    recipient_ata = newer.recipient_ata;
    free_balance_due = newer.free_balance;
    locked_balance_due = newer.locked_balance;
    max_lock_expires_at = newer.max_lock_expires_at;
    receipt_nonce = newer.receipt_nonce;
    receipt_signature = newer.receipt_signature;
  })

-- The account of the request, at its address: one that does not exist fails to load.
unfoldable pub force_settle_challenge :
    Pubkey → InstructionsSysvar → ℤ → Bytes → ClaimedReceipt → Accounts → Result VaultError Accounts
force_settle_challenge ed25519_program sysvar now seeds newer accounts = do
  request ← ok_or (lookup seeds accounts.force_settle_requests) constraint_violated
  request' ← challenge_request ed25519_program sysvar now newer accounts request
  ok (record accounts {
    force_settle_requests = insert seeds request' accounts.force_settle_requests;
  })

unfoldable pub claimable_locked : ℤ → ForceSettleRequest → ℕ
claimable_locked now request = elim (leb_ℤ request.max_lock_expires_at now) [
  | true ↦ request.locked_balance_due
  | false ↦ 0
]

-- `if free_balance_due == 0 && locked_balance_due == 0 { is_resolved = true }`
unfoldable pub resolve_if_paid : ForceSettleRequest → ForceSettleRequest
resolve_if_paid request = elim (request.free_balance_due == 0 && request.locked_balance_due == 0) [
  | true ↦ record request { is_resolved = true }
  | false ↦ request
]

unfoldable pub after_payment : ℤ → ForceSettleRequest → ForceSettleRequest
unfolding resolve_if_paid
after_payment now request = elim (leb_ℤ request.max_lock_expires_at now) [
  | true ↦ resolve_if_paid (record request { free_balance_due = 0; locked_balance_due = 0 })
  | false ↦ resolve_if_paid (record request { free_balance_due = 0 })
]

-- `if locked_balance_due == 0 { is_resolved = true }`
unfoldable pub without_payment : ForceSettleRequest → ForceSettleRequest
without_payment request = elim (request.locked_balance_due == 0) [
  | true ↦ record request { is_resolved = true }
  | false ↦ request
]

module _ (p : TokenProgram) where
  open p use {Tokens, amount_of, transfer}

  unfoldable pub pay_claimable :
      ℤ
      → Pubkey
      → Pubkey
      → ℕ
      → Accounts
      → ForceSettleRequest
      → Tokens
      → Result VaultError (ForceSettleRequest × Tokens)
  unfolding without_payment after_payment
  pay_claimable now vault_token_account recipient_token_account claimable accounts request tokens =
      elim (claimable == 0) [
        | true ↦ ok (without_payment request, tokens)
        | false ↦ do
          require (leb claimable (amount_of tokens vault_token_account)) vault_insolvent
          tokens' ←
              ok_or
                (transfer vault_token_account recipient_token_account accounts.vault_key claimable
                  tokens)
                token_error
          ok (after_payment now request, tokens')
      ]

  -- The handler of `force_settle_finalize` on the request that the transaction names.
  unfoldable pub finalize_request :
      ℤ
      → Pubkey
      → Pubkey
      → Accounts
      → ForceSettleRequest
      → Tokens
      → Result VaultError (ForceSettleRequest × Tokens)
  unfolding pay_claimable claimable_locked
  finalize_request now vault_token_account recipient_token_account accounts request tokens = do
    require (request.vault == accounts.vault_key) constraint_violated
    require (not request.is_resolved) already_resolved
    require (vault_token_account == accounts.vault_config.vault_token_account) constraint_violated
    require (recipient_token_account == request.recipient_ata) constraint_violated
    require (ltb_ℤ request.dispute_deadline now) dispute_window_active
    claimable ←
        ok_or (checked_add u64_mod request.free_balance_due (claimable_locked now request))
          arithmetic_overflow
    pay_claimable now vault_token_account recipient_token_account claimable accounts request tokens

  unfoldable pub force_settle_finalize :
      ℤ → Pubkey → Pubkey → Bytes → Accounts → Tokens → Result VaultError (Accounts × Tokens)
  unfolding finalize_request
  force_settle_finalize now vault_token_account recipient_token_account seeds accounts tokens = do
    request ← ok_or (lookup seeds accounts.force_settle_requests) constraint_violated
    (request', tokens') ←
        finalize_request now vault_token_account recipient_token_account accounts request tokens
    ok (
      record accounts {
        force_settle_requests = insert seeds request' accounts.force_settle_requests;
      },
      tokens',
    )
