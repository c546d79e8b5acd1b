-- ===== src/Program/Tests/Instructions.antt =====
-- The theorems on the program's instructions, each at a transaction.
use a.Prelude.{◌+◌, some, true, ℕ, ◌≡◌, ◌≢◌, refl, false, List, [], ◌∷◌, ◌++◌, arith}
use a.Prelude.Int.{pos}
use a.Prelude.Equality.{Bytes, Pubkey, bytes_beq, bytes_eq, nat_eq}
use a.Prelude.Codec.{le_bytes, from_le_bytes, i64_bits}
use a.Prelude.Map.{lookup, insert}
use a.Prelude.Slices.{get_range}
use a.Prelude.Outcome.{ok, err, checked_add}
use a.Program.Error.{account_in_use}
use a.Program.State.{VaultConfig, ForceSettleRequest, Accounts}
use a.Program.Runtime.{InstructionsSysvar}
use a.Program.Ed25519.{
  instruction_index_refs_embedded_data, read_u16, read_signature, verify_ed25519_signature,
  verify_ed25519_signature_details, verify_ed25519_signature_details_relative,
}
use a.Program.Funds.{expected_withdraw_message, withdraw_nonce_seeds, deposit, withdraw}
use a.Program.Funds.Accounting.{IsWithdrawn, withdraw_once, withdraw-Pays}
use a.Program.ForceSettle.{
  ClaimedReceipt, finalize_request, pay_claimable, claimable_locked, after_payment, resolve_if_paid,
}
use a.Program.ForceSettle.Runs.{finalize_all, finalize_all-Pays, finalize_request-Resolves}
use a.Program.ForceSettle.Dispute.{due, IsPaidOut, finalize_request-Pays}
use a.Program.Lifecycle.{pause_vault}
use a.Program.Lifecycle.Transitions.{
  Command, pause, execute, execute_all, Persists, execute_all-Persists, retire, rotate,
}
use a.Program.Tests.Toy.{key, moved, pay, tokens, token_laws, ed25519, ed25519_program, transaction}

abbrev vault : VaultConfig
vault = record {
  bump = 254;
  vault_id = 1;
  governance = key 6;
  status = 0;
  vault_signer_pubkey = key 5;
  usdc_mint = key 4;
  vault_token_account = key 3;
  auditor_master_pubkey = key 7;
  auditor_epoch = 0;
  attestation_policy_hash = key 8;
  successor_vault = key 0;
  exit_deadline = pos 0;
  lifetime_deposited = 100;
  lifetime_withdrawn = 10;
  lifetime_settled = 20;
}

abbrev pub accounts : Accounts
accounts = record {
  vault_key = key 9;
  vault_config = vault;
  used_withdraw_nonces = [];
  force_settle_requests = [];
  asc_close_claims = [];
}

abbrev pub balances : Pubkey → ℕ
balances k = 50

differ : key 3 ≢ key 2
differ e = ground arith

-- A withdrawal of 7, signed by the vault's signer.
abbrev message : Bytes
message = expected_withdraw_message (key 1) (key 2) 7 8 (pos 90) (key 9)

abbrev withdrawing : InstructionsSysvar
withdrawing = transaction 1 (ed25519 (key 10 ++ key 11) (key 5) message ∷ [])

signature_found : verify_ed25519_signature ed25519_program withdrawing (key 5) ≡ ok message
unfolding verify_ed25519_signature verify_ed25519_signature_details
    verify_ed25519_signature_details_relative read_signature read_u16 get_range
    instruction_index_refs_embedded_data bytes_beq from_le_bytes le_bytes i64_bits
    expected_withdraw_message
signature_found = refl

abbrev withdrawn : Accounts
withdrawn = record accounts {
  vault_config = record vault { lifetime_withdrawn = 17 };
  used_withdraw_nonces =
      (
        withdraw_nonce_seeds (key 1) 8,
        record { bump = 253; vault = key 9; client = key 1; withdraw_nonce = 8 },
      )
      ∷ [];
}

withdrawal :
    withdraw tokens ed25519_program withdrawing 253
      (pos 80)
      (key 1)
      (key 3)
      (key 2)
      7
      8
      (pos 90)
      accounts
      balances
    ≡ ok (withdrawn, moved (key 3) (key 2) 7 balances)
unfolding withdraw pay lookup insert checked_add bytes_beq expected_withdraw_message le_bytes
    i64_bits
withdrawal = rw signature_found refl

withdraw-Pays_example :
    IsWithdrawn tokens ed25519_program withdrawing
      (pos 80)
      (key 1)
      (key 3)
      (key 2)
      7
      8
      (pos 90)
      accounts
      withdrawn
      balances
      (moved (key 3) (key 2) 7 balances)
withdraw-Pays_example =
    withdraw-Pays tokens token_laws ed25519_program withdrawing 253 (pos 80) (key 1) (key 3) (key 2)
      7 8 (pos 90) accounts withdrawn balances (moved (key 3) (key 2) 7 balances) differ withdrawal

withdraw_once_example :
    withdraw tokens ed25519_program
      (transaction 0 [])
      1
      (pos 85)
      (key 1)
      (key 3)
      (key 2)
      9
      8
      (pos 99)
      withdrawn
      balances
    ≡ err account_in_use
withdraw_once_example =
    withdraw_once tokens ed25519_program withdrawing (transaction 0 []) 253 1 (pos 80) (pos 85)
      (key 1) (key 3) (key 2) (key 3) (key 2) 7 9 8 (pos 90) (pos 99) accounts withdrawn balances
      (moved (key 3) (key 2) 7 balances) balances withdrawal

abbrev topped_up : VaultConfig
topped_up = record vault { lifetime_deposited = 112 }

depositing :
    deposit tokens (key 1) (key 2) (key 3) 12 vault balances
    ≡ ok (topped_up, moved (key 2) (key 3) 12 balances)
unfolding deposit pay checked_add bytes_beq
depositing = refl

abbrev pub owed : ForceSettleRequest
owed = record {
  bump = 1;
  vault = key 9;
  participant = key 1;
  participant_kind = 0;
  recipient_ata = key 2;
  free_balance_due = 11;
  locked_balance_due = 4;
  max_lock_expires_at = pos 2000;
  receipt_nonce = 3;
  receipt_signature = key 10 ++ key 11;
  initiated_at = pos 0;
  dispute_deadline = pos 1000;
  is_resolved = false;
}

-- The free part is paid while the locked part is not due yet.
abbrev half_paid : ForceSettleRequest
half_paid = record owed { free_balance_due = 0 }

finalizing :
    finalize_request tokens (pos 1500) (key 3) (key 2) accounts owed balances
    ≡ ok (half_paid, moved (key 3) (key 2) 11 balances)
unfolding finalize_request pay_claimable claimable_locked after_payment resolve_if_paid pay
    checked_add bytes_beq
finalizing = refl

finalize_request-Pays_example :
    IsPaidOut tokens
      (pos 1500)
      (key 3)
      (key 2)
      owed
      half_paid
      balances
      (moved (key 3) (key 2) 11 balances)
finalize_request-Pays_example =
    finalize_request-Pays tokens token_laws (pos 1500) (key 3) (key 2) accounts owed half_paid
      balances (moved (key 3) (key 2) 11 balances) differ finalizing

abbrev newer : ClaimedReceipt
newer = record {
  recipient_ata = key 2;
  free_balance = 1;
  locked_balance = 1;
  max_lock_expires_at = pos 0;
  receipt_nonce = 9;
  receipt_signature = [];
  receipt_message = [];
}

pausing : execute (pause (key 6)) vault ≡ ok (record vault { status = 1 })
unfolding execute pause_vault bytes_beq
pausing = refl

abbrev commands : List Command
commands = pause (key 6) ∷ rotate (key 6) (key 12) ∷ retire (key 6) (pos 5) ∷ pause (key 6) ∷ []

execute_all-Persists_example : Persists vault (execute_all commands vault)
execute_all-Persists_example = execute_all-Persists commands vault

finalize_all-Pays_example :
    (finalize_all tokens
          (pos 500 ∷ pos 1500 ∷ pos 2500 ∷ [])
          (key 3)
          (key 2)
          accounts
          owed
          balances).1
        (key 3)
      + due owed
    ≡ 50
      + due
          (finalize_all tokens
            (pos 500 ∷ pos 1500 ∷ pos 2500 ∷ [])
            (key 3)
            (key 2)
            accounts
            owed
            balances).0
finalize_all-Pays_example =
    finalize_all-Pays tokens token_laws (pos 500 ∷ pos 1500 ∷ pos 2500 ∷ []) (key 3) (key 2)
      accounts owed balances differ

transferred : pay (key 3) (key 2) (key 9) 15 balances ≡ some (moved (key 3) (key 2) 15 balances)
unfolding pay
transferred = refl

finalize_request-Resolves_example :
    (request' : ForceSettleRequest) × (tokens' : Pubkey → ℕ) × (finalize_request tokens
        (pos 2500)
        (key 3)
        (key 2)
        accounts
        owed
        balances
      ≡ ok (request', tokens'))
    × (due request' ≡ 0)
    × (request'.is_resolved ≡ true)
finalize_request-Resolves_example =
    finalize_request-Resolves tokens (pos 2500) (key 2) accounts owed balances
      (moved (key 3) (key 2) 15 balances) refl refl refl refl refl (omega arith) (omega arith)
      transferred
