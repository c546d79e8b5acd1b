-- ===== src/Program/Tests/Claims.antt =====
-- Receipts, vouchers and settlements, each at a transaction.
use a.Prelude.{ℕ, ◌+◌, ◌≡◌, ◌<◌, u64_mod, refl, some, List, [], ◌∷◌, ◌++◌, arith}
use a.Prelude.Int.{pos}
use a.Prelude.Equality.{Bytes, Pubkey, bytes_beq, bytes_eq, nat_eq}
use a.Prelude.Codec.{le_bytes, from_le_bytes, i64_bits, i64_of_bits, as_bytes}
use a.Prelude.Map.{lookup, insert}
use a.Prelude.Slices.{get_range}
use a.Prelude.Outcome.{ok, checked_add}
use a.Program.State.{ForceSettleRequest, SettlementEntry, AuditRecordData, AscCloseClaim, Accounts}
use a.Program.Runtime.{Instruction, InstructionsSysvar, Platform}
use a.Program.AscClaim.{
  AscClaimVoucherFields, build_asc_claim_voucher_message, build_asc_payment_message_from_hashes,
  parse_asc_claim_voucher_message,
}
use a.Program.AscClaim.RoundTrip.{IsVoucher, parse-build_voucher}
use a.Program.Receipt.{decode_fields, decode_participant_receipt_message}
use a.Program.Ed25519.{
  instruction_index_refs_embedded_data, read_u16, read_signature, verify_ed25519_signature_details,
  verify_ed25519_signature_details_relative,
}
use a.Prelude.Int.{beq_ℤ}
use a.Program.ForceSettle.{ClaimedReceipt, challenge_request, verify_receipt}
use a.Program.ForceSettle.Dispute.{IsNewer, challenge_request-Newer}
use a.Program.CloseClaim.{asc_close_claim, asc_close_claim_seeds}
use a.Program.CloseClaim.Recorded.{IsFirst, asc_close_claim-IsProven}
use a.Program.Batch.{
  compute_batch_chunk_hash, instruction_discriminator, parse_instruction,
  parse_record_audit_instruction, names_other_vault, same_batch, search_pair, verify_pairing,
  audit_candidate, verify_record_audit_pairing,
}
use a.Program.Settle.{active_for_signer, settle_entries, settle_vault}
use a.Program.Settle.Conserve.{
  sum_amounts, counted, AllOther, IsAudited, settle_vault-Pays, settle_vault-IsAudited,
}
use a.Program.Tests.Toy.{key, moved, pay, tokens, token_laws, ed25519, ed25519_program, transaction}
use a.Program.Tests.Instructions.{accounts, balances, owed}

-- A newer receipt for the request `owed`.
abbrev receipt_message : Bytes
receipt_message =
    key 1
    ++ (0
        ∷ (key 2
            ++ (le_bytes 8 6
                ++ (le_bytes 8 4
                    ++ (le_bytes 8 2000
                        ++ (le_bytes 8 5 ++ (le_bytes 8 70 ++ (le_bytes 8 1 ++ key 9))))))))

abbrev receipt_signature : Bytes
receipt_signature = key 10 ++ key 11

abbrev challenging : InstructionsSysvar
challenging = transaction 1 (ed25519 receipt_signature (key 5) receipt_message ∷ [])

abbrev newer : ClaimedReceipt
newer = record {
  recipient_ata = key 2;
  free_balance = 6;
  locked_balance = 4;
  max_lock_expires_at = pos 2000;
  receipt_nonce = 5;
  receipt_signature = receipt_signature;
  receipt_message = receipt_message;
}

abbrev challenged : ForceSettleRequest
challenged = record owed { free_balance_due = 6; receipt_nonce = 5 }

receipt_signed :
    verify_ed25519_signature_details ed25519_program challenging (key 5)
    ≡ ok (record { signature = receipt_signature; message = receipt_message })
unfolding verify_ed25519_signature_details verify_ed25519_signature_details_relative read_signature
    read_u16 get_range instruction_index_refs_embedded_data bytes_beq from_le_bytes le_bytes
receipt_signed = refl

challenge :
    challenge_request ed25519_program challenging (pos 900) newer accounts owed ≡ ok challenged
unfolding challenge_request verify_receipt beq_ℤ decode_participant_receipt_message decode_fields
    get_range from_le_bytes le_bytes i64_of_bits bytes_beq
challenge = rw receipt_signed refl

challenge_request-Newer_example :
    IsNewer ed25519_program challenging (pos 900) accounts owed challenged
challenge_request-Newer_example =
    challenge_request-Newer ed25519_program challenging (pos 900) newer accounts owed challenged
      challenge

abbrev voucher : AscClaimVoucherFields
voucher = record {
  channel_id_hash = key 20;
  request_id_hash = key 21;
  amount = 30;
  request_hash = key 22;
  provider_pubkey = key 23;
  issued_at = pos 600;
  vault_config = key 9;
}

voucher-IsVoucher : IsVoucher voucher
voucher-IsVoucher = record {
  channel = refl;
  request = refl;
  amount = omega arith;
  hash = refl;
  provider = refl;
  issued = refl;
  vault = refl;
}

parse-build_voucher_example :
    parse_asc_claim_voucher_message (build_asc_claim_voucher_message voucher) ≡ some voucher
parse-build_voucher_example = parse-build_voucher voucher voucher-IsVoucher

abbrev payment_message : Bytes
payment_message = build_asc_payment_message_from_hashes (key 20) (key 21) 30 (key 22)

abbrev claiming : InstructionsSysvar
claiming = transaction 2 (
    ed25519 receipt_signature (key 5) (build_asc_claim_voucher_message voucher)
    ∷ ed25519 (key 24 ++ key 25) (key 23) payment_message
    ∷ [])

voucher_signed :
    verify_ed25519_signature_details_relative ed25519_program claiming 2 (key 5)
    ≡ ok (record {
      signature = receipt_signature;
      message = build_asc_claim_voucher_message voucher;
    })
unfolding verify_ed25519_signature_details_relative read_signature read_u16 get_range
    instruction_index_refs_embedded_data bytes_beq from_le_bytes le_bytes
    build_asc_claim_voucher_message as_bytes i64_bits
voucher_signed = refl

payment_signed :
    verify_ed25519_signature_details_relative ed25519_program claiming 1 (key 23)
    ≡ ok (record { signature = key 24 ++ key 25; message = payment_message })
unfolding verify_ed25519_signature_details_relative read_signature read_u16 get_range
    instruction_index_refs_embedded_data bytes_beq from_le_bytes le_bytes
    build_asc_payment_message_from_hashes as_bytes
payment_signed = refl

abbrev claimed : AscCloseClaim
claimed = record {
  bump = 250;
  vault = key 9;
  channel_id_hash = key 20;
  request_id_hash = key 21;
  request_hash = key 22;
  provider_pubkey = key 23;
  full_sig_r = key 24;
  full_sig_s = key 25;
  amount = 30;
  voucher_issued_at = pos 600;
  claimed_at = pos 700;
}

abbrev after_claim : Accounts
after_claim = record accounts {
  asc_close_claims = (asc_close_claim_seeds (key 20) (key 21), claimed) ∷ [];
}

claim :
    asc_close_claim ed25519_program claiming 250 (pos 700) (key 20) (key 21) accounts
    ≡ ok after_claim
unfolding asc_close_claim lookup insert bytes_beq build_asc_payment_message_from_hashes as_bytes
    le_bytes
claim = rw (voucher_signed, parse-build_voucher voucher voucher-IsVoucher, payment_signed) refl

asc_close_claim-IsProven_example :
    IsFirst ed25519_program claiming (key 20) (key 21) accounts after_claim
asc_close_claim-IsProven_example =
    asc_close_claim-IsProven ed25519_program claiming 250 (pos 700) (key 20) (key 21) accounts
      after_claim claim

abbrev audit : AuditRecordData
audit = record {
  encrypted_sender = key 60 ++ key 61;
  encrypted_amount = key 62 ++ key 63;
  provider = key 64;
  timestamp = pos 800;
}

-- A platform on which every hash and every decoded value is the same.
abbrev platform : Platform
platform = record {
  program_id = key 40;
  sha256 = λ bytes. key 30;
  find_program_address = λ seeds. (key 41, 1);
  deserialize_u64 = λ bytes. some (3, bytes);
  deserialize_hash = λ bytes. some (key 30, bytes);
  deserialize_records = λ bytes. some (audit ∷ [], bytes);
  deserialize_settlements = λ bytes. some ([], bytes);
}

abbrev settlements : List SettlementEntry
settlements =
    record { provider_token_account = key 50; amount = 5 }
    ∷ record { provider_token_account = key 51; amount = 6 }
    ∷ []

abbrev providers : List Pubkey
providers = key 50 ∷ key 51 ∷ []

abbrev audit_instruction : Instruction
audit_instruction = record {
  program_id = key 40;
  accounts = key 5 ∷ key 9 ∷ [];
  ix_data = key 30 ++ key 30;
}

abbrev settling : InstructionsSysvar
settling = transaction 0 (audit_instruction ∷ audit_instruction ∷ [])

abbrev settled : Accounts
settled = counted accounts 11

paired : verify_record_audit_pairing platform settling 3 (key 30) (key 9) settlements ≡ ok tt
unfolding verify_record_audit_pairing verify_pairing search_pair audit_candidate same_batch
    names_other_vault parse_record_audit_instruction parse_instruction instruction_discriminator
    compute_batch_chunk_hash bytes_beq
paired = refl

abbrev paid : Pubkey → ℕ
paid = moved (key 3) (key 51) 6 (moved (key 3) (key 50) 5 balances)

settlement :
    settle_vault tokens platform settling
      (pos 900)
      (key 5)
      (key 3)
      3
      (key 30)
      settlements
      providers
      accounts
      balances
    ≡ ok (settled, paid)
unfolding settle_vault active_for_signer settle_entries pay moved checked_add bytes_beq
settlement = rw paired refl

others : AllOther (key 3) providers
others = ((λ e. ground arith), ((λ e. ground arith), tt))

settle_vault-Pays_example :
    (paid (key 3) + sum_amounts settlements ≡ balances (key 3))
    × (settled ≡ counted accounts (sum_amounts settlements))
    × (20 + sum_amounts settlements < u64_mod)
settle_vault-Pays_example =
    settle_vault-Pays tokens token_laws platform settling (pos 900) (key 5) (key 3) 3 (key 30)
      settlements providers accounts settled balances paid others settlement

settle_vault-IsAudited_example : IsAudited platform settling 3 (key 30) (key 9) settlements
settle_vault-IsAudited_example =
    settle_vault-IsAudited platform tokens settling (pos 900) (key 5) (key 3) 3 (key 30) settlements
      providers accounts balances (settled, paid) settlement
