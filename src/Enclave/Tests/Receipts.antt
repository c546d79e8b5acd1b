-- ===== src/Enclave/Tests/Receipts.antt =====
-- A receipt that the enclave writes and the program reads.
use a.Prelude.{◌≡◌, refl, arith}
use a.Prelude.Int.{pos}
use a.Prelude.Outcome.{ok}
use a.Program.Receipt.{ParticipantReceiptMessage, decode_participant_receipt_message}
use a.Program.Tests.Toy.{key}
use a.Enclave.State.{VaultState}
use a.Enclave.Messages.{build_participant_receipt_message}
use a.Enclave.Messages.Agree.{IsReceipt, decode-build_receipt}
use a.Enclave.Tests.Vaults.{vault}

abbrev pub receipt : ParticipantReceiptMessage
receipt = record {
  participant = key 1;
  participant_kind = 0;
  recipient_ata = key 2;
  free_balance = 10;
  locked_balance = 9;
  max_lock_expires_at = pos 60;
  nonce = 1;
  timestamp = pos 30;
  snapshot_seqno = 2;
  vault_config = key 9;
}

pub receipt-IsReceipt : IsReceipt receipt
receipt-IsReceipt = record {
  participant_length = refl;
  recipient_length = refl;
  free_bound = omega arith;
  locked_bound = omega arith;
  expires_bound = refl;
  nonce_bound = omega arith;
  timestamp_bound = refl;
  seqno_bound = omega arith;
  vault_length = refl;
}

abbrev pub named_vault : VaultState
named_vault = record vault { vault_config = key 9 }

decode-build_receipt_example :
    decode_participant_receipt_message
      (build_participant_receipt_message named_vault (key 1) 0 (key 2) 10 9 (pos 60) 1 (pos 30) 2)
    ≡ ok receipt
decode-build_receipt_example = decode-build_receipt named_vault receipt receipt-IsReceipt refl
