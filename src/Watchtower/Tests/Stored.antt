-- ===== src/Watchtower/Tests/Stored.antt =====
-- A receipt that arrives before an older one, and the challenge of a stale request with it.
use a.Prelude.{ℕ, ◌≡◌, ◌↔◌, refl, String, Option, some, [], ◌∷◌, ◌++◌, take, arith, if◌then◌else◌}
use a.Prelude.Int.{pos}
use a.Prelude.Equality.{Bytes, Pubkey, ◌==◌, string_eq}
use a.Prelude.Map.{lookup}
use a.Prelude.Slices.{get_range}
use a.Program.State.{ForceSettleRequest}
use a.Program.Tests.Toy.{key, ed25519_program}
use a.Program.Tests.Instructions.{accounts, owed}
use a.Enclave.Tests.Toy.{toy_hash}
use a.Enclave.Tests.Receipts.{receipt, receipt-IsReceipt, named_vault}
use a.Watchtower.Receipts.{StoredReceipt, ReceiptKey, ReceiptStore, get_nonce, storage_key}
use a.Watchtower.Receipts.Newest.{store_all, store_all-newest}
use a.Watchtower.Challenge.{Addresses, find_challenge}
use a.Watchtower.Challenge.Accepted.{
  IsAccepted, IsHeld, IsStale, signed_message, submit_challenge-IsAccepted,
}
use a.Watchtower.Challenge.Found.{Challenges, find_challenge-write_account}
use a.Watchtower.Challenge.Parsed.{IsRequest, seen, write_account}

abbrev stored : ℕ → StoredReceipt
stored nonce = record {
  participant = "participant";
  participant_kind = 0;
  recipient_ata = "recipient";
  free_balance = 10;
  locked_balance = 9;
  max_lock_expires_at = pos 60;
  nonce = nonce;
  timestamp = pos 30;
  snapshot_seqno = 2;
  vault_config = "vault";
  signature = "signature";
  message = "message";
}

abbrev by_participant : ReceiptKey
by_participant = record { vault = key 9; participant = key 1; participant_kind = 0 }

abbrev text_of : Pubkey → String
text_of k = "k"

abbrev text_of_kind : ℕ → String
text_of_kind n = "0"

store_all-newest_example :
    get_nonce text_of text_of_kind by_participant (
      store_all text_of text_of_kind
        ((by_participant, stored 5) ∷ (by_participant, stored 3) ∷ [])
        [])
    ≡ 5
unfolding get_nonce lookup storage_key
store_all-newest_example =
    store_all-newest text_of text_of_kind
      ((by_participant, stored 5) ∷ (by_participant, stored 3) ∷ []) by_participant []

-- The request `owed`, with an older receipt.
abbrev stale : ForceSettleRequest
stale = record owed { receipt_nonce = 0 }

stale-IsStale : IsStale (pos 900) accounts receipt stale
stale-IsStale = record {
  same_vault = refl;
  unresolved = refl;
  in_time = refl;
  outdated = omega arith;
  same_participant = refl;
  same_kind = refl;
}

abbrev base64_decode : String → Option Bytes
base64_decode text =
    if text == "signature"
    then some (key 10 ++ key 11)
    else some (signed_message named_vault receipt)

abbrev pubkey_from_str : String → Option Bytes
pubkey_from_str text = if text == "vault" then some (key 9) else some (key 2)

-- The signer of the vault stands behind 50 bytes.
abbrev account : Bytes
account = 0 ∷ 0 ∷ (key 0 ++ (take 16 (key 0) ++ (key 5 ++ key 0)))

abbrev node : Pubkey → Option Bytes
node k = some account

held :
    IsHeld base64_decode pubkey_from_str node named_vault receipt accounts
      (key 10 ++ key 11)
      account
      (stored 1)
unfolding get_range
held = record {
  signature_text = refl;
  message_text = refl;
  vault_text = refl;
  recipient_text = refl;
  same_free = refl;
  same_locked = refl;
  same_expiry = refl;
  same_nonce = refl;
  account = refl;
  signer_of = refl;
}

abbrev addresses : Addresses
addresses = record {
  program_id = key 50;
  ed25519_program = ed25519_program;
  instructions_sysvar = key 51;
  challenger = key 52;
}

submit_challenge-IsAccepted_example :
    IsAccepted named_vault receipt receipt-IsReceipt refl ed25519_program accounts
      (key 10 ++ key 11)
      refl
      toy_hash
      base64_decode
      pubkey_from_str
      node
      account
      (stored 1)
      held
      addresses
      (key 60)
      (pos 900)
      stale
submit_challenge-IsAccepted_example =
    submit_challenge-IsAccepted named_vault receipt receipt-IsReceipt refl ed25519_program accounts
      (key 10 ++ key 11) refl toy_hash base64_decode pubkey_from_str node account (stored 1) held
      addresses (key 60) (pos 900) stale refl refl refl stale-IsStale

stale-IsRequest : IsRequest stale
stale-IsRequest = record {
  vault_length = refl;
  participant_length = refl;
  recipient_length = refl;
  free_bound = omega arith;
  locked_bound = omega arith;
  expires_bound = refl;
  nonce_bound = omega arith;
  signature_length = refl;
  deadline_bound = refl;
}

abbrev receipts : ReceiptStore
receipts = store_all text_of text_of_kind ((by_participant, stored 5) ∷ []) []

find_challenge-write_account_example :
    (find_challenge text_of text_of_kind
        (pos 900)
        receipts
        (key 60)
        (write_account (take 8 (key 0)) stale)
      ≡ some (seen (key 60) stale, stored 5))
    ↔ Challenges text_of text_of_kind (pos 900) receipts (key 60) (seen (key 60) stale) (stored 5)
find_challenge-write_account_example =
    find_challenge-write_account text_of text_of_kind (pos 900) receipts (key 60) (take 8 (key 0))
      stale (stored 5) refl stale-IsRequest
