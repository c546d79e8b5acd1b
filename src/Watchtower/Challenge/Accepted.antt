-- ===== src/Watchtower/Challenge/Accepted.antt =====
-- watchtower/src/challenger.rs against programs/a402_vault/src/instructions/force_settle_challenge.rs: the
-- challenge and the handler that takes it.
use a.Prelude.{
  ℕ, ◌%◌, ◌<◌, ◌^◌, ◌≡◌, refl, true, false, String, Option, some, [], ◌∷◌, ◌++◌, arith, length, ltb,
}
use a.Prelude.Int.{ℤ, leb_ℤ, beq_ℤ}
use a.Prelude.Equality.{Bytes, Pubkey, ◌==◌, bytes_eq, nat_eq, beq_refl}
use a.Prelude.Codec.{le_bytes, i64_bits}
use a.Prelude.Slices.{get_range}
use a.Prelude.Outcome.{ok}
use a.Program.State.{Accounts, ForceSettleRequest}
use a.Program.Runtime.{Instruction}
use a.Program.Receipt.{ParticipantReceiptMessage}
use a.Program.Ed25519.{verify_ed25519_signature_details, verify_ed25519_signature_details_relative}
use a.Program.ForceSettle.{ClaimedReceipt, verify_receipt, challenge_request}
use a.Enclave.State.{VaultState}
use a.Enclave.Messages.{build_participant_receipt_message}
use a.Enclave.Messages.Agree.{IsReceipt, decode-build_receipt, length-build_receipt}
use a.Enclave.Batch.Submit.Paired.{sysvar_of}
use a.Watchtower.Receipts.{StoredReceipt}
use a.Watchtower.Challenge.{
  Addresses, build_ed25519_verify_instruction, challenge_data, submit_challenge,
  anchor_discriminator,
}
use a.Watchtower.Challenge.Read.{read-build}

-- The bytes that the enclave signs for the receipt `r`.
abbrev pub signed_message : VaultState → ParticipantReceiptMessage → Bytes
signed_message v r =
    build_participant_receipt_message v r.participant r.participant_kind r.recipient_ata
      r.free_balance r.locked_balance r.max_lock_expires_at r.nonce r.timestamp r.snapshot_seqno

-- What the program is told of the receipt.
abbrev pub claim : VaultState → ParticipantReceiptMessage → Bytes → ClaimedReceipt
claim v r signature = record {
  recipient_ata = r.recipient_ata;
  free_balance = r.free_balance;
  locked_balance = r.locked_balance;
  max_lock_expires_at = r.max_lock_expires_at;
  receipt_nonce = r.nonce;
  receipt_signature = signature;
  receipt_message = signed_message v r;
}

abbrev pub challenged : ForceSettleRequest → ParticipantReceiptMessage → Bytes → ForceSettleRequest
challenged request r signature = record request {
  recipient_ata = r.recipient_ata;
  free_balance_due = r.free_balance;
  locked_balance_due = r.locked_balance;
  max_lock_expires_at = r.max_lock_expires_at;
  receipt_nonce = r.nonce;
  receipt_signature = signature;
}

-- The request is open at `now`, and the receipt is a newer one of its participant.
pub record IsStale (now : ℤ) (accounts : Accounts) (r : ParticipantReceiptMessage)
    (request : ForceSettleRequest) : Type 0 where
  pub same_vault : request.vault ≡ accounts.vault_key
  pub unresolved : request.is_resolved ≡ false
  pub in_time : leb_ℤ now request.dispute_deadline ≡ true
  pub outdated : request.receipt_nonce < r.nonce
  pub same_participant : r.participant ≡ request.participant
  pub same_kind : r.participant_kind ≡ request.participant_kind

-- The arguments of `force_settle_challenge` as Anchor writes them.
unfoldable pub encode_claim : ClaimedReceipt → Bytes
encode_claim c =
    c.recipient_ata
    ++ (le_bytes 8 c.free_balance
        ++ (le_bytes 8 c.locked_balance
            ++ (le_bytes 8 (i64_bits c.max_lock_expires_at)
                ++ (le_bytes 8 c.receipt_nonce
                    ++ (c.receipt_signature
                        ++ (le_bytes 4 (length c.receipt_message) ++ c.receipt_message))))))

-- The store holds the receipt with the signature of the vault, in texts that can be parsed, and the node
-- the vault's account.
pub record IsHeld (base64_decode pubkey_from_str : String → Option Bytes)
    (get_account_data : Pubkey → Option Bytes) (v : VaultState) (r : ParticipantReceiptMessage)
    (accounts : Accounts) (signature account_data : Bytes) (stored : StoredReceipt) : Type 0 where
  pub signature_text : base64_decode stored.signature ≡ some signature
  pub message_text : base64_decode stored.message ≡ some (signed_message v r)
  pub vault_text : pubkey_from_str stored.vault_config ≡ some accounts.vault_key
  pub recipient_text : pubkey_from_str stored.recipient_ata ≡ some r.recipient_ata
  pub same_free : stored.free_balance ≡ r.free_balance
  pub same_locked : stored.locked_balance ≡ r.locked_balance
  pub same_expiry : stored.max_lock_expires_at ≡ r.max_lock_expires_at
  pub same_nonce : stored.nonce ≡ r.nonce
  pub account : get_account_data accounts.vault_key ≡ some account_data
  pub signer_of : get_range account_data 50 82 ≡ some accounts.vault_config.vault_signer_pubkey

beq_ℤ_refl : (z : ℤ) → beq_ℤ z z ≡ true
unfolding beq_ℤ
beq_ℤ_refl z = ground arith

module _ (v : VaultState) (r : ParticipantReceiptMessage) (known : IsReceipt r)
    (same : v.vault_config ≡ r.vault_config) (ed25519_program : Pubkey) (accounts : Accounts)
    (signature : Bytes) (signature_length : length signature ≡ 64) where
  abbrev signer : Pubkey
  signer = accounts.vault_config.vault_signer_pubkey

  abbrev ed25519_ix : Instruction
  ed25519_ix =
      build_ed25519_verify_instruction ed25519_program signer signature (signed_message v r)

  verify_ed25519_signature_lem :
      (next : Instruction)
      → length signer ≡ 32
      → verify_ed25519_signature_details ed25519_program
          (sysvar_of (ed25519_ix ∷ next ∷ []) 1)
          signer
        ≡ ok (record { signature = signature; message = signed_message v r })
  unfolding verify_ed25519_signature_details verify_ed25519_signature_details_relative
      build_ed25519_verify_instruction
  verify_ed25519_signature_lem next h =
      let size = length-build_receipt v r known same in
      rw (beq_refl ed25519_program) (
        read-build ed25519_program signer signature (signed_message v r) 0 h signature_length
          (omega (arith, size)))

  verify_receipt_lem :
      (next : Instruction) (participant : Pubkey) (participant_kind : ℕ)
      → length signer ≡ 32
      → r.vault_config ≡ accounts.vault_key
      → r.participant ≡ participant
      → r.participant_kind ≡ participant_kind
      → verify_receipt ed25519_program
          (sysvar_of (ed25519_ix ∷ next ∷ []) 1)
          accounts
          participant
          participant_kind
          (claim v r signature)
        ≡ ok tt
  unfolding verify_receipt
  verify_receipt_lem next participant participant_kind h vault p k =
      rw
        (
          verify_ed25519_signature_lem next h,
          beq_refl (signed_message v r),
          beq_refl signature,
          decode-build_receipt v r known same,
          p,
          k,
          vault,
          beq_refl participant,
          beq_refl participant_kind,
          beq_refl r.recipient_ata,
          beq_refl r.free_balance,
          beq_refl r.locked_balance,
          beq_ℤ_refl r.max_lock_expires_at,
          beq_refl r.nonce,
          beq_refl accounts.vault_key,
        )
        refl

  challenge_request_lem :
      (next : Instruction) (now : ℤ) (request : ForceSettleRequest)
      → length signer ≡ 32
      → r.vault_config ≡ accounts.vault_key
      → IsStale now accounts r request
      → challenge_request ed25519_program
          (sysvar_of (ed25519_ix ∷ next ∷ []) 1)
          now
          (claim v r signature)
          accounts
          request
        ≡ ok (challenged request r signature)
  unfolding challenge_request
  challenge_request_lem next now request h vault stale =
      let newer : ltb request.receipt_nonce r.nonce ≡ true = ground (arith, stale.outdated) in
      rw
        (
          stale.same_vault,
          beq_refl accounts.vault_key,
          stale.unresolved,
          stale.in_time,
          newer,
          verify_receipt_lem next request.participant request.participant_kind h vault
              stale.same_participant stale.same_kind,
        )
        refl

  module _ (sha256 : Bytes → Bytes) (base64_decode pubkey_from_str : String → Option Bytes)
      (get_account_data : Pubkey → Option Bytes) (account_data : Bytes) (stored : StoredReceipt)
      (held : IsHeld base64_decode pubkey_from_str get_account_data v r accounts signature
        account_data stored) where
    -- What is submitted and what the program makes of it.
    abbrev pub IsAccepted : Addresses → Pubkey → ℤ → ForceSettleRequest → Type 0
    IsAccepted a address now request =
        (next : Instruction) × (submit_challenge sha256 base64_decode pubkey_from_str
            get_account_data a address stored
          ≡ ok (ed25519_ix ∷ next ∷ []))
        × (next.ix_data
            ≡ anchor_discriminator sha256 "force_settle_challenge"
              ++ encode_claim (claim v r signature))
        × (challenge_request ed25519_program (sysvar_of (ed25519_ix ∷ next ∷ []) 1) now
              (claim v r signature) accounts request
            ≡ ok (challenged request r signature))

    -- Where the store holds a newer receipt of the enclave for an open force settlement, with the
    -- vault's signature, the watchtower builds the transaction of a challenge: its Ed25519
    -- instruction is read by the program, its data are the receipt as Anchor encodes it, and the
    -- program accepts the challenge in time and puts the receipt's balances into the request. The
    -- receipt's fields are in the ranges of their Rust types and its texts parse.
    pub submit_challenge-IsAccepted :
        (a : Addresses) (address : Pubkey) (now : ℤ) (request : ForceSettleRequest)
        → a.ed25519_program ≡ ed25519_program
        → length signer ≡ 32
        → r.vault_config ≡ accounts.vault_key
        → IsStale now accounts r request
        → IsAccepted a address now request
    unfolding submit_challenge challenge_data encode_claim
    submit_challenge-IsAccepted a address now request e h vault stale =
        let size = length-build_receipt v r known same in
        let short : length (signed_message v r) % 2 ^ 32 ≡ length (signed_message v r) =
          omega (arith, size) in
        let next : Instruction = record {
          program_id = a.program_id;
          accounts = a.challenger ∷ accounts.vault_key ∷ address ∷ a.instructions_sysvar ∷ [];
          ix_data = challenge_data sha256 r.recipient_ata stored signature (signed_message v r);
        } in
        let whole : (length signature == 64) ≡ true = ground (arith, signature_length) in
        (
          next,
          rw
              (
                held.signature_text, held.message_text, held.vault_text, held.account,
                held.signer_of, whole, held.recipient_text, e,
              )
              refl,
          rw (held.same_free, held.same_locked, held.same_expiry, held.same_nonce, short) refl,
          challenge_request_lem next now request h vault stale,
        )
