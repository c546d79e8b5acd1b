-- ===== src/Program/ForceSettle/Dispute.antt =====
-- What a force settlement promises to both sides (programs/a402_vault/src/instructions).
use a.Prelude.{ℕ, ◌+◌, ◌<◌, ◌≡◌, ◌≢◌, true, false, arith, ◌⊎◌, ◌↔◌, Option-cases, inl, inr}
use a.Prelude.Int.{ℤ, ◌≤ℤ◌, leb_ℤ, ltb_ℤ}
use a.Prelude.Equality.{Pubkey, bytes_eq, nat_eq, bytes_beq_iff}
use a.Prelude.Outcome.{Result-cases, ok, checked_add}
use a.Program.State.{ForceSettleRequest, Accounts}
use a.Program.Runtime.{InstructionsSysvar, TokenProgram, TokenLaws}
use a.Program.Receipt.{ParticipantReceiptMessage, decode_participant_receipt_message}
use a.Program.Ed25519.{VerifiedEd25519Signature, verify_ed25519_signature_details}
use a.Program.ForceSettle.{
  ClaimedReceipt, verify_receipt, challenge_request, finalize_request, pay_claimable,
  claimable_locked, after_payment, without_payment, resolve_if_paid,
}

-- What the vault still owes on a request.
abbrev pub due : ForceSettleRequest → ℕ
due request = request.free_balance_due + request.locked_balance_due

-- The debt shrinks by what the recipient gets, the locked part only once its time has come, after the
-- dispute window, and the request is resolved exactly when nothing is owed any more.
abbrev pub IsPaidOut :
    (p : TokenProgram)
    → ℤ
    → Pubkey
    → Pubkey
    → ForceSettleRequest
    → ForceSettleRequest
    → p.Tokens
    → p.Tokens
    → Type 0
IsPaidOut p now vault_account recipient request request' tokens tokens' =
    (p.amount_of tokens' vault_account + due request
      ≡ p.amount_of tokens vault_account + due request')
    × (p.amount_of tokens' recipient + due request' ≡ p.amount_of tokens recipient + due request)
    × ((request'.is_resolved ≡ true) ↔ (due request' ≡ 0))
    × ((request'.locked_balance_due ≡ request.locked_balance_due)
        ⊎ (leb_ℤ request.max_lock_expires_at now ≡ true))
    × (ltb_ℤ request.dispute_deadline now ≡ true)
    × (request.is_resolved ≡ false)

module _ (p : TokenProgram) (laws : TokenLaws p) where
  open p use {Tokens, amount_of}

  -- A force settlement that is finalized, between two different token accounts, pays the recipient
  -- exactly what the debt shrinks by, out of the vault; the request was open, the dispute window is
  -- over, the locked part is paid only from its time on, and the request is resolved exactly when
  -- nothing is owed any more.
  pub finalize_request-Pays :
      (now : ℤ) (vault_account recipient : Pubkey) (accounts : Accounts)
      (request request' : ForceSettleRequest) (tokens tokens' : Tokens)
      → vault_account ≢ recipient
      → finalize_request p now vault_account recipient accounts request tokens
        ≡ ok (request', tokens')
      → IsPaidOut p now vault_account recipient request request' tokens tokens'
  unfolding finalize_request pay_claimable claimable_locked after_payment without_payment
      resolve_if_paid checked_add
  finalize_request-Pays now va rc accounts request request' tokens tokens' differ h =
      let claim = request.free_balance_due + claimable_locked now request in
      elim (Option-cases (p.transfer va rc accounts.vault_key claim tokens)) [
        | inl refused ↦ ground arith
        | inr (paid, transferred) ↦
            let from =
              laws.transfer-from va rc accounts.vault_key claim tokens paid differ transferred in
            let to =
              laws.transfer-to va rc accounts.vault_key claim tokens paid differ transferred in
            ground arith
      ]

module _ (p : TokenProgram) where
  open p use {Tokens}

  -- A request that is finalized can no longer be challenged, at that time or later.
  pub finalize_request-ends_challenges :
      (now later : ℤ) (vault_account recipient ed25519_program : Pubkey)
      (sysvar : InstructionsSysvar) (newer : ClaimedReceipt) (accounts : Accounts)
      (request request' request'' : ForceSettleRequest) (tokens tokens' : Tokens)
      → now ≤ℤ later
      → finalize_request p now vault_account recipient accounts request tokens
        ≡ ok (request', tokens')
      → challenge_request ed25519_program sysvar later newer accounts request' ≢ ok request''
  unfolding finalize_request pay_claimable challenge_request claimable_locked after_payment
      without_payment resolve_if_paid checked_add
  finalize_request-ends_challenges now later va rc ed sysvar newer accounts request request'
        request'' tokens tokens' order h again =
      ground arith

-- The request holds the balances of the receipt.
abbrev pub IsRecorded : Accounts → ParticipantReceiptMessage → ForceSettleRequest → Type 0
IsRecorded accounts receipt request =
    (receipt.participant ≡ request.participant)
    × (receipt.participant_kind ≡ request.participant_kind)
    × (receipt.vault_config ≡ accounts.vault_key)
    × (receipt.recipient_ata ≡ request.recipient_ata)
    × (receipt.free_balance ≡ request.free_balance_due)
    × (receipt.locked_balance ≡ request.locked_balance_due)
    × (receipt.nonce ≡ request.receipt_nonce)

-- A newer receipt of the vault's signer has replaced the balances, in time.
abbrev pub IsNewer :
    Pubkey → InstructionsSysvar → ℤ → Accounts → ForceSettleRequest → ForceSettleRequest → Type 0
IsNewer ed25519_program sysvar now accounts request request' =
    (verified : VerifiedEd25519Signature) × (receipt : ParticipantReceiptMessage)
    × (verify_ed25519_signature_details ed25519_program sysvar
          accounts.vault_config.vault_signer_pubkey
        ≡ ok verified)
    × (decode_participant_receipt_message verified.message ≡ ok receipt)
    × IsRecorded accounts receipt request'
    × (request'.participant ≡ request.participant)
    × (request'.participant_kind ≡ request.participant_kind)
    × (request.receipt_nonce < request'.receipt_nonce)
    × (leb_ℤ now request.dispute_deadline ≡ true)
    × (request'.is_resolved ≡ false)

-- A challenge that succeeds came in time, carries a receipt that the vault has signed for the same
-- participant and vault, with a strictly higher nonce, and puts exactly that receipt's balances
-- into the request, which stays unresolved.
pub challenge_request-Newer :
    (ed25519_program : Pubkey) (sysvar : InstructionsSysvar) (now : ℤ) (newer : ClaimedReceipt)
    (accounts : Accounts) (request request' : ForceSettleRequest)
    → challenge_request ed25519_program sysvar now newer accounts request ≡ ok request'
    → IsNewer ed25519_program sysvar now accounts request request'
unfolding challenge_request verify_receipt
challenge_request-Newer ed sysvar now newer accounts request request' h =
    elim (Result-cases
      (verify_ed25519_signature_details ed sysvar accounts.vault_config.vault_signer_pubkey)) [
        | inl (verified, e) ↦
            elim (Result-cases (decode_participant_receipt_message newer.receipt_message)) [
              | inl (receipt, e') ↦
                  let same : verified.message ≡ newer.receipt_message =
                    ground (arith, bytes_beq_iff verified.message newer.receipt_message) in
                  (
                    verified,
                    receipt,
                    e,
                    rw same e',
                    recorded receipt e',
                    ground arith,
                    ground arith,
                    ground arith,
                    ground arith,
                    ground arith,
                  )
              | inr other ↦ absurd (ground arith)
            ]
        | inr other ↦ absurd (ground arith)
      ]
  where
    recorded :
        (receipt : ParticipantReceiptMessage)
        → decode_participant_receipt_message newer.receipt_message ≡ ok receipt
        → IsRecorded accounts receipt request'
    recorded receipt e = ground (
      arith,
      bytes_beq_iff receipt.participant request.participant,
      bytes_beq_iff receipt.vault_config accounts.vault_key,
      bytes_beq_iff receipt.recipient_ata newer.recipient_ata,
    )
