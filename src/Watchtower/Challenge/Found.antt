-- ===== src/Watchtower/Challenge/Found.antt =====
-- watchtower/src/challenger.rs: which requests are challenged.
use a.Prelude.{ℕ, ◌<◌, ◌≡◌, ◌↔◌, String, false, some, length, arith, Option-cases, inl, inr}
use a.Prelude.Int.{ℤ, ltb_ℤ}
use a.Prelude.Equality.{Bytes, Pubkey, nat_eq, string_eq}
use a.Prelude.Map.{lookup}
use a.Watchtower.Receipts.{
  StoredReceipt, ReceiptKey, ReceiptStore, storage_key, nonce_of, get_nonce, get_receipt,
}
use a.Program.State.{ForceSettleRequest}
use a.Watchtower.Challenge.Parsed.{
  IsRequest, seen, write_account, length-write_account, parse-write_account,
}
use a.Watchtower.Challenge.{OnChainForceSettleRequest, parse_force_settle_request, find_challenge}

module _ (pubkey_to_string : Pubkey → String) (u8_to_string : ℕ → String) (now : ℤ)
    (receipts : ReceiptStore) (address : Pubkey) where
  abbrev pub key_of : OnChainForceSettleRequest → ReceiptKey
  key_of request = record {
    vault = request.vault;
    participant = request.participant;
    participant_kind = request.participant_kind;
  }

  -- The request is open, and the store has the newer receipt `r` of its participant.
  abbrev pub Challenges : OnChainForceSettleRequest → StoredReceipt → Type 0
  Challenges request r =
      (request.is_resolved ≡ false)
      × (ltb_ℤ request.dispute_deadline now ≡ false)
      × (get_receipt pubkey_to_string u8_to_string (key_of request) receipts ≡ some r)
      × (request.receipt_nonce < r.nonce)

  -- On an account that is parsed to `request`.
  find_challenge-Challenges :
      (account_data : Bytes) (request : OnChainForceSettleRequest) (r : StoredReceipt)
      → length account_data ≡ 219
      → parse_force_settle_request address account_data ≡ some request
      → (find_challenge pubkey_to_string u8_to_string now receipts address account_data
          ≡ some (request, r))
        ↔ Challenges request r
  unfolding find_challenge get_nonce get_receipt nonce_of
  find_challenge-Challenges account_data request r size parsed =
      elim (Option-cases
        (lookup (storage_key pubkey_to_string u8_to_string (key_of request)) receipts)) [
          | inl e ↦ ((λ h. ground arith), λ h. ground arith)
          | inr (held, e) ↦ ((λ h. ground arith), λ h. ground arith)
        ]

  -- The scan of the account of a force settlement, as the program stores it, decides to challenge
  -- it with a receipt exactly if the request is unresolved, the dispute window is not over, and the
  -- store's receipt for its vault, participant and kind is that receipt, with a higher nonce. The
  -- stored fields are in the ranges of their Rust types.
  pub find_challenge-write_account :
      (discriminator : Bytes) (request : ForceSettleRequest) (r : StoredReceipt)
      → length discriminator ≡ 8
      → IsRequest request
      → (find_challenge pubkey_to_string u8_to_string now receipts address
            (write_account discriminator request)
          ≡ some (seen address request, r))
        ↔ Challenges (seen address request) r
  find_challenge-write_account discriminator request r l k =
      find_challenge-Challenges (write_account discriminator request) (seen address request) r
        (length-write_account discriminator request l k)
        (parse-write_account discriminator request l k address)
