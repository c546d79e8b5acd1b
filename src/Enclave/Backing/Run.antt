-- ===== src/Enclave/Backing/Run.antt =====
-- Any sequence of the enclave's calls on balances and channels, and what it does to the money.
use a.Prelude.{ℕ, ◌+◌, ◌<◌, ◌≡◌, ◌≢◌, true, String, Option, some, none, List, [], ◌∷◌, u64_mod}
use a.Prelude.Int.{ℤ, ◌+ℤ◌, in_i64}
use a.Prelude.Equality.{Bytes, Pubkey, nat_eq, string_eq, bytes_eq}
use a.Prelude.Map.{lookup}
use a.Enclave.Crypto.{Crypto}
use a.Enclave.AdaptorSig.{AdaptorPreSignature}
use a.Enclave.State.{ChannelId, ChannelState, ClientBalance, PendingWithdrawal, VaultState}
use a.Enclave.Balance.{
  apply_deposit, authorize_withdrawal, expire_pending_withdrawal, apply_withdrawal,
}
use a.Enclave.Asc.Field.{request_expiry_sec}
use a.Enclave.Asc.Request.{submit_request, deliver_adaptor, expire_request}
use a.Enclave.Asc.Finalize.{finalize_offchain, finalize_onchain_claim}
use a.Enclave.Asc.Lifecycle.{open_channel_with_id, close_channel_with_settlement_id}
use a.Enclave.Backing.{funds}
use a.Enclave.Backing.Request.{HasRoom}

-- A call, with the arguments that it gets and the clock and identifiers that it reads.
pub data Call : Type 0 where
  deposit : Pubkey → ℕ → Call
  authorize : PendingWithdrawal → Call
  expire_withdrawal : ℕ → Call
  settle_withdrawal : ℕ → Call
  open_asc : ChannelId → Pubkey → String → ℕ → ℤ → Call
  submit : ChannelId → String → ℕ → Bytes → ℤ → Call
  deliver : ChannelId → Bytes → AdaptorPreSignature → Bytes → Bytes → Bytes → ℤ → Call
  reveal : ChannelId → Bytes → ℤ → Call
  claim : ChannelId → Bytes → Bytes → ℤ → Call
  expire : ChannelId → ℤ → Call
  close : ChannelId → String → ℤ → Call

abbrev pub withdrawn : Option PendingWithdrawal → ℕ
withdrawn none = 0
withdrawn (some p) = p.amount

-- What a call moves into the vault, and out of it.
abbrev pub paid_in : Call → ℕ
paid_in (deposit client amount) = amount
paid_in _ = 0

abbrev pub paid_out : Call → VaultState → ℕ
paid_out (settle_withdrawal n) v = withdrawn (lookup n v.pending_withdrawals)
paid_out _ v = 0

-- What the caller sees to: deposits fit the supply, identifiers and nonces are fresh, withdrawals
-- are of more than nothing, the providers of channels stay registered, and counters have room.
abbrev pub Allowed : Call → VaultState → Type 0
Allowed (deposit client amount) v =
    (funds v + amount < u64_mod)
    × ((b : ClientBalance)
        → lookup client v.client_balances ≡ some b
        → b.total_deposited + amount < u64_mod)
Allowed (authorize p) v = lookup p.withdraw_nonce v.pending_withdrawals ≡ none
Allowed (expire_withdrawal n) v =
    (p : PendingWithdrawal) × (lookup n v.pending_withdrawals ≡ some p) × (0 < p.amount)
Allowed (settle_withdrawal n) v =
    (p : PendingWithdrawal) × (lookup n v.pending_withdrawals ≡ some p)
    × (0 < p.amount)
    × ((b : ClientBalance)
        → lookup p.client v.client_balances ≡ some b
        → b.total_withdrawn + p.amount < u64_mod)
Allowed (open_asc id client provider_id amount now) v = lookup id v.active_channels ≡ none
Allowed (submit id request_id amount hash now) v =
    HasRoom id v × (in_i64 (now +ℤ request_expiry_sec) ≡ true)
Allowed (deliver id point pre_sig encrypted hash pk now) v = HasRoom id v
Allowed (reveal id secret now) v = HasRoom id v
Allowed (claim id r s now) v = HasRoom id v
Allowed (expire id now) v = HasRoom id v
Allowed (close id uuid now) v =
    (c : ChannelState)
    → lookup id v.active_channels ≡ some c
    → lookup c.provider_id v.providers ≢ none

module _ (c : Crypto) where
  -- The vault after a call, whatever the call returned.
  unfoldable pub after : Call → VaultState → VaultState
  after (deposit client amount) v = (apply_deposit client amount v).1
  after (authorize p) v = (authorize_withdrawal p v).1
  after (expire_withdrawal n) v = (expire_pending_withdrawal n v).1
  after (settle_withdrawal n) v = (apply_withdrawal n v).1
  after (open_asc id client provider_id amount now) v =
      (open_channel_with_id id client provider_id amount now v).1
  after (submit id request_id amount hash now) v =
      (submit_request id request_id amount hash now v).1
  after (deliver id point pre_sig encrypted hash pk now) v =
      (deliver_adaptor c id point pre_sig encrypted hash pk now v).1
  after (reveal id secret now) v = (finalize_offchain c id secret now v).1
  after (claim id r s now) v = (finalize_onchain_claim c id r s now v).1
  after (expire id now) v = (expire_request id now v).1
  after (close id uuid now) v = (close_channel_with_settlement_id id none uuid now v).1

  unfoldable pub run : List Call → VaultState → VaultState
  run [] v = v
  run (call ∷ calls) v = run calls (after call v)

  -- Every call is allowed where it is made.
  abbrev pub AllAllowed : List Call → VaultState → Type 0
  AllAllowed [] v = Unit
  AllAllowed (call ∷ calls) v = Allowed call v × AllAllowed calls (after call v)

  abbrev pub total_in : List Call → ℕ
  total_in [] = 0
  total_in (call ∷ calls) = paid_in call + total_in calls

  abbrev pub total_out : List Call → VaultState → ℕ
  total_out [] v = 0
  total_out (call ∷ calls) v = paid_out call v + total_out calls (after call v)
