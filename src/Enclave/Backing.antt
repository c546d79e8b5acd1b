-- ===== src/Enclave/Backing.antt =====
-- What the enclave owes and holds: every locked unit of a client backs a channel, a pending
-- withdrawal or something outside (a payment reservation), and no operation makes money.
pub mod Channel
pub mod Balance
pub mod Reserve
pub mod Withdraw
pub mod Open
pub mod Request
pub mod Run
pub mod Conserve
pub mod Close
pub mod Payment
pub mod Refund
use a.Prelude.{ℕ, ◌+◌, ◌<◌, ◌≡◌, Option, none, some, u64_mod, if◌then◌else◌}
use a.Prelude.Equality.{Pubkey, ◌==◌, nat_eq, string_eq, bytes_eq}
use a.Prelude.Map.{lookup, IsMap, sum_by}
use a.Enclave.State.{
  ChannelId, ChannelState, ClientBalance, PendingWithdrawal, ProviderCredit,
  MultiChainProviderCredit, VaultState,
}
use a.Enclave.Asc.Consistent.{total, IsConsistent}

abbrev pub owned : Pubkey → ChannelState → ℕ
owned k c = if c.client == k then total c else 0

abbrev pub held : Pubkey → PendingWithdrawal → ℕ
held k w = if w.client == k then w.amount else 0

abbrev pub locked_part : Option ClientBalance → ℕ
locked_part none = 0
locked_part (some b) = b.locked

abbrev pub locked_of : Pubkey → VaultState → ℕ
locked_of k v = locked_part (lookup k v.client_balances)

abbrev pub in_channels : Pubkey → VaultState → ℕ
in_channels k v = sum_by (owned k) v.active_channels

abbrev pub in_withdrawals : Pubkey → VaultState → ℕ
in_withdrawals k v = sum_by (held k) v.pending_withdrawals

abbrev pub holdings : ClientBalance → ℕ
holdings b = b.free + b.locked

abbrev pub credit_of : ProviderCredit → ℕ
credit_of c = c.credited_amount

abbrev pub multi_chain_credit_of : MultiChainProviderCredit → ℕ
multi_chain_credit_of c = c.credited_amount

-- All the money that the enclave accounts for: the clients' balances and the providers' credits.
abbrev pub funds : VaultState → ℕ
funds v =
    sum_by holdings v.client_balances
    + sum_by credit_of v.provider_credits
    + sum_by multi_chain_credit_of v.multi_chain_provider_credits

-- `others k` is what is locked for the client `k` outside channels and withdrawals.
pub record IsBacked (others : Pubkey → ℕ) (v : VaultState) : Type 0 where
  pub balances_map : IsMap v.client_balances
  pub channels_map : IsMap v.active_channels
  pub withdrawals_map : IsMap v.pending_withdrawals
  pub credits_map : IsMap v.provider_credits
  pub consistent :
      (id : ChannelId) (c : ChannelState) → lookup id v.active_channels ≡ some c → IsConsistent c
  pub covered : (k : Pubkey) → locked_of k v ≡ others k + in_channels k v + in_withdrawals k v
  pub supply : funds v < u64_mod
