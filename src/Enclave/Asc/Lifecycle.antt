-- ===== src/Enclave/Asc/Lifecycle.antt =====
-- enclave/src/asc_manager.rs: opening a channel, closing it, and the rollback of each.
use Prim.Native.String.{◌++◌ as string_append}
use a.Prelude.{ℕ, ◌-◌, String, Option, none, some, [], ◌∷◌, ◌++◌, ltb, leb, if◌then◌else◌}
use a.Prelude.Int.{ℤ}
use a.Prelude.Equality.{Pubkey, string_eq, bytes_eq}
use a.Prelude.Map.{lookup, insert, erase}
use a.Prelude.Outcome.{get, pure, require, or_raise, lift, when, add_u64, ◌>>=◌, ◌>>◌}
use a.Enclave.Error.{
  channel_not_found, provider_not_found, insufficient_balance, client_not_found,
  invalid_channel_status,
}
use a.Enclave.State.{ChannelId, ChannelState, ProviderCredit, ProviderRegistration}
use a.Enclave.State.Status.{open_status, is_open}
use a.Enclave.Access.{Vault, Balance, modify, at_balance}
use a.Enclave.Balance.{add_free, add_locked, release_locked, reserve_balance, release_balance}

unfoldable pub open_channel_with_id : ChannelId → Pubkey → String → ℕ → ℤ → Vault Unit
open_channel_with_id channel_id client provider_id initial_deposit now = do
  v ← get
  or_raise (lookup provider_id v.providers) provider_not_found
  balance ← or_raise (lookup client v.client_balances) insufficient_balance
  require (leb initial_deposit balance.free) insufficient_balance
  reserve_balance client initial_deposit
  modify (λ u. record u {
    active_channels =
        insert channel_id
          (record {
            channel_id = channel_id;
            client = client;
            provider_id = provider_id;
            balance = record {
              client_free = initial_deposit;
              client_locked = 0;
              provider_earned = 0;
            };
            status = open_status;
            nonce = 0;
            created_at = now;
            updated_at = now;
            used_request_ids = [];
            active_request = none;
          })
          u.active_channels;
  })

-- `uuid` is the text of the fresh identifier.
unfoldable pub open_channel : String → Pubkey → String → ℕ → ℤ → Vault ChannelId
unfolding open_channel_with_id
open_channel uuid client provider_id initial_deposit now = do
  open_channel_with_id (string_append "ch_" uuid) client provider_id initial_deposit now
  pure (string_append "ch_" uuid)

unfoldable pub rollback_open_channel : ChannelId → Vault Unit
rollback_open_channel channel_id = do
  v ← get
  channel ← or_raise (lookup channel_id v.active_channels) channel_not_found
  modify (λ u. record u { active_channels = erase channel_id u.active_channels })
  subtotal ← lift (add_u64 channel.client_free channel.client_locked)
  total_channel_amount ← lift (add_u64 subtotal channel.provider_earned)
  when (ltb 0 total_channel_amount) (release_balance channel.client total_channel_amount)

pub record CloseOutcome : Type 0 where
  pub client : Pubkey
  pub provider_id : String
  pub returned_to_client : ℕ
  pub provider_earned : ℕ
  pub settlement_id : Option String
  pub closed_channel : ChannelState
  pub previous_provider_credit : Option ProviderCredit

-- `settlement_id_override.unwrap_or_else(|| format!("asc_{}", uuid))`
unfoldable pub settlement_id_or : Option String → String → String
settlement_id_or none uuid = string_append "asc_" uuid
settlement_id_or (some settlement_id) uuid = settlement_id

-- The entry of `provider_credits` after `and_modify(..).or_insert_with(..)`.
unfoldable pub credited :
    Option ProviderCredit → ProviderRegistration → String → ℕ → String → ℤ → Vault ProviderCredit
credited none provider_reg provider_id amount settlement_id now = pure (record {
  provider_id = provider_id;
  settlement_token_account = provider_reg.settlement_token_account;
  credited_amount = amount;
  oldest_credit_at = now;
  settlement_ids = settlement_id ∷ [];
})
credited (some credit) provider_reg provider_id amount settlement_id now = do
  credited_amount ← lift (add_u64 credit.credited_amount amount)
  pure (record credit {
    credited_amount = credited_amount;
    settlement_ids = credit.settlement_ids ++ settlement_id ∷ [];
  })

unfoldable pub credit_provider : String → ℕ → String → ℤ → Vault Unit
unfolding credited
credit_provider provider_id provider_earned settlement_id now = do
  v ← get
  provider_reg ← or_raise (lookup provider_id v.providers) provider_not_found
  credit ←
      credited (lookup provider_id v.provider_credits) provider_reg provider_id provider_earned
        settlement_id now
  modify (λ u. record u { provider_credits = insert provider_id credit u.provider_credits })

-- The channel's funds leave the client's `locked`; what is left of the deposit becomes free.
unfoldable pub return_funds : ℕ → ℕ → Balance Unit
return_funds total_channel_amount remaining_free = do
  release_locked total_channel_amount
  add_free remaining_free

unfoldable pub close_channel_with_settlement_id :
    ChannelId → Option String → String → ℤ → Vault CloseOutcome
unfolding settlement_id_or credit_provider return_funds
close_channel_with_settlement_id channel_id settlement_id_override uuid now = do
  v ← get
  channel ← or_raise (lookup channel_id v.active_channels) channel_not_found
  require (is_open channel.status)
      (invalid_channel_status "expected Open (close only from Open)" channel.status)
  let remaining_free = channel.client_free
  let provider_earned = channel.provider_earned
  let earned = ltb 0 provider_earned
  let settlement_id = settlement_id_or settlement_id_override uuid
  let previous = lookup channel.provider_id v.provider_credits
  modify (λ u. record u { active_channels = erase channel_id u.active_channels })
  total_channel_amount ← lift (add_u64 remaining_free provider_earned)
  when (ltb 0 total_channel_amount) (
      at_balance channel.client client_not_found (return_funds total_channel_amount remaining_free))
  when earned (credit_provider channel.provider_id provider_earned settlement_id now)
  pure (record {
    client = channel.client;
    provider_id = channel.provider_id;
    returned_to_client = remaining_free;
    provider_earned = provider_earned;
    settlement_id = if earned then some settlement_id else none;
    closed_channel = channel;
    previous_provider_credit = if earned then previous else none;
  })

unfoldable pub close_channel : ChannelId → String → ℤ → Vault CloseOutcome
unfolding close_channel_with_settlement_id
close_channel channel_id uuid now = close_channel_with_settlement_id channel_id none uuid now

take_back_funds : ℕ → ℕ → Balance Unit
take_back_funds total_channel_amount returned_to_client = do
  add_locked total_channel_amount
  modify (λ b. record b { free = b.free - returned_to_client })

-- `provider_credits.insert(..)` of the earlier credit, or `remove(..)` where there was none.
restore_credit : String → Option ProviderCredit → Vault Unit
restore_credit provider_id none =
    modify (λ u. record u { provider_credits = erase provider_id u.provider_credits })
restore_credit provider_id (some credit) =
    modify (λ u. record u { provider_credits = insert provider_id credit u.provider_credits })

unfoldable pub rollback_close_channel : CloseOutcome → Vault Unit
unfolding take_back_funds restore_credit
rollback_close_channel outcome = do
  total_channel_amount ← lift (add_u64 outcome.returned_to_client outcome.provider_earned)
  when (ltb 0 total_channel_amount) (
      at_balance outcome.client client_not_found
        (take_back_funds total_channel_amount outcome.returned_to_client))
  when (ltb 0 outcome.provider_earned)
      (restore_credit outcome.provider_id outcome.previous_provider_credit)
  modify (λ u. record u {
    active_channels =
        insert outcome.closed_channel.channel_id outcome.closed_channel u.active_channels;
  })
