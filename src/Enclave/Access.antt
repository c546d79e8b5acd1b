-- ===== src/Enclave/Access.antt =====
-- `map.get_mut(key).ok_or(error)?` followed by code on the entry: it runs on the value that the key
-- holds, and what it writes is written also where it fails half way.
use a.Prelude.{none, some}
use a.Prelude.Equality.{Pubkey, string_eq, bytes_eq}
use a.Prelude.Map.{lookup, insert}
use a.Prelude.Outcome.{Result, err, Action}
use a.Enclave.Error.{EnclaveError, channel_not_found}
use a.Enclave.State.{ChannelId, ChannelState, ClientBalance, VaultState}

-- Code on a vault, on one channel and on one client's balance.
abbrev pub Vault : Type 0 → Type 0
Vault A = Action EnclaveError VaultState A

abbrev pub Channel : Type 0 → Type 0
Channel A = Action EnclaveError ChannelState A

abbrev pub Balance : Type 0 → Type 0
Balance A = Action EnclaveError ClientBalance A

-- `entry.field = value`
abbrev pub modify : {S : Type 0} → (S → S) → Action EnclaveError S Unit
modify f s = (Result.ok tt, f s)

unfoldable pub at_channel : {A : Type 0} → ChannelId → Channel A → Vault A
at_channel channel_id body v = elim (lookup channel_id v.active_channels) [
  | none ↦ (err channel_not_found, v)
  | some channel ↦
      let (r, channel') = body channel in
      (r, record v { active_channels = insert channel_id channel' v.active_channels })
]

unfoldable pub at_balance : {A : Type 0} → Pubkey → EnclaveError → Balance A → Vault A
at_balance client missing body v = elim (lookup client v.client_balances) [
  | none ↦ (err missing, v)
  | some balance ↦
      let (r, balance') = body balance in
      (r, record v { client_balances = insert client balance' v.client_balances })
]
