-- ===== src/Enclave/Backing/Open.antt =====
-- Opening channels (enclave/src/asc_manager.rs) keeps the vault backed.
use mathlib.Core.Path.{subst}
use a.Prelude.{
  ℕ, ◌≡◌, refl, ◌∙◌, ap, String, some, none, arith, inl, inr, Option-cases, Bool-cases, leb, [],
}
use a.Prelude.Int.{ℤ}
use a.Prelude.Equality.{Pubkey, nat_eq, string_eq, bytes_eq}
use a.Prelude.Map.{lookup, lookup-insert}
use a.Prelude.Outcome.{Result, ok, err, panic}
use a.Enclave.Error.{EnclaveError}
use a.Enclave.State.{ChannelId, ChannelState, VaultState}
use a.Enclave.State.Status.{open_status}
use a.Enclave.Access.{at_balance}
use a.Enclave.Balance.{reserve_balance}
use a.Enclave.Asc.Consistent.{total, IsConsistent}
use a.Enclave.Asc.Lifecycle.{open_channel_with_id}
use a.Enclave.Backing.{IsBacked, funds}
use a.Enclave.Backing.Balance.{holdings-le-funds, with_channel, with_channel-IsBacked}
use a.Enclave.Backing.Reserve.{Reserves, reserve_balance-Reserves}

-- The channel as `open_channel_with_id` writes it.
abbrev pub opened : ChannelId → Pubkey → String → ℕ → ℤ → ChannelState
opened id client provider_id deposit now = record {
  channel_id = id;
  client = client;
  provider_id = provider_id;
  balance = record { client_free = deposit; client_locked = 0; provider_earned = 0 };
  status = open_status;
  nonce = 0;
  created_at = now;
  updated_at = now;
  used_request_ids = [];
  active_request = none;
}

-- What a call that opens a channel leaves: the new channel in a backed vault, or nothing new.
abbrev pub Opens :
    (Pubkey → ℕ) → ChannelState → VaultState → Result EnclaveError Unit × VaultState → Type 0
Opens others c v (ok _, v') =
    IsBacked others v' × (funds v' ≡ funds v) × (lookup c.channel_id v'.active_channels ≡ some c)
Opens others c v (err _, v') = v' ≡ v
Opens others c v (panic, v') = ⊥

reserve_balance-channels :
    (client : Pubkey) (amount : ℕ) (v : VaultState)
    → (reserve_balance client amount v).1.active_channels ≡ v.active_channels
unfolding reserve_balance at_balance
reserve_balance-channels client amount v = ground arith

open_step :
    (others : Pubkey → ℕ) (c : ChannelState) (v : VaultState)
    (out : Result EnclaveError Unit × VaultState)
    → Reserves others c.client (total c) v out
    → lookup c.channel_id out.1.active_channels ≡ none
    → IsConsistent c
    → Opens others c v (elim out.0 [
      | ok x ↦ (ok tt, with_channel c.channel_id c out.1)
      | err e ↦ (err e, out.1)
      | panic ↦ (panic, out.1)
    ])
open_step others c v (ok x, v') (w, same) fresh k = (
  with_channel-IsBacked others c.channel_id c v' w fresh k,
  same,
  ground (
    arith,
    lookup-insert c.channel_id c.channel_id c v'.active_channels,
    string_eq.beq_iff c.channel_id c.channel_id,
  ),
)
open_step others c v (err e, v') same fresh k = same
open_step others c v (panic, v') h fresh k = h

-- Opening a channel under a fresh identifier on a backed vault either fails and changes nothing, or
-- stores the new channel with the deposit and keeps the vault backed with the same money; it does
-- not panic.
pub open_channel_with_id-Opens :
    (others : Pubkey → ℕ) (id : ChannelId) (client : Pubkey) (provider_id : String) (deposit : ℕ)
    (now : ℤ) (v : VaultState)
    → IsBacked others v
    → lookup id v.active_channels ≡ none
    → Opens others
        (opened id client provider_id deposit now)
        v
        (open_channel_with_id id client provider_id deposit now v)
unfolding open_channel_with_id
open_channel_with_id-Opens others id client provider_id deposit now v w fresh =
    let new = opened id client provider_id deposit now in
    elim (Option-cases (lookup provider_id v.providers)) [
      | inl unknown ↦ ground arith
      | inr (reg, registered) ↦ elim (Option-cases (lookup client v.client_balances)) [
        | inl missing ↦ ground arith
        | inr (b, found) ↦ elim (Bool-cases (leb deposit b.free)) [
          | inl enough ↦
              let fits = holdings-le-funds client b b v found in
              rw registered (
                rw found (
                  rw enough (
                    open_step others new v (reserve_balance client deposit v)
                      (subst (λ n. Reserves others client n v (reserve_balance client deposit v))
                        (omega arith) (reserve_balance-Reserves others client deposit v w))
                      (ap (lookup id) (reserve_balance-channels client deposit v) ∙ fresh)
                      (record { matches = refl; bounded = ground (arith, w.supply, fits) }))))
          | inr short ↦ ground arith
        ]
      ]
    ]
