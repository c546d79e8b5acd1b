-- ===== src/Enclave/Backing/Channel.antt =====
-- Code on one channel keeps the whole vault backed.
use a.Prelude.{ℕ, ◌≡◌, ◌≢◌, refl, some, arith, inl, inr, Option-cases}
use mathlib.Core.Path.{subst}
use a.Prelude.Equality.{Pubkey, string_eq, bytes_eq}
use a.Prelude.Map.{lookup, insert, insert-IsMap, lookup-insert_inv, sum_by-insert}
use a.Prelude.Outcome.{Result, panic}
use a.Enclave.Error.{EnclaveError}
use a.Enclave.State.{ChannelId, ChannelState, VaultState}
use a.Enclave.Access.{Channel, at_channel}
use a.Enclave.Asc.Consistent.{IsConsistent, Keeps}
use a.Enclave.Backing.{IsBacked, owned, funds}

-- How an operation on a vault may end: without a panic, backed again, with the same money.
abbrev pub Preserves :
    {A : Type 0} → (Pubkey → ℕ) → VaultState → Result EnclaveError A × VaultState → Type 0
Preserves others v (r, v') = (r ≢ panic) × IsBacked others v' × (funds v' ≡ funds v)

owned-Keeps :
    {A : Type 0} (k : Pubkey) (c : ChannelState) (r : Result EnclaveError A) (c' : ChannelState)
    → Keeps c (r, c')
    → owned k c' ≡ owned k c
owned-Keeps k c r c' (_, _, same_total, _, same_client, _) = rw (same_total, same_client)

-- Exchanging a channel for a consistent one that is worth the same to the same client.
pub replace_channel-IsBacked :
    (others : Pubkey → ℕ) (id : ChannelId) (c c' : ChannelState) (v : VaultState)
    → IsBacked others v
    → lookup id v.active_channels ≡ some c
    → IsConsistent c'
    → ((k : Pubkey) → owned k c' ≡ owned k c)
    → IsBacked others (record v { active_channels = insert id c' v.active_channels })
replace_channel-IsBacked others id c c' v b found consistent' same = record {
  balances_map = b.balances_map;
  channels_map = insert-IsMap id c' v.active_channels b.channels_map;
  withdrawals_map = b.withdrawals_map;
  credits_map = b.credits_map;
  consistent = λ j d h. elim (lookup-insert_inv id j c' d v.active_channels h) [
    | inl (_, same_channel) ↦ subst IsConsistent same_channel consistent'
    | inr old ↦ b.consistent j d old
  ];
  covered = λ k.
      omega (arith, b.covered k, same k, sum_by-insert (owned k) id c' c v.active_channels found);
  supply = b.supply;
}

pub at_channel-Preserves :
    {A : Type 0} (others : Pubkey → ℕ) (id : ChannelId) (body : Channel A) (v : VaultState)
    → IsBacked others v
    → ((c : ChannelState) → lookup id v.active_channels ≡ some c → Keeps c (body c))
    → Preserves others v (at_channel id body v)
unfolding at_channel
at_channel-Preserves others id body v b keeps = elim (Option-cases (lookup id v.active_channels)) [
  | inl missing ↦ rw (missing, at_channel) ((λ e. cc), b, refl)
  | inr (c, found) ↦
      let kept = keeps c found in
      rw (found, at_channel)
        (
          kept.0,
          replace_channel-IsBacked others id c (body c).1 v b found kept.1
              (λ k. owned-Keeps k c (body c).0 (body c).1 kept),
          refl,
        )
]
