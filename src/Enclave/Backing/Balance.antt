-- ===== src/Enclave/Backing/Balance.antt =====
-- What changes of one client's balance, of the channels and of the withdrawals do to the backing.
use mathlib.Core.Path.{subst}
use a.Prelude.{
  ℕ, ◌+◌, ◌≤◌, ◌<◌, ◌≡◌, ap, some, none, arith, inl, inr, Option-cases, u64_mod, if◌then◌else◌,
}
use a.Prelude.Equality.{Pubkey, ◌==◌, nat_eq, string_eq, bytes_eq, bytes_beq_iff}
use a.Prelude.Map.{
  lookup, insert, erase, insert-IsMap, erase-IsMap, lookup-insert, lookup-insert_inv,
  lookup-erase_inv, sum_by-insert, sum_by-insert_new, sum_by-erase, le-sum_by,
}
use a.Enclave.State.{ChannelId, ChannelState, ClientBalance, PendingWithdrawal, VaultState}
use a.Enclave.Asc.Consistent.{total, IsConsistent}
use a.Enclave.Backing.{IsBacked, owned, held, holdings, funds, locked_of, locked_part}

-- `n` more for one client.
abbrev pub plus : (Pubkey → ℕ) → Pubkey → ℕ → Pubkey → ℕ
plus others client n k = others k + (if client == k then n else 0)

abbrev pub with_balance : Pubkey → ClientBalance → VaultState → VaultState
with_balance client b v = record v { client_balances = insert client b v.client_balances }

module _ (client : Pubkey) (b b' : ClientBalance) (v : VaultState)
    (found : lookup client v.client_balances ≡ some b) where
  pub funds-with_balance : funds (with_balance client b' v) + holdings b ≡ funds v + holdings b'
  funds-with_balance = omega (arith, sum_by-insert holdings client b' b v.client_balances found)

  pub holdings-le-funds : holdings b ≤ funds v
  holdings-le-funds = omega (arith, le-sum_by holdings client b v.client_balances found)

  locked_of-with_balance :
      (k : Pubkey)
      → locked_of k (with_balance client b' v) + (if client == k then b.locked else 0)
        ≡ locked_of k v + (if client == k then b'.locked else 0)
  locked_of-with_balance k = ground (
    arith,
    found,
    lookup-insert client k b' v.client_balances,
    bytes_beq_iff client k,
    bytes_beq_iff k client,
  )

  -- A new balance for a client whose other locks change as its `locked` does.
  pub with_balance-IsBacked :
      (others others' : Pubkey → ℕ)
      → IsBacked others v
      → ((k : Pubkey)
          → others' k + (if client == k then b.locked else 0)
            ≡ others k + (if client == k then b'.locked else 0))
      → funds v + holdings b' < u64_mod + holdings b
      → IsBacked others' (with_balance client b' v)
  with_balance-IsBacked others others' w change fits = record {
    balances_map = insert-IsMap client b' v.client_balances w.balances_map;
    channels_map = w.channels_map;
    withdrawals_map = w.withdrawals_map;
    credits_map = w.credits_map;
    consistent = w.consistent;
    covered = λ k. omega (arith, w.covered k, change k, locked_of-with_balance k);
    supply = omega (arith, funds-with_balance);
  }

-- A channel that opens, and one that leaves the table.
abbrev pub with_channel : ChannelId → ChannelState → VaultState → VaultState
with_channel id c v = record v { active_channels = insert id c v.active_channels }

abbrev pub without_channel : ChannelId → VaultState → VaultState
without_channel id v = record v { active_channels = erase id v.active_channels }

pub with_channel-IsBacked :
    (others : Pubkey → ℕ) (id : ChannelId) (c : ChannelState) (v : VaultState)
    → IsBacked (plus others c.client (total c)) v
    → lookup id v.active_channels ≡ none
    → IsConsistent c
    → IsBacked others (with_channel id c v)
with_channel-IsBacked others id c v w fresh consistent = record {
  balances_map = w.balances_map;
  channels_map = insert-IsMap id c v.active_channels w.channels_map;
  withdrawals_map = w.withdrawals_map;
  credits_map = w.credits_map;
  consistent = λ j d h. elim (lookup-insert_inv id j c d v.active_channels h) [
    | inl (_, same) ↦ subst IsConsistent same consistent
    | inr old ↦ w.consistent j d old
  ];
  covered =
      λ k. omega (arith, w.covered k, sum_by-insert_new (owned k) id c v.active_channels fresh);
  supply = w.supply;
}

pub without_channel-IsBacked :
    (others : Pubkey → ℕ) (id : ChannelId) (c : ChannelState) (v : VaultState)
    → IsBacked others v
    → lookup id v.active_channels ≡ some c
    → IsBacked (plus others c.client (total c)) (without_channel id v)
without_channel-IsBacked others id c v w found = record {
  balances_map = w.balances_map;
  channels_map = erase-IsMap id v.active_channels w.channels_map;
  withdrawals_map = w.withdrawals_map;
  credits_map = w.credits_map;
  consistent =
      λ j d h. w.consistent j d (lookup-erase_inv id j d v.active_channels w.channels_map h);
  covered = λ k. omega (arith, w.covered k, sum_by-erase (owned k) id c v.active_channels found);
  supply = w.supply;
}

-- A withdrawal that is authorized, and one that is settled or expires.
abbrev pub with_withdrawal : PendingWithdrawal → VaultState → VaultState
with_withdrawal p v = record v {
  pending_withdrawals = insert p.withdraw_nonce p v.pending_withdrawals;
}

abbrev pub without_withdrawal : ℕ → VaultState → VaultState
without_withdrawal n v = record v { pending_withdrawals = erase n v.pending_withdrawals }

pub with_withdrawal-IsBacked :
    (others : Pubkey → ℕ) (p : PendingWithdrawal) (v : VaultState)
    → IsBacked (plus others p.client p.amount) v
    → lookup p.withdraw_nonce v.pending_withdrawals ≡ none
    → IsBacked others (with_withdrawal p v)
with_withdrawal-IsBacked others p v w fresh = record {
  balances_map = w.balances_map;
  channels_map = w.channels_map;
  withdrawals_map = insert-IsMap p.withdraw_nonce p v.pending_withdrawals w.withdrawals_map;
  credits_map = w.credits_map;
  consistent = w.consistent;
  covered = λ k. omega (
    arith,
    w.covered k,
    sum_by-insert_new (held k) p.withdraw_nonce p v.pending_withdrawals fresh,
  );
  supply = w.supply;
}

pub without_withdrawal-IsBacked :
    (others : Pubkey → ℕ) (n : ℕ) (p : PendingWithdrawal) (v : VaultState)
    → IsBacked others v
    → lookup n v.pending_withdrawals ≡ some p
    → IsBacked (plus others p.client p.amount) (without_withdrawal n v)
without_withdrawal-IsBacked others n p v w found = record {
  balances_map = w.balances_map;
  channels_map = w.channels_map;
  withdrawals_map = erase-IsMap n v.pending_withdrawals w.withdrawals_map;
  credits_map = w.credits_map;
  consistent = w.consistent;
  covered = λ k. omega (arith, w.covered k, sum_by-erase (held k) n p v.pending_withdrawals found);
  supply = w.supply;
}

-- Locks held for a client mean that it has a balance with at least as much locked.
pub locked_client :
    (others : Pubkey → ℕ) (client : Pubkey) (n : ℕ) (v : VaultState)
    → IsBacked (plus others client n) v
    → 0 < n
    → (b : ClientBalance) × (lookup client v.client_balances ≡ some b) × (n ≤ b.locked)
locked_client others client n v w positive = elim (Option-cases (lookup client v.client_balances)) [
  | inl missing ↦ absurd (omega (arith, enough, ap locked_part missing))
  | inr (b, found) ↦ (b, found, omega (arith, enough, ap locked_part found))
]
  where
    enough : n ≤ locked_of client v
    enough = ground (arith, w.covered client, bytes_beq_iff client client)
