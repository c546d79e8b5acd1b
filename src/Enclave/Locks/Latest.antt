-- ===== src/Enclave/Locks/Latest.antt =====
-- enclave/src/state.rs: the locks of a client against `refresh_client_max_lock_expires_at`.
use a.Prelude.{
  ℕ, ◌≡◌, Bool-cases, Option, none, some, String, [], ◌∷◌, arith, inl, inr, Option-cases, unwrap_or,
}
use a.Prelude.Int.{ℤ, pos, ◌≤ℤ◌}
use a.Prelude.Equality.{◌==◌, bytes_beq_iff, Pubkey, Eq, bytes_eq, string_eq, nat_eq}
use a.Prelude.Map.{Map, lookup, insert}
use a.Prelude.Outcome.{ok}
use a.Enclave.State.{
  ChannelId, ChannelRequest, ChannelState, ClientBalance, PendingWithdrawal, Reservation,
  VaultState,
}
use a.Enclave.State.Status.{reserved}
use a.Enclave.Access.{at_balance}
use a.Enclave.Locks.{
  later, latest, reservation_expiry, withdrawal_expiry, channel_expiry, max_lock,
  refresh_client_max_lock_expires_at,
}

-- Some time is found, and it is not before `z`.
abbrev Covers : ℤ → Option ℤ → Type 0
Covers z none = ⊥
Covers z (some y) = z ≤ℤ y

later-Covers_left : (z : ℤ) (y : Option ℤ) → Covers z (later (some z) y)
later-Covers_left z none = omega arith
later-Covers_left z (some y) = ground arith

later-Covers_right : (z : ℤ) (x y : Option ℤ) → Covers z y → Covers z (later x y)
later-Covers_right z none y h = h
later-Covers_right z (some x) none h = absurd h
later-Covers_right z (some x) (some y) h = ground arith

Covers-unwrap_or : (z d : ℤ) (y : Option ℤ) → Covers z y → z ≤ℤ unwrap_or y d
Covers-unwrap_or z d none h = absurd h
Covers-unwrap_or z d (some y) h = h

module _ {K V : Type 0} ⦃e : Eq K⦄ (expiry : V → Option ℤ) where
  latest-Covers :
      (m : Map K V) (k : K) (v : V) (z : ℤ)
      → lookup k m ≡ some v
      → expiry v ≡ some z
      → Covers z (latest expiry m)
  unfolding latest lookup
  latest-Covers [] k v z h x = cc
  latest-Covers ((j, w) ∷ m) k v z h x = elim (Bool-cases (k == j)) [
    | inl same ↦
        let own : expiry w ≡ some z = ground arith in
        rw (latest, own) (later-Covers_left z (latest expiry m))
    | inr other ↦
        later-Covers_right z (expiry w) (latest expiry m) (latest-Covers m k v z (ground arith) x)
  ]

  latest-bound :
      (m : Map K V) (k : K) (v : V) (z d : ℤ)
      → lookup k m ≡ some v
      → expiry v ≡ some z
      → z ≤ℤ unwrap_or (latest expiry m) d
  latest-bound m k v z d h x = Covers-unwrap_or z d (latest expiry m) (latest-Covers m k v z h x)

-- The lock of a reservation, a withdrawal or a request that the vault holds for the client.
pub data Locks (client : Pubkey) (v : VaultState) (z : ℤ) : Type 0 where
  by_reservation :
      (id : String) (r : Reservation)
      → lookup id v.reservations ≡ some r
      → r.client ≡ client
      → r.status ≡ reserved
      → r.expires_at ≡ z
      → Locks client v z
  by_withdrawal :
      (nonce : ℕ) (w : PendingWithdrawal)
      → lookup nonce v.pending_withdrawals ≡ some w
      → w.client ≡ client
      → w.expires_at ≡ z
      → Locks client v z
  by_request :
      (id : ChannelId) (c : ChannelState) (request : ChannelRequest)
      → lookup id v.active_channels ≡ some c
      → c.client ≡ client
      → c.active_request ≡ some request
      → request.expires_at ≡ z
      → Locks client v z

Locks-max_lock :
    (client : Pubkey) (v : VaultState) (z : ℤ) → Locks client v z → z ≤ℤ max_lock client v
unfolding max_lock
Locks-max_lock client v z (by_reservation id r h own held end) =
    let x : reservation_expiry client r ≡ some z = ground (arith, bytes_beq_iff r.client client) in
    ground (arith, latest-bound (reservation_expiry client) v.reservations id r z (pos 0) h x)
Locks-max_lock client v z (by_withdrawal nonce w h own end) =
    let x : withdrawal_expiry client w ≡ some z = ground (arith, bytes_beq_iff w.client client) in
    ground
      (arith, latest-bound (withdrawal_expiry client) v.pending_withdrawals nonce w z (pos 0) h x)
Locks-max_lock client v z (by_request id c request h own active end) =
    let x : channel_expiry client c ≡ some z = ground (arith, bytes_beq_iff c.client client) in
    ground (arith, latest-bound (channel_expiry client) v.active_channels id c z (pos 0) h x)

-- A refresh of a client's lock time that succeeds stores a time no earlier than the expiry of any
-- lock of the client, whether of a reservation, of a pending withdrawal or of a channel's request,
-- and changes nothing else.
pub refresh-Locks :
    (client : Pubkey) (v v' : VaultState) (found : ℤ) (z : ℤ)
    → refresh_client_max_lock_expires_at client v ≡ (ok found, v')
    → Locks client v z
    → (z ≤ℤ found)
      × ((b : ClientBalance) × (lookup client v.client_balances ≡ some b)
          × (v' ≡ record v {
            client_balances =
                insert client (record b { max_lock_expires_at = found }) v.client_balances;
          }))
unfolding refresh_client_max_lock_expires_at at_balance
refresh-Locks client v v' found z h l = elim (Option-cases (lookup client v.client_balances)) [
  | inl e ↦ ground arith
  | inr (b, e) ↦ (ground (arith, Locks-max_lock client v z l), (b, e, ground arith))
]
