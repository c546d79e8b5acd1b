-- ===== src/Enclave/Locks.antt =====
-- enclave/src/state.rs: `refresh_client_max_lock_expires_at`, the time until which a client's locked
-- balance may still be claimed by someone else. It goes into the receipts of the client.
pub mod Latest
use a.Prelude.{Bool, true, false, ◌&&◌, Option, none, some, List, [], ◌∷◌, unwrap_or}
use a.Prelude.Int.{ℤ, pos, max_ℤ}
use a.Prelude.Equality.{Pubkey, ◌==◌, bytes_eq, string_eq, nat_eq}
use a.Prelude.Map.{Map}
use a.Prelude.Outcome.{get, pure, ◌>>=◌, ◌>>◌}
use a.Enclave.Error.{client_not_found}
use a.Enclave.State.{ChannelState, ChannelRequest, PendingWithdrawal, Reservation, VaultState}
use a.Enclave.State.Status.{ReservationStatus, reserved}
use a.Enclave.Access.{Vault, modify, at_balance}

abbrev pub later : Option ℤ → Option ℤ → Option ℤ
later none y = y
later (some z) none = some z
later (some z) (some y) = some (max_ℤ z y)

-- `.filter(..).map(..).max()`
unfoldable pub latest : {K V : Type 0} → (V → Option ℤ) → Map K V → Option ℤ
latest expiry [] = none
latest expiry ((k, v) ∷ m) = later (expiry v) (latest expiry m)

abbrev pub is_reserved : ReservationStatus → Bool
is_reserved reserved = true
is_reserved _ = false

-- When a lock of the client ends, if it is one.
abbrev pub reservation_expiry : Pubkey → Reservation → Option ℤ
reservation_expiry client r = elim (r.client == client && is_reserved r.status) [
  | true ↦ some r.expires_at
  | false ↦ none
]

abbrev pub withdrawal_expiry : Pubkey → PendingWithdrawal → Option ℤ
withdrawal_expiry client w = elim (w.client == client) [ true ↦ some w.expires_at | false ↦ none ]

abbrev pub request_expiry : Option ChannelRequest → Option ℤ
request_expiry none = none
request_expiry (some request) = some request.expires_at

abbrev pub channel_expiry : Pubkey → ChannelState → Option ℤ
channel_expiry client c = elim (c.client == client) [
  | true ↦ request_expiry c.active_request
  | false ↦ none
]

unfoldable pub max_lock : Pubkey → VaultState → ℤ
unfolding latest
max_lock client v =
    max_ℤ
      (max_ℤ (unwrap_or (latest (reservation_expiry client) v.reservations) (pos 0))
        (unwrap_or (latest (withdrawal_expiry client) v.pending_withdrawals) (pos 0)))
      (unwrap_or (latest (channel_expiry client) v.active_channels) (pos 0))

unfoldable pub refresh_client_max_lock_expires_at : Pubkey → Vault ℤ
unfolding max_lock
refresh_client_max_lock_expires_at client = do
  v ← get
  let max_lock_expires_at = max_lock client v
  at_balance client client_not_found
      (modify (λ b. record b { max_lock_expires_at = max_lock_expires_at }))
  pure max_lock_expires_at
