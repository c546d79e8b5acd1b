-- ===== src/Enclave/Backing/Reserve.antt =====
-- Deposits, reservations of balance and withdrawals (enclave/src/state.rs) keep the vault backed.
use a.Prelude.{
  ℕ, ◌+◌, ◌-◌, ◌≤◌, ◌<◌, ◌≡◌, refl, ap, some, none, arith, inl, inr, Option-cases, Bool-cases,
  u64_mod, leb, if◌then◌else◌,
}
use a.Prelude.Equality.{Pubkey, nat_eq, bytes_eq}
use a.Prelude.Map.{lookup, insert-lookup}
use a.Prelude.Outcome.{Result, ok, err, panic, add_u64, sub_u64}
use a.Enclave.Error.{EnclaveError, insufficient_balance}
use a.Enclave.State.{ClientBalance, VaultState}
use a.Enclave.Access.{Balance, at_balance}
use a.Enclave.Balance.{lock_free, unlock, reserve_balance, release_balance}
use a.Enclave.Backing.{IsBacked, holdings, funds}
use a.Enclave.Backing.Balance.{
  plus, with_balance, with_balance-IsBacked, funds-with_balance, holdings-le-funds, locked_client,
}

module _ {A : Type 0} (client : Pubkey) (e : EnclaveError) (body : Balance A) (v : VaultState) where
  pub at_balance_found :
      (b : ClientBalance)
      → lookup client v.client_balances ≡ some b
      → at_balance client e body v ≡ ((body b).0, with_balance client (body b).1 v)
  unfolding at_balance
  at_balance_found b found = rw (found, at_balance)

  pub at_balance_missing :
      lookup client v.client_balances ≡ none → at_balance client e body v ≡ (err e, v)
  unfolding at_balance
  at_balance_missing missing = rw (missing, at_balance)

pub with_balance_same :
    (client : Pubkey) (b : ClientBalance) (v : VaultState)
    → lookup client v.client_balances ≡ some b
    → with_balance client b v ≡ v
with_balance_same client b v found =
    ap (λ m. record v { client_balances = m }) (insert-lookup client b v.client_balances found)

abbrev locked_by : ℕ → ClientBalance → ClientBalance
locked_by amount b = record b { free = b.free - amount; locked = b.locked + amount }

lock_free_lem :
    (amount : ℕ) (b : ClientBalance)
    → holdings b < u64_mod
    → lock_free amount b
      ≡ (if leb amount b.free then (ok tt, locked_by amount b) else (err insufficient_balance, b))
unfolding lock_free add_u64 sub_u64
lock_free_lem amount b h = ground arith

unlock_lem :
    (amount : ℕ) (b : ClientBalance)
    → holdings b < u64_mod
    → amount ≤ b.locked
    → unlock amount b ≡ (ok tt, record b { free = b.free + amount; locked = b.locked - amount })
unfolding unlock add_u64
unlock_lem amount b h enough = ground arith

-- A call that locks `amount` of a client does it in full, or fails and changes nothing.
abbrev pub Reserves :
    {A : Type 0}
    → (Pubkey → ℕ)
    → Pubkey
    → ℕ
    → VaultState
    → Result EnclaveError A × VaultState
    → Type 0
Reserves others client amount v (ok _, v') =
    IsBacked (plus others client amount) v' × (funds v' ≡ funds v)
Reserves others client amount v (err _, v') = v' ≡ v
Reserves others client amount v (panic, v') = ⊥

pub lock-Reserves :
    (others : Pubkey → ℕ) (client : Pubkey) (e : EnclaveError) (amount : ℕ) (v : VaultState)
    → IsBacked others v
    → Reserves others client amount v (at_balance client e (lock_free amount) v)
lock-Reserves others client e amount v w = elim (Option-cases (lookup client v.client_balances)) [
  | inl missing ↦ rw (at_balance_missing client e (lock_free amount) v missing) refl
  | inr (b, found) ↦
      rw
        (
          at_balance_found client e (lock_free amount) v b found,
          lock_free_lem amount b (omega (arith, w.supply, holdings-le-funds client b b v found)),
        )
        (elim (Bool-cases (leb amount b.free)) [
          | inl enough ↦ rw enough (
            with_balance-IsBacked client b (locked_by amount b) v found others
                (plus others client amount) w (λ k. ground arith) (ground (arith, w.supply)),
            ground (arith, funds-with_balance client b (locked_by amount b) v found),
          )
          | inr short ↦ rw short (with_balance_same client b v found)
        ])
]

-- Reserving an amount of a client on a backed vault either fails and changes nothing, or keeps the
-- money and leaves the vault backed with that much more locked outside channels and withdrawals; it
-- does not panic.
pub reserve_balance-Reserves :
    (others : Pubkey → ℕ) (client : Pubkey) (amount : ℕ) (v : VaultState)
    → IsBacked others v
    → Reserves others client amount v (reserve_balance client amount v)
unfolding reserve_balance
reserve_balance-Reserves others client amount v w =
    lock-Reserves others client insufficient_balance amount v w

-- Undoing a lock of `n`, of which `free` goes back to the client and the rest leaves the balances.
pub unlock-IsBacked :
    (others : Pubkey → ℕ) (client : Pubkey) (n : ℕ) (v : VaultState) (b b' : ClientBalance)
    → IsBacked (plus others client n) v
    → lookup client v.client_balances ≡ some b
    → b'.locked + n ≡ b.locked
    → b'.free ≤ b.free + n
    → IsBacked others (with_balance client b' v)
unlock-IsBacked others client n v b b' w found lower bound =
    with_balance-IsBacked client b b' v found (plus others client n) others w (λ k. ground arith)
      (omega (arith, w.supply))

abbrev unlocked : ℕ → ClientBalance → ClientBalance
unlocked n b = record b { free = b.free + n; locked = b.locked - n }

pub unlock-succeeds :
    (others : Pubkey → ℕ) (client : Pubkey) (e : EnclaveError) (n : ℕ) (v : VaultState)
    → IsBacked (plus others client n) v
    → 0 < n
    → (v' : VaultState) × (at_balance client e (unlock n) v ≡ (ok tt, v'))
      × IsBacked others v'
      × (funds v' ≡ funds v)
unlock-succeeds others client e n v w positive =
    let (b, found, enough) = locked_client others client n v w positive in
    let fits : holdings b < u64_mod =
      omega (arith, w.supply, holdings-le-funds client b b v found) in
    let moved = funds-with_balance client b (unlocked n b) v found in
    (
      with_balance client (unlocked n b) v,
      rw (at_balance_found client e (unlock n) v b found, unlock_lem n b fits enough),
      unlock-IsBacked others client n v b (unlocked n b) w found (omega arith) (omega arith),
      omega arith,
    )

-- Where a vault is backed with an amount locked for a client outside channels and withdrawals,
-- releasing that amount succeeds, leaves the vault backed without that lock, and keeps the money.
pub release_balance-succeeds :
    (others : Pubkey → ℕ) (client : Pubkey) (n : ℕ) (v : VaultState)
    → IsBacked (plus others client n) v
    → 0 < n
    → (v' : VaultState) × (release_balance client n v ≡ (ok tt, v'))
      × IsBacked others v'
      × (funds v' ≡ funds v)
unfolding release_balance
release_balance-succeeds others client n v w positive =
    unlock-succeeds others client EnclaveError.client_not_found n v w positive
