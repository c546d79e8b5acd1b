-- ===== src/Enclave/Balance.antt =====
-- enclave/src/state.rs: deposits, reservations of balance, withdrawals, nonces.
use a.Prelude.{ℕ, ◌+◌, ◌-◌, ◌%◌, Option, none, some, leb, u64_mod}
use a.Prelude.Equality.{Pubkey, nat_eq, bytes_eq}
use a.Prelude.Map.{lookup, insert, erase}
use a.Prelude.Outcome.{
  ok, pure, get, require, or_raise, lift, add_u64, sub_u64, checked_add, ◌>>=◌, ◌>>◌,
}
use a.Enclave.Error.{insufficient_balance, client_not_found, reservation_not_found, internal}
use a.Enclave.State.{ClientBalance, default_balance, PendingWithdrawal}
use a.Enclave.Access.{Vault, Balance, modify, at_balance}

-- `fetch_add(1, SeqCst)` wraps around.
unfoldable pub next_receipt_nonce : Vault ℕ
next_receipt_nonce v =
    (ok v.receipt_nonce, record v { receipt_nonce = (v.receipt_nonce + 1) % u64_mod })

unfoldable pub next_withdraw_nonce : Vault ℕ
next_withdraw_nonce v =
    (ok v.withdraw_nonce, record v { withdraw_nonce = (v.withdraw_nonce + 1) % u64_mod })

-- `balance.free += amount` and the like.
abbrev pub add_free : ℕ → Balance Unit
add_free amount = do
  balance ← get
  free ← lift (add_u64 balance.free amount)
  modify (λ b. record b { free = free })

abbrev pub add_locked : ℕ → Balance Unit
add_locked amount = do
  balance ← get
  locked ← lift (add_u64 balance.locked amount)
  modify (λ b. record b { locked = locked })

-- `balance.free -= amount`
abbrev pub sub_free : ℕ → Balance Unit
sub_free amount = do
  balance ← get
  free ← lift (sub_u64 balance.free amount)
  modify (λ b. record b { free = free })

-- `balance.locked = balance.locked.saturating_sub(amount)`
abbrev pub release_locked : ℕ → Balance Unit
release_locked amount = modify (λ b. record b { locked = b.locked - amount })

credit_deposit : ℕ → Balance Unit
credit_deposit amount = do
  add_free amount
  balance ← get
  total ← lift (add_u64 balance.total_deposited amount)
  modify (λ b. record b { total_deposited = total })

-- `entry(client).or_default()`
abbrev or_default : Option ClientBalance → ClientBalance
or_default none = default_balance
or_default (some balance) = balance

unfoldable pub apply_deposit : Pubkey → ℕ → Vault Unit
unfolding credit_deposit
apply_deposit client amount v =
    let (r, balance) = credit_deposit amount (or_default (lookup client v.client_balances)) in
    (r, record v { client_balances = insert client balance v.client_balances })

unfoldable pub rollback_deposit : Pubkey → ℕ → Vault Unit
rollback_deposit client amount = at_balance client client_not_found (
    modify (λ b. record b { free = b.free - amount; total_deposited = b.total_deposited - amount }))

unfoldable pub lock_free : ℕ → Balance Unit
lock_free amount = do
  balance ← get
  require (leb amount balance.free) insufficient_balance
  sub_free amount
  add_locked amount

unfoldable pub unlock : ℕ → Balance Unit
unlock amount = do release_locked amount; add_free amount

unfoldable pub reserve_balance : Pubkey → ℕ → Vault Unit
unfolding lock_free
reserve_balance client amount = at_balance client insufficient_balance (lock_free amount)

unfoldable pub release_balance : Pubkey → ℕ → Vault Unit
unfolding unlock
release_balance client amount = at_balance client client_not_found (unlock amount)

-- `insert` of a withdrawal under its nonce.
abbrev add_withdrawal : PendingWithdrawal → Vault Unit
add_withdrawal w =
    modify (λ v. record v { pending_withdrawals = insert w.withdraw_nonce w v.pending_withdrawals })

-- `remove(&withdraw_nonce).ok_or(ReservationNotFound)?`
take_withdrawal : ℕ → Vault PendingWithdrawal
take_withdrawal withdraw_nonce = do
  v ← get
  withdrawal ← or_raise (lookup withdraw_nonce v.pending_withdrawals) reservation_not_found
  modify (λ u. record u { pending_withdrawals = erase withdraw_nonce u.pending_withdrawals })
  pure withdrawal

unfoldable pub authorize_withdrawal : PendingWithdrawal → Vault Unit
unfolding lock_free
authorize_withdrawal withdrawal = do
  at_balance withdrawal.client client_not_found (lock_free withdrawal.amount)
  add_withdrawal withdrawal

unfoldable pub expire_pending_withdrawal : ℕ → Vault PendingWithdrawal
unfolding take_withdrawal unlock
expire_pending_withdrawal withdraw_nonce = do
  withdrawal ← take_withdrawal withdraw_nonce
  at_balance withdrawal.client client_not_found (unlock withdrawal.amount)
  pure withdrawal

unfoldable pub rollback_authorized_withdrawal : ℕ → Vault PendingWithdrawal
unfolding expire_pending_withdrawal
rollback_authorized_withdrawal withdraw_nonce = expire_pending_withdrawal withdraw_nonce

pay_out : ℕ → Balance Unit
pay_out amount = do
  release_locked amount
  balance ← get
  total ←
      or_raise (checked_add u64_mod balance.total_withdrawn amount)
        (internal "Withdrawal total overflow")
  modify (λ b. record b { total_withdrawn = total })

unfoldable pub apply_withdrawal : ℕ → Vault PendingWithdrawal
unfolding take_withdrawal pay_out
apply_withdrawal withdraw_nonce = do
  withdrawal ← take_withdrawal withdraw_nonce
  at_balance withdrawal.client client_not_found (pay_out withdrawal.amount)
  pure withdrawal

take_back : ℕ → Balance Unit
take_back amount = do
  add_locked amount
  modify (λ b. record b { total_withdrawn = b.total_withdrawn - amount })

unfoldable pub rollback_applied_withdrawal : PendingWithdrawal → Vault Unit
unfolding take_back
rollback_applied_withdrawal withdrawal = do
  at_balance withdrawal.client client_not_found (take_back withdrawal.amount)
  add_withdrawal withdrawal
