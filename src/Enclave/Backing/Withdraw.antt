-- ===== src/Enclave/Backing/Withdraw.antt =====
-- Deposits and the life of a withdrawal (enclave/src/state.rs): authorized, then paid out or expired.
use a.Prelude.{
  ℕ, ◌+◌, ◌-◌, ◌<◌, ◌≡◌, ◌∙◌, ap, Option, some, none, arith, inl, inr, Option-cases, u64_mod,
}
use a.Prelude.Equality.{Pubkey, nat_eq, bytes_eq, bytes_beq_iff}
use a.Prelude.Map.{lookup, insert-IsMap, lookup-insert, sum_by-insert_new}
use a.Prelude.Outcome.{Result, ok, err, panic, add_u64, checked_add}
use a.Enclave.Error.{EnclaveError, client_not_found}
use a.Enclave.State.{ClientBalance, default_balance, PendingWithdrawal, VaultState}
use a.Enclave.Access.{Balance, at_balance}
use a.Enclave.Balance.{
  lock_free, authorize_withdrawal, expire_pending_withdrawal, apply_withdrawal, apply_deposit,
}
use a.Enclave.Backing.{IsBacked, holdings, funds}
use a.Enclave.Backing.Balance.{
  with_balance, with_balance-IsBacked, funds-with_balance, holdings-le-funds,
  with_withdrawal-IsBacked, without_withdrawal-IsBacked, with_withdrawal, without_withdrawal,
  locked_client,
}
use a.Enclave.Backing.Reserve.{unlock-IsBacked, Reserves, lock-Reserves, unlock-succeeds}

-- What a call that authorizes a withdrawal leaves: all of it done, or nothing.
abbrev pub Authorizes : (Pubkey → ℕ) → VaultState → Result EnclaveError Unit × VaultState → Type 0
Authorizes others v (ok _, v') = IsBacked others v' × (funds v' ≡ funds v)
Authorizes others v (err _, v') = v' ≡ v
Authorizes others v (panic, v') = ⊥

authorize_step :
    (others : Pubkey → ℕ) (p : PendingWithdrawal) (v : VaultState)
    (out : Result EnclaveError Unit × VaultState)
    → Reserves others p.client p.amount v out
    → lookup p.withdraw_nonce out.1.pending_withdrawals ≡ none
    → Authorizes others v (elim out.0 [
      | ok x ↦ (ok tt, with_withdrawal p out.1)
      | err e ↦ (err e, out.1)
      | panic ↦ (panic, out.1)
    ])
authorize_step others p v (ok x, v') (w, same) fresh =
    (with_withdrawal-IsBacked others p v' w fresh, same)
authorize_step others p v (err e, v') same fresh = same
authorize_step others p v (panic, v') h fresh = h

at_balance-withdrawals :
    {A : Type 0} (client : Pubkey) (e : EnclaveError) (body : Balance A) (v : VaultState)
    → (at_balance client e body v).1.pending_withdrawals ≡ v.pending_withdrawals
unfolding at_balance
at_balance-withdrawals client e body v = ground arith

-- Authorizing a withdrawal under a fresh nonce on a backed vault either fails and changes nothing,
-- or keeps the vault backed with the same money; it does not panic.
pub authorize_withdrawal-Authorizes :
    (others : Pubkey → ℕ) (p : PendingWithdrawal) (v : VaultState)
    → IsBacked others v
    → lookup p.withdraw_nonce v.pending_withdrawals ≡ none
    → Authorizes others v (authorize_withdrawal p v)
unfolding authorize_withdrawal
authorize_withdrawal-Authorizes others p v w fresh =
    authorize_step others p v (at_balance p.client client_not_found (lock_free p.amount) v)
      (lock-Reserves others p.client client_not_found p.amount v w)
      (ap (lookup p.withdraw_nonce)
          (at_balance-withdrawals p.client client_not_found (lock_free p.amount) v)
        ∙ fresh)

-- A pending withdrawal of more than nothing on a backed vault expires: the call returns it, and the
-- vault stays backed with the same money.
pub expire_pending_withdrawal-succeeds :
    (others : Pubkey → ℕ) (n : ℕ) (p : PendingWithdrawal) (v : VaultState)
    → IsBacked others v
    → lookup n v.pending_withdrawals ≡ some p
    → 0 < p.amount
    → (v' : VaultState) × (expire_pending_withdrawal n v ≡ (ok p, v'))
      × IsBacked others v'
      × (funds v' ≡ funds v)
unfolding expire_pending_withdrawal
expire_pending_withdrawal-succeeds others n p v w found positive =
    let (v', done, backed, same) =
      unlock-succeeds others p.client client_not_found p.amount (without_withdrawal n v)
        (without_withdrawal-IsBacked others n p v w found) positive in
    (v', ground (arith, found, done), backed, same)

abbrev paid_out : ℕ → ClientBalance → ClientBalance
paid_out n b = record b { locked = b.locked - n; total_withdrawn = b.total_withdrawn + n }

apply_withdrawal_lem :
    (n : ℕ) (p : PendingWithdrawal) (v : VaultState) (b : ClientBalance)
    → lookup n v.pending_withdrawals ≡ some p
    → lookup p.client v.client_balances ≡ some b
    → b.total_withdrawn + p.amount < u64_mod
    → apply_withdrawal n v
      ≡ (ok p, with_balance p.client (paid_out p.amount b) (without_withdrawal n v))
unfolding apply_withdrawal at_balance checked_add
apply_withdrawal_lem n p v b pending found fits = ground arith

-- A pending withdrawal of more than nothing on a backed vault settles: the vault stays backed, with
-- exactly its amount less, if the client's lifetime total has room.
pub apply_withdrawal-succeeds :
    (others : Pubkey → ℕ) (n : ℕ) (p : PendingWithdrawal) (v : VaultState)
    → IsBacked others v
    → lookup n v.pending_withdrawals ≡ some p
    → 0 < p.amount
    → ((b : ClientBalance)
        → lookup p.client v.client_balances ≡ some b
        → b.total_withdrawn + p.amount < u64_mod)
    → (v' : VaultState) × (apply_withdrawal n v ≡ (ok p, v'))
      × IsBacked others v'
      × (funds v' + p.amount ≡ funds v)
apply_withdrawal-succeeds others n p v w found positive room =
    let removed = without_withdrawal-IsBacked others n p v w found in
    let (b, known, enough) =
      locked_client others p.client p.amount (without_withdrawal n v) removed positive in
    let moved =
      funds-with_balance p.client b (paid_out p.amount b) (without_withdrawal n v) known in
    (
      with_balance p.client (paid_out p.amount b) (without_withdrawal n v),
      apply_withdrawal_lem n p v b found known (room b known),
      unlock-IsBacked others p.client p.amount (without_withdrawal n v) b (paid_out p.amount b)
          removed known (omega arith) (omega arith),
      omega arith,
    )

abbrev balance_or_default : Option ClientBalance → ClientBalance
balance_or_default none = default_balance
balance_or_default (some b) = b

abbrev deposited : ℕ → ClientBalance → ClientBalance
deposited amount b = record b {
  free = b.free + amount;
  total_deposited = b.total_deposited + amount;
}

apply_deposit_lem :
    (client : Pubkey) (amount : ℕ) (v : VaultState)
    → (balance_or_default (lookup client v.client_balances)).free + amount < u64_mod
    → (balance_or_default (lookup client v.client_balances)).total_deposited + amount < u64_mod
    → apply_deposit client amount v ≡ (
      ok tt,
      with_balance client
          (deposited amount (balance_or_default (lookup client v.client_balances)))
          v,
    )
unfolding apply_deposit add_u64
apply_deposit_lem client amount v f d = ground arith

new_balance-IsBacked :
    (others : Pubkey → ℕ) (client : Pubkey) (amount : ℕ) (v : VaultState)
    → IsBacked others v
    → lookup client v.client_balances ≡ none
    → funds v + amount < u64_mod
    → IsBacked others (with_balance client (deposited amount default_balance) v)
new_balance-IsBacked others client amount v w fresh fits = record {
  balances_map =
      insert-IsMap client (deposited amount default_balance) v.client_balances w.balances_map;
  channels_map = w.channels_map;
  withdrawals_map = w.withdrawals_map;
  credits_map = w.credits_map;
  consistent = w.consistent;
  covered = λ k. ground (
    arith,
    w.covered k,
    lookup-insert client k (deposited amount default_balance) v.client_balances,
    bytes_beq_iff k client,
  );
  supply = omega (
    arith,
    sum_by-insert_new holdings client (deposited amount default_balance) v.client_balances fresh,
  );
}

-- A deposit that fits the supply is credited to the client, also to one without a balance: the
-- vault stays backed and its money grows by exactly the amount.
pub apply_deposit-succeeds :
    (others : Pubkey → ℕ) (client : Pubkey) (amount : ℕ) (v : VaultState)
    → IsBacked others v
    → funds v + amount < u64_mod
    → ((b : ClientBalance)
        → lookup client v.client_balances ≡ some b
        → b.total_deposited + amount < u64_mod)
    → (v' : VaultState) × (apply_deposit client amount v ≡ (ok tt, v'))
      × IsBacked others v'
      × (funds v' ≡ funds v + amount)
apply_deposit-succeeds others client amount v w fits room =
    elim (Option-cases (lookup client v.client_balances)) [
      | inl fresh ↦ (
        with_balance client (deposited amount default_balance) v,
        rw (apply_deposit_lem client amount v (rw fresh (omega arith)) (rw fresh (omega arith)))
            (rw fresh),
        new_balance-IsBacked others client amount v w fresh fits,
        omega (
          arith,
          sum_by-insert_new holdings client (deposited amount default_balance) v.client_balances
              fresh,
        ),
      )
      | inr (b, found) ↦
          let old = holdings-le-funds client b b v found in
          let moved = funds-with_balance client b (deposited amount b) v found in
          (
            with_balance client (deposited amount b) v,
            rw
                (apply_deposit_lem client amount v (rw found (omega arith))
                  (rw found (room b found)))
                (rw found),
            with_balance-IsBacked client b (deposited amount b) v found others others w
                (λ k. ground arith) (omega arith),
            omega arith,
          )
    ]
