-- ===== src/Enclave/Tests/Backings.antt =====
-- The theorems on a whole vault, at the vault of the tests.
use a.Prelude.{◌+◌, ◌<◌, ◌≡◌, ◌≢◌, refl, true, none, some, List, [], ◌∷◌, arith, u64_mod}
use a.Prelude.Int.{pos, ◌+ℤ◌, in_i64}
use a.Prelude.Equality.{bytes_beq, bytes_beq_iff, bytes_eq, nat_eq, string_eq, contains}
use a.Prelude.Map.{lookup, insert, sum_by}
use a.Prelude.Outcome.{ok, add_u64, sub_u64, add_i64}
use a.Enclave.State.{ClientBalance, PendingWithdrawal, VaultState}
use a.Enclave.Balance.{apply_deposit, apply_withdrawal}
use a.Enclave.Access.{at_channel, at_balance}
use a.Enclave.Asc.Field.{request_expiry_sec}
use a.Enclave.Asc.Request.{submit_request, submit_request_in}
use a.Enclave.Backing.{IsBacked, funds}
use a.Enclave.Payment.{
  settle_payment, rollback_settle_payment, credit_solana, is_solana_network, starts_with,
}
use a.Prelude.Codec.{as_bytes}
use a.Enclave.Backing.Refund.{CanSettle, rollback-settle}
use a.Enclave.Backing.Balance.{plus}
use a.Enclave.Backing.Payment.{settle_payment-succeeds}
use a.Enclave.Backing.Withdraw.{apply_withdrawal-succeeds}
use a.Enclave.Backing.Close.{Closes, close_channel-succeeds}
use a.Enclave.Backing.Run.{
  Call, deposit, submit, settle_withdrawal, Allowed, AllAllowed, after, run, total_in, total_out,
}
use a.Enclave.Backing.Conserve.{Accounts, run-Accounts}
use a.Enclave.Tests.Toy.{toy}
use a.Enclave.Tests.Channels.{locked_channel}
use a.Enclave.Tests.Vaults.{client, channel, withdrawal, vault, nothing, vault-IsBacked}

found_channel : lookup "ch" vault.active_channels ≡ some channel
unfolding lookup
found_channel = refl

found_withdrawal : lookup 7 vault.pending_withdrawals ≡ some withdrawal
unfolding lookup
found_withdrawal = refl

registered : lookup "p" vault.providers ≢ none
unfolding lookup
registered h = ground arith

fresh_channel : lookup "new" vault.active_channels ≡ none
unfolding lookup
fresh_channel = refl

abbrev second : PendingWithdrawal
second = record withdrawal { withdraw_nonce = 8; amount = 4 }

fresh_nonce : lookup 8 vault.pending_withdrawals ≡ none
unfolding lookup
fresh_nonce = refl

balance_room :
    (b : ClientBalance)
    → lookup client vault.client_balances ≡ some b
    → b.total_withdrawn + 3 < u64_mod
unfolding lookup bytes_beq
balance_room b h = ground arith

close_channel-succeeds_example : Closes nothing "ch" none "uuid" (pos 400) vault channel
close_channel-succeeds_example =
    close_channel-succeeds nothing "ch" none "uuid" (pos 400) vault channel vault-IsBacked
      found_channel refl registered

apply_withdrawal-succeeds_example :
    (v' : VaultState) × (apply_withdrawal 7 vault ≡ (ok withdrawal, v'))
    × IsBacked nothing v'
    × (funds v' + 3 ≡ funds vault)
apply_withdrawal-succeeds_example =
    apply_withdrawal-succeeds nothing 7 withdrawal vault vault-IsBacked found_withdrawal
      (omega arith) balance_room

-- A deposit, a request on the channel, and the settlement of the pending withdrawal.
abbrev calls : List Call
calls = deposit client 4 ∷ submit "ch" "r" 2 (8 ∷ []) (pos 100) ∷ settle_withdrawal 7 ∷ []

abbrev deposited_vault : VaultState
deposited_vault = record vault {
  client_balances =
      (
        client,
        record {
          free = 14;
          locked = 9;
          max_lock_expires_at = pos 60;
          total_deposited = 23;
          total_withdrawn = 0;
        },
      )
      ∷ [];
}

abbrev submitted_vault : VaultState
submitted_vault = record deposited_vault { active_channels = ("ch", locked_channel) ∷ [] }

after-deposit : after toy (deposit client 4) vault ≡ deposited_vault
unfolding after apply_deposit lookup insert bytes_beq add_u64
after-deposit = refl

after-submit : after toy (submit "ch" "r" 2 (8 ∷ []) (pos 100)) deposited_vault ≡ submitted_vault
unfolding after submit_request submit_request_in at_channel lookup insert contains add_u64 sub_u64
    add_i64 ◌+ℤ◌
after-submit = refl

in_range : in_i64 (pos 100 +ℤ request_expiry_sec) ≡ true
unfolding ◌+ℤ◌
in_range = refl

deposit-Allowed : Allowed (deposit client 4) vault
unfolding lookup sum_by bytes_beq
deposit-Allowed = (omega arith, λ b h. ground arith)

submit-Allowed : Allowed (submit "ch" "r" 2 (8 ∷ []) (pos 100)) deposited_vault
unfolding lookup
submit-Allowed = ((λ ch h. ground arith), in_range)

settle-Allowed : Allowed (settle_withdrawal 7) submitted_vault
unfolding lookup bytes_beq
settle-Allowed = (withdrawal, refl, omega arith, λ b h. ground arith)

calls-AllAllowed : AllAllowed toy calls vault
calls-AllAllowed =
    (deposit-Allowed, rw after-deposit (submit-Allowed, rw after-submit (settle-Allowed, tt)))

run-Accounts_example :
    Accounts nothing (total_in toy calls) (total_out toy calls vault) vault (run toy calls vault)
run-Accounts_example = run-Accounts toy nothing calls vault vault-IsBacked calls-AllAllowed

-- Four more units are locked for a payment.
abbrev reserved_vault : VaultState
reserved_vault = record vault {
  client_balances =
      (
        client,
        record {
          free = 6;
          locked = 13;
          max_lock_expires_at = pos 60;
          total_deposited = 19;
          total_withdrawn = 0;
        },
      )
      ∷ [];
}

reserved_vault-IsBacked : IsBacked (plus nothing client 4) reserved_vault
unfolding lookup sum_by
reserved_vault-IsBacked = record {
  balances_map = ground arith;
  channels_map = ground arith;
  withdrawals_map = ground arith;
  credits_map = ground arith;
  consistent = vault-IsBacked.consistent;
  covered = λ k. ground (arith, bytes_beq_iff k client, bytes_beq_iff client k);
  supply = omega arith;
}

registered_too : lookup "p" reserved_vault.providers ≢ none
unfolding lookup
registered_too h = ground arith

settle_payment-succeeds_example :
    (v' : VaultState) × (settle_payment client 4 "p" "s1" (pos 9) reserved_vault ≡ (ok tt, v'))
    × IsBacked nothing v'
    × (funds v' ≡ funds reserved_vault)
settle_payment-succeeds_example =
    settle_payment-succeeds nothing client 4 "p" "s1" (pos 9) reserved_vault reserved_vault-IsBacked
      (omega arith) registered_too

abbrev settled_vault : VaultState
settled_vault = record reserved_vault {
  client_balances =
      (
        client,
        record {
          free = 6;
          locked = 9;
          max_lock_expires_at = pos 60;
          total_deposited = 19;
          total_withdrawn = 0;
        },
      )
      ∷ [];
  provider_credits =
      (
        "p",
        record {
          provider_id = "p";
          settlement_token_account = 3 ∷ [];
          credited_amount = 4;
          oldest_credit_at = pos 9;
          settlement_ids = "s1" ∷ [];
        },
      )
      ∷ [];
}

settling : settle_payment client 4 "p" "s1" (pos 9) reserved_vault ≡ (ok tt, settled_vault)
unfolding settle_payment credit_solana is_solana_network starts_with as_bytes at_balance lookup
    insert bytes_beq add_u64
settling = refl

reserved_vault-CanSettle : CanSettle client 4 "p" "s1" reserved_vault
unfolding lookup bytes_beq
reserved_vault-CanSettle = record {
  balance = record {
    free = 6;
    locked = 13;
    max_lock_expires_at = pos 60;
    total_deposited = 19;
    total_withdrawn = 0;
  };
  found = refl;
  enough = omega arith;
  bounded = omega arith;
  fresh = λ c h. absurd (ground arith);
  fresh_multi = λ c h. absurd (ground arith);
}

rollback-settle_example :
    rollback_settle_payment client 4 "p" "s1" settled_vault ≡ (ok tt, reserved_vault)
rollback-settle_example =
    rollback-settle client 4 "p" "s1" (pos 9) reserved_vault settled_vault reserved_vault-CanSettle
      settling
