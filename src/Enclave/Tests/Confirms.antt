-- ===== src/Enclave/Tests/Confirms.antt =====
-- A batch is confirmed, and the lock time of a client is refreshed.
use a.Prelude.{◌≡◌, refl, some, List, [], ◌∷◌, arith}
use a.Prelude.Int.{pos, ◌≤ℤ◌}
use a.Prelude.Equality.{bytes_beq, bytes_eq, string_eq, nat_eq}
use a.Prelude.Map.{lookup, insert, find_entry, IsMap}
use a.Prelude.Outcome.{ok}
use a.Enclave.State.{ClientBalance, Reservation, VaultState}
use a.Enclave.State.Status.{settled_offchain}
use a.Enclave.Access.{at_balance}
use a.Enclave.Confirm.{settles, apply_batch_confirmation}
use a.Enclave.Confirm.Due.{Due, AreReserved, IsSettled}
use a.Enclave.Confirm.Credits.{apply_batch_confirmation-IsSettled}
use a.Enclave.Confirm.Recorded.{Records, SameBalances, apply_batch_confirmation-Records}
use a.Enclave.Locks.{latest, max_lock, refresh_client_max_lock_expires_at}
use a.Enclave.Locks.Latest.{Locks, by_withdrawal, refresh-Locks}
use a.Enclave.Tests.Vaults.{client, withdrawal, vault}

abbrev owing : VaultState
owing = record vault {
  provider_credits =
      (
        "p",
        record {
          provider_id = "p";
          settlement_token_account = 3 ∷ [];
          credited_amount = 12;
          oldest_credit_at = pos 100;
          settlement_ids = "s1" ∷ "s2" ∷ "s3" ∷ [];
        },
      )
      ∷ [];
  settlement_history =
      (
        "s1",
        record {
          settlement_id = "s1";
          client = client;
          provider = 3 ∷ [];
          amount = 5;
          timestamp = pos 100;
        },
      )
      ∷ [];
}

history-IsMap : IsMap owing.settlement_history
unfolding lookup
history-IsMap = ground arith

abbrev confirmed : VaultState
confirmed = apply_batch_confirmation ("s1" ∷ []) 7 "tx" owing

-- The reservation that the settlement belongs to.
abbrev settled : Reservation
settled = record {
  verification_id = "v1";
  reservation_id = "r1";
  payment_id = "pay1";
  client = client;
  provider_id = "p";
  amount = 5;
  request_hash = [];
  payment_details_hash = [];
  status = settled_offchain;
  created_at = pos 90;
  expires_at = pos 190;
  settlement_id = some "s1";
  settled_at = some (pos 100);
}

abbrev other : Reservation
other = record settled { verification_id = "v3"; amount = 4; settlement_id = some "s3" }

abbrev reserving : VaultState
reserving = record owing { reservations = ("v1", settled) ∷ ("v3", other) ∷ [] }

abbrev dues : List Due
dues = ("s1", "p", 5) ∷ ("s3", "p", 4) ∷ []

credits-IsMap : IsMap reserving.provider_credits
unfolding lookup
credits-IsMap = ground arith

reservations-IsMap : IsMap reserving.reservations
unfolding lookup
reservations-IsMap = ground arith

dues-AreReserved : AreReserved dues reserving.reservations
unfolding find_entry settles
dues-AreReserved = (("v1", settled, refl, refl, refl), (("v3", other, refl, refl, refl), tt))

apply_batch_confirmation-IsSettled_example :
    IsSettled "p" dues reserving (apply_batch_confirmation ("s1" ∷ "s3" ∷ []) 7 "tx" reserving)
apply_batch_confirmation-IsSettled_example =
    apply_batch_confirmation-IsSettled 7 "tx" "p" dues reserving credits-IsMap reservations-IsMap
      dues-AreReserved

apply_batch_confirmation-Records_example :
    Records 7 "tx" ("s1" ∷ []) "s1" owing confirmed × SameBalances owing confirmed
apply_batch_confirmation-Records_example =
    apply_batch_confirmation-Records 7 "tx" ("s1" ∷ []) owing "s1" history-IsMap

abbrev refreshed : VaultState
refreshed = (refresh_client_max_lock_expires_at client vault).1

found_sixty : refresh_client_max_lock_expires_at client vault ≡ (ok (pos 60), refreshed)
unfolding refresh_client_max_lock_expires_at max_lock latest at_balance lookup bytes_beq
found_sixty = refl

locks : Locks client vault (pos 60)
unfolding lookup bytes_beq
locks = by_withdrawal 7 withdrawal refl refl refl

refresh-Locks_example :
    (pos 60 ≤ℤ pos 60)
    × ((b : ClientBalance) × (lookup client vault.client_balances ≡ some b)
        × (refreshed ≡ record vault {
          client_balances =
              insert client (record b { max_lock_expires_at = pos 60 }) vault.client_balances;
        }))
refresh-Locks_example = refresh-Locks client vault refreshed (pos 60) (pos 60) found_sixty locks
