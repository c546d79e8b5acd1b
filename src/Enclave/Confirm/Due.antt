-- ===== src/Enclave/Confirm/Due.antt =====
-- enclave/src/state.rs: the credits of the providers before and after payments.
use a.Prelude.{
  ℕ, ◌+◌, ◌≤◌, ◌<◌, ◌≡◌, ◌≢◌, String, Bool, true, false, ◌||◌, Option, none, some, List, [], ◌∷◌,
  ◌⊎◌,
}
use a.Prelude.Int.{ℤ}
use a.Prelude.Equality.{◌==◌, string_eq, remove}
use a.Prelude.Map.{Map, find_entry, lookup}
use a.Enclave.State.{VaultState, Reservation, ProviderCredit}
use a.Enclave.Confirm.{settles}

-- A settlement, and the provider and the amount of the reservation that refers to it.
abbrev pub Due : Type 0
Due = String × String × ℕ

abbrev pub ids_due : List Due → List String
ids_due [] = []
ids_due ((sid, provider, amount) ∷ dues) = sid ∷ ids_due dues

abbrev pub IsReserved : Due → Map String Reservation → Type 0
IsReserved (sid, provider, amount) reservations =
    (key : String) × (r : Reservation) × (find_entry (settles sid) reservations ≡ some (key, r))
    × (r.provider_id ≡ provider)
    × (r.amount ≡ amount)

abbrev pub AreReserved : List Due → Map String Reservation → Type 0
AreReserved [] reservations = Unit
AreReserved (d ∷ dues) reservations = IsReserved d reservations × AreReserved dues reservations

-- What is paid to the provider `p`.
abbrev pub sum_due : String → List Due → ℕ
sum_due p [] = 0
sum_due p ((sid, provider, amount) ∷ dues) =
    elim (p == provider) [ true ↦ amount | false ↦ 0 ] + sum_due p dues

-- The settlements of `xs` without those that are paid to the provider `p`.
abbrev pub without_due : String → List Due → List String → List String
without_due p [] xs = xs
without_due p ((sid, provider, amount) ∷ dues) xs =
    without_due p dues (elim (p == provider) [ true ↦ remove xs sid | false ↦ xs ])

abbrev pub is_due : String → List Due → Bool
is_due p [] = false
is_due p ((sid, provider, amount) ∷ dues) = p == provider || is_due p dues

-- The credit of the provider `p` before and after the payments: it is gone if it owes no more than
-- is paid or lists no other settlement, and otherwise owes that much less and lists the others.
abbrev pub IsReduced : String → List Due → Option ProviderCredit → Option ProviderCredit → Type 0
IsReduced p dues none after = after ≡ none
IsReduced p dues (some c) after =
    ((c.credited_amount ≤ sum_due p dues ⊎ without_due p dues c.settlement_ids ≡ [])
      × (after ≡ none))
    ⊎ ((left : ℕ) × (at : ℤ) × (left + sum_due p dues ≡ c.credited_amount)
        × (0 < left)
        × (without_due p dues c.settlement_ids ≢ [])
        × (after
            ≡ some (record c {
              credited_amount = left;
              settlement_ids = without_due p dues c.settlement_ids;
              oldest_credit_at = at;
            })))

-- The credit of a provider, the same but for the time of its oldest settlement.
abbrev pub IsRefreshed : Option ProviderCredit → Option ProviderCredit → Type 0
IsRefreshed none after = after ≡ none
IsRefreshed (some c) after = (at : ℤ) × (after ≡ some (record c { oldest_credit_at = at }))

-- What the provider `p` is left with: its credit changes only if something is paid to it.
abbrev pub IsSettled : String → List Due → VaultState → VaultState → Type 0
IsSettled p dues v v' =
    ((is_due p dues ≡ true)
      × IsReduced p dues (lookup p v.provider_credits) (lookup p v'.provider_credits))
    ⊎ ((is_due p dues ≡ false) × (lookup p v'.provider_credits ≡ lookup p v.provider_credits))
