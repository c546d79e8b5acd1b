-- ===== src/Enclave/Batch/Aggregate.antt =====
-- enclave/src/batch.rs: one transfer per provider account, in the order of the `BTreeMap`.
use a.Prelude.{
  ℕ, ◌+◌, ◌≡◌, ◌≢◌, sym, ◌∙◌, true, false, List, [], ◌∷◌, u64_mod, if◌then◌else◌, arith, inl, inr,
  Bool-cases,
}
use a.Prelude.Equality.{Pubkey, ◌==◌, bytes_eq, bytes_beq_iff}
use a.Prelude.Sort.{leb_bytes, leb_bytes_total, leb_bytes_trans, leb_bytes_antisym}
use a.Prelude.Outcome.{Result, ok, checked_add, Result-cases}
use a.Prelude.Fallible.{◌>>=◌, ok_or}
use a.Enclave.Batch.{
  BatchSettlementEntry, PreparedSettlement, BatchError, aggregated_amount_overflow,
}

-- `entry(account).or_insert(0)` and `checked_add`, in the sorted list of the map's entries.
unfoldable pub add_payment :
    Pubkey → ℕ → List BatchSettlementEntry → Result BatchError (List BatchSettlementEntry)
add_payment account amount [] = do
  total ← ok_or (checked_add u64_mod 0 amount) (aggregated_amount_overflow account)
  ok (record { provider_token_account = account; amount = total } ∷ [])
add_payment account amount (e ∷ es) = elim (account == e.provider_token_account) [
  | true ↦ do
    total ← ok_or (checked_add u64_mod e.amount amount) (aggregated_amount_overflow account)
    ok (record e { amount = total } ∷ es)
  | false ↦ elim (leb_bytes account e.provider_token_account) [
    | true ↦ do
      total ← ok_or (checked_add u64_mod 0 amount) (aggregated_amount_overflow account)
      ok (record { provider_token_account = account; amount = total } ∷ e ∷ es)
    | false ↦ do rest ← add_payment account amount es; ok (e ∷ rest)
  ]
]

unfoldable pub aggregate_from :
    List PreparedSettlement
    → List BatchSettlementEntry
    → Result BatchError (List BatchSettlementEntry)
unfolding add_payment
aggregate_from [] aggregated = ok aggregated
aggregate_from (e ∷ entries) aggregated = do
  aggregated' ← add_payment e.settlement.provider_token_account e.settlement.amount aggregated
  aggregate_from entries aggregated'

unfoldable pub aggregate_settlements :
    List PreparedSettlement → Result BatchError (List BatchSettlementEntry)
unfolding aggregate_from
aggregate_settlements entries = aggregate_from entries []

-- What an account is paid, by a list of transfers and by a list of settlements.
abbrev pub paid_to : Pubkey → List BatchSettlementEntry → ℕ
paid_to account [] = 0
paid_to account (e ∷ es) =
    (if account == e.provider_token_account then e.amount else 0) + paid_to account es

abbrev pub owed_to : Pubkey → List PreparedSettlement → ℕ
owed_to account [] = 0
owed_to account (e ∷ es) =
    (if account == e.settlement.provider_token_account then e.settlement.amount else 0)
    + owed_to account es

-- The accounts rise strictly, so each stands once.
abbrev pub IsAbove : Pubkey → List BatchSettlementEntry → Type 0
IsAbove account [] = Unit
IsAbove account (e ∷ es) =
    (leb_bytes account e.provider_token_account ≡ true)
    × (account ≢ e.provider_token_account)
    × IsAbove account es

abbrev pub IsAscending : List BatchSettlementEntry → Type 0
IsAscending [] = Unit
IsAscending (e ∷ es) = IsAbove e.provider_token_account es × IsAscending es

paid_to-add_payment :
    (k account : Pubkey) (amount : ℕ) (es es' : List BatchSettlementEntry)
    → add_payment account amount es ≡ ok es'
    → paid_to k es' ≡ (if k == account then amount else 0) + paid_to k es
unfolding add_payment checked_add
paid_to-add_payment k account amount [] es' h = ground arith
paid_to-add_payment k account amount (e ∷ es) es' h =
    elim (Result-cases (add_payment account amount es)) [
      | inl (rest, r) ↦ ground (
        arith,
        bytes_beq_iff account e.provider_token_account,
        bytes_beq_iff k account,
        bytes_beq_iff k e.provider_token_account,
        paid_to-add_payment k account amount es rest r,
      )
      | inr r ↦ ground (
        arith,
        bytes_beq_iff account e.provider_token_account,
        bytes_beq_iff k account,
        bytes_beq_iff k e.provider_token_account,
      )
    ]

pub paid_to-aggregate_from :
    (k : Pubkey) (entries : List PreparedSettlement) (es es' : List BatchSettlementEntry)
    → aggregate_from entries es ≡ ok es'
    → paid_to k es' ≡ owed_to k entries + paid_to k es
unfolding aggregate_from
paid_to-aggregate_from k [] es es' h = ground arith
paid_to-aggregate_from k (e ∷ entries) es es' h =
    elim (Result-cases (add_payment e.settlement.provider_token_account e.settlement.amount es)) [
      | inl (mid, r) ↦ ground (
        arith,
        paid_to-add_payment k e.settlement.provider_token_account e.settlement.amount es mid r,
        paid_to-aggregate_from k entries mid es',
      )
      | inr r ↦ ground arith
    ]

IsAbove-trans :
    (x y : Pubkey) (es : List BatchSettlementEntry)
    → leb_bytes x y ≡ true
    → x ≢ y
    → IsAbove y es
    → IsAbove x es
IsAbove-trans x y [] h n a = tt
IsAbove-trans x y (e ∷ es) h n a = (
  leb_bytes_trans x y e.provider_token_account h a.0,
  (λ same. n (leb_bytes_antisym x y h (rw same a.0))),
  IsAbove-trans x y es h n a.2,
)

add_payment-IsAbove :
    (x account : Pubkey) (amount : ℕ) (es es' : List BatchSettlementEntry)
    → add_payment account amount es ≡ ok es'
    → leb_bytes x account ≡ true
    → x ≢ account
    → IsAbove x es
    → IsAbove x es'
unfolding add_payment checked_add
add_payment-IsAbove x account amount [] es' h l n a = ground arith
add_payment-IsAbove x account amount (e ∷ es) es' h l n a =
    elim (Result-cases (add_payment account amount es)) [
      | inl (rest, r) ↦ ground (arith, add_payment-IsAbove x account amount es rest r l n a.2)
      | inr r ↦ ground arith
    ]

add_payment-IsAscending :
    (account : Pubkey) (amount : ℕ) (es es' : List BatchSettlementEntry)
    → add_payment account amount es ≡ ok es'
    → IsAscending es
    → IsAscending es'
unfolding add_payment checked_add
add_payment-IsAscending account amount [] es' h a = ground arith
add_payment-IsAscending account amount (e ∷ es) es' h a =
    let key = e.provider_token_account in
    elim (Bool-cases (account == key)) [
      | inl same ↦ ground arith
      | inr other ↦
          let apart : account ≢ key = λ p. ground (arith, bytes_beq_iff account key) in
          elim (Bool-cases (leb_bytes account key)) [
            | inl before ↦ ground (arith, IsAbove-trans account key es before apart a.0)
            | inr after ↦ elim (Result-cases (add_payment account amount es)) [
              | inl (rest, r) ↦ ground (
                arith,
                add_payment-IsAbove key account amount es rest r (leb_bytes_total account key after)
                    (λ p. apart (sym p)) a.0,
                add_payment-IsAscending account amount es rest r a.1,
              )
              | inr r ↦ ground arith
            ]
          ]
    ]

aggregate_from-IsAscending :
    (entries : List PreparedSettlement) (es es' : List BatchSettlementEntry)
    → aggregate_from entries es ≡ ok es'
    → IsAscending es
    → IsAscending es'
unfolding aggregate_from
aggregate_from-IsAscending [] es es' h a = ground arith
aggregate_from-IsAscending (e ∷ entries) es es' h a =
    elim (Result-cases (add_payment e.settlement.provider_token_account e.settlement.amount es)) [
      | inl (mid, r) ↦ aggregate_from-IsAscending entries mid es' (ground arith) (
          add_payment-IsAscending e.settlement.provider_token_account e.settlement.amount es mid r
            a)
      | inr r ↦ ground arith
    ]

-- Where the transfers of a chunk can be aggregated, every account stands in them at most once, in
-- ascending order, and is paid exactly the sum of its settlements.
pub aggregate_settlements-Pays :
    (entries : List PreparedSettlement) (es : List BatchSettlementEntry) (account : Pubkey)
    → aggregate_settlements entries ≡ ok es
    → IsAscending es × (paid_to account es ≡ owed_to account entries)
unfolding aggregate_settlements
aggregate_settlements-Pays entries es account h = (
  aggregate_from-IsAscending entries [] es h tt,
  paid_to-aggregate_from account entries [] es h ∙ omega arith,
)
