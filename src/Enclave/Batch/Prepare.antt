-- ===== src/Enclave/Batch/Prepare.antt =====
-- enclave/src/batch.rs: what is put into a batch. `build_provider_batch_cursors` repairs the history and
-- the credits on its way: it restores a record from its reservation, and prunes what cannot be restored.
use a.Prelude.{
  ℕ, String, Bool, true, false, not, ◌||◌, Option, none, some, List, [], ◌∷◌, ◌++◌, unwrap_or,
}
use a.Prelude.Int.{ℤ, min_ℤ}
use a.Prelude.Equality.{◌!=◌, string_eq, nat_eq, remove}
use a.Prelude.Map.{Map, lookup, insert, erase, find_entry, values}
use a.Prelude.Outcome.{Action, pure, get, put, lift, saturating_add, ◌>>=◌, ◌>>◌}
use a.Enclave.State.{VaultState, ProviderCredit, SettlementRecord}
use a.Enclave.State.Status.{ReservationStatus, settled_offchain}
use a.Enclave.Confirm.{settles}
use a.Enclave.Payment.{is_spent}
use a.Enclave.Batch.{BatchBuildMode, BatchError, BatchPrivacyConfig, ProviderBatchCursor}
use a.Enclave.Batch.Select.{Candidate, ProviderBatchSelection, select_provider_batch_entries}

-- The worker's code on the vault.
abbrev pub Worker : Type 0 → Type 0
Worker A = Action BatchError VaultState A

abbrev pub is_settled_offchain : ReservationStatus → Bool
is_settled_offchain settled_offchain = true
is_settled_offchain _ = false

-- The record of a settlement whose entry in the history is lost.
unfoldable pub reconstruct_settlement_record :
    VaultState → String → String → Option SettlementRecord
unfolding settles
reconstruct_settlement_record v provider_id settlement_id =
    elim (find_entry (settles settlement_id) v.reservations) [
      | none ↦ none
      | some (key, r) ↦
          elim ((r.provider_id != provider_id) || not (is_settled_offchain r.status)) [
            | true ↦ none
            | false ↦ elim (lookup provider_id v.providers) [
              | none ↦ none
              | some provider ↦ some (record {
                settlement_id = settlement_id;
                client = r.client;
                provider = provider.settlement_token_account;
                amount = r.amount;
                timestamp = unwrap_or r.settled_at r.created_at;
              })
            ]
          ]
    ]

-- The entry of the history, restored where it can be.
unfoldable pub find_record : String → String → VaultState → Option SettlementRecord × VaultState
unfolding reconstruct_settlement_record
find_record provider_id sid v = elim (lookup sid v.settlement_history) [
  | some r ↦ (some r, v)
  | none ↦ elim (reconstruct_settlement_record v provider_id sid) [
    | none ↦ (none, v)
    | some r ↦ (some r, record v { settlement_history = insert sid r v.settlement_history })
  ]
]

-- A provider and a settlement that it lists and nothing knows.
abbrev pub Missing : Type 0
Missing = List (String × String)

-- The loop over the settlements of one provider.
unfoldable pub load_candidates :
    String → List String → VaultState → List Candidate × Missing × VaultState
unfolding find_record
load_candidates provider_id [] v = ([], [], v)
load_candidates provider_id (sid ∷ sids) v =
    let (found, v') = find_record provider_id sid v in
    let (candidates, missing, v'') = load_candidates provider_id sids v' in
    elim found [
      | some r ↦ ((sid, r.timestamp, r.amount) ∷ candidates, missing, v'')
      | none ↦ (candidates, (provider_id, sid) ∷ missing, v'')
    ]

-- `let Some(selection) = .. else { continue }; cursors.push(..)`
abbrev pub cursor_of : String → Option ProviderBatchSelection → List ProviderBatchCursor
cursor_of provider_id none = []
cursor_of provider_id (some selection) =
    record {
      provider_id = provider_id;
      oldest_credit_at = selection.oldest_timestamp;
      settlement_ids = selection.settlement_ids;
      next_index = 0;
    }
    ∷ []

module _ (batch_timestamp : ℤ) (mode : BatchBuildMode) (batch_privacy : BatchPrivacyConfig) where
  abbrev select : List Candidate → Worker (Option ProviderBatchSelection)
  select candidates =
      lift (select_provider_batch_entries batch_timestamp mode batch_privacy candidates)

  -- The loop over the snapshots of the credits.
  unfoldable pub load_cursors : List ProviderCredit → Worker (List ProviderBatchCursor × Missing)
  unfolding load_candidates
  load_cursors [] = pure ([], [])
  load_cursors (credit ∷ credits) = do
    v ← get
    let (candidates, missing, v') = load_candidates credit.provider_id credit.settlement_ids v
    put v'
    selection ← select candidates
    (cursors, missing') ← load_cursors credits
    pure (cursor_of credit.provider_id selection ++ cursors, missing ++ missing')

-- What the pruned credit amounts to: the sum and the earliest time of what the history knows.
unfoldable pub recount : List String → Map String SettlementRecord → ℕ → Option ℤ → ℕ × Option ℤ
recount [] history credited_amount oldest_credit_at = (credited_amount, oldest_credit_at)
recount (sid ∷ sids) history credited_amount oldest_credit_at = elim (lookup sid history) [
  | none ↦ recount sids history credited_amount oldest_credit_at
  | some r ↦ recount sids history (saturating_add credited_amount r.amount) (
      some
        (elim oldest_credit_at [ none ↦ r.timestamp | some current ↦ min_ℤ current r.timestamp ]))
]

-- `credit.settlement_ids.retain(..)`, and the fields that follow from it.
unfoldable pub prune_credit : Map String SettlementRecord → String → ProviderCredit → ProviderCredit
unfolding recount
prune_credit history settlement_id credit =
    let settlement_ids = remove credit.settlement_ids settlement_id in
    let (credited_amount, oldest_credit_at) = recount settlement_ids history 0 none in
    record credit {
      credited_amount = credited_amount;
      oldest_credit_at = unwrap_or oldest_credit_at credit.oldest_credit_at;
      settlement_ids = settlement_ids;
    }

unfoldable pub prune_missing_settlement_reference : String → String → VaultState → VaultState
unfolding prune_credit
prune_missing_settlement_reference provider_id settlement_id v =
    elim (lookup provider_id v.provider_credits) [
      | none ↦ v
      | some credit ↦
          let credit' = prune_credit v.settlement_history settlement_id credit in
          record v {
            provider_credits = elim (is_spent credit'.credited_amount credit'.settlement_ids) [
              | true ↦ erase provider_id v.provider_credits
              | false ↦ insert provider_id credit' v.provider_credits
            ];
          }
    ]

unfoldable pub prune_all : Missing → VaultState → VaultState
unfolding prune_missing_settlement_reference
prune_all [] v = v
prune_all ((provider_id, sid) ∷ missing) v =
    prune_all missing (prune_missing_settlement_reference provider_id sid v)

module _ (batch_timestamp : ℤ) (mode : BatchBuildMode) (batch_privacy : BatchPrivacyConfig) where
  unfoldable pub build_provider_batch_cursors : Worker (List ProviderBatchCursor)
  unfolding load_cursors prune_all
  build_provider_batch_cursors = do
    v ← get
    (cursors, missing) ← load_cursors batch_timestamp mode batch_privacy (values v.provider_credits)
    v' ← get
    put (prune_all missing v')
    pure cursors
