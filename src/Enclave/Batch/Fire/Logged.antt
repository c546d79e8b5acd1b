-- ===== src/Enclave/Batch/Fire/Logged.antt =====
-- enclave/src/batch.rs and wal.rs: the loop over the chunks against the replay of its log.
use a.Prelude.{◌≡◌, String, Option, List, [], ◌∷◌, ◌++◌}
use a.Prelude.Int.{ℤ}
use a.Prelude.Equality.{Bytes}
use a.Prelude.Outcome.{Result, ok}
use a.Enclave.Crypto.{Crypto}
use a.Enclave.Wal.{WalEntry, AppState, ReplayError}
use a.Enclave.Wal.Entry.{replay_entries}
use a.Enclave.Confirm.Stamped.{stamped}
use a.Enclave.Batch.Fire.{Batching}

-- The entries as the replay reads them.
abbrev pub stamp : String → ℤ → List WalEntry → List (String × ℤ × WalEntry)
stamp uuid at [] = []
stamp uuid at (entry ∷ entries) = (uuid, at, entry) ∷ stamp uuid at entries

module _ (c : Crypto)
    (pubkey_from_str hex_decode base64_decode txid_from_str : String → Option Bytes) (uuid : String)
    (at last : ℤ) where
  abbrev pub replays : List WalEntry → AppState → Result ReplayError Unit × AppState
  replays entries =
      replay_entries c pubkey_from_str hex_decode base64_decode txid_from_str
        (stamp uuid at entries)

  -- What was appended replays the first vault to the second, when both have the time `last` as that of
  -- their last batch: no entry holds it.
  abbrev pub IsLogged : Batching → Batching → AppState → Type 0
  IsLogged b b' s =
      (entries : List WalEntry) × (b'.wal ≡ b.wal ++ entries)
      × (replays entries (record s { vault = stamped last b.vault })
          ≡ (ok tt, record s { vault = stamped last b'.vault }))
