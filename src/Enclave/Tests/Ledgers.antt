-- ===== src/Enclave/Tests/Ledgers.antt =====
-- A ledger of two outputs: the smaller that suffices is picked, and what is added can be spent.
use a.Prelude.{ℕ, ◌≡◌, ◌⊎◌, refl, [], ◌∷◌, arith}
use a.Prelude.Equality.{bytes_eq, bytes_beq}
use a.Prelude.Map.{lookup, IsMap}
use a.Prelude.Outcome.{ok, err}
use a.Enclave.BtcLedger.{UtxoKey, BtcUtxoLedger, LedgerError, VaultUtxo, utxo_eq, pick_single, add}
use a.Enclave.BtcLedger.Pick.{Picks, Refuses, pick_single-Picks}

abbrev output : ℕ → UtxoKey
output n = record { txid = n ∷ []; vout = 0 }

abbrev ledger : BtcUtxoLedger
ledger = record { utxos = (output 1, 50) ∷ (output 2, 20) ∷ []; spent_count = 0 }

ledger-IsMap : IsMap ledger.utxos
unfolding lookup bytes_beq
ledger-IsMap = ground arith

pick_single-Picks_example :
    ((u : VaultUtxo) × (pick_single 15 ledger ≡ ok u) × Picks 15 ledger u)
    ⊎ ((e : LedgerError) × (pick_single 15 ledger ≡ err e) × Refuses 15 ledger e)
pick_single-Picks_example = pick_single-Picks 15 ledger ledger-IsMap

abbrev grown : BtcUtxoLedger
grown = (add (output 3) 30 ledger).1

added : add (output 3) 30 ledger ≡ (ok tt, grown)
unfolding add lookup bytes_beq
added = refl
