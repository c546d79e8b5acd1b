-- ===== src/Enclave/BtcLedger.antt =====
-- enclave/src/btc_ledger.rs: the Bitcoin outputs that the vault owns, rebuilt from its own log. The map
-- is gone through in the order of its list; a `Txid` is its bytes.
pub mod Pick
use a.Prelude.{
  ℕ, ◌+◌, Bool, true, false, ◌&&◌, Option, none, some, List, [], ◌∷◌, ltb, leb, if◌then◌else◌,
  nat_beq, nat_beq_iff, ◌≡◌, ◌↔◌, refl, arith, u64_mod,
}
use a.Prelude.Equality.{Bytes, Eq, bytes_beq, bytes_beq_iff}
use a.Prelude.Map.{Map, lookup, insert, erase}
use a.Prelude.Outcome.{Result, ok, err, Action, get, put, pure, raise, lift, add_u64, ◌>>=◌, ◌>>◌}

pub record UtxoKey : Type 0 where
  pub txid : Bytes
  pub vout : ℕ

abbrev pub utxo_beq : UtxoKey → UtxoKey → Bool
utxo_beq x y = bytes_beq x.txid y.txid && nat_beq x.vout y.vout

pub utxo_beq_iff : (x y : UtxoKey) → (utxo_beq x y ≡ true) ↔ (x ≡ y)
utxo_beq_iff x y = ground (arith, bytes_beq_iff x.txid y.txid)

instance abbrev pub utxo_eq : Eq UtxoKey
utxo_eq = record { beq = utxo_beq; beq_iff = utxo_beq_iff }

pub data LedgerError : Type 0 where
  duplicate not_found : UtxoKey → LedgerError
  insufficient_funds : ℕ → ℕ → LedgerError

pub record BtcUtxoLedger : Type 0 where
  pub utxos : Map UtxoKey ℕ
  pub spent_count : ℕ

abbrev pub Ledger : Type 0 → Type 0
Ledger A = Action LedgerError BtcUtxoLedger A

pub record VaultUtxo : Type 0 where
  pub key : UtxoKey
  pub value_sat : ℕ

unfoldable pub add : UtxoKey → ℕ → Ledger Unit
add key value_sat = do
  ledger ← get
  elim (lookup key ledger.utxos) [
    | some value ↦ raise (duplicate key)
    | none ↦ put (record ledger { utxos = insert key value_sat ledger.utxos })
  ]

unfoldable pub spend : UtxoKey → Ledger ℕ
spend key = do
  ledger ← get
  elim (lookup key ledger.utxos) [
    | none ↦ raise (not_found key)
    | some value ↦ do
      put (record ledger { utxos = erase key ledger.utxos })
      spent_count ← lift (add_u64 ledger.spent_count 1)
      removed ← get
      put (record removed { spent_count = spent_count })
      pure value
  ]

-- `match best { None => .., Some((_, prev)) if v < prev => .., _ => {} }`
abbrev pub better : Option VaultUtxo → VaultUtxo → Option VaultUtxo
better none u = some u
better (some prev) u = if ltb u.value_sat prev.value_sat then some u else some prev

-- The loop over the outputs, with `best` and `largest` so far.
unfoldable pub pick_from : ℕ → Map UtxoKey ℕ → Option VaultUtxo → ℕ → Result LedgerError VaultUtxo
pick_from needed [] none largest = err (insufficient_funds needed largest)
pick_from needed [] (some u) largest = ok u
pick_from needed ((k, v) ∷ utxos) best largest =
    pick_from needed utxos
      (if leb needed v then better best (record { key = k; value_sat = v }) else best)
      (if ltb largest v then v else largest)

unfoldable pub pick_single : ℕ → BtcUtxoLedger → Result LedgerError VaultUtxo
unfolding pick_from
pick_single needed ledger = pick_from needed ledger.utxos none 0
