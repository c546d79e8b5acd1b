-- ===== src/Program/Lifecycle/Transitions.antt =====
-- The status of the vault over its life (programs/a402_vault/src/instructions).
use a.Prelude.{◌≡◌, ◌≢◌, ◌⊎◌, inl, inr, List, [], ◌∷◌, arith, true, ◌+◌}
use a.Prelude.Int.{ℤ, ltb_ℤ, leb_ℤ}
use a.Prelude.Equality.{Bytes, Pubkey, bytes_beq_iff}
use a.Prelude.Outcome.{Result, Result-cases, ok, err, panic, checked_add}
use a.Program.Error.{VaultError}
use a.Program.State.{
  VaultConfig, vault_status_active, vault_status_paused, vault_status_migrating,
  vault_status_retired,
}
use a.Program.Lifecycle.{pause_vault, announce_migration, retire_vault, rotate_auditor}

-- What governance can send, with the account that signs and the time.
pub data Command : Type 0 where
  pause : Pubkey → Command
  announce : Pubkey → Pubkey → ℤ → ℤ → Command
  retire : Pubkey → ℤ → Command
  rotate : Pubkey → Bytes → Command

unfoldable pub execute : Command → VaultConfig → Result VaultError VaultConfig
execute (pause signer) = pause_vault signer
execute (announce signer successor_vault exit_deadline now) =
    announce_migration signer successor_vault exit_deadline now
execute (retire signer now) = retire_vault signer now
execute (rotate signer key) = rotate_auditor signer key

-- A transaction that fails changes nothing.
unfoldable pub execute_all : List Command → VaultConfig → VaultConfig
unfolding execute
execute_all [] vault = vault
execute_all (command ∷ commands) vault = elim (execute command vault) [
  | ok vault' ↦ execute_all commands vault'
  | err e ↦ execute_all commands vault
  | panic ↦ execute_all commands vault
]

-- The edges of the status graph; a migration is announced with a deadline in the future, and ends
-- in retirement only when the deadline has come.
abbrev pub IsEdge : Command → VaultConfig → VaultConfig → Type 0
IsEdge (pause signer) v v' =
    (v.status ≡ vault_status_active) × (v' ≡ record v { status = vault_status_paused })
IsEdge (announce signer successor exit_deadline now) v v' =
    (v.status ≡ vault_status_active)
    × (ltb_ℤ now exit_deadline ≡ true)
    × (v' ≡ record v {
      status = vault_status_migrating;
      successor_vault = successor;
      exit_deadline = exit_deadline;
    })
IsEdge (retire signer now) v v' =
    ((v.status ≡ vault_status_paused)
      ⊎ ((v.status ≡ vault_status_migrating) × (leb_ℤ v.exit_deadline now ≡ true)))
    × (v' ≡ record v { status = vault_status_retired })
IsEdge (rotate signer key) v v' =
    (v' ≡ record v { auditor_master_pubkey = key; auditor_epoch = v.auditor_epoch + 1 })

abbrev pub signer_of : Command → Pubkey
signer_of (pause signer) = signer
signer_of (announce signer successor_vault exit_deadline now) = signer
signer_of (retire signer now) = signer
signer_of (rotate signer key) = signer

-- A governance command succeeds only when governance signs it, and then it takes exactly its edge
-- of the status graph and changes nothing else.
pub execute-IsEdge :
    (command : Command) (v v' : VaultConfig)
    → execute command v ≡ ok v'
    → (v.governance ≡ signer_of command) × IsEdge command v v'
unfolding execute pause_vault announce_migration retire_vault rotate_auditor checked_add
execute-IsEdge (pause signer) v v' h = ground (arith, bytes_beq_iff v.governance signer)
execute-IsEdge (announce signer successor_vault exit_deadline now) v v' h =
    ground (arith, bytes_beq_iff v.governance signer)
execute-IsEdge (retire signer now) v v' h = ground (arith, bytes_beq_iff v.governance signer)
execute-IsEdge (rotate signer key) v v' h = ground (arith, bytes_beq_iff v.governance signer)

abbrev pub SameExit : VaultConfig → VaultConfig → Type 0
SameExit v v' = (v'.successor_vault ≡ v.successor_vault) × (v'.exit_deadline ≡ v.exit_deadline)

-- What holds for good: retired stays retired, and a migrating vault keeps its successor and deadline
-- until it is retired.
abbrev pub Persists : VaultConfig → VaultConfig → Type 0
Persists v v' =
    (v'.governance ≡ v.governance)
    × ((v.status ≢ vault_status_retired) ⊎ ((v'.status ≡ vault_status_retired) × SameExit v v'))
    × ((v.status ≢ vault_status_migrating)
        ⊎ (((v'.status ≡ vault_status_migrating) ⊎ (v'.status ≡ vault_status_retired))
            × SameExit v v'))
    × ((v.status ≢ vault_status_paused)
        ⊎ (v'.status ≡ vault_status_paused)
        ⊎ (v'.status ≡ vault_status_retired))

execute-Persists :
    (command : Command) (v v' : VaultConfig) → execute command v ≡ ok v' → Persists v v'
execute-Persists (pause signer) v v' h =
    let facts = execute-IsEdge (pause signer) v v' h in ground arith
execute-Persists (announce signer successor_vault exit_deadline now) v v' h =
    let facts = execute-IsEdge (announce signer successor_vault exit_deadline now) v v' h in
    ground arith
execute-Persists (retire signer now) v v' h =
    let facts = execute-IsEdge (retire signer now) v v' h in ground arith
execute-Persists (rotate signer key) v v' h =
    let facts = execute-IsEdge (rotate signer key) v v' h in ground arith

Persists-trans : (u v w : VaultConfig) → Persists u v → Persists v w → Persists u w
Persists-trans u v w p q = ground arith

-- Whatever governance sends, retirement is final, a paused vault can only be retired, and a
-- migrating vault keeps its successor and its exit deadline until and after its retirement, under
-- the same governance.
pub execute_all-Persists :
    (commands : List Command) (v : VaultConfig) → Persists v (execute_all commands v)
unfolding execute_all
execute_all-Persists [] v = ground arith
execute_all-Persists (command ∷ commands) v = elim (Result-cases (execute command v)) [
  | inl (v', e) ↦
      rw (e, execute_all)
        (Persists-trans v v' (execute_all commands v') (execute-Persists command v v' e)
          (execute_all-Persists commands v'))
  | inr (inl (x, e)) ↦ rw (e, execute_all) (execute_all-Persists commands v)
  | inr (inr e) ↦ rw (e, execute_all) (execute_all-Persists commands v)
]
