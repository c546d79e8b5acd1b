-- ===== src/Enclave/Messages.antt =====
-- enclave/src/state.rs: the messages that the enclave signs for the program.
pub mod Agree
use a.Prelude.{ℕ, ◌∷◌, ◌++◌}
use a.Prelude.Int.{ℤ}
use a.Prelude.Equality.{Bytes, Pubkey}
use a.Prelude.Codec.{le_bytes, i64_bits}
use a.Enclave.State.{VaultState}

unfoldable pub build_participant_receipt_message :
    VaultState → Pubkey → ℕ → Pubkey → ℕ → ℕ → ℤ → ℕ → ℤ → ℕ → Bytes
build_participant_receipt_message v participant participant_kind recipient_ata free_balance
      locked_balance max_lock_expires_at nonce timestamp snapshot_seqno =
    participant
    ++ (participant_kind
        ∷ (recipient_ata
            ++ (le_bytes 8 free_balance
                ++ (le_bytes 8 locked_balance
                    ++ (le_bytes 8 (i64_bits max_lock_expires_at)
                        ++ (le_bytes 8 nonce
                            ++ (le_bytes 8 (i64_bits timestamp)
                                ++ (le_bytes 8 snapshot_seqno ++ v.vault_config))))))))

unfoldable pub build_withdraw_authorization_message :
    VaultState → Pubkey → Pubkey → ℕ → ℕ → ℤ → Bytes
build_withdraw_authorization_message v client recipient_ata amount withdraw_nonce expires_at =
    client
    ++ (recipient_ata
        ++ (le_bytes 8 amount
            ++ (le_bytes 8 withdraw_nonce ++ (le_bytes 8 (i64_bits expires_at) ++ v.vault_config))))
