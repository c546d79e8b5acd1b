-- ===== src/Program/CloseClaim.antt =====
-- programs/a402_vault/src/instructions/asc_close_claim.rs: a provider publishes the adapted signature
-- of a payment, beside the voucher that the enclave has signed for it.
pub mod Recorded
use a.Prelude.{ℕ, ◌++◌, length, take, drop}
use a.Prelude.Int.{ℤ}
use a.Prelude.Equality.{Bytes, Pubkey, ◌==◌, nat_eq, bytes_eq}
use a.Prelude.Map.{insert}
use a.Prelude.Outcome.{Result, ok}
use a.Prelude.Fallible.{◌>>=◌, ◌>>◌, require, ok_or}
use a.Program.Error.{VaultError, invalid_asc_close_claim, invalid_asc_claim_voucher}
use a.Program.State.{VaultConfig, AscCloseClaim, Accounts}
use a.Program.AscClaim.{
  AscClaimVoucherFields, build_asc_payment_message_from_hashes, parse_asc_claim_voucher_message,
}
use a.Program.Runtime.{InstructionsSysvar}
use a.Program.Ed25519.{verify_ed25519_signature_details_relative}
use a.Program.Funds.{init_account}

unfoldable pub asc_close_claim_seeds : Bytes → Bytes → Bytes
asc_close_claim_seeds channel_id_hash request_id_hash = channel_id_hash ++ request_id_hash

unfoldable pub asc_close_claim :
    Pubkey → InstructionsSysvar → ℕ → ℤ → Bytes → Bytes → Accounts → Result VaultError Accounts
asc_close_claim ed25519_program sysvar bump now channel_id_hash request_id_hash accounts = do
  init_account (asc_close_claim_seeds channel_id_hash request_id_hash) accounts.asc_close_claims
  voucher_verified ←
      verify_ed25519_signature_details_relative ed25519_program sysvar 2
        accounts.vault_config.vault_signer_pubkey
  voucher ←
      ok_or (parse_asc_claim_voucher_message voucher_verified.message) invalid_asc_claim_voucher
  require (voucher.channel_id_hash == channel_id_hash) invalid_asc_claim_voucher
  require (voucher.request_id_hash == request_id_hash) invalid_asc_claim_voucher
  require (voucher.vault_config == accounts.vault_key) invalid_asc_claim_voucher
  payment_verified ←
      verify_ed25519_signature_details_relative ed25519_program sysvar 1 voucher.provider_pubkey
  require
      (payment_verified.message
        == build_asc_payment_message_from_hashes channel_id_hash request_id_hash voucher.amount
            voucher.request_hash)
      invalid_asc_close_claim
  require (length payment_verified.signature == 64) invalid_asc_close_claim
  ok (record accounts {
    asc_close_claims =
        insert (asc_close_claim_seeds channel_id_hash request_id_hash)
          (record {
            bump = bump;
            vault = accounts.vault_key;
            channel_id_hash = channel_id_hash;
            request_id_hash = request_id_hash;
            request_hash = voucher.request_hash;
            provider_pubkey = voucher.provider_pubkey;
            full_sig_r = take 32 payment_verified.signature;
            full_sig_s = drop 32 payment_verified.signature;
            amount = voucher.amount;
            voucher_issued_at = voucher.issued_at;
            claimed_at = now;
          })
          accounts.asc_close_claims;
  })
