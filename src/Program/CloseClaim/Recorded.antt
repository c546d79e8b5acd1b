-- ===== src/Program/CloseClaim/Recorded.antt =====
-- What a recorded claim proves to the enclave that watches for it
-- (programs/a402_vault/src/instructions/asc_close_claim.rs).
use a.Prelude.{
  ℕ, ◌≡◌, refl, sym, ◌++◌, none, some, arith, Option-cases, inl, inr, take, drop, take-append-drop,
}
use a.Prelude.Int.{ℤ}
use a.Prelude.Equality.{Bytes, Pubkey, bytes_eq, bytes_beq_iff}
use a.Prelude.Map.{lookup, lookup-insert_self}
use a.Prelude.Outcome.{Result-cases, ok}
use a.Program.State.{AscCloseClaim, Accounts}
use a.Program.AscClaim.{
  AscClaimVoucherFields, build_asc_payment_message_from_hashes, parse_asc_claim_voucher_message,
}
use a.Program.Runtime.{InstructionsSysvar}
use a.Program.Ed25519.{VerifiedEd25519Signature, verify_ed25519_signature_details_relative}
use a.Program.CloseClaim.{asc_close_claim_seeds, asc_close_claim}

-- The claim holds what the vault's voucher says, and the signature that the provider of the voucher
-- has put under the payment.
abbrev pub IsProven : Pubkey → InstructionsSysvar → Accounts → AscCloseClaim → Type 0
IsProven program sysvar a claim =
    (voucher_signed : VerifiedEd25519Signature) × (voucher : AscClaimVoucherFields)
    × (payment_signed : VerifiedEd25519Signature) × (verify_ed25519_signature_details_relative
          program sysvar 2 a.vault_config.vault_signer_pubkey
        ≡ ok voucher_signed)
    × (parse_asc_claim_voucher_message voucher_signed.message ≡ some voucher)
    × (verify_ed25519_signature_details_relative program sysvar 1 claim.provider_pubkey
        ≡ ok payment_signed)
    × (payment_signed.message
        ≡ build_asc_payment_message_from_hashes claim.channel_id_hash claim.request_id_hash
            claim.amount claim.request_hash)
    × (payment_signed.signature ≡ claim.full_sig_r ++ claim.full_sig_s)
    × (voucher.channel_id_hash ≡ claim.channel_id_hash)
    × (voucher.request_id_hash ≡ claim.request_id_hash)
    × (voucher.vault_config ≡ a.vault_key)
    × (voucher.amount ≡ claim.amount)
    × (voucher.provider_pubkey ≡ claim.provider_pubkey)
    × (voucher.request_hash ≡ claim.request_hash)
    × (voucher.issued_at ≡ claim.voucher_issued_at)

-- The claim is new, and recorded under its channel and request.
abbrev pub IsFirst : Pubkey → InstructionsSysvar → Bytes → Bytes → Accounts → Accounts → Type 0
IsFirst program sysvar channel request a a' =
    (claim : AscCloseClaim) × (lookup (asc_close_claim_seeds channel request) a.asc_close_claims
      ≡ none)
    × (lookup (asc_close_claim_seeds channel request) a'.asc_close_claims ≡ some claim)
    × (claim.channel_id_hash ≡ channel)
    × (claim.request_id_hash ≡ request)
    × IsProven program sysvar a claim

-- A claim that succeeds is the first for its channel and request, is recorded under them, and is
-- proven: the vault's signer signed a voucher for its channel, request, amount, hashes and
-- provider, and the provider's key that the claim and the voucher name signed the payment message
-- with exactly the signature that is recorded.
pub asc_close_claim-IsProven :
    (program : Pubkey) (sysvar : InstructionsSysvar) (bump : ℕ) (now : ℤ) (channel request : Bytes)
    (a a' : Accounts)
    → asc_close_claim program sysvar bump now channel request a ≡ ok a'
    → IsFirst program sysvar channel request a a'
unfolding asc_close_claim
asc_close_claim-IsProven program sysvar bump now channel request a a' h =
    elim (Result-cases (
      verify_ed25519_signature_details_relative program sysvar 2
        a.vault_config.vault_signer_pubkey)) [
          | inr other ↦ absurd (ground arith)
          | inl (vs, e1) ↦ elim (Option-cases (parse_asc_claim_voucher_message vs.message)) [
            | inl bad ↦ absurd (ground arith)
            | inr (voucher, e2) ↦
                elim (Result-cases (
                  verify_ed25519_signature_details_relative program sysvar 1
                    voucher.provider_pubkey)) [
                      | inr other ↦ absurd (ground arith)
                      | inl (ps, e3) ↦
                          let claim : AscCloseClaim = record {
                            bump = bump;
                            vault = a.vault_key;
                            channel_id_hash = channel;
                            request_id_hash = request;
                            request_hash = voucher.request_hash;
                            provider_pubkey = voucher.provider_pubkey;
                            full_sig_r = take 32 ps.signature;
                            full_sig_s = drop 32 ps.signature;
                            amount = voucher.amount;
                            voucher_issued_at = voucher.issued_at;
                            claimed_at = now;
                          } in
                          (
                            claim,
                            ground arith,
                            ground (
                              arith,
                              lookup-insert_self {V = AscCloseClaim}
                                  (asc_close_claim_seeds channel request) claim a.asc_close_claims,
                            ),
                            refl,
                            refl,
                            (
                              vs,
                              voucher,
                              ps,
                              e1,
                              e2,
                              e3,
                              ground (
                                arith,
                                bytes_beq_iff ps.message (
                                    build_asc_payment_message_from_hashes channel request
                                      voucher.amount voucher.request_hash),
                              ),
                              sym (take-append-drop 32 ps.signature),
                              ground (arith, bytes_beq_iff voucher.channel_id_hash channel),
                              ground (arith, bytes_beq_iff voucher.request_id_hash request),
                              ground (arith, bytes_beq_iff voucher.vault_config a.vault_key),
                              refl,
                              refl,
                              refl,
                              refl,
                            ),
                          )
                    ]
          ]
        ]
