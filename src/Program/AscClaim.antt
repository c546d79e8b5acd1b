-- ===== src/Program/AscClaim.antt =====
-- programs/a402_vault/src/asc_claim.rs: the payment message and the claim voucher.
pub mod RoundTrip
use a.Prelude.{
  ℕ, ◌+◌, String, Bool, Option, none, some, List, [], ◌∷◌, ◌++◌, length, take, drop, if◌then◌else◌,
}
use a.Prelude.Int.{ℤ}
use a.Prelude.Equality.{Bytes, ◌==◌, nat_eq, bytes_eq}
use a.Prelude.Codec.{as_bytes, le_bytes, from_le_bytes, i64_bits, i64_of_bits}
use a.Prelude.Slices.{◌>>=◌, get_range}

abbrev pub asc_claim_voucher_prefix : String
asc_claim_voucher_prefix = "A402-ASC-CLAIM-VOUCHER"

abbrev pub asc_payment_message_prefix : String
asc_payment_message_prefix = "a402-asc-pay-v1"

abbrev pub asc_claim_voucher_prefix_with_nul_len : ℕ
asc_claim_voucher_prefix_with_nul_len = 22 + 1

abbrev pub asc_claim_voucher_message_len : ℕ
asc_claim_voucher_message_len = 23 + 32 + 32 + 8 + 32 + 32 + 8 + 32

pub record AscClaimVoucherFields : Type 0 where
  pub channel_id_hash : Bytes
  pub request_id_hash : Bytes
  pub amount : ℕ
  pub request_hash : Bytes
  pub provider_pubkey : Bytes
  pub issued_at : ℤ
  pub vault_config : Bytes

unfoldable pub build_asc_payment_message_from_hashes : Bytes → Bytes → ℕ → Bytes → Bytes
build_asc_payment_message_from_hashes channel_id_hash request_id_hash amount request_hash =
    as_bytes asc_payment_message_prefix
    ++ (channel_id_hash ++ (request_id_hash ++ (le_bytes 8 amount ++ request_hash)))

-- `sha256` is the function of the crate sha2.
module _ (sha256 : Bytes → Bytes) where
  unfoldable pub hash_identifier : String → Bytes
  hash_identifier value = sha256 (as_bytes value)

  unfoldable pub build_asc_payment_message : String → String → ℕ → Bytes → Bytes
  build_asc_payment_message channel_id request_id amount request_hash =
      build_asc_payment_message_from_hashes (hash_identifier channel_id)
        (hash_identifier request_id) amount request_hash

unfoldable pub build_asc_claim_voucher_message : AscClaimVoucherFields → Bytes
build_asc_claim_voucher_message fields =
    (as_bytes asc_claim_voucher_prefix ++ 0 ∷ [])
    ++ (fields.channel_id_hash
        ++ (fields.request_id_hash
            ++ (le_bytes 8 fields.amount
                ++ (fields.request_hash
                    ++ (fields.provider_pubkey
                        ++ (le_bytes 8 (i64_bits fields.issued_at) ++ fields.vault_config))))))

-- The fields of what follows the prefix, each at its offset.
parse_voucher_fields : Bytes → Option AscClaimVoucherFields
parse_voucher_fields rest = do
  channel_id_hash ← get_range rest 0 32
  request_id_hash ← get_range rest 32 64
  amount ← get_range rest 64 72
  request_hash ← get_range rest 72 104
  provider_pubkey ← get_range rest 104 136
  issued_at ← get_range rest 136 144
  vault_config ← get_range rest 144 176
  some (record {
    channel_id_hash = channel_id_hash;
    request_id_hash = request_id_hash;
    amount = from_le_bytes amount;
    request_hash = request_hash;
    provider_pubkey = provider_pubkey;
    issued_at = i64_of_bits (from_le_bytes issued_at);
    vault_config = vault_config;
  })

unfoldable pub parse_asc_claim_voucher_message : Bytes → Option AscClaimVoucherFields
unfolding parse_voucher_fields
parse_asc_claim_voucher_message message =
    if length message == asc_claim_voucher_message_len
    then if take asc_claim_voucher_prefix_with_nul_len message
        == (as_bytes asc_claim_voucher_prefix ++ 0 ∷ [])
      then parse_voucher_fields (drop asc_claim_voucher_prefix_with_nul_len message)
      else none
    else none
