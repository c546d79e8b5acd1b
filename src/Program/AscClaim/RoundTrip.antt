-- ===== src/Program/AscClaim/RoundTrip.antt =====
-- programs/a402_vault/src/asc_claim.rs: the builder of claim vouchers against their parser.
use a.Prelude.{
  ◌<◌, ◌^◌, ◌≡◌, refl, ◌∙◌, true, some, [], ◌∷◌, ◌++◌, arith, length, length-append, take-append,
  drop-append,
}
use a.Prelude.Int.{in_i64}
use a.Prelude.Equality.{Bytes, beq_refl, bytes_eq}
use a.Prelude.Codec.{
  as_bytes, le_bytes, from_le_bytes, i64_bits, i64_of_bits, length-le_bytes, from_le_bytes-le_bytes,
  i64_of_bits-i64_bits, i64_bits_bound,
}
use a.Prelude.Slices.{get_range, get_range-skip, get_range-head, get_range-all}
use a.Program.AscClaim.{
  AscClaimVoucherFields, asc_claim_voucher_prefix, build_asc_claim_voucher_message,
  parse_voucher_fields, parse_asc_claim_voucher_message,
}

-- What Rust's types say of the fields: arrays of 32 bytes, a `u64` and an `i64`.
pub record IsVoucher (f : AscClaimVoucherFields) : Type 0 where
  pub channel : length f.channel_id_hash ≡ 32
  pub request : length f.request_id_hash ≡ 32
  pub amount : f.amount < 2 ^ 64
  pub hash : length f.request_hash ≡ 32
  pub provider : length f.provider_pubkey ≡ 32
  pub issued : in_i64 f.issued_at ≡ true
  pub vault : length f.vault_config ≡ 32

abbrev body : Bytes → Bytes → Bytes → Bytes → Bytes → Bytes → Bytes → Bytes
body b1 b2 b3 b4 b5 b6 b7 = b1 ++ (b2 ++ (b3 ++ (b4 ++ (b5 ++ (b6 ++ b7)))))

module _ (b1 b2 b3 b4 b5 b6 b7 : Bytes) (h1 : length b1 ≡ 32) (h2 : length b2 ≡ 32)
    (h3 : length b3 ≡ 8) (h4 : length b4 ≡ 32) (h5 : length b5 ≡ 32) (h6 : length b6 ≡ 8)
    (h7 : length b7 ≡ 32) where
  length-body : length (body b1 b2 b3 b4 b5 b6 b7) ≡ 176
  length-body = omega (
    arith,
    length-append b1 (b2 ++ (b3 ++ (b4 ++ (b5 ++ (b6 ++ b7))))),
    length-append b2 (b3 ++ (b4 ++ (b5 ++ (b6 ++ b7)))),
    length-append b3 (b4 ++ (b5 ++ (b6 ++ b7))),
    length-append b4 (b5 ++ (b6 ++ b7)),
    length-append b5 (b6 ++ b7),
    length-append b6 b7,
  )

  range2 : get_range (body b1 b2 b3 b4 b5 b6 b7) 32 64 ≡ some b2
  range2 = get_range-skip 32 0 32 b1 _ h1 ∙ get_range-head 32 b2 _ h2

  range3 : get_range (body b1 b2 b3 b4 b5 b6 b7) 64 72 ≡ some b3
  range3 =
      get_range-skip 32 32 40 b1 _ h1 ∙ get_range-skip 32 0 8 b2 _ h2 ∙ get_range-head 8 b3 _ h3

  range4 : get_range (body b1 b2 b3 b4 b5 b6 b7) 72 104 ≡ some b4
  range4 =
      get_range-skip 32 40 72 b1 _ h1
      ∙ get_range-skip 32 8 40 b2 _ h2
      ∙ get_range-skip 8 0 32 b3 _ h3
      ∙ get_range-head 32 b4 _ h4

  range5 : get_range (body b1 b2 b3 b4 b5 b6 b7) 104 136 ≡ some b5
  range5 =
      get_range-skip 32 72 104 b1 _ h1
      ∙ get_range-skip 32 40 72 b2 _ h2
      ∙ get_range-skip 8 32 64 b3 _ h3
      ∙ get_range-skip 32 0 32 b4 _ h4
      ∙ get_range-head 32 b5 _ h5

  range6 : get_range (body b1 b2 b3 b4 b5 b6 b7) 136 144 ≡ some b6
  range6 =
      get_range-skip 32 104 112 b1 _ h1
      ∙ get_range-skip 32 72 80 b2 _ h2
      ∙ get_range-skip 8 64 72 b3 _ h3
      ∙ get_range-skip 32 32 40 b4 _ h4
      ∙ get_range-skip 32 0 8 b5 _ h5
      ∙ get_range-head 8 b6 _ h6

  range7 : get_range (body b1 b2 b3 b4 b5 b6 b7) 144 176 ≡ some b7
  range7 =
      get_range-skip 32 112 144 b1 _ h1
      ∙ get_range-skip 32 80 112 b2 _ h2
      ∙ get_range-skip 8 72 104 b3 _ h3
      ∙ get_range-skip 32 40 72 b4 _ h4
      ∙ get_range-skip 32 8 40 b5 _ h5
      ∙ get_range-skip 8 0 32 b6 _ h6
      ∙ get_range-all 32 b7 h7

  fields_of_ranges :
      parse_voucher_fields (body b1 b2 b3 b4 b5 b6 b7)
      ≡ some (record {
        channel_id_hash = b1;
        request_id_hash = b2;
        amount = from_le_bytes b3;
        request_hash = b4;
        provider_pubkey = b5;
        issued_at = i64_of_bits (from_le_bytes b6);
        vault_config = b7;
      })
  unfolding parse_voucher_fields
  fields_of_ranges = rw (
    get_range-head 32 b1 (b2 ++ (b3 ++ (b4 ++ (b5 ++ (b6 ++ b7))))) h1,
    range2,
    range3,
    range4,
    range5,
    range6,
    range7,
  )

voucher_prefix_length : length (as_bytes asc_claim_voucher_prefix ++ 0 ∷ []) ≡ 23
unfolding as_bytes
voucher_prefix_length = refl

-- For fields in the ranges of their Rust types, the voucher message that is built is parsed back to
-- exactly those fields.
pub parse-build_voucher :
    (f : AscClaimVoucherFields)
    → IsVoucher f
    → parse_asc_claim_voucher_message (build_asc_claim_voucher_message f) ≡ some f
unfolding parse_asc_claim_voucher_message build_asc_claim_voucher_message
parse-build_voucher f v =
    rw
      (
        message_length,
        take-append 23 prefix fields voucher_prefix_length,
        drop-append 23 prefix fields voucher_prefix_length,
        beq_refl prefix,
      )
      (ranges
        ∙ rw (
          from_le_bytes-le_bytes 8 f.amount v.amount,
          from_le_bytes-le_bytes 8 (i64_bits f.issued_at) (i64_bits_bound f.issued_at v.issued),
          i64_of_bits-i64_bits f.issued_at v.issued,
        ))
  where
    prefix : Bytes
    prefix = as_bytes asc_claim_voucher_prefix ++ 0 ∷ []

    issued : Bytes
    issued = le_bytes 8 (i64_bits f.issued_at)

    fields : Bytes
    fields =
        body f.channel_id_hash f.request_id_hash (le_bytes 8 f.amount) f.request_hash
          f.provider_pubkey issued f.vault_config

    message_length : length (prefix ++ fields) ≡ 199
    message_length = omega (
      arith,
      voucher_prefix_length,
      length-append prefix fields,
      length-body f.channel_id_hash f.request_id_hash (le_bytes 8 f.amount) f.request_hash
          f.provider_pubkey issued f.vault_config v.channel v.request (length-le_bytes 8 f.amount)
          v.hash v.provider (length-le_bytes 8 (i64_bits f.issued_at)) v.vault,
    )

    ranges :
        parse_voucher_fields fields
        ≡ some (record f {
          amount = from_le_bytes (le_bytes 8 f.amount);
          issued_at = i64_of_bits (from_le_bytes issued);
        })
    ranges =
        fields_of_ranges f.channel_id_hash f.request_id_hash (le_bytes 8 f.amount) f.request_hash
          f.provider_pubkey issued f.vault_config v.channel v.request (length-le_bytes 8 f.amount)
          v.hash v.provider (length-le_bytes 8 (i64_bits f.issued_at)) v.vault
