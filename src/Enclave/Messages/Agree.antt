-- ===== src/Enclave/Messages/Agree.antt =====
-- What the enclave signs is what the program reads (enclave/src/state.rs against
-- programs/a402_vault/src/ed25519_utils.rs and instructions/withdraw.rs).
use a.Prelude.{
  ℕ, zero, suc, get_elem?, ◌<◌, ◌^◌, ◌≡◌, refl, ◌∙◌, true, some, [], ◌∷◌, ◌++◌, arith, length,
  length-append,
}
use a.Prelude.Int.{ℤ, in_i64}
use a.Prelude.Equality.{Bytes, Pubkey}
use a.Prelude.Codec.{
  le_bytes, from_le_bytes, i64_bits, i64_of_bits, length-le_bytes, from_le_bytes-le_bytes,
  i64_of_bits-i64_bits, i64_bits_bound,
}
use a.Prelude.Outcome.{ok}
use a.Prelude.Slices.{get_range, get_range-skip, get_range-head, get_range-all}
use a.Program.Receipt.{ParticipantReceiptMessage, decode_fields, decode_participant_receipt_message}
use a.Program.Funds.{expected_withdraw_message}
use a.Enclave.State.{VaultState}
use a.Enclave.Messages.{build_participant_receipt_message, build_withdraw_authorization_message}

-- What Rust's types say of a receipt: keys of 32 bytes, a `u8`, four `u64` and two `i64`.
pub record IsReceipt (r : ParticipantReceiptMessage) : Type 0 where
  pub participant_length : length r.participant ≡ 32
  pub recipient_length : length r.recipient_ata ≡ 32
  pub free_bound : r.free_balance < 2 ^ 64
  pub locked_bound : r.locked_balance < 2 ^ 64
  pub expires_bound : in_i64 r.max_lock_expires_at ≡ true
  pub nonce_bound : r.nonce < 2 ^ 64
  pub timestamp_bound : in_i64 r.timestamp ≡ true
  pub seqno_bound : r.snapshot_seqno < 2 ^ 64
  pub vault_length : length r.vault_config ≡ 32

get_elem?-append :
    (n : ℕ) (xs : Bytes) (y : ℕ) (ys : Bytes) → length xs ≡ n → get_elem? (xs ++ y ∷ ys) n ≡ some y
get_elem?-append zero [] y ys h = refl
get_elem?-append zero (x ∷ xs) y ys h = absurd (omega arith)
get_elem?-append (suc n) [] y ys h = absurd (omega arith)
get_elem?-append (suc n) (x ∷ xs) y ys h = get_elem?-append n xs y ys (omega arith)

-- A message of ten fields: 32, 1, 32, six of 8 and 32 bytes.
abbrev body : Bytes → Bytes → Bytes → Bytes → Bytes → Bytes → Bytes → Bytes → Bytes → Bytes → Bytes
body b1 b2 b3 b4 b5 b6 b7 b8 b9 b10 =
    b1 ++ (b2 ++ (b3 ++ (b4 ++ (b5 ++ (b6 ++ (b7 ++ (b8 ++ (b9 ++ b10))))))))

module _ (b1 b2 b3 b4 b5 b6 b7 b8 b9 b10 : Bytes) (h1 : length b1 ≡ 32) (h2 : length b2 ≡ 1)
    (h3 : length b3 ≡ 32) (h4 : length b4 ≡ 8) (h5 : length b5 ≡ 8) (h6 : length b6 ≡ 8)
    (h7 : length b7 ≡ 8) (h8 : length b8 ≡ 8) (h9 : length b9 ≡ 8) (h10 : length b10 ≡ 32) where
  length-body : length (body b1 b2 b3 b4 b5 b6 b7 b8 b9 b10) ≡ 145
  length-body = omega (
    arith,
    length-append b1 (b2 ++ (b3 ++ (b4 ++ (b5 ++ (b6 ++ (b7 ++ (b8 ++ (b9 ++ b10)))))))),
    length-append b2 (b3 ++ (b4 ++ (b5 ++ (b6 ++ (b7 ++ (b8 ++ (b9 ++ b10))))))),
    length-append b3 (b4 ++ (b5 ++ (b6 ++ (b7 ++ (b8 ++ (b9 ++ b10)))))),
    length-append b4 (b5 ++ (b6 ++ (b7 ++ (b8 ++ (b9 ++ b10))))),
    length-append b5 (b6 ++ (b7 ++ (b8 ++ (b9 ++ b10)))),
    length-append b6 (b7 ++ (b8 ++ (b9 ++ b10))),
    length-append b7 (b8 ++ (b9 ++ b10)),
    length-append b8 (b9 ++ b10),
    length-append b9 b10,
  )

  range2 : get_range (body b1 b2 b3 b4 b5 b6 b7 b8 b9 b10) 32 33 ≡ some b2
  range2 = get_range-skip 32 0 1 b1 _ h1 ∙ get_range-head 1 b2 _ h2

  range3 : get_range (body b1 b2 b3 b4 b5 b6 b7 b8 b9 b10) 33 65 ≡ some b3
  range3 =
      get_range-skip 32 1 33 b1 _ h1 ∙ get_range-skip 1 0 32 b2 _ h2 ∙ get_range-head 32 b3 _ h3

  range4 : get_range (body b1 b2 b3 b4 b5 b6 b7 b8 b9 b10) 65 73 ≡ some b4
  range4 =
      get_range-skip 32 33 41 b1 _ h1
      ∙ get_range-skip 1 32 40 b2 _ h2
      ∙ get_range-skip 32 0 8 b3 _ h3
      ∙ get_range-head 8 b4 _ h4

  range5 : get_range (body b1 b2 b3 b4 b5 b6 b7 b8 b9 b10) 73 81 ≡ some b5
  range5 =
      get_range-skip 32 41 49 b1 _ h1
      ∙ get_range-skip 1 40 48 b2 _ h2
      ∙ get_range-skip 32 8 16 b3 _ h3
      ∙ get_range-skip 8 0 8 b4 _ h4
      ∙ get_range-head 8 b5 _ h5

  range6 : get_range (body b1 b2 b3 b4 b5 b6 b7 b8 b9 b10) 81 89 ≡ some b6
  range6 =
      get_range-skip 32 49 57 b1 _ h1
      ∙ get_range-skip 1 48 56 b2 _ h2
      ∙ get_range-skip 32 16 24 b3 _ h3
      ∙ get_range-skip 8 8 16 b4 _ h4
      ∙ get_range-skip 8 0 8 b5 _ h5
      ∙ get_range-head 8 b6 _ h6

  range7 : get_range (body b1 b2 b3 b4 b5 b6 b7 b8 b9 b10) 89 97 ≡ some b7
  range7 =
      get_range-skip 32 57 65 b1 _ h1
      ∙ get_range-skip 1 56 64 b2 _ h2
      ∙ get_range-skip 32 24 32 b3 _ h3
      ∙ get_range-skip 8 16 24 b4 _ h4
      ∙ get_range-skip 8 8 16 b5 _ h5
      ∙ get_range-skip 8 0 8 b6 _ h6
      ∙ get_range-head 8 b7 _ h7

  range8 : get_range (body b1 b2 b3 b4 b5 b6 b7 b8 b9 b10) 97 105 ≡ some b8
  range8 =
      get_range-skip 32 65 73 b1 _ h1
      ∙ get_range-skip 1 64 72 b2 _ h2
      ∙ get_range-skip 32 32 40 b3 _ h3
      ∙ get_range-skip 8 24 32 b4 _ h4
      ∙ get_range-skip 8 16 24 b5 _ h5
      ∙ get_range-skip 8 8 16 b6 _ h6
      ∙ get_range-skip 8 0 8 b7 _ h7
      ∙ get_range-head 8 b8 _ h8

  range9 : get_range (body b1 b2 b3 b4 b5 b6 b7 b8 b9 b10) 105 113 ≡ some b9
  range9 =
      get_range-skip 32 73 81 b1 _ h1
      ∙ get_range-skip 1 72 80 b2 _ h2
      ∙ get_range-skip 32 40 48 b3 _ h3
      ∙ get_range-skip 8 32 40 b4 _ h4
      ∙ get_range-skip 8 24 32 b5 _ h5
      ∙ get_range-skip 8 16 24 b6 _ h6
      ∙ get_range-skip 8 8 16 b7 _ h7
      ∙ get_range-skip 8 0 8 b8 _ h8
      ∙ get_range-head 8 b9 _ h9

  range10 : get_range (body b1 b2 b3 b4 b5 b6 b7 b8 b9 b10) 113 145 ≡ some b10
  range10 =
      get_range-skip 32 81 113 b1 _ h1
      ∙ get_range-skip 1 80 112 b2 _ h2
      ∙ get_range-skip 32 48 80 b3 _ h3
      ∙ get_range-skip 8 40 72 b4 _ h4
      ∙ get_range-skip 8 32 64 b5 _ h5
      ∙ get_range-skip 8 24 56 b6 _ h6
      ∙ get_range-skip 8 16 48 b7 _ h7
      ∙ get_range-skip 8 8 40 b8 _ h8
      ∙ get_range-skip 8 0 32 b9 _ h9
      ∙ get_range-all 32 b10 h10

  byte2 :
      (kind : ℕ) → b2 ≡ kind ∷ [] → get_elem? (body b1 b2 b3 b4 b5 b6 b7 b8 b9 b10) 32 ≡ some kind
  byte2 kind e = rw e (get_elem?-append 32 b1 kind _ h1)

  fields_body :
      (kind : ℕ)
      → b2 ≡ kind ∷ []
      → decode_fields (body b1 b2 b3 b4 b5 b6 b7 b8 b9 b10)
        ≡ ok (record {
          participant = b1;
          participant_kind = kind;
          recipient_ata = b3;
          free_balance = from_le_bytes b4;
          locked_balance = from_le_bytes b5;
          max_lock_expires_at = i64_of_bits (from_le_bytes b6);
          nonce = from_le_bytes b7;
          timestamp = i64_of_bits (from_le_bytes b8);
          snapshot_seqno = from_le_bytes b9;
          vault_config = b10;
        })
  unfolding decode_fields
  fields_body kind e = ground (
    arith,
    get_range-head 32 b1 (b2 ++ (b3 ++ (b4 ++ (b5 ++ (b6 ++ (b7 ++ (b8 ++ (b9 ++ b10)))))))) h1,
    byte2 kind e,
    range3,
    range4,
    range5,
    range6,
    range7,
    range8,
    range9,
    range10,
  )

  decode_body :
      (kind : ℕ)
      → b2 ≡ kind ∷ []
      → decode_participant_receipt_message (body b1 b2 b3 b4 b5 b6 b7 b8 b9 b10)
        ≡ ok (record {
          participant = b1;
          participant_kind = kind;
          recipient_ata = b3;
          free_balance = from_le_bytes b4;
          locked_balance = from_le_bytes b5;
          max_lock_expires_at = i64_of_bits (from_le_bytes b6);
          nonce = from_le_bytes b7;
          timestamp = i64_of_bits (from_le_bytes b8);
          snapshot_seqno = from_le_bytes b9;
          vault_config = b10;
        })
  unfolding decode_participant_receipt_message
  decode_body kind e = rw length-body (fields_body kind e)

-- The message that the enclave builds for a participant's receipt is read by the on-chain program
-- as exactly the fields that went in, with the enclave's vault, for fields in the ranges of their
-- Rust types.
pub decode-build_receipt :
    (v : VaultState) (r : ParticipantReceiptMessage)
    → IsReceipt r
    → v.vault_config ≡ r.vault_config
    → decode_participant_receipt_message (
        build_participant_receipt_message v r.participant r.participant_kind r.recipient_ata
          r.free_balance r.locked_balance r.max_lock_expires_at r.nonce r.timestamp
          r.snapshot_seqno)
      ≡ ok r
unfolding build_participant_receipt_message
decode-build_receipt v r k same = rw same (
    decode_body r.participant (r.participant_kind ∷ []) r.recipient_ata (le_bytes 8 r.free_balance)
      (le_bytes 8 r.locked_balance) (le_bytes 8 (i64_bits r.max_lock_expires_at))
      (le_bytes 8 r.nonce) (le_bytes 8 (i64_bits r.timestamp)) (le_bytes 8 r.snapshot_seqno)
      r.vault_config k.participant_length refl k.recipient_length (length-le_bytes 8 _)
      (length-le_bytes 8 _) (length-le_bytes 8 _) (length-le_bytes 8 _) (length-le_bytes 8 _)
      (length-le_bytes 8 _) k.vault_length r.participant_kind refl
    ∙ rw (
      from_le_bytes-le_bytes 8 r.free_balance k.free_bound,
      from_le_bytes-le_bytes 8 r.locked_balance k.locked_bound,
      from_le_bytes-le_bytes 8 r.nonce k.nonce_bound,
      from_le_bytes-le_bytes 8 r.snapshot_seqno k.seqno_bound,
      from_le_bytes-le_bytes 8 (i64_bits r.max_lock_expires_at)
          (i64_bits_bound r.max_lock_expires_at k.expires_bound),
      from_le_bytes-le_bytes 8 (i64_bits r.timestamp)
          (i64_bits_bound r.timestamp k.timestamp_bound),
      i64_of_bits-i64_bits r.max_lock_expires_at k.expires_bound,
      i64_of_bits-i64_bits r.timestamp k.timestamp_bound,
    ))

pub length-build_receipt :
    (v : VaultState) (r : ParticipantReceiptMessage)
    → IsReceipt r
    → v.vault_config ≡ r.vault_config
    → length (
        build_participant_receipt_message v r.participant r.participant_kind r.recipient_ata
          r.free_balance r.locked_balance r.max_lock_expires_at r.nonce r.timestamp
          r.snapshot_seqno)
      ≡ 145
unfolding build_participant_receipt_message
length-build_receipt v r k same = rw same (
    length-body r.participant (r.participant_kind ∷ []) r.recipient_ata (le_bytes 8 r.free_balance)
      (le_bytes 8 r.locked_balance) (le_bytes 8 (i64_bits r.max_lock_expires_at))
      (le_bytes 8 r.nonce) (le_bytes 8 (i64_bits r.timestamp)) (le_bytes 8 r.snapshot_seqno)
      r.vault_config k.participant_length refl k.recipient_length (length-le_bytes 8 _)
      (length-le_bytes 8 _) (length-le_bytes 8 _) (length-le_bytes 8 _) (length-le_bytes 8 _)
      (length-le_bytes 8 _) k.vault_length)

-- The program checks a withdrawal against the very message that the enclave authorizes it by.
pub expected_withdraw_message_agrees :
    (v : VaultState) (client recipient_ata : Pubkey) (amount withdraw_nonce : ℕ) (expires_at : ℤ)
    → expected_withdraw_message client recipient_ata amount withdraw_nonce expires_at v.vault_config
      ≡ build_withdraw_authorization_message v client recipient_ata amount withdraw_nonce expires_at
unfolding expected_withdraw_message build_withdraw_authorization_message
expected_withdraw_message_agrees v client recipient_ata amount withdraw_nonce expires_at = refl
