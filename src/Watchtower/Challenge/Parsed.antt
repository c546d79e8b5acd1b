-- ===== src/Watchtower/Challenge/Parsed.antt =====
-- watchtower/src/challenger.rs against programs/a402_vault/src/state/force_settle_request.rs: the account
-- of a request, and how it is parsed.
use a.Prelude.{
  ℕ, ◌+◌, ◌<◌, ◌^◌, ◌≡◌, refl, sym, ◌∙◌, ap, true, some, List, [], ◌∷◌, ◌++◌, arith, length, take,
  drop, get_elem?, if◌then◌else◌,
}
use a.Prelude.Int.{in_i64}
use a.Prelude.Equality.{Bytes, Pubkey, nat_eq, ◌!=◌}
use a.Prelude.Codec.{
  le_bytes, i64_bits, length-le_bytes, from_le_bytes-le_bytes, i64_of_bits-i64_bits, i64_bits_bound,
}
use a.Prelude.Slices.{get_range, get_range-all}
use a.Prelude.Join.{join, total, range-join, length-join, elem-join}
use a.Program.State.{ForceSettleRequest}
use a.Watchtower.Challenge.{OnChainForceSettleRequest, parse_force_settle_request}

-- The account of a request as Anchor stores it.
unfoldable pub write_account : Bytes → ForceSettleRequest → Bytes
write_account discriminator r =
    join
      (discriminator
        ∷ (r.bump ∷ [])
        ∷ r.vault
        ∷ r.participant
        ∷ (r.participant_kind ∷ [])
        ∷ r.recipient_ata
        ∷ le_bytes 8 r.free_balance_due
        ∷ le_bytes 8 r.locked_balance_due
        ∷ le_bytes 8 (i64_bits r.max_lock_expires_at)
        ∷ le_bytes 8 r.receipt_nonce
        ∷ r.receipt_signature
        ∷ le_bytes 8 (i64_bits r.initiated_at)
        ∷ le_bytes 8 (i64_bits r.dispute_deadline)
        ∷ [])
      ((if r.is_resolved then 1 else 0) ∷ [])

-- What Rust's types say of the stored fields.
pub record IsRequest (r : ForceSettleRequest) : Type 0 where
  pub vault_length : length r.vault ≡ 32
  pub participant_length : length r.participant ≡ 32
  pub recipient_length : length r.recipient_ata ≡ 32
  pub free_bound : r.free_balance_due < 2 ^ 64
  pub locked_bound : r.locked_balance_due < 2 ^ 64
  pub expires_bound : in_i64 r.max_lock_expires_at ≡ true
  pub nonce_bound : r.receipt_nonce < 2 ^ 64
  pub signature_length : length r.receipt_signature ≡ 64
  pub deadline_bound : in_i64 r.dispute_deadline ≡ true

abbrev pub seen : Pubkey → ForceSettleRequest → OnChainForceSettleRequest
seen address r = record {
  address = address;
  vault = r.vault;
  participant = r.participant;
  participant_kind = r.participant_kind;
  recipient_ata = r.recipient_ata;
  free_balance_due = r.free_balance_due;
  locked_balance_due = r.locked_balance_due;
  max_lock_expires_at = r.max_lock_expires_at;
  receipt_nonce = r.receipt_nonce;
  dispute_deadline = r.dispute_deadline;
  is_resolved = r.is_resolved;
}

-- What is read is what was stored.
module _ (d : Bytes) (r : ForceSettleRequest) (l : length d ≡ 8) (k : IsRequest r) where
  abbrev parts : List Bytes
  parts =
      d
      ∷ (r.bump ∷ [])
      ∷ r.vault
      ∷ r.participant
      ∷ (r.participant_kind ∷ [])
      ∷ r.recipient_ata
      ∷ le_bytes 8 r.free_balance_due
      ∷ le_bytes 8 r.locked_balance_due
      ∷ le_bytes 8 (i64_bits r.max_lock_expires_at)
      ∷ le_bytes 8 r.receipt_nonce
      ∷ r.receipt_signature
      ∷ le_bytes 8 (i64_bits r.initiated_at)
      ∷ le_bytes 8 (i64_bits r.dispute_deadline)
      ∷ []

  abbrev flag : Bytes
  flag = (if r.is_resolved then 1 else 0) ∷ []

  abbrev whole : Bytes
  whole = join parts flag

  from_parts :
      (n : ℕ) (part : Bytes) (lo hi : ℕ)
      → join (take n parts) (part ++ join (drop (n + 1) parts) flag) ≡ whole
      → lo ≡ total (take n parts)
      → hi ≡ lo + length part
      → get_range whole lo hi ≡ some part
  from_parts n part lo hi e a b =
      ap (λ bytes. get_range bytes lo hi) (sym e)
      ∙ range-join (take n parts) part (join (drop (n + 1) parts) flag) lo hi a (omega arith)

  vault_at : get_range whole 9 41 ≡ some r.vault
  vault_at = from_parts 2 r.vault 9 41 refl (omega (arith, l)) (omega (arith, k.vault_length))

  participant_at : get_range whole 41 73 ≡ some r.participant
  participant_at =
      from_parts 3 r.participant 41 73 refl (omega (arith, l, k.vault_length))
        (omega (arith, k.participant_length))

  recipient_at : get_range whole 74 106 ≡ some r.recipient_ata
  recipient_at =
      from_parts 5 r.recipient_ata 74 106 refl
        (omega (arith, l, k.vault_length, k.participant_length)) (omega (arith, k.recipient_length))

  free_at : get_range whole 106 114 ≡ some (le_bytes 8 r.free_balance_due)
  free_at =
      from_parts 6 (le_bytes 8 r.free_balance_due) 106 114 refl
        (omega (arith, l, k.vault_length, k.participant_length, k.recipient_length))
        (omega (arith, length-le_bytes 8 r.free_balance_due))

  locked_at : get_range whole 114 122 ≡ some (le_bytes 8 r.locked_balance_due)
  locked_at =
      from_parts 7 (le_bytes 8 r.locked_balance_due) 114 122 refl
        (omega (
          arith,
          l,
          k.vault_length,
          k.participant_length,
          k.recipient_length,
          length-le_bytes 8 r.free_balance_due,
        ))
        (omega (arith, length-le_bytes 8 r.locked_balance_due))

  expires_at : get_range whole 122 130 ≡ some (le_bytes 8 (i64_bits r.max_lock_expires_at))
  expires_at =
      from_parts 8 (le_bytes 8 (i64_bits r.max_lock_expires_at)) 122 130 refl
        (omega (
          arith,
          l,
          k.vault_length,
          k.participant_length,
          k.recipient_length,
          length-le_bytes 8 r.free_balance_due,
          length-le_bytes 8 r.locked_balance_due,
        ))
        (omega (arith, length-le_bytes 8 (i64_bits r.max_lock_expires_at)))

  nonce_at : get_range whole 130 138 ≡ some (le_bytes 8 r.receipt_nonce)
  nonce_at =
      from_parts 9 (le_bytes 8 r.receipt_nonce) 130 138 refl
        (omega (
          arith,
          l,
          k.vault_length,
          k.participant_length,
          k.recipient_length,
          length-le_bytes 8 r.free_balance_due,
          length-le_bytes 8 r.locked_balance_due,
          length-le_bytes 8 (i64_bits r.max_lock_expires_at),
        ))
        (omega (arith, length-le_bytes 8 r.receipt_nonce))

  initiated_at : get_range whole 202 210 ≡ some (le_bytes 8 (i64_bits r.initiated_at))
  initiated_at =
      from_parts 11 (le_bytes 8 (i64_bits r.initiated_at)) 202 210 refl
        (omega (
          arith,
          l,
          k.vault_length,
          k.participant_length,
          k.recipient_length,
          length-le_bytes 8 r.free_balance_due,
          length-le_bytes 8 r.locked_balance_due,
          length-le_bytes 8 (i64_bits r.max_lock_expires_at),
          length-le_bytes 8 r.receipt_nonce,
          k.signature_length,
        ))
        (omega (arith, length-le_bytes 8 (i64_bits r.initiated_at)))

  deadline_at : get_range whole 210 218 ≡ some (le_bytes 8 (i64_bits r.dispute_deadline))
  deadline_at =
      from_parts 12 (le_bytes 8 (i64_bits r.dispute_deadline)) 210 218 refl
        (omega (
          arith,
          l,
          k.vault_length,
          k.participant_length,
          k.recipient_length,
          length-le_bytes 8 r.free_balance_due,
          length-le_bytes 8 r.locked_balance_due,
          length-le_bytes 8 (i64_bits r.max_lock_expires_at),
          length-le_bytes 8 r.receipt_nonce,
          k.signature_length,
          length-le_bytes 8 (i64_bits r.initiated_at),
        ))
        (omega (arith, length-le_bytes 8 (i64_bits r.dispute_deadline)))

  kind_at : get_elem? whole 73 ≡ some r.participant_kind
  kind_at =
      elem-join (take 4 parts) r.participant_kind (join (drop 5 parts) flag) 73
        (omega (arith, l, k.vault_length, k.participant_length))

  total-parts : 218 ≡ total parts
  total-parts = omega (
    arith,
    l,
    k.vault_length,
    k.participant_length,
    k.recipient_length,
    length-le_bytes 8 r.free_balance_due,
    length-le_bytes 8 r.locked_balance_due,
    length-le_bytes 8 (i64_bits r.max_lock_expires_at),
    length-le_bytes 8 r.receipt_nonce,
    k.signature_length,
    length-le_bytes 8 (i64_bits r.initiated_at),
    length-le_bytes 8 (i64_bits r.dispute_deadline),
  )

  resolved_at : get_elem? whole 218 ≡ some (if r.is_resolved then 1 else 0)
  resolved_at = elem-join parts (if r.is_resolved then 1 else 0) [] 218 total-parts

  whole_at : get_range whole 0 219 ≡ some whole
  whole_at = get_range-all 219 whole (length-join parts flag ∙ omega (arith, total-parts))

  flag_read : (◌!=◌ {A = ℕ} (if r.is_resolved then 1 else 0) 0) ≡ r.is_resolved
  flag_read = ground arith

  pub length-write_account : length (write_account d r) ≡ 219
  unfolding write_account
  length-write_account = length-join parts flag ∙ omega (arith, total-parts)

  -- What the watchtower reads of the account is what the program has stored in it.
  pub parse-write_account :
      (address : Pubkey)
      → parse_force_settle_request address (write_account d r) ≡ some (seen address r)
  unfolding parse_force_settle_request write_account
  parse-write_account address =
      rw
        (
          whole_at,
          vault_at,
          participant_at,
          kind_at,
          recipient_at,
          free_at,
          locked_at,
          expires_at,
          nonce_at,
          initiated_at,
          deadline_at,
          resolved_at,
          flag_read,
          from_le_bytes-le_bytes 8 r.free_balance_due k.free_bound,
          from_le_bytes-le_bytes 8 r.locked_balance_due k.locked_bound,
          from_le_bytes-le_bytes 8 r.receipt_nonce k.nonce_bound,
          from_le_bytes-le_bytes 8 (i64_bits r.max_lock_expires_at)
              (i64_bits_bound r.max_lock_expires_at k.expires_bound),
          from_le_bytes-le_bytes 8 (i64_bits r.dispute_deadline)
              (i64_bits_bound r.dispute_deadline k.deadline_bound),
          i64_of_bits-i64_bits r.max_lock_expires_at k.expires_bound,
          i64_of_bits-i64_bits r.dispute_deadline k.deadline_bound,
        )
        refl
