-- ===== src/Watchtower/Challenge/Read.antt =====
-- watchtower/src/challenger.rs against programs/a402_vault/src/ed25519_utils.rs: the Ed25519 instruction
-- and its reader.
use a.Prelude.{
  ℕ, ◌+◌, ◌<◌, ◌%◌, ◌/◌, ◌^◌, ◌≡◌, refl, ◌∙◌, true, some, [], ◌∷◌, ◌++◌, arith, length,
  length-append, leb,
}
use a.Prelude.Equality.{Bytes, Pubkey, bytes_eq, nat_eq, beq_refl}
use a.Prelude.Codec.{le_bytes, from_le_bytes}
use a.Prelude.Slices.{get_range, get_range-skip, get_range-head, get_range-all}
use a.Prelude.Outcome.{ok}
use a.Prelude.Fallible.{index_range}
use a.Program.Error.{VaultError}
use a.Program.Ed25519.{read_u16, read_signature, instruction_index_refs_embedded_data}
use a.Watchtower.Challenge.{build_ed25519_verify_instruction}

in_range :
    (xs ys : Bytes) (lo hi : ℕ)
    → get_range xs lo hi ≡ some ys
    → index_range {E = VaultError} xs lo hi ≡ ok ys
in_range xs ys lo hi h = ground arith

-- A header of 16 bytes, the key, the signature and the message.
module _ (header pubkey signature message : Bytes) (h0 : length header ≡ 16)
    (h1 : length pubkey ≡ 32) (h2 : length signature ≡ 64) where
  abbrev carried : Bytes
  carried = header ++ (pubkey ++ (signature ++ message))

  length-carried : length carried ≡ 112 + length message
  length-carried = omega (
    arith,
    length-append header (pubkey ++ (signature ++ message)),
    length-append pubkey (signature ++ message),
    length-append signature message,
  )

  range-pubkey : get_range carried 16 48 ≡ some pubkey
  range-pubkey =
      get_range-skip 16 0 32 header (pubkey ++ (signature ++ message)) h0
      ∙ get_range-head 32 pubkey (signature ++ message) h1

  range-signature : get_range carried 48 112 ≡ some signature
  range-signature =
      get_range-skip 16 32 96 header (pubkey ++ (signature ++ message)) h0
      ∙ (get_range-skip 32 0 64 pubkey (signature ++ message) h1
          ∙ get_range-head 64 signature message h2)

  range-message :
      (hi : ℕ) → hi ≡ 16 + (32 + (64 + length message)) → get_range carried 112 hi ≡ some message
  range-message hi e = rw e (
      get_range-skip 16 96 (32 + (64 + length message)) header (pubkey ++ (signature ++ message)) h0
      ∙ (get_range-skip 32 64 (64 + length message) pubkey (signature ++ message) h1
          ∙ (get_range-skip 64 0 (length message) signature message h2 ∙ range_all)))
    where
      range_all : get_range message 0 (length message) ≡ some message
      range_all = get_range-all (length message) message refl

pub read-build :
    (ed25519_program pubkey : Pubkey) (signature message : Bytes) (at : ℕ)
    → length pubkey ≡ 32
    → length signature ≡ 64
    → length message < 2 ^ 16
    → read_signature
        (build_ed25519_verify_instruction ed25519_program pubkey signature message).ix_data
        at
        pubkey
      ≡ ok (record { signature = signature; message = message })
unfolding build_ed25519_verify_instruction read_signature read_u16
    instruction_index_refs_embedded_data le_bytes from_le_bytes
read-build ed25519_program pubkey signature message at h1 h2 h3 =
    let n = length message in
    let header : Bytes =
      1
      ∷ 0
      ∷ 48
      ∷ 0
      ∷ 255
      ∷ 255
      ∷ 16
      ∷ 0
      ∷ 255
      ∷ 255
      ∷ 112
      ∷ 0
      ∷ (n % 2 ^ 16) % 256
      ∷ ((n % 2 ^ 16) / 256) % 256
      ∷ 255
      ∷ 255
      ∷ [] in
    let size : from_le_bytes (le_bytes 2 (n % 2 ^ 16)) ≡ n = omega arith in
    let wide = length-carried header pubkey signature message refl h1 h2 in
    let all = carried header pubkey signature message refl h1 h2 in
    let hi = 112 + from_le_bytes (le_bytes 2 (n % 2 ^ 16)) in
    let to_end : hi ≡ 16 + (32 + (64 + n)) = omega arith in
    let enough : leb 16 (length all) ≡ true = ground arith in
    let has_signature : leb 112 (length all) ≡ true = ground arith in
    let has_pubkey : leb 48 (length all) ≡ true = ground arith in
    let has_message : leb hi (length all) ≡ true = ground arith in
    let signature_at : index_range {E = VaultError} all 48 112 ≡ ok signature =
      in_range all signature 48 112 (range-signature header pubkey signature message refl h1 h2) in
    let pubkey_at : index_range {E = VaultError} all 16 48 ≡ ok pubkey =
      in_range all pubkey 16 48 (range-pubkey header pubkey signature message refl h1 h2) in
    let message_at : index_range {E = VaultError} all 112 hi ≡ ok message =
      in_range all message 112 hi
        (range-message header pubkey signature message refl h1 h2 hi to_end) in
    rw
      (
        enough,
        has_signature,
        signature_at,
        has_pubkey,
        pubkey_at,
        beq_refl pubkey,
        has_message,
        message_at,
      )
      refl
