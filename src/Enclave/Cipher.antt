-- ===== src/Enclave/Cipher.antt =====
-- enclave/src/asc_manager.rs: the stream cipher keyed by the adaptor secret.
pub mod Xor
pub mod RoundTrip
use Prim.Native.Nat.{bit_xor}
use a.Prelude.{ℕ, zero, suc, ◌+◌, List, [], ◌∷◌, ◌++◌, length, take, drop}
use a.Prelude.Equality.{Bytes}
use a.Prelude.Codec.{as_bytes, le_bytes}

-- `ciphertext.chunks(32)`; as many rounds as bytes are enough.
unfoldable pub chunks : ℕ → Bytes → List Bytes
chunks zero bytes = []
chunks (suc fuel) [] = []
chunks (suc fuel) (b ∷ bytes) = take 32 (b ∷ bytes) ∷ chunks fuel (drop 32 (b ∷ bytes))

-- `byte ^ keystream[i]` for each byte of a chunk; a digest is as long as a chunk can be.
unfoldable pub xor_bytes : Bytes → Bytes → Bytes
xor_bytes [] keystream = []
xor_bytes (b ∷ chunk) [] = []
xor_bytes (b ∷ chunk) (k ∷ keystream) = bit_xor b k ∷ xor_bytes chunk keystream

module _ (sha256 : Bytes → Bytes) where
  unfoldable pub keystream_block : Bytes → ℕ → Bytes
  keystream_block key_bytes block_idx =
      sha256 (as_bytes "a402-asc-enc-v1" ++ (key_bytes ++ le_bytes 8 block_idx))

  unfoldable pub decrypt_blocks : Bytes → ℕ → List Bytes → Bytes
  decrypt_blocks key_bytes block_idx [] = []
  decrypt_blocks key_bytes block_idx (chunk ∷ rest) =
      xor_bytes chunk (keystream_block key_bytes block_idx)
      ++ decrypt_blocks key_bytes (block_idx + 1) rest

  unfoldable pub decrypt_with_scalar : Bytes → Bytes → Bytes
  unfolding chunks xor_bytes keystream_block decrypt_blocks
  decrypt_with_scalar ciphertext key_bytes =
      decrypt_blocks key_bytes 0 (chunks (length ciphertext) ciphertext)

  unfoldable pub encrypt_with_scalar : Bytes → Bytes → Bytes
  unfolding decrypt_with_scalar
  encrypt_with_scalar plaintext key_bytes = decrypt_with_scalar plaintext key_bytes
