-- ===== src/Enclave/Audit.antt =====
-- enclave/src/audit.rs: audit records, encrypted to a key that the auditor can disclose for a single
-- provider. `hkdf` is the crate's extract and expand, to 64 bytes; the scalar that `elgamal_encrypt`
-- draws is an argument.
pub mod Disclose
use a.Prelude.{ℕ, zero, suc, ◌+◌, ◌∷◌, [], ◌++◌, Option, none, some, List, take}
use a.Prelude.Int.{ℤ}
use a.Prelude.Equality.{Bytes, Pubkey}
use a.Prelude.Codec.{as_bytes, le_bytes, from_le_bytes}
use a.Prelude.Slices.{◌>>=◌, get_range}
use a.Enclave.Crypto.{Crypto}
use a.Enclave.Cipher.{xor_bytes}

pub record EncryptedAuditRecord : Type 0 where
  pub encrypted_sender : Bytes
  pub encrypted_amount : Bytes
  pub provider : Pubkey
  pub timestamp : ℤ
  pub auditor_epoch : ℕ

-- `amount_bytes[..8].copy_from_slice(&amount.to_le_bytes())` in 32 zero bytes.
unfoldable pub zeros : ℕ → Bytes
zeros zero = []
zeros (suc n) = 0 ∷ zeros n

unfoldable pub amount_bytes : ℕ → Bytes
unfolding zeros
amount_bytes amount = le_bytes 8 amount ++ zeros 24

module _ (c : Crypto) (hkdf : Bytes → Bytes → Bytes → Bytes) where
  open c use {
    Scalar, Point, smul, basepoint, compress, decompress, to_bytes, from_bytes_mod_order_wide,
    sha256,
  }

  pub record ElGamalKeyPair : Type 0 where
    pub secret : Scalar
    pub public : Point
    pub public_compressed : Bytes

  unfoldable pub derive_provider_key : Bytes → Pubkey → ElGamalKeyPair
  derive_provider_key master_secret provider =
      let secret =
        from_bytes_mod_order_wide (hkdf (as_bytes "a402-audit-v1") master_secret provider) in
      record {
        secret = secret;
        public = smul secret basepoint;
        public_compressed = compress (smul secret basepoint);
      }

  unfoldable pub kdf_mask : Bytes → Bytes
  kdf_mask shared_secret_bytes = sha256 (as_bytes "a402-elgamal-mask-v1" ++ shared_secret_bytes)

  unfoldable pub elgamal_encrypt : Scalar → Point → Bytes → Bytes
  unfolding kdf_mask
  elgamal_encrypt r public_key plaintext =
      compress (smul r basepoint) ++ xor_bytes plaintext (kdf_mask (compress (smul r public_key)))

  unfoldable pub elgamal_decrypt : Scalar → Bytes → Option Bytes
  unfolding kdf_mask
  elgamal_decrypt secret_key ciphertext = do
    c1_bytes ← get_range ciphertext 0 32
    c2 ← get_range ciphertext 32 64
    c1_point ← decompress c1_bytes
    some (xor_bytes c2 (kdf_mask (compress (smul secret_key c1_point))))

  unfoldable pub generate_audit_record_at :
      Scalar → Scalar → Pubkey → Pubkey → ℕ → ℕ → Bytes → ℤ → EncryptedAuditRecord
  unfolding derive_provider_key elgamal_encrypt amount_bytes
  generate_audit_record_at r r' client provider amount auditor_epoch auditor_master_secret
        timestamp =
      let provider_key = derive_provider_key auditor_master_secret provider in
      record {
        encrypted_sender = elgamal_encrypt r provider_key.public client;
        encrypted_amount = elgamal_encrypt r' provider_key.public (amount_bytes amount);
        provider = provider;
        timestamp = timestamp;
        auditor_epoch = auditor_epoch;
      }

  unfoldable pub decrypt_sender : Scalar → Bytes → Option Pubkey
  unfolding elgamal_decrypt
  decrypt_sender secret_key encrypted_sender = elgamal_decrypt secret_key encrypted_sender

  unfoldable pub decrypt_amount : Scalar → Bytes → Option ℕ
  unfolding elgamal_decrypt
  decrypt_amount secret_key encrypted_amount = do
    bytes ← elgamal_decrypt secret_key encrypted_amount
    some (from_le_bytes (take 8 bytes))

  unfoldable pub export_provider_key : Bytes → Pubkey → Bytes
  unfolding derive_provider_key
  export_provider_key master_secret provider =
      to_bytes (derive_provider_key master_secret provider).secret
