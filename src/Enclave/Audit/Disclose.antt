-- ===== src/Enclave/Audit/Disclose.antt =====
-- enclave/src/audit.rs: what the exported key of a provider reads.
use a.Prelude.{
  zero, suc, ℕ, ◌≤◌, ◌<◌, ◌≡◌, refl, sym, ap, ◌∙◌, ◌++◌, some, length, u64_mod, arith,
  length-append, take-append,
}
use a.Prelude.Int.{ℤ}
use a.Prelude.Equality.{Bytes, Pubkey}
use a.Prelude.Codec.{le_bytes, length-le_bytes, from_le_bytes-le_bytes}
use a.Prelude.Slices.{get_range, get_range-head, get_range-skip, get_range-all}
use a.Enclave.Crypto.{Crypto, CryptoLaws}
use a.Enclave.Cipher.{xor_bytes}
use a.Enclave.Cipher.RoundTrip.{length-xor_bytes, xor_bytes_twice}
use a.Enclave.Audit.{
  zeros, amount_bytes, derive_provider_key, kdf_mask, elgamal_encrypt, elgamal_decrypt,
  EncryptedAuditRecord, generate_audit_record_at, decrypt_sender, decrypt_amount,
  export_provider_key,
}

module _ (c : Crypto) (laws : CryptoLaws c) (hkdf : Bytes → Bytes → Bytes → Bytes)
    (sha256_length : (m : Bytes) → length (c.sha256 m) ≡ 32)
    (compress_length : (p : c.Point) → length (c.compress p) ≡ 32) where
  open c use {Scalar, Point, smul, basepoint, compress, decompress, from_canonical_bytes, sha256}

  smul_comm : (s t : Scalar) → smul s (smul t basepoint) ≡ smul t (smul s basepoint)
  smul_comm s t =
      sym (laws.smul-mul_scalar s t)
      ∙ (ap (λ u. smul u basepoint) (laws.mul_scalar_comm s t) ∙ laws.smul-mul_scalar t s)

  -- What is encrypted to the public key of a secret is read with the secret.
  elgamal_decrypt-encrypt :
      (r secret : Scalar) (plaintext : Bytes)
      → length plaintext ≡ 32
      → elgamal_decrypt c hkdf secret (elgamal_encrypt c hkdf r (smul secret basepoint) plaintext)
        ≡ some plaintext
  unfolding elgamal_decrypt elgamal_encrypt kdf_mask
  elgamal_decrypt-encrypt r secret plaintext h =
      let c1 = compress (smul r basepoint) in
      let mask = kdf_mask c hkdf (compress (smul r (smul secret basepoint))) in
      let width : length plaintext ≤ length mask = omega (arith, sha256_length) in
      let c2 = xor_bytes plaintext mask in
      let size : length c2 ≡ 32 = length-xor_bytes plaintext mask width ∙ h in
      let first : get_range (c1 ++ c2) 0 32 ≡ some c1 =
        get_range-head 32 c1 c2 (compress_length _) in
      let second : get_range (c1 ++ c2) 32 64 ≡ some c2 =
        get_range-skip 32 0 32 c1 c2 (compress_length _) ∙ get_range-all 32 c2 size in
      rw
        (
          first,
          second,
          laws.decompress-compress (smul r basepoint),
          smul_comm secret r,
          xor_bytes_twice plaintext mask width,
        )
        refl

  -- What the holder of a key reads in a record.
  abbrev pub Discloses : Scalar → EncryptedAuditRecord → Pubkey → ℕ → Type 0
  Discloses key r client amount =
      (decrypt_sender c hkdf key r.encrypted_sender ≡ some client)
      × (decrypt_amount c hkdf key r.encrypted_amount ≡ some amount)

  length-zeros : (n : ℕ) → length (zeros n) ≡ n
  unfolding zeros
  length-zeros zero = refl
  length-zeros (suc n) = ap suc (length-zeros n)

  -- The exported key of a provider reads the sender and the amount of every audit record of that
  -- provider, for a client key of 32 bytes and an amount of 64 bits, over a curve whose encodings
  -- and a hash whose digests have 32 bytes.
  pub export-Discloses :
      (r r' : Scalar) (client provider : Pubkey) (amount auditor_epoch : ℕ)
      (auditor_master_secret : Bytes) (timestamp : ℤ)
      → length client ≡ 32
      → amount < u64_mod
      → (key : Scalar) × (from_canonical_bytes
            (export_provider_key c hkdf auditor_master_secret provider)
          ≡ some key)
        × Discloses key
            (generate_audit_record_at c hkdf r r' client provider amount auditor_epoch
              auditor_master_secret timestamp)
            client
            amount
  unfolding generate_audit_record_at derive_provider_key export_provider_key decrypt_sender
      decrypt_amount amount_bytes
  export-Discloses r r' client provider amount auditor_epoch auditor_master_secret timestamp h k =
      let key = (derive_provider_key c hkdf auditor_master_secret provider).secret in
      let width : length (amount_bytes amount) ≡ 32 = omega (
        arith,
        length-append (le_bytes 8 amount) (zeros 24),
        length-le_bytes 8 amount,
        length-zeros 24,
      ) in
      (
        key,
        laws.from_canonical_bytes-to_bytes key,
        (
          elgamal_decrypt-encrypt r key client h,
          rw
              (
                elgamal_decrypt-encrypt r' key (amount_bytes amount) width,
                take-append 8 (le_bytes 8 amount) (zeros 24) (length-le_bytes 8 amount),
                from_le_bytes-le_bytes 8 amount k,
              )
              refl,
        ),
      )
