-- ===== src/Enclave/Backing/Request.antt =====
-- The operations on one channel (enclave/src/asc_manager.rs) keep the whole vault backed.
use a.Prelude.{ℕ, ◌≡◌, ◌≢◌, refl, true, String, Option, some, arith, inl, inr, Option-cases}
use a.Prelude.Int.{ℤ, ◌+ℤ◌, in_i64}
use a.Prelude.Equality.{Bytes, Pubkey, string_eq, bytes_eq}
use a.Prelude.Map.{lookup}
use a.Prelude.Outcome.{Result, ok, err, panic, ◌>>=◌}
use a.Enclave.Error.{EnclaveError}
use a.Enclave.Access.{Vault}
use a.Enclave.Crypto.{Crypto}
use a.Enclave.AdaptorSig.{AdaptorPreSignature}
use a.Enclave.State.{ChannelId, ChannelState, VaultState}
use a.Enclave.Asc.Field.{request_expiry_sec}
use a.Enclave.Asc.Request.{submit_request, deliver_adaptor, expire_request}
use a.Enclave.Asc.Finalize.{
  FinalizeOutcome, finalize_with_secret, finalize_offchain, PendingRequestCryptoMaterial,
  pending_request_crypto_materials, recover_secret, finalize_onchain_claim,
}
use a.Enclave.Asc.Consistent.{
  HasNonce, submit_request_in-Keeps, deliver_adaptor_in-Keeps, finalize_with_secret_in-Keeps,
  expire_request_in-Keeps,
}
use a.Enclave.Backing.{IsBacked}
use a.Enclave.Backing.Channel.{Preserves, at_channel-Preserves}

-- The counter of the channel, if there is one, can take one more step.
abbrev pub HasRoom : ChannelId → VaultState → Type 0
HasRoom id v = (ch : ChannelState) → lookup id v.active_channels ≡ some ch → HasNonce ch

-- Code after an action that only reads.
read_then-Preserves :
    {A B : Type 0} (others : Pubkey → ℕ) (v : VaultState) (r : Result EnclaveError A)
    (v' : VaultState) (next : A → Vault B)
    → IsBacked others v
    → v' ≡ v
    → r ≢ panic
    → ((x : A) → Preserves others v (next x v))
    → Preserves {A = B} others v
        (elim r [ ok x ↦ next x v' | err e ↦ (err e, v') | panic ↦ (panic, v') ])
read_then-Preserves others v (ok x) v' next w same calm rest = rw same (rest x)
read_then-Preserves others v (err e) v' next w same calm rest = rw same ((λ h. cc), w, refl)
read_then-Preserves others v panic v' next w same calm rest = absurd (calm refl)

read-Preserves :
    {A B : Type 0} (others : Pubkey → ℕ) (v : VaultState)
    → IsBacked others v
    → (m : Vault A) (next : A → Vault B) → ((m v).1 ≡ v) × ((m v).0 ≢ panic)
    → ((x : A) → Preserves others v (next x v))
    → Preserves others v ((m >>= next) v)
read-Preserves others v w m next reads rest =
    read_then-Preserves others v (m v).0 (m v).1 next w reads.0 reads.1 rest

module _ (others : Pubkey → ℕ) (id : ChannelId) (v : VaultState) (w : IsBacked others v)
    (room : HasRoom id v) where
  pub submit_request-Preserves :
      (request_id : String) (amount : ℕ) (hash : Bytes) (now : ℤ)
      → in_i64 (now +ℤ request_expiry_sec) ≡ true
      → Preserves others v (submit_request id request_id amount hash now v)
  unfolding submit_request
  submit_request-Preserves request_id amount hash now t =
      at_channel-Preserves others id _ v w λ ch e.
        submit_request_in-Keeps request_id amount hash now ch (w.consistent id ch e) (room ch e) t

  pub expire_request-Preserves : (now : ℤ) → Preserves others v (expire_request id now v)
  unfolding expire_request
  expire_request-Preserves now =
      at_channel-Preserves others id _ v w
        λ ch e. expire_request_in-Keeps now ch (w.consistent id ch e) (room ch e)

  module _ (c : Crypto) where
    pub deliver_adaptor-Preserves :
        (point : Bytes) (pre_sig : AdaptorPreSignature) (encrypted hash pk : Bytes) (now : ℤ)
        → Preserves others v (deliver_adaptor c id point pre_sig encrypted hash pk now v)
    unfolding deliver_adaptor
    deliver_adaptor-Preserves point pre_sig encrypted hash pk now =
        at_channel-Preserves others id _ v w λ ch e.
          deliver_adaptor_in-Keeps c point pre_sig encrypted hash pk now ch (w.consistent id ch e)
            (room ch e)

    pub finalize_with_secret-Preserves :
        (t : c.Scalar) (secret : Option Bytes) (now : ℤ)
        → Preserves others v (finalize_with_secret c id t secret now v)
    unfolding finalize_with_secret
    finalize_with_secret-Preserves t secret now =
        at_channel-Preserves others id _ v w
          λ ch e. finalize_with_secret_in-Keeps c t secret now ch (w.consistent id ch e) (room ch e)

    pub finalize_offchain-Preserves :
        (secret : Bytes) (now : ℤ) → Preserves others v (finalize_offchain c id secret now v)
    unfolding finalize_offchain
    finalize_offchain-Preserves secret now = elim (Option-cases (c.from_canonical_bytes secret)) [
      | inl bad ↦ rw bad ((λ e. cc), w, refl)
      | inr (t, good) ↦ rw good (finalize_with_secret-Preserves t (some secret) now)
    ]

    materials_read :
        ((pending_request_crypto_materials c id v).1 ≡ v)
        × ((pending_request_crypto_materials c id v).0 ≢ panic)
    unfolding pending_request_crypto_materials
    materials_read = ground arith

    recover_secret_reads :
        (p : PendingRequestCryptoMaterial c) (r s : Bytes)
        → ((recover_secret c id p r s v).1 ≡ v) × ((recover_secret c id p r s v).0 ≢ panic)
    unfolding recover_secret
    recover_secret_reads p r s = ground arith

    pub finalize_onchain_claim-Preserves :
        (r s : Bytes) (now : ℤ) → Preserves others v (finalize_onchain_claim c id r s now v)
    unfolding finalize_onchain_claim
    finalize_onchain_claim-Preserves r s now =
        let final : c.Scalar → Vault FinalizeOutcome =
          λ t. finalize_with_secret c id t (some (c.to_bytes t)) now in
        read-Preserves others v w (pending_request_crypto_materials c id)
          (λ pending. recover_secret c id pending r s >>= final) materials_read
          λ pending.
            read-Preserves others v w (recover_secret c id pending r s) final
              (recover_secret_reads pending r s)
              λ t. finalize_with_secret-Preserves t (some (c.to_bytes t)) now
