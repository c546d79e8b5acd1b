-- ===== src/Enclave/Asc/Onchain.antt =====
-- The signature that a provider publishes on chain finalizes a request as the secret does
-- (enclave/src/asc_manager.rs).
use a.Prelude.{◌≡◌, sym, true, some, arith}
use a.Prelude.Int.{ℤ}
use a.Prelude.Equality.{Bytes, beq_refl, bytes_eq, string_eq}
use a.Prelude.Map.{lookup}
use a.Enclave.Crypto.{Crypto, CryptoLaws}
use a.Enclave.AdaptorSig.{
  AdaptorPreSignature, AdaptedSignature, adapt, extract, pre_verify, verify_adapted,
}
use a.Enclave.AdaptorSig.Laws.{adapt_complete, adapt_decoded, pre_verify-decodes}
use a.Enclave.State.{ChannelId, VaultState, ChannelRequest, ChannelState}
use a.Enclave.State.Status.{pending_status}
use a.Enclave.Asc.Finalize.{
  pending_request_crypto_materials, recover_secret, finalize_offchain, finalize_onchain_claim,
}
use a.Enclave.Asc.Atomic.{payment_of, delivered}

module _ (c : Crypto) (laws : CryptoLaws c) where
  open c use {Scalar, Point, smul, basepoint, compress, to_bytes}

  -- What `adapt` makes carries the adapted nonce point, verifies, and gives the secret back.
  adapt_facts :
      (pk message : Bytes) (t : Scalar) (σ : AdaptorPreSignature) (full : AdaptedSignature)
      → pre_verify c pk message (smul t basepoint) σ ≡ true
      → adapt c σ t (smul t basepoint) ≡ some full
      → (r : Point) × (c.decompress σ.r_prime ≡ some r)
        × (full.r_bytes ≡ compress (c.add_point r (smul t basepoint)))
        × (verify_adapted c pk message full ≡ true)
        × (extract c full σ ≡ some t)
  adapt_facts pk message t σ full h adapts =
      let (r, p, s, hr, hp, hs) = pre_verify-decodes c pk message (smul t basepoint) σ h in
      let (full', adapts', verifies, extracts) = adapt_complete c laws pk message t σ h in
      let same : full' ≡ full = ground arith in
      let form = adapt_decoded c σ t (smul t basepoint) r s hr hs in
      (r, hr, ground arith, rw (sym same) verifies, rw (sym same) extracts)

  -- For a delivered request whose pre-signature passes pVerify, the adapted signature published on
  -- chain finalizes the request exactly as revealing the secret off chain does, with the same
  -- result and the same vault.
  pub finalize_onchain_claim-finalize_offchain :
      (channel_id : ChannelId) (t : Scalar) (pre_sig : AdaptorPreSignature)
      (full : AdaptedSignature) (result provider : Bytes) (now : ℤ) (v : VaultState)
      (ch : ChannelState) (r : ChannelRequest)
      → lookup channel_id v.active_channels ≡ some ch
      → ch.channel_id ≡ channel_id
      → ch.status ≡ pending_status
      → ch.active_request ≡ some (delivered c r t pre_sig result provider)
      → pre_verify c provider (payment_of c ch r) (smul t basepoint) pre_sig ≡ true
      → adapt c pre_sig t (smul t basepoint) ≡ some full
      → finalize_onchain_claim c channel_id full.r_bytes full.s_bytes now v
        ≡ finalize_offchain c channel_id (to_bytes t) now v
  unfolding finalize_onchain_claim finalize_offchain pending_request_crypto_materials recover_secret
  finalize_onchain_claim-finalize_offchain channel_id t pre_sig full result provider now v ch r
        found named pending active checked adapts =
      let (r', decodes, form, verifies, extracts) =
        adapt_facts provider (payment_of c ch r) t pre_sig full checked adapts in
      let canonical = laws.from_canonical_bytes-to_bytes t in
      let point = laws.decompress-compress (smul t basepoint) in
      let same = beq_refl full.r_bytes in ground arith
