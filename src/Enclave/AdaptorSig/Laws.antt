-- ===== src/Enclave/AdaptorSig/Laws.antt =====
-- Signing, pre-verification, adaptation and extraction fit together (enclave/src/adaptor_sig.rs).
use a.Prelude.{◌≡◌, sym, ap, ◌∙◌, true, some, arith}
use a.Prelude.Equality.{Bytes}
use a.Enclave.Crypto.{Crypto, CryptoLaws}
use a.Enclave.AdaptorSig.{
  AdaptorPreSignature, AdaptedSignature, expand_secret_key, challenge_hash, pre_sign, pre_verify,
  adapt, extract, verify_adapted,
}

module _ (c : Crypto) where
  open c use {Scalar, Point, add_scalar, sub_scalar, add_point, smul, basepoint}

  -- The tests and results once the encodings are read.
  pub pre_verify_decoded :
      (pk message : Bytes) (t_point : Point) (σ : AdaptorPreSignature) (r p : Point) (s : Scalar)
      → c.decompress σ.r_prime ≡ some r
      → c.decompress pk ≡ some p
      → c.from_canonical_bytes σ.s_prime ≡ some s
      → pre_verify c pk message t_point σ
        ≡ c.point_beq
            (smul s basepoint)
            (add_point r (smul (challenge_hash c (c.compress (add_point r t_point)) pk message) p))
  unfolding pre_verify
  pre_verify_decoded pk message t_point σ r p s hr hp hs = ground arith

  pub verify_adapted_decoded :
      (pk message : Bytes) (σ : AdaptedSignature) (r p : Point) (s : Scalar)
      → c.decompress σ.r_bytes ≡ some r
      → c.decompress pk ≡ some p
      → c.from_canonical_bytes σ.s_bytes ≡ some s
      → verify_adapted c pk message σ
        ≡ c.point_beq
            (smul s basepoint)
            (add_point r (smul (challenge_hash c σ.r_bytes pk message) p))
  unfolding verify_adapted
  verify_adapted_decoded pk message σ r p s hr hp hs = ground arith

  pub adapt_decoded :
      (σ : AdaptorPreSignature) (t : Scalar) (t_point r : Point) (s : Scalar)
      → c.decompress σ.r_prime ≡ some r
      → c.from_canonical_bytes σ.s_prime ≡ some s
      → adapt c σ t t_point
        ≡ some (record {
          r_bytes = c.compress (add_point r t_point);
          s_bytes = c.to_bytes (add_scalar s t);
        })
  unfolding adapt
  adapt_decoded σ t t_point r s hr hs = ground arith

  pub extract_decoded :
      (full : AdaptedSignature) (σ : AdaptorPreSignature) (s s' : Scalar)
      → c.from_canonical_bytes full.s_bytes ≡ some s
      → c.from_canonical_bytes σ.s_prime ≡ some s'
      → extract c full σ ≡ some (sub_scalar s s')
  unfolding extract
  extract_decoded full σ s s' h h' = ground arith

  -- A pre-signature that passes pVerify decodes.
  pub pre_verify-decodes :
      (pk message : Bytes) (t_point : Point) (σ : AdaptorPreSignature)
      → pre_verify c pk message t_point σ ≡ true
      → (r : Point) × (p : Point) × (s : Scalar) × (c.decompress σ.r_prime ≡ some r)
        × (c.decompress pk ≡ some p)
        × (c.from_canonical_bytes σ.s_prime ≡ some s)
  unfolding pre_verify
  pre_verify-decodes pk message t_point σ h = ground arith

module _ (c : Crypto) (laws : CryptoLaws c) where
  open c use {Scalar, Point, add_scalar, sub_scalar, add_point, smul, basepoint}

  -- What an honest signer pre-signs passes pVerify under the signer's public key.
  pub pre_verify-pre_sign :
      (secret_key message : Bytes) (adaptor_point : Point)
      → pre_verify c
          (c.compress (smul (expand_secret_key c secret_key).0 basepoint))
          message
          adaptor_point
          (pre_sign c secret_key message adaptor_point)
        ≡ true
  unfolding pre_sign
  pre_verify-pre_sign secret_key message adaptor_point =
      pre_verify_decoded c _ message adaptor_point _ _ _ _ (laws.decompress-compress _)
        (laws.decompress-compress _) (laws.from_canonical_bytes-to_bytes _)
      ∙ (laws.point_beq_iff _ _).1 (rw (laws.smul-add_scalar, laws.smul-mul_scalar))

  -- Adding the secret to both sides of the pVerify equation.
  shift_equation :
      (s t : Scalar) (r q : Point)
      → smul s basepoint ≡ add_point r q
      → smul (add_scalar s t) basepoint ≡ add_point (add_point r (smul t basepoint)) q
  shift_equation s t r q h =
      laws.smul-add_scalar s t
      ∙ rw (h, laws.add_point_assoc, laws.add_point_assoc, laws.add_point_comm q (smul t basepoint))

  -- If a pre-signature passes pVerify for the point of t, adapting it by t gives a signature that
  -- verifies under the same key and message, and from which extract recovers exactly t.
  pub adapt_complete :
      (pk message : Bytes) (t : Scalar) (σ : AdaptorPreSignature)
      → pre_verify c pk message (smul t basepoint) σ ≡ true
      → (full : AdaptedSignature) × (adapt c σ t (smul t basepoint) ≡ some full)
        × (verify_adapted c pk message full ≡ true)
        × (extract c full σ ≡ some t)
  adapt_complete pk message t σ h =
      let (r, p, s, hr, hp, hs) = pre_verify-decodes c pk message (smul t basepoint) σ h in
      let equation =
        (laws.point_beq_iff _ _).0
          (sym (pre_verify_decoded c pk message (smul t basepoint) σ r p s hr hp hs) ∙ h) in
      let canonical = laws.from_canonical_bytes-to_bytes (add_scalar s t) in
      (
        record {
          r_bytes = c.compress (add_point r (smul t basepoint));
          s_bytes = c.to_bytes (add_scalar s t);
        },
        adapt_decoded c σ t (smul t basepoint) r s hr hs,
        verify_adapted_decoded c pk message _ _ p _ (laws.decompress-compress _) hp canonical
            ∙ (laws.point_beq_iff _ _).1 (shift_equation s t r _ equation),
        extract_decoded c _ σ _ s canonical hs ∙ ap some (laws.sub_scalar_cancel s t),
      )
