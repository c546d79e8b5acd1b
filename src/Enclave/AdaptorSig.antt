-- ===== src/Enclave/AdaptorSig.antt =====
-- enclave/src/adaptor_sig.rs: Ed25519 adaptor signatures, over the curve of `Crypto`.
pub mod Laws
use Prim.Native.Nat.{bit_and, bit_or}
use a.Prelude.{ℕ, Bool, false, Option, none, some, List, [], ◌∷◌, ◌++◌, take, drop, get_elem?, set}
use a.Prelude.Equality.{Bytes}
use a.Enclave.Crypto.{Crypto}

pub record AdaptorPreSignature : Type 0 where
  pub r_prime : Bytes
  pub s_prime : Bytes

pub record AdaptedSignature : Type 0 where
  pub r_bytes : Bytes
  pub s_bytes : Bytes

-- `bytes[i] = f(bytes[i])`
unfoldable pub update_byte : ℕ → (ℕ → ℕ) → Bytes → Bytes
update_byte i f bytes = elim (get_elem? bytes i) [ none ↦ bytes | some b ↦ set bytes i (f b) ]

module _ (c : Crypto) where
  open c use {
    Scalar, Point, add_scalar, sub_scalar, mul_scalar, add_point, smul, basepoint, point_beq,
    compress, decompress, to_bytes, from_canonical_bytes, from_bytes_mod_order,
    from_bytes_mod_order_wide, sha512,
  }

  unfoldable pub expand_secret_key : Bytes → Scalar × Bytes
  unfolding update_byte
  expand_secret_key secret_key =
      let hash = sha512 secret_key in
      let low = update_byte 0 (λ b. bit_and b 248) (take 32 hash) in
      let top = update_byte 31 (λ b. bit_or (bit_and b 127) 64) low in
      (from_bytes_mod_order top, take 32 (drop 32 hash))

  unfoldable pub challenge_hash : Bytes → Bytes → Bytes → Scalar
  challenge_hash r_bytes pk_bytes message =
      from_bytes_mod_order_wide (sha512 (r_bytes ++ (pk_bytes ++ message)))

  unfoldable pub derive_nonce : Bytes → Bytes → Bytes → Scalar
  derive_nonce prefix adaptor_point message =
      from_bytes_mod_order_wide (sha512 (prefix ++ (adaptor_point ++ message)))

  unfoldable pub pre_sign : Bytes → Bytes → Point → AdaptorPreSignature
  pre_sign secret_key message adaptor_point =
      let (sk, prefix) = expand_secret_key secret_key in
      let pk = compress (smul sk basepoint) in
      let r = derive_nonce prefix (compress adaptor_point) message in
      let r_prime_point = smul r basepoint in
      let adapted_r_bytes = compress (add_point r_prime_point adaptor_point) in
      let challenge = challenge_hash adapted_r_bytes pk message in
      record {
        r_prime = compress r_prime_point;
        s_prime = to_bytes (add_scalar r (mul_scalar challenge sk));
      }

  unfoldable pub pre_verify : Bytes → Bytes → Point → AdaptorPreSignature → Bool
  pre_verify public_key message adaptor_point pre_sig = elim (decompress pre_sig.r_prime) [
    | none ↦ false
    | some r_prime ↦ elim (decompress public_key) [
      | none ↦ false
      | some pk_point ↦
          let adapted_r_bytes = compress (add_point r_prime adaptor_point) in
          let challenge = challenge_hash adapted_r_bytes public_key message in
          elim (from_canonical_bytes pre_sig.s_prime) [
            | none ↦ false
            | some s_prime ↦
                point_beq (smul s_prime basepoint) (add_point r_prime (smul challenge pk_point))
          ]
    ]
  ]

  unfoldable pub adapt : AdaptorPreSignature → Scalar → Point → Option AdaptedSignature
  adapt pre_sig adaptor_secret adaptor_point = elim (decompress pre_sig.r_prime) [
    | none ↦ none
    | some r_prime ↦ elim (from_canonical_bytes pre_sig.s_prime) [
      | none ↦ none
      | some s_prime ↦ some (record {
        r_bytes = compress (add_point r_prime adaptor_point);
        s_bytes = to_bytes (add_scalar s_prime adaptor_secret);
      })
    ]
  ]

  unfoldable pub extract : AdaptedSignature → AdaptorPreSignature → Option Scalar
  extract full_sig pre_sig = elim (from_canonical_bytes full_sig.s_bytes) [
    | none ↦ none
    | some s ↦ elim (from_canonical_bytes pre_sig.s_prime) [
      | none ↦ none
      | some s_prime ↦ some (sub_scalar s s_prime)
    ]
  ]

  unfoldable pub verify_adapted : Bytes → Bytes → AdaptedSignature → Bool
  verify_adapted public_key message sig = elim (decompress sig.r_bytes) [
    | none ↦ false
    | some r ↦ elim (decompress public_key) [
      | none ↦ false
      | some pk_point ↦ elim (from_canonical_bytes sig.s_bytes) [
        | none ↦ false
        | some s ↦
            let challenge = challenge_hash sig.r_bytes public_key message in
            point_beq (smul s basepoint) (add_point r (smul challenge pk_point))
      ]
    ]
  ]
