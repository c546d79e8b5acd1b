-- ===== src/Enclave/Crypto.antt =====
-- What the enclave takes from the crates curve25519-dalek and sha2, and the laws that it relies on.
use a.Prelude.{◌≡◌, ◌↔◌, Bool, true, Option, some}
use a.Prelude.Equality.{Bytes}

pub record Crypto : Type 1 where
  pub Scalar : Type 0
  pub Point : Type 0
  pub add_scalar : Scalar → Scalar → Scalar
  pub sub_scalar : Scalar → Scalar → Scalar
  pub mul_scalar : Scalar → Scalar → Scalar
  pub add_point : Point → Point → Point
  pub smul : Scalar → Point → Point
  pub basepoint : Point
  pub point_beq : Point → Point → Bool
  pub compress : Point → Bytes
  pub decompress : Bytes → Option Point
  pub to_bytes : Scalar → Bytes
  pub from_canonical_bytes : Bytes → Option Scalar
  pub from_bytes_mod_order : Bytes → Scalar
  pub from_bytes_mod_order_wide : Bytes → Scalar
  pub sha256 : Bytes → Bytes
  pub sha512 : Bytes → Bytes

-- Addition of points is commutative and associative; scalars act on the multiples of the basepoint,
-- whose order is the modulus of the scalars (other points may have torsion); encodings of points
-- decompress, and a scalar has exactly one canonical encoding.
pub record CryptoLaws (c : Crypto) : Type 0 where
  pub add_scalar_comm : (s t : c.Scalar) → c.add_scalar s t ≡ c.add_scalar t s
  pub mul_scalar_comm : (s t : c.Scalar) → c.mul_scalar s t ≡ c.mul_scalar t s
  pub sub_scalar_cancel : (s t : c.Scalar) → c.sub_scalar (c.add_scalar s t) s ≡ t
  pub add_point_comm : (p q : c.Point) → c.add_point p q ≡ c.add_point q p
  pub add_point_assoc :
      (p q r : c.Point) → c.add_point (c.add_point p q) r ≡ c.add_point p (c.add_point q r)
  pub smul-add_scalar :
      (s t : c.Scalar)
      → c.smul (c.add_scalar s t) c.basepoint
        ≡ c.add_point (c.smul s c.basepoint) (c.smul t c.basepoint)
  pub smul-mul_scalar :
      (s t : c.Scalar) → c.smul (c.mul_scalar s t) c.basepoint ≡ c.smul s (c.smul t c.basepoint)
  pub point_beq_iff : (p q : c.Point) → (c.point_beq p q ≡ true) ↔ (p ≡ q)
  pub decompress-compress : (p : c.Point) → c.decompress (c.compress p) ≡ some p
  pub from_canonical_bytes-to_bytes :
      (s : c.Scalar) → c.from_canonical_bytes (c.to_bytes s) ≡ some s
  pub to_bytes-from_canonical_bytes :
      (b : Bytes) (s : c.Scalar) → c.from_canonical_bytes b ≡ some s → c.to_bytes s ≡ b
