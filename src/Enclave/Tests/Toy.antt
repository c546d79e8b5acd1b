-- ===== src/Enclave/Tests/Toy.antt =====
-- The curve of two points, on which every law of `Crypto` can be computed, and a hash of 32 bytes.
use a.Prelude.{
  ℕ, zero, suc, ◌≡◌, refl, ap, Bool, true, false, Option, none, some, [], ◌∷◌, ◌++◌, length, arith,
  if◌then◌else◌,
}
use a.Prelude.Equality.{Bytes, ◌==◌, bytes_eq, bytes_beq, bytes_beq_iff}
use a.Enclave.Crypto.{Crypto, CryptoLaws}

abbrev bit_add : Bool → Bool → Bool
bit_add true true = false
bit_add true false = true
bit_add false y = y

abbrev bit_mul : Bool → Bool → Bool
bit_mul true y = y
bit_mul false y = false

abbrev bit_same : Bool → Bool → Bool
bit_same true y = y
bit_same false true = false
bit_same false false = true

abbrev pub write_bit : Bool → Bytes
write_bit true = 1 ∷ []
write_bit false = 0 ∷ []

unfoldable pub read_bit : Bytes → Option Bool
read_bit bytes =
    if bytes == (1 ∷ []) then some true else if bytes == (0 ∷ []) then some false else none

abbrev repeat : ℕ → ℕ → Bytes
repeat zero b = []
repeat (suc n) b = b ∷ repeat n b

length-repeat : (n b : ℕ) → length (repeat n b) ≡ n
length-repeat zero b = refl
length-repeat (suc n) b = ap suc (length-repeat n b)

unfoldable pub toy_hash : Bytes → Bytes
toy_hash [] = repeat 32 7
toy_hash (b ∷ bytes) = repeat 32 b

pub length-toy_hash : (m : Bytes) → length (toy_hash m) ≡ 32
unfolding toy_hash
length-toy_hash [] = length-repeat 32 7
length-toy_hash (b ∷ bytes) = length-repeat 32 b

abbrev pub toy : Crypto
toy = record {
  Scalar = Bool;
  Point = Bool;
  add_scalar = bit_add;
  sub_scalar = bit_add;
  mul_scalar = bit_mul;
  add_point = bit_add;
  smul = bit_mul;
  basepoint = true;
  point_beq = bit_same;
  compress = write_bit;
  decompress = read_bit;
  to_bytes = write_bit;
  from_canonical_bytes = read_bit;
  from_bytes_mod_order = λ bytes. true;
  from_bytes_mod_order_wide = λ bytes. true;
  sha256 = toy_hash;
  sha512 = λ bytes. toy_hash bytes ++ toy_hash bytes;
}

read_bit-write_bit : (b : Bool) → read_bit (write_bit b) ≡ some b
unfolding read_bit bytes_beq
read_bit-write_bit true = refl
read_bit-write_bit false = refl

write_bit-read_bit : (bytes : Bytes) (b : Bool) → read_bit bytes ≡ some b → write_bit b ≡ bytes
unfolding read_bit
write_bit-read_bit bytes b h =
    ground (arith, bytes_beq_iff bytes (1 ∷ []), bytes_beq_iff bytes (0 ∷ []))

pub toy_laws : CryptoLaws toy
toy_laws = record {
  add_scalar_comm = λ s t. ground arith;
  mul_scalar_comm = λ s t. ground arith;
  sub_scalar_cancel = λ s t. ground arith;
  add_point_comm = λ p q. ground arith;
  add_point_assoc = λ p q r. ground arith;
  smul-add_scalar = λ s t. ground arith;
  smul-mul_scalar = λ s t. ground arith;
  point_beq_iff = λ p q. ground arith;
  decompress-compress = read_bit-write_bit;
  from_canonical_bytes-to_bytes = read_bit-write_bit;
  to_bytes-from_canonical_bytes = write_bit-read_bit;
}
