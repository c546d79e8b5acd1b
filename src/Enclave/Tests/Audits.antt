-- ===== src/Enclave/Tests/Audits.antt =====
-- An audit record is read with the key that is exported, on a curve with encodings of 32 bytes.
use a.Prelude.{zero, suc, ◌≡◌, refl, Bool, true, false, Option, none, some, [], ◌∷◌, length, arith}
use a.Prelude.Int.{pos}
use a.Prelude.Equality.{Bytes}
use a.Enclave.Crypto.{Crypto, CryptoLaws}
use a.Enclave.Audit.{export_provider_key, generate_audit_record_at}
use a.Enclave.Audit.Disclose.{Discloses, export-Discloses}
use a.Program.Tests.Toy.{key}
use a.Enclave.Tests.Toy.{toy, toy_laws, length-toy_hash}

abbrev write_key : Bool → Bytes
write_key true = key 1
write_key false = key 0

abbrev read_key : Bytes → Option Bool
read_key (zero ∷ bytes) = some false
read_key (suc b ∷ bytes) = some true
read_key [] = none

abbrev wide : Crypto
wide = record toy { compress = write_key; decompress = read_key }

wide_laws : CryptoLaws wide
wide_laws = record {
  add_scalar_comm = toy_laws.add_scalar_comm;
  mul_scalar_comm = toy_laws.mul_scalar_comm;
  sub_scalar_cancel = toy_laws.sub_scalar_cancel;
  add_point_comm = toy_laws.add_point_comm;
  add_point_assoc = toy_laws.add_point_assoc;
  smul-add_scalar = toy_laws.smul-add_scalar;
  smul-mul_scalar = toy_laws.smul-mul_scalar;
  point_beq_iff = toy_laws.point_beq_iff;
  decompress-compress = read_key-write_key;
  from_canonical_bytes-to_bytes = toy_laws.from_canonical_bytes-to_bytes;
  to_bytes-from_canonical_bytes = toy_laws.to_bytes-from_canonical_bytes;
}
  where
    read_key-write_key : (b : Bool) → read_key (write_key b) ≡ some b
    read_key-write_key true = refl
    read_key-write_key false = refl

length-write_key : (p : Bool) → length (write_key p) ≡ 32
length-write_key true = refl
length-write_key false = refl

abbrev kdf : Bytes → Bytes → Bytes → Bytes
kdf salt secret info = secret

export-Discloses_example :
    (exported : wide.Scalar) × (wide.from_canonical_bytes
        (export_provider_key wide kdf (key 6) (key 3))
      ≡ some exported)
    × Discloses wide wide_laws kdf length-toy_hash length-write_key exported
        (generate_audit_record_at wide kdf true false (key 4) (key 3) 250 1 (key 6) (pos 500))
        (key 4)
        250
export-Discloses_example =
    export-Discloses wide wide_laws kdf length-toy_hash length-write_key true false (key 4) (key 3)
      250 1 (key 6) (pos 500) refl (omega arith)
