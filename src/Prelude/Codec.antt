-- ===== src/Prelude/Codec.antt =====
-- The byte layouts of Rust's `to_le_bytes`, `from_le_bytes` and `str::as_bytes`.
use Prim.Native.Nat.{ℕ, zero, suc, ◌+◌, ◌-◌, ◌*◌, ◌/◌, ◌%◌, ◌^◌, ◌<◌}
use Prim.Native.Char.{code}
use Prim.Native.String.{String}
use mathlib.Core.Path.{◌≡◌, refl, ap}
use mathlib.Core.Bool.{true}
use mathlib.Core.List.{[], ◌∷◌, ◌++◌}
use native.Mathlib.Omega.{arith}
use native.Mathlib.Nat.{pow-suc}
use a.Prelude.Tests.{ltb, if◌then◌else◌}
use a.Prelude.Seq.{length}
use a.Prelude.Int.{ℤ, pos, negsuc, in_i64}
use a.Prelude.Equality.{Bytes}

-- The `n` lowest bytes of `x`, the lowest first.
unfoldable pub le_bytes : ℕ → ℕ → Bytes
le_bytes zero x = []
le_bytes (suc n) x = (x % 256) ∷ le_bytes n (x / 256)

unfoldable pub from_le_bytes : Bytes → ℕ
from_le_bytes [] = 0
from_le_bytes (b ∷ bs) = b + 256 * from_le_bytes bs

abbrev pub IsBytes : Bytes → Type 0
IsBytes [] = Unit
IsBytes (b ∷ bs) = (b < 256) × IsBytes bs

pub length-le_bytes : (n x : ℕ) → length (le_bytes n x) ≡ n
unfolding le_bytes
length-le_bytes zero x = refl
length-le_bytes (suc n) x = ap suc (length-le_bytes n (x / 256))

pub le_bytes-IsBytes : (n x : ℕ) → IsBytes (le_bytes n x)
unfolding le_bytes
le_bytes-IsBytes zero x = tt
le_bytes-IsBytes (suc n) x = (omega arith, le_bytes-IsBytes n (x / 256))

pub from_le_bytes-le_bytes : (n x : ℕ) → x < 256 ^ n → from_le_bytes (le_bytes n x) ≡ x
unfolding le_bytes from_le_bytes
from_le_bytes-le_bytes zero x h = omega arith
from_le_bytes-le_bytes (suc n) x h =
    omega (arith, pow-suc 256 n, from_le_bytes-le_bytes n (x / 256) (omega (arith, pow-suc 256 n)))

pub le_bytes-from_le_bytes :
    (n : ℕ) (bs : Bytes) → length bs ≡ n → IsBytes bs → le_bytes n (from_le_bytes bs) ≡ bs
unfolding le_bytes from_le_bytes
le_bytes-from_le_bytes zero [] h w = refl
le_bytes-from_le_bytes zero (b ∷ bs) h w = absurd (omega arith)
le_bytes-from_le_bytes (suc n) [] h w = absurd (omega arith)
le_bytes-from_le_bytes (suc n) (b ∷ bs) h w =
    let low : (b + 256 * from_le_bytes bs) % 256 ≡ b = omega arith in
    let high : (b + 256 * from_le_bytes bs) / 256 ≡ from_le_bytes bs = omega arith in
    rw (low, high, le_bytes-from_le_bytes n bs (omega arith) w.1)

pub from_le_bytes_bound : (bs : Bytes) → IsBytes bs → from_le_bytes bs < 256 ^ length bs
unfolding from_le_bytes
from_le_bytes_bound [] w = omega arith
from_le_bytes_bound (b ∷ bs) w = omega (arith, pow-suc 256 (length bs), from_le_bytes_bound bs w.1)

-- An `i64` as its two's complement in 64 bits, and back.
unfoldable pub i64_bits : ℤ → ℕ
i64_bits (pos n) = n
i64_bits (negsuc n) = 2 ^ 64 - 1 - n

unfoldable pub i64_of_bits : ℕ → ℤ
i64_of_bits x = if ltb x (2 ^ 63) then pos x else negsuc (2 ^ 64 - 1 - x)

pub i64_of_bits-i64_bits : (z : ℤ) → in_i64 z ≡ true → i64_of_bits (i64_bits z) ≡ z
unfolding i64_bits i64_of_bits
i64_of_bits-i64_bits (pos n) h = ground arith
i64_of_bits-i64_bits (negsuc n) h = ground arith

pub i64_bits_bound : (z : ℤ) → in_i64 z ≡ true → i64_bits z < 2 ^ 64
unfolding i64_bits
i64_bits_bound (pos n) h = ground arith
i64_bits_bound (negsuc n) h = ground arith

pub i64_bits-i64_of_bits : (x : ℕ) → x < 2 ^ 64 → i64_bits (i64_of_bits x) ≡ x
unfolding i64_bits i64_of_bits
i64_bits-i64_of_bits x h = ground arith

-- The UTF-8 bytes of a code point, and of a string.
utf8 : ℕ → Bytes
utf8 c =
    if ltb c 0x80
    then c ∷ []
    else if ltb c 0x800
    then (0xc0 + c / 64) ∷ (0x80 + c % 64) ∷ []
    else if ltb c 0x1_0000
    then (0xe0 + c / 4096) ∷ (0x80 + c / 64 % 64) ∷ (0x80 + c % 64) ∷ []
    else (0xf0 + c / 0x4_0000)
      ∷ (0x80 + c / 4096 % 64)
      ∷ (0x80 + c / 64 % 64)
      ∷ (0x80 + c % 64)
      ∷ []

unfoldable pub as_bytes : String → Bytes
unfolding utf8
as_bytes String.[] = []
as_bytes (String.◌∷◌ c s) = utf8 (code c) ++ as_bytes s
