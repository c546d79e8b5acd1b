-- ===== src/Enclave/Cipher/Xor.antt =====
-- Exclusive or with the same number twice gives back the first, at every width.
use Prim.Native.Nat.{bit_xor, bit_xor-bitwise, digits, differ}
use a.Prelude.{ℕ, zero, suc, ◌+◌, ◌*◌, ◌/◌, ◌%◌, ◌≤◌, ◌<◌, ◌≡◌, refl, ◌∙◌, arith}

abbrev xor_digits : ℕ → ℕ → ℕ → ℕ
xor_digits n a b = digits (λ b. b) differ n a b

xor_digits_fuel : (n m a b : ℕ) → a ≤ n → a ≤ m → xor_digits n a b ≡ xor_digits m a b
xor_digits_fuel zero zero a b p q = refl
xor_digits_fuel zero (suc m) zero b p q = refl
xor_digits_fuel zero (suc m) (suc a) b p q = absurd (omega arith)
xor_digits_fuel (suc n) zero zero b p q = refl
xor_digits_fuel (suc n) zero (suc a) b p q = absurd (omega arith)
xor_digits_fuel (suc n) (suc m) zero b p q = refl
xor_digits_fuel (suc n) (suc m) (suc a) b p q =
    omega (arith, xor_digits_fuel n m (suc a / 2) (b / 2) (omega arith) (omega arith))

zero-bit_xor : (b : ℕ) → bit_xor 0 b ≡ b
zero-bit_xor b = bit_xor-bitwise 0 b

bit_xor_step : (a b : ℕ) → bit_xor a b ≡ bit_xor (a / 2) (b / 2) * 2 + differ (a % 2) (b % 2)
bit_xor_step zero b = ground (arith, zero-bit_xor b, zero-bit_xor (b / 2))
bit_xor_step (suc a) b = omega (
  arith,
  bit_xor-bitwise (suc a) b,
  bit_xor-bitwise (suc a / 2) (b / 2),
  xor_digits_fuel a (suc a / 2) (suc a / 2) (b / 2) (omega arith) (omega arith),
)

differ_bit : (x y : ℕ) → x < 2 → y < 2 → (differ x y < 2) × (differ (differ x y) y ≡ x)
differ_bit zero zero p q = omega arith
differ_bit zero (suc zero) p q = omega arith
differ_bit (suc zero) zero p q = omega arith
differ_bit (suc zero) (suc zero) p q = omega arith
differ_bit zero (suc (suc y)) p q = absurd (omega arith)
differ_bit (suc zero) (suc (suc y)) p q = absurd (omega arith)
differ_bit (suc (suc x)) y p q = absurd (omega arith)

cancel_step :
    (a b : ℕ) → bit_xor (bit_xor (a / 2) (b / 2)) (b / 2) ≡ a / 2 → bit_xor (bit_xor a b) b ≡ a
cancel_step a b ih =
    let low = differ_bit (a % 2) (b % 2) (omega arith) (omega arith) in
    let once = bit_xor_step a b in
    let half : bit_xor a b / 2 ≡ bit_xor (a / 2) (b / 2) = omega (arith, low.0) in
    let last : bit_xor a b % 2 ≡ differ (a % 2) (b % 2) = omega (arith, low.0) in
    bit_xor_step (bit_xor a b) b ∙ rw (half, last, ih, low.1) (omega arith)

xor_cancel_below : (n a b : ℕ) → a + b ≤ n → bit_xor (bit_xor a b) b ≡ a
xor_cancel_below n zero zero h = refl
xor_cancel_below zero zero (suc b) h = absurd (omega arith)
xor_cancel_below zero (suc a) b h = absurd (omega arith)
xor_cancel_below (suc n) zero (suc b) h =
    cancel_step 0 (suc b) (xor_cancel_below n (0 / 2) (suc b / 2) (omega arith))
xor_cancel_below (suc n) (suc a) b h =
    cancel_step (suc a) b (xor_cancel_below n (suc a / 2) (b / 2) (omega arith))

pub xor_cancel : (a b : ℕ) → bit_xor (bit_xor a b) b ≡ a
xor_cancel a b = xor_cancel_below (a + b) a b (omega arith)
