-- ===== src/Prelude/Outcome.antt =====
-- How a Rust call ends, and code that changes a state. A panic is the third outcome: the crate is
-- built with overflow checks, so `+` and `-` out of range panic. What was written stays written.
use Prim.Native.Nat.{ℕ, ◌+◌, ◌-◌, ◌<◌, ◌≤◌}
use mathlib.Core.Path.{◌≡◌, refl}
use mathlib.Core.Logic.{◌⊎◌, inl, inr}
use mathlib.Core.Bool.{Bool, true, false}
use mathlib.Core.Option.{Option, none, some}
use native.Mathlib.Omega.{arith}
use a.Prelude.Tests.{ltb, leb, u64_mod, if◌then◌else◌}
use a.Prelude.Int.{ℤ, ◌+ℤ◌, ◌-ℤ◌, in_i64}

pub data Result (E A : Type 0) : Type 0 where
  ok : A → Result E A
  err : E → Result E A
  panic : Result E A

-- Code that may change an `S`.
abbrev pub Action : Type 0 → Type 0 → Type 0 → Type 0
Action E S A = S → Result E A × S

infixl 5 ◌>>=◌ ◌>>◌
abbrev pub ◌>>=◌ : {E S A B : Type 0} → Action E S A → (A → Action E S B) → Action E S B
◌>>=◌ m f s =
    let (r, s') = m s in elim r [ ok x ↦ f x s' | err e ↦ (err e, s') | panic ↦ (panic, s') ]

abbrev pub ◌>>◌ : {E S A B : Type 0} → Action E S A → Action E S B → Action E S B
m >> k = m >>= λ _. k

module _ {E S : Type 0} where
  abbrev pub pure : {A : Type 0} → A → Action E S A
  pure x s = (ok x, s)

  abbrev pub raise : {A : Type 0} → E → Action E S A
  raise e s = (err e, s)

  abbrev pub get : Action E S S
  get s = (ok s, s)

  abbrev pub put : S → Action E S Unit
  put s' s = (ok tt, s')

  abbrev pub require : Bool → E → Action E S Unit
  require test e s = (if test then ok tt else err e, s)

  -- `if test { body }`
  abbrev pub when : Bool → Action E S Unit → Action E S Unit
  when true body = body
  when false body = pure tt

  -- `ok_or`
  abbrev pub or_raise : {A : Type 0} → Option A → E → Action E S A
  or_raise none e s = (err e, s)
  or_raise (some x) e s = (ok x, s)

  abbrev pub lift : {A : Type 0} → Result E A → Action E S A
  lift r s = (r, s)

pub Result-cases :
    {E A : Type 0} (r : Result E A) → ((x : A) × (r ≡ ok x)) ⊎ ((e : E) × (r ≡ err e)) ⊎ (r ≡ panic)
Result-cases (ok x) = inl (x, refl)
Result-cases (err e) = inr (inl (e, refl))
Result-cases panic = inr (inr refl)

-- `a + b` and `a - b` on `u64`, `now + n` on `i64`, and `checked_add`.
module _ {E : Type 0} where
  unfoldable pub add_u64 : ℕ → ℕ → Result E ℕ
  add_u64 x y = if ltb (x + y) u64_mod then ok (x + y) else panic

  unfoldable pub sub_u64 : ℕ → ℕ → Result E ℕ
  sub_u64 x y = if leb y x then ok (x - y) else panic

  unfoldable pub add_i64 : ℤ → ℤ → Result E ℤ
  add_i64 x y = if in_i64 (x +ℤ y) then ok (x +ℤ y) else panic

  unfoldable pub sub_i64 : ℤ → ℤ → Result E ℤ
  sub_i64 x y = if in_i64 (x -ℤ y) then ok (x -ℤ y) else panic

  pub add_u64-eq_ok : (x y : ℕ) → x + y < u64_mod → add_u64 x y ≡ ok (x + y)
  unfolding add_u64
  add_u64-eq_ok x y h = ground arith

  pub sub_u64-eq_ok : (x y : ℕ) → y ≤ x → sub_u64 x y ≡ ok (x - y)
  unfolding sub_u64
  sub_u64-eq_ok x y h = ground arith

unfoldable pub checked_add : ℕ → ℕ → ℕ → Option ℕ
checked_add modulus x y = if ltb (x + y) modulus then some (x + y) else none

-- `saturating_add` on `u64`
abbrev pub saturating_add : ℕ → ℕ → ℕ
saturating_add x y = if ltb (x + y) u64_mod then x + y else u64_mod - 1
