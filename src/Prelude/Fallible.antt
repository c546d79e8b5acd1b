-- ===== src/Prelude/Fallible.antt =====
-- Chains of steps that may fail and change nothing: `?` on a `Result`.
use mathlib.Core.Bool.{Bool, true, false}
use mathlib.Core.Option.{Option, none, some}
use mathlib.Core.List.{List}
use Prim.Native.Nat.{ℕ, ◌-◌, ◌≤◌}
use mathlib.Core.Path.{◌≡◌}
use native.Mathlib.Omega.{arith}
use a.Prelude.Outcome.{Result, ok, err, panic}
use a.Prelude.Seq.{get_elem?, length, take, drop}
use a.Prelude.Slices.{get_range}

infixl 5 ◌>>=◌ ◌>>◌
abbrev pub ◌>>=◌ : {E A B : Type 0} → Result E A → (A → Result E B) → Result E B
ok x >>= f = f x
err e >>= f = err e
panic >>= f = panic

abbrev pub ◌>>◌ : {E B : Type 0} → Result E Unit → Result E B → Result E B
m >> k = m >>= λ _. k

module _ {E : Type 0} where
  -- `require!`
  abbrev pub require : Bool → E → Result E Unit
  require true e = ok tt
  require false e = err e

  abbrev pub ok_or : {A : Type 0} → Option A → E → Result E A
  ok_or none e = err e
  ok_or (some x) e = ok x

  -- `xs[i]` and `xs[lo..hi]`, which panic out of bounds.
  abbrev pub index : {A : Type 0} → List A → ℕ → Result E A
  index xs i = elim (get_elem? xs i) [ none ↦ panic | some x ↦ ok x ]

  abbrev pub index_range : {A : Type 0} → List A → ℕ → ℕ → Result E (List A)
  index_range xs lo hi = elim (get_range xs lo hi) [ none ↦ panic | some ys ↦ ok ys ]

  pub index_range-eq_ok :
      {A : Type 0} (xs : List A) (lo hi : ℕ)
      → lo ≤ hi
      → hi ≤ length xs
      → index_range xs lo hi ≡ ok (take (hi - lo) (drop lo xs))
  unfolding get_range
  index_range-eq_ok xs lo hi h k = ground arith
