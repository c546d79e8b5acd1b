-- ===== src/Prelude/Slices.antt =====
-- Ranges of a slice, `bytes.get(lo..hi)`, and the chain of optional steps, `?` on an `Option`.
use Prim.Native.Nat.{ℕ, zero, suc, ◌+◌, ◌-◌}
use mathlib.Core.Path.{◌≡◌, refl, ap}
use mathlib.Core.Option.{Option, none, some}
use mathlib.Core.List.{List, [], ◌∷◌, ◌++◌}
use native.Mathlib.Omega.{arith}
use a.Prelude.Tests.{leb, if◌then◌else◌}
use a.Prelude.Seq.{length, take, drop, length-append, take-append}

infixl 5 ◌>>=◌
abbrev pub ◌>>=◌ {ℓ κ} : {A : Type ℓ} {B : Type κ} → Option A → (A → Option B) → Option B
none >>= f = none
some x >>= f = f x

module _ {A : Type 0} where
  unfoldable pub get_range : List A → ℕ → ℕ → Option (List A)
  get_range xs lo hi =
      if leb lo hi
      then if leb hi (length xs) then some (take (hi - lo) (drop lo xs)) else none
      else none

  drop-add-append : (n k : ℕ) (xs ys : List A) → length xs ≡ n → drop (n + k) (xs ++ ys) ≡ drop k ys
  drop-add-append zero k [] ys h = ap (λ i. drop i ys) (omega arith)
  drop-add-append zero k (x ∷ xs) ys h = absurd (omega arith)
  drop-add-append (suc n) k [] ys h = absurd (omega arith)
  drop-add-append (suc n) k (x ∷ xs) ys h =
      let e : suc n + k ≡ suc (n + k) = omega arith in
      rw e (drop-add-append n k xs ys (omega arith))

  pub get_range-skip :
      (n lo hi : ℕ) (xs ys : List A)
      → length xs ≡ n
      → get_range (xs ++ ys) (n + lo) (n + hi) ≡ get_range ys lo hi
  unfolding get_range
  get_range-skip n lo hi xs ys h =
      let width : n + hi - (n + lo) ≡ hi - lo = omega arith in
      rw (drop-add-append n lo xs ys h, width) (ground (arith, length-append xs ys))

  pub get_range-head : (n : ℕ) (xs ys : List A) → length xs ≡ n → get_range (xs ++ ys) 0 n ≡ some xs
  unfolding get_range
  get_range-head n xs ys h =
      let width : n - 0 ≡ n = omega arith in
      rw (width, take-append n xs ys h) (ground (arith, length-append xs ys))

  pub get_range-all : (n : ℕ) (xs : List A) → length xs ≡ n → get_range xs 0 n ≡ some xs
  unfolding get_range
  get_range-all n xs h =
      let width : n - 0 ≡ n = omega arith in rw (width, take_all n xs h) (ground arith)
    where
      take_all : (k : ℕ) (l : List A) → length l ≡ k → take k l ≡ l
      take_all zero [] e = refl
      take_all zero (y ∷ l) e = absurd (omega arith)
      take_all (suc k) [] e = absurd (omega arith)
      take_all (suc k) (y ∷ l) e = ap (λ r. y ∷ r) (take_all k l (omega arith))
