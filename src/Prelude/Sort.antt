-- ===== src/Prelude/Sort.antt =====
-- `sort_by`, a stable sort by a test `le`, and the order of byte arrays, by which Rust also compares
-- strings and the keys of a `BTreeMap`.
use Prim.Native.Nat.{ℕ, ◌+◌}
use mathlib.Core.Path.{◌≡◌, refl}
use mathlib.Core.Logic.{inl, inr}
use mathlib.Core.Bool.{Bool, true, false}
use mathlib.Core.List.{List, [], ◌∷◌}
use native.Mathlib.Omega.{arith}
use a.Prelude.Tests.{ltb, nat_beq, Bool-cases}
use a.Prelude.Equality.{Bytes}

unfoldable pub leb_bytes : Bytes → Bytes → Bool
leb_bytes [] ys = true
leb_bytes (x ∷ xs) [] = false
leb_bytes (x ∷ xs) (y ∷ ys) =
    let rest = leb_bytes xs ys in
    elim (ltb x y) [ true ↦ true | false ↦ elim (nat_beq x y) [ true ↦ rest | false ↦ false ] ]

pub leb_bytes_refl : (xs : Bytes) → leb_bytes xs xs ≡ true
unfolding leb_bytes
leb_bytes_refl [] = refl
leb_bytes_refl (x ∷ xs) = ground (arith, leb_bytes_refl xs)

pub leb_bytes_total : (xs ys : Bytes) → leb_bytes xs ys ≡ false → leb_bytes ys xs ≡ true
unfolding leb_bytes
leb_bytes_total [] ys h = ground arith
leb_bytes_total (x ∷ xs) [] h = refl
leb_bytes_total (x ∷ xs) (y ∷ ys) h = ground (arith, leb_bytes_total xs ys)

pub leb_bytes_antisym : (xs ys : Bytes) → leb_bytes xs ys ≡ true → leb_bytes ys xs ≡ true → xs ≡ ys
unfolding leb_bytes
leb_bytes_antisym [] [] h k = refl
leb_bytes_antisym [] (y ∷ ys) h k = ground arith
leb_bytes_antisym (x ∷ xs) [] h k = ground arith
leb_bytes_antisym (x ∷ xs) (y ∷ ys) h k = ground (arith, leb_bytes_antisym xs ys)

pub leb_bytes_trans :
    (xs ys zs : Bytes) → leb_bytes xs ys ≡ true → leb_bytes ys zs ≡ true → leb_bytes xs zs ≡ true
unfolding leb_bytes
leb_bytes_trans [] ys zs h k = refl
leb_bytes_trans (x ∷ xs) [] zs h k = ground arith
leb_bytes_trans (x ∷ xs) (y ∷ ys) [] h k = ground arith
leb_bytes_trans (x ∷ xs) (y ∷ ys) (z ∷ zs) h k = ground (arith, leb_bytes_trans xs ys zs)

module _ {A : Type 0} (le : A → A → Bool) where
  -- Before the first element that is not smaller.
  unfoldable pub sort_insert : A → List A → List A
  sort_insert x [] = x ∷ []
  sort_insert x (y ∷ ys) =
      let rest = sort_insert x ys in elim (le x y) [ true ↦ x ∷ y ∷ ys | false ↦ y ∷ rest ]

  unfoldable pub sort_by : List A → List A
  unfolding sort_insert
  sort_by [] = []
  sort_by (x ∷ xs) = sort_insert x (sort_by xs)

  -- Every element is below the later ones.
  abbrev pub IsBelowAll : A → List A → Type 0
  IsBelowAll x [] = Unit
  IsBelowAll x (y ∷ ys) = (le x y ≡ true) × IsBelowAll x ys

  abbrev pub IsSorted : List A → Type 0
  IsSorted [] = Unit
  IsSorted (x ∷ xs) = IsBelowAll x xs × IsSorted xs

  module _ (total : (x y : A) → le x y ≡ false → le y x ≡ true)
      (trans : (x y z : A) → le x y ≡ true → le y z ≡ true → le x z ≡ true) where
    IsBelowAll-trans : (x y : A) (ys : List A) → le x y ≡ true → IsBelowAll y ys → IsBelowAll x ys
    IsBelowAll-trans x y [] h b = tt
    IsBelowAll-trans x y (z ∷ zs) h b = (trans x y z h b.0, IsBelowAll-trans x y zs h b.1)

    IsBelowAll-insert :
        (z x : A) (xs : List A) → le z x ≡ true → IsBelowAll z xs → IsBelowAll z (sort_insert x xs)
    unfolding sort_insert
    IsBelowAll-insert z x [] h b = (h, tt)
    IsBelowAll-insert z x (y ∷ ys) h b = elim (Bool-cases (le x y)) [
      | inl e ↦ rw (e, IsBelowAll, sort_insert) (h, b)
      | inr e ↦ rw (e, IsBelowAll, sort_insert) (b.0, IsBelowAll-insert z x ys h b.1)
    ]

    sort_insert-IsSorted : (x : A) (xs : List A) → IsSorted xs → IsSorted (sort_insert x xs)
    unfolding sort_insert
    sort_insert-IsSorted x [] s = (tt, tt)
    sort_insert-IsSorted x (y ∷ ys) s = elim (Bool-cases (le x y)) [
      | inl e ↦ rw (e, IsSorted, sort_insert) ((e, IsBelowAll-trans x y ys e s.0), s)
      | inr e ↦
          rw (e, IsSorted, sort_insert)
            (IsBelowAll-insert y x ys (total x y e) s.0, sort_insert-IsSorted x ys s.1)
    ]

    pub sort_by-IsSorted : (xs : List A) → IsSorted (sort_by xs)
    unfolding sort_by
    sort_by-IsSorted [] = tt
    sort_by-IsSorted (x ∷ xs) = sort_insert-IsSorted x (sort_by xs) (sort_by-IsSorted xs)

  module _ (f : A → ℕ) where
    abbrev pub sum_map : List A → ℕ
    sum_map [] = 0
    sum_map (x ∷ xs) = f x + sum_map xs

    sum_map-insert : (x : A) (xs : List A) → sum_map (sort_insert x xs) ≡ f x + sum_map xs
    unfolding sort_insert
    sum_map-insert x [] = refl
    sum_map-insert x (y ∷ ys) = ground (arith, sum_map-insert x ys)

    -- A measure summed over the list does not see the order: sorting permutes it.
    pub sum_map-sort_by : (xs : List A) → sum_map (sort_by xs) ≡ sum_map xs
    unfolding sort_by
    sum_map-sort_by [] = refl
    sum_map-sort_by (x ∷ xs) = omega (arith, sum_map-insert x (sort_by xs), sum_map-sort_by xs)
