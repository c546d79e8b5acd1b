-- ===== src/Prelude/Map.antt =====
-- `DashMap`: an association list in which every key stands once, and the sum of a measure over it.
use Prim.Native.Nat.{ℕ, ◌+◌, ◌≤◌}
use mathlib.Core.Path.{◌≡◌, refl}
use mathlib.Core.Logic.{◌⊎◌, inl, inr}
use mathlib.Core.Bool.{Bool, true, false}
use mathlib.Core.Option.{Option, none, some}
use mathlib.Core.List.{List, [], ◌∷◌}
use native.Mathlib.Omega.{arith}
use a.Prelude.Tests.{Option-cases, if◌then◌else◌}
use a.Prelude.Equality.{Eq, ◌==◌}

abbrev pub Map : Type 0 → Type 0 → Type 0
Map K V = List (K × V)

module _ {K V : Type 0} ⦃e : Eq K⦄ where
  unfoldable pub lookup : K → Map K V → Option V
  lookup k [] = none
  lookup k ((j, v) ∷ m) = if k == j then some v else lookup k m

  unfoldable pub insert : K → V → Map K V → Map K V
  insert k v [] = (k, v) ∷ []
  insert k v ((j, w) ∷ m) = if k == j then (k, v) ∷ m else (j, w) ∷ insert k v m

  unfoldable pub erase : K → Map K V → Map K V
  erase k [] = []
  erase k ((j, w) ∷ m) = if k == j then m else (j, w) ∷ erase k m

  -- Every key stands once.
  abbrev pub IsMap : Map K V → Type 0
  IsMap [] = Unit
  IsMap ((k, v) ∷ m) = (lookup k m ≡ none) × IsMap m

  pub lookup-insert :
      (k j : K) (v : V) (m : Map K V)
      → lookup j (insert k v m) ≡ (if j == k then some v else lookup j m)
  unfolding lookup insert
  lookup-insert k j v [] = refl
  lookup-insert k j v ((i, w) ∷ m) =
      ground (arith, e.beq_iff k i, e.beq_iff j i, e.beq_iff j k, lookup-insert k j v m)

  pub lookup-erase :
      (k j : K) (m : Map K V)
      → IsMap m
      → lookup j (erase k m) ≡ (if j == k then none else lookup j m)
  unfolding lookup erase
  lookup-erase k j [] h = ground arith
  lookup-erase k j ((i, w) ∷ m) h =
      ground (arith, e.beq_iff k i, e.beq_iff j i, e.beq_iff j k, lookup-erase k j m h.1)

  pub lookup-insert_self : (k : K) (v : V) (m : Map K V) → lookup k (insert k v m) ≡ some v
  lookup-insert_self k v m = ground (arith, lookup-insert k k v m, e.beq_iff k k)

  pub lookup-erase_self : (k : K) (m : Map K V) → IsMap m → lookup k (erase k m) ≡ none
  lookup-erase_self k m u = ground (arith, lookup-erase k k m u, e.beq_iff k k)

  -- Where an entry of an updated map comes from.
  pub lookup-insert_inv :
      (k j : K) (v w : V) (m : Map K V)
      → lookup j (insert k v m) ≡ some w
      → (j ≡ k) × (v ≡ w) ⊎ (lookup j m ≡ some w)
  lookup-insert_inv k j v w m h = ground (arith, lookup-insert k j v m, e.beq_iff j k)

  pub lookup-erase_inv :
      (k j : K) (w : V) (m : Map K V)
      → IsMap m
      → lookup j (erase k m) ≡ some w
      → lookup j m ≡ some w
  lookup-erase_inv k j w m u h = ground (arith, lookup-erase k j m u)

  pub insert-IsMap : (k : K) (v : V) (m : Map K V) → IsMap m → IsMap (insert k v m)
  unfolding lookup insert
  insert-IsMap k v [] h = (refl, tt)
  insert-IsMap k v ((i, w) ∷ m) h =
      ground (arith, e.beq_iff k i, e.beq_iff i k, insert-IsMap k v m h.1, lookup-insert k i v m)

  pub erase-IsMap : (k : K) (m : Map K V) → IsMap m → IsMap (erase k m)
  unfolding lookup erase
  erase-IsMap k [] h = tt
  erase-IsMap k ((i, w) ∷ m) h =
      ground (arith, e.beq_iff k i, e.beq_iff i k, erase-IsMap k m h.1, lookup-erase k i m h.1)

  -- Putting back what an entry held changes nothing.
  pub insert-lookup : (k : K) (v : V) (m : Map K V) → lookup k m ≡ some v → insert k v m ≡ m
  unfolding lookup insert
  insert-lookup k v [] h = cc
  insert-lookup k v ((i, w) ∷ m) h = ground (arith, e.beq_iff k i, insert-lookup k v m)

  pub insert-insert : (k : K) (v w : V) (m : Map K V) → insert k w (insert k v m) ≡ insert k w m
  unfolding insert
  insert-insert k v w [] = ground (arith, e.beq_iff k k)
  insert-insert k v w ((i, u) ∷ m) =
      ground (arith, e.beq_iff k i, e.beq_iff k k, insert-insert k v w m)

  pub erase-insert : (k : K) (v : V) (m : Map K V) → lookup k m ≡ none → erase k (insert k v m) ≡ m
  unfolding lookup insert erase
  erase-insert k v [] h = ground (arith, e.beq_iff k k)
  erase-insert k v ((i, u) ∷ m) h = ground (arith, e.beq_iff k i, e.beq_iff k k, erase-insert k v m)

  module _ (f : V → ℕ) where
    unfoldable pub sum_by : Map K V → ℕ
    sum_by [] = 0
    sum_by ((_, v) ∷ m) = f v + sum_by m

    pub sum_by-insert :
        (k : K) (v old : V) (m : Map K V)
        → lookup k m ≡ some old
        → sum_by (insert k v m) + f old ≡ sum_by m + f v
    unfolding lookup insert sum_by
    sum_by-insert k v old [] h = cc
    sum_by-insert k v old ((i, w) ∷ m) h = ground (arith, sum_by-insert k v old m)

    pub sum_by-insert_new :
        (k : K) (v : V) (m : Map K V) → lookup k m ≡ none → sum_by (insert k v m) ≡ sum_by m + f v
    unfolding lookup insert sum_by
    sum_by-insert_new k v [] h = omega arith
    sum_by-insert_new k v ((i, w) ∷ m) h = ground (arith, sum_by-insert_new k v m)

    pub sum_by-erase :
        (k : K) (old : V) (m : Map K V)
        → lookup k m ≡ some old
        → sum_by (erase k m) + f old ≡ sum_by m
    unfolding lookup erase sum_by
    sum_by-erase k old [] h = cc
    sum_by-erase k old ((i, w) ∷ m) h = ground (arith, sum_by-erase k old m)

    pub le-sum_by : (k : K) (v : V) (m : Map K V) → lookup k m ≡ some v → f v ≤ sum_by m
    unfolding lookup sum_by
    le-sum_by k v [] h = cc
    le-sum_by k v ((i, w) ∷ m) h = ground (arith, le-sum_by k v m)

-- Entries found by a test on their values, in the order of iteration.
module _ {K V : Type 0} where
  unfoldable pub find_entry : (V → Bool) → Map K V → Option (K × V)
  find_entry test [] = none
  find_entry test ((k, v) ∷ m) =
      let rest = find_entry test m in elim (test v) [ true ↦ some (k, v) | false ↦ rest ]

  unfoldable pub values : Map K V → List V
  values [] = []
  values ((k, v) ∷ m) = v ∷ values m

-- `get_mut(key)` followed by a change of the entry, if there is one.
unfoldable pub adjust : {K V : Type 0} → ⦃e : Eq K⦄ → K → (V → V) → Map K V → Map K V
unfolding lookup insert
adjust k f m = elim (lookup k m) [ none ↦ m | some v ↦ insert k (f v) m ]

module _ {K V : Type 0} ⦃e : Eq K⦄ where
  pub adjust-IsMap : (k : K) (f : V → V) (m : Map K V) → IsMap m → IsMap (adjust k f m)
  unfolding adjust
  adjust-IsMap k f m h = elim (Option-cases (lookup k m)) [
    | inl none_there ↦ rw (none_there, adjust) h
    | inr (v, there) ↦ rw (there, adjust) (insert-IsMap k (f v) m h)
  ]

  -- What a test finds in a map is the entry of its key.
  pub find_entry-lookup :
      (test : V → Bool) (m : Map K V) (k : K) (v : V)
      → IsMap m
      → find_entry test m ≡ some (k, v)
      → (lookup k m ≡ some v) × (test v ≡ true)
  unfolding find_entry lookup
  find_entry-lookup test [] k v u h = cc
  find_entry-lookup test ((j, w) ∷ m) k v u h =
      ground (arith, find_entry-lookup test m k v, e.beq_iff k j)

  module _ (g : V → ℕ) where
    pub sum_by-erase_le : (k : K) (m : Map K V) → sum_by g (erase k m) ≤ sum_by g m
    unfolding erase sum_by
    sum_by-erase_le k [] = omega arith
    sum_by-erase_le k ((i, w) ∷ m) = ground (arith, sum_by-erase_le k m)

    pub sum_by-insert_le :
        (k : K) (v old : V) (m : Map K V)
        → lookup k m ≡ some old
        → g v ≤ g old
        → sum_by g (insert k v m) ≤ sum_by g m
    sum_by-insert_le k v old m h l = omega (arith, sum_by-insert g k v old m h)

    pub sum_by-adjust_le :
        (k : K) (f : V → V) (m : Map K V)
        → ((v : V) → g (f v) ≤ g v)
        → sum_by g (adjust k f m) ≤ sum_by g m
    unfolding adjust
    sum_by-adjust_le k f m h = elim (Option-cases (lookup k m)) [
      | inl none_there ↦ rw (none_there, adjust) (omega arith)
      | inr (v, there) ↦ rw (there, adjust) (sum_by-insert_le k (f v) v m there (h v))
    ]
