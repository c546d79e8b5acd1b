-- ===== src/Enclave/Batch/Chunks/Cut.antt =====
-- enclave/src/batch.rs: the chunks of `build_batch_chunks`, their sizes and where they start.
use a.Prelude.{
  ℕ, zero, suc, ◌+◌, ◌-◌, ◌*◌, ◌/◌, ◌%◌, ◌≤◌, ◌<◌, ◌≡◌, ◌⊎◌, inl, inr, refl, ap, sym, ◌∙◌,
  drop-drop, List, [], ◌∷◌, ◌++◌, length, take, drop, ltb, if◌then◌else◌, u8_mod, arith,
  length-drop, length-take, take-append-drop,
}
use native.Mathlib.Nat.{div-add-mod, mod-lt}
use a.Prelude.Outcome.{ok}
use a.Prelude.Fallible.{index_range, index_range-eq_ok}
use a.Enclave.Batch.{PreparedSettlement, BatchError}
use a.Enclave.Batch.Chunks.{BatchChunk, cut_chunks, build_batch_chunks}

-- The entries of the chunks, in order.
abbrev pub flatten : List BatchChunk → List PreparedSettlement
flatten [] = []
flatten (c ∷ cs) = c.entries ++ flatten cs

-- Every chunk has one or two entries, and says where it starts.
abbrev pub AreChunks : ℕ → List BatchChunk → Type 0
AreChunks start [] = Unit
AreChunks start (c ∷ cs) =
    (c.start_index ≡ start % u8_mod)
    × (0 < length c.entries)
    × (length c.entries ≤ 2)
    × AreChunks (start + length c.entries) cs

-- Sizes of one or two: two, with nothing over, or one and some with one more.
abbrev AreSizes : ℕ → ℕ → Type 0
AreSizes base extra = (base ≡ 1) ⊎ ((base ≡ 2) × (extra ≡ 0))

sizes_lem :
    (n parts base extra : ℕ)
    → parts * base + extra ≡ n
    → extra < parts
    → parts ≤ n
    → n ≤ 2 * parts
    → AreSizes base extra
sizes_lem n parts zero extra e x l u = absurd (omega arith)
sizes_lem n parts (suc zero) extra e x l u = inl refl
sizes_lem n parts (suc (suc zero)) extra e x l u = inr (refl, omega arith)
sizes_lem n parts (suc (suc (suc b))) extra e x l u = absurd (omega arith)

abbrev Chunked : List PreparedSettlement → ℕ → ℕ → List BatchChunk → Type 0
Chunked entries left start chunks =
    (flatten chunks ≡ drop start entries) × AreChunks start chunks × (length chunks ≡ left)

drop_end : {A : Type 0} (n : ℕ) (xs : List A) → n ≡ length xs → drop n xs ≡ []
drop_end zero [] h = refl
drop_end zero (x ∷ xs) h = absurd (omega arith)
drop_end (suc n) [] h = refl
drop_end (suc n) (x ∷ xs) h = drop_end n xs (omega arith)

module _ (entries : List PreparedSettlement) (base extra : ℕ) (sizes : AreSizes base extra) where
  -- The size of the next chunk, and what is over after it.
  abbrev size_at : ℕ → ℕ
  size_at idx = base + (if ltb idx extra then 1 else 0)

  size_bounds : (idx : ℕ) → (0 < size_at idx) × (size_at idx ≤ 2)
  size_bounds idx = elim sizes [ inl e ↦ ground arith | inr e ↦ ground arith ]

  size_left :
      (left idx start n : ℕ)
      → start + (suc left * base + (extra - idx)) ≡ n
      → extra ≤ idx + suc left
      → (start + size_at idx + (left * base + (extra - (idx + 1))) ≡ n)
        × (extra ≤ idx + 1 + left)
        × (start + size_at idx ≤ n)
  size_left left idx start n h k = elim sizes [
    | inl e ↦
        let l : left * base ≡ left = rw e (omega arith) in
        let m : suc left * base ≡ suc left = rw e (omega arith) in ground arith
    | inr e ↦
        let l : left * base ≡ 2 * left = rw e.0 (omega arith) in
        let m : suc left * base ≡ 2 * suc left = rw e.0 (omega arith) in ground arith
  ]

  cut_chunks-Chunked :
      (left idx start : ℕ)
      → start + (left * base + (extra - idx)) ≡ length entries
      → extra ≤ idx + left
      → (chunks : List BatchChunk) × (cut_chunks entries base extra left idx start ≡ ok chunks)
        × Chunked entries left start chunks
  unfolding cut_chunks
  cut_chunks-Chunked zero idx start h k =
      ([], refl, (sym (drop_end start entries (omega arith)), tt, refl))
  cut_chunks-Chunked (suc left) idx start h k =
      let next = size_left left idx start (length entries) h k in
      let (chunks, e, chunked) =
        cut_chunks-Chunked left (idx + 1) (start + size_at idx) next.0 next.1 in
      let size = size_bounds idx in
      let slice = take (size_at idx) (drop start entries) in
      let cut : index_range {E = BatchError} entries start (start + size_at idx) ≡ ok slice =
        index_range-eq_ok entries start (start + size_at idx) (omega arith) next.2
        ∙ ap (λ n. ok (take n (drop start entries))) (omega arith) in
      let width : length slice ≡ size_at idx = omega (
        arith,
        length-take (size_at idx) (drop start entries),
        length-drop start entries,
        next.2,
      ) in
      (
        record { start_index = start % u8_mod; entries = slice } ∷ chunks,
        rw (cut, e) refl,
        (
          rw chunked.0 (
              ap (λ r. slice ++ r) (sym (drop-drop start (size_at idx) entries))
              ∙ take-append-drop (size_at idx) (drop start entries)),
          (refl, omega (arith, width, size), omega (arith, width, size), rw width chunked.1),
          ap suc chunked.2,
        ),
      )

-- The entries of a batch are cut without a panic, in order and without loss or repetition, into the
-- least number of chunks of at most two; no chunk is empty, and each names the index of its first
-- entry as a byte.
pub build_batch_chunks-AreChunks :
    (entries : List PreparedSettlement)
    → (chunks : List BatchChunk) × (build_batch_chunks entries ≡ ok chunks)
      × (flatten chunks ≡ entries)
      × AreChunks 0 chunks
      × (length chunks ≡ (length entries + 1) / 2)
unfolding build_batch_chunks
build_batch_chunks-AreChunks [] = ([], refl, refl, tt, refl)
build_batch_chunks-AreChunks (e ∷ es) =
    let n = suc (length es) in
    let parts = (n + 2 - 1) / 2 in
    let whole = div-add-mod n parts in
    let over : n % parts < parts = mod-lt n (omega arith) in
    let sizes : AreSizes (n / parts) (n % parts) =
      sizes_lem n parts (n / parts) (n % parts) whole over (omega arith) (omega arith) in
    let (chunks, run, chunked) =
      cut_chunks-Chunked (e ∷ es) (n / parts) (n % parts) sizes parts 0 0 (omega (arith, whole))
        (omega (arith, over)) in
    (chunks, run, chunked.0, chunked.1, omega (arith, chunked.2))
