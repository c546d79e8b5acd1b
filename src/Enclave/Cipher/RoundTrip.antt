-- ===== src/Enclave/Cipher/RoundTrip.antt =====
-- Decryption undoes encryption under the same key (enclave/src/asc_manager.rs).
use a.Prelude.{
  ℕ, zero, suc, ◌+◌, ◌≤◌, ◌<◌, ◌≡◌, ◌⊎◌, inl, inr, refl, ap, ◌∙◌, [], ◌∷◌, ◌++◌, arith, length,
  take, drop, length-append, length-take, length-drop, take-append, drop-append, take-append-drop,
}
use mathlib.Core.Path.{ap₂}
use native.Mathlib.Nat.{le_refl}
use mathlib.Core.List.{append-nil}
use a.Prelude.Equality.{Bytes}
use a.Enclave.Cipher.{
  chunks, xor_bytes, keystream_block, decrypt_blocks, decrypt_with_scalar, encrypt_with_scalar,
}
use a.Enclave.Cipher.Xor.{xor_cancel}

le_total : (a b : ℕ) → (a ≤ b) ⊎ (b ≤ a)
le_total a b = omega arith

pub length-xor_bytes :
    (xs ks : Bytes) → length xs ≤ length ks → length (xor_bytes xs ks) ≡ length xs
unfolding xor_bytes
length-xor_bytes [] ks h = refl
length-xor_bytes (x ∷ xs) [] h = absurd (omega arith)
length-xor_bytes (x ∷ xs) (k ∷ ks) h = ap suc (length-xor_bytes xs ks (omega arith))

pub xor_bytes_twice : (xs ks : Bytes) → length xs ≤ length ks → xor_bytes (xor_bytes xs ks) ks ≡ xs
unfolding xor_bytes
xor_bytes_twice [] ks h = refl
xor_bytes_twice (x ∷ xs) [] h = absurd (omega arith)
xor_bytes_twice (x ∷ xs) (k ∷ ks) h =
    ap₂ (λ b bs. b ∷ bs) (xor_cancel x k) (xor_bytes_twice xs ks (omega arith))

chunks-suc :
    (f : ℕ) (ys : Bytes) → 0 < length ys → chunks (suc f) ys ≡ take 32 ys ∷ chunks f (drop 32 ys)
unfolding chunks
chunks-suc f [] h = absurd (omega arith)
chunks-suc f (y ∷ ys) h = refl

chunks-nil : (f : ℕ) → chunks f [] ≡ []
unfolding chunks
chunks-nil zero = refl
chunks-nil (suc f) = refl

drop_all : (n : ℕ) (xs : Bytes) → length xs ≤ n → drop n xs ≡ []
drop_all zero [] h = refl
drop_all (suc n) [] h = refl
drop_all zero (x ∷ xs) h = absurd (omega arith)
drop_all (suc n) (x ∷ xs) h = drop_all n xs (omega arith)

take_all : (n : ℕ) (xs : Bytes) → length xs ≤ n → take n xs ≡ xs
take_all zero [] h = refl
take_all (suc n) [] h = refl
take_all zero (x ∷ xs) h = absurd (omega arith)
take_all (suc n) (x ∷ xs) h = ap (λ l. x ∷ l) (take_all n xs (omega arith))

split-append :
    (n : ℕ) (p q : Bytes)
    → (length p ≡ n) ⊎ ((length p ≤ n) × (q ≡ []))
    → (take n (p ++ q) ≡ p) × (drop n (p ++ q) ≡ q)
split-append n p q (inl full) = (take-append n p q full, drop-append n p q full)
split-append n p q (inr (short, done)) =
    rw (done, append-nil) (take_all n p short, drop_all n p short)

module _ (sha256 : Bytes → Bytes) (digest : (m : Bytes) → length (sha256 m) ≡ 32) where
  abbrev block : Bytes → ℕ → Bytes
  block key i = keystream_block sha256 key i

  length-block : (key : Bytes) (i : ℕ) → length (block key i) ≡ 32
  unfolding keystream_block
  length-block key i = digest _

  -- The first chunk and the rest of what the cipher makes.
  first_chunk :
      (key : Bytes) (i f : ℕ) (xs : Bytes)
      → 0 < length xs
      → decrypt_blocks sha256 key i (chunks (suc f) xs)
        ≡ xor_bytes (take 32 xs) (block key i)
          ++ decrypt_blocks sha256 key (i + 1) (chunks f (drop 32 xs))
  unfolding decrypt_blocks
  first_chunk key i f xs h = rw (chunks-suc f xs h)

  no_chunks : (key : Bytes) (i f : ℕ) → decrypt_blocks sha256 key i (chunks f []) ≡ []
  unfolding decrypt_blocks
  no_chunks key i f = rw (chunks-nil f)

  fits_block : (key : Bytes) (i : ℕ) (xs : Bytes) → length (take 32 xs) ≤ length (block key i)
  fits_block key i xs = omega (arith, length-take 32 xs, length-block key i)

  pub length-decrypt_blocks :
      (key : Bytes) (i f : ℕ) (xs : Bytes)
      → length xs ≤ f
      → length (decrypt_blocks sha256 key i (chunks f xs)) ≡ length xs
  length-decrypt_blocks key i f [] h = ap length (no_chunks key i f)
  length-decrypt_blocks key i zero (x ∷ xs) h = absurd (omega arith)
  length-decrypt_blocks key i (suc f) (x ∷ xs) h =
      let shorter = length-drop 32 (x ∷ xs) in
      let tail = length-decrypt_blocks key (i + 1) f (drop 32 (x ∷ xs)) (omega arith) in
      let head = length-xor_bytes (take 32 (x ∷ xs)) (block key i) (fits_block key i (x ∷ xs)) in
      ap length (first_chunk key i f (x ∷ xs) (omega arith))
      ∙ length-append (xor_bytes (take 32 (x ∷ xs)) (block key i)) _
      ∙ omega (arith, length-take 32 (x ∷ xs))

  -- The output of one pass is cut at the same places by the next.
  recut :
      (key : Bytes) (i f : ℕ) (xs : Bytes)
      → (length (xor_bytes (take 32 xs) (block key i)) ≡ 32)
        ⊎ ((length (xor_bytes (take 32 xs) (block key i)) ≤ 32)
            × (decrypt_blocks sha256 key (i + 1) (chunks f (drop 32 xs)) ≡ []))
  recut key i f xs =
      let head = length-xor_bytes (take 32 xs) (block key i) (fits_block key i xs) in
      let cut = length-take 32 xs in
      elim (le_total 32 (length xs)) [
        | inl long ↦ inl (omega arith)
        | inr short ↦ inr (
          omega arith,
          ap (λ l. decrypt_blocks sha256 key (i + 1) (chunks f l)) (drop_all 32 xs short)
              ∙ no_chunks key (i + 1) f,
        )
      ]

  pub decrypt_blocks_twice :
      (key : Bytes) (i f : ℕ) (xs : Bytes)
      → length xs ≤ f
      → decrypt_blocks sha256 key i (chunks f (decrypt_blocks sha256 key i (chunks f xs))) ≡ xs
  decrypt_blocks_twice key i f [] h = rw (no_chunks key i f) (no_chunks key i f)
  decrypt_blocks_twice key i zero (x ∷ xs) h = absurd (omega arith)
  decrypt_blocks_twice key i (suc f) (x ∷ xs) h =
      let head = xor_bytes (take 32 (x ∷ xs)) (block key i) in
      let rest = decrypt_blocks sha256 key (i + 1) (chunks f (drop 32 (x ∷ xs))) in
      let cut = split-append 32 head rest (recut key i f (x ∷ xs)) in
      let same = length-decrypt_blocks key i (suc f) (x ∷ xs) h in
      let first = first_chunk key i f (x ∷ xs) (omega arith) in
      let shorter = length-drop 32 (x ∷ xs) in
      first_chunk key i f (decrypt_blocks sha256 key i (chunks (suc f) (x ∷ xs))) (omega arith)
      ∙ rw (first, cut.0, cut.1)
          (ap₂ (λ p q. p ++ q)
              (xor_bytes_twice (take 32 (x ∷ xs)) (block key i) (fits_block key i (x ∷ xs)))
              (decrypt_blocks_twice key (i + 1) f (drop 32 (x ∷ xs)) (omega arith))
            ∙ take-append-drop 32 (x ∷ xs))

  -- With a digest of 32 bytes, decrypting what was encrypted under the same key gives the plain
  -- text, of any length.
  pub decrypt-encrypt :
      (plaintext key : Bytes)
      → decrypt_with_scalar sha256 (encrypt_with_scalar sha256 plaintext key) key ≡ plaintext
  unfolding encrypt_with_scalar decrypt_with_scalar
  decrypt-encrypt plaintext key =
      let same =
        length-decrypt_blocks key 0 (length plaintext) plaintext (le_refl (length plaintext)) in
      rw same (decrypt_blocks_twice key 0 (length plaintext) plaintext (le_refl (length plaintext)))
