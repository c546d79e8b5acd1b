-- ===== src/Watchtower/Receipts/Newest.antt =====
-- watchtower/src/receipt_store.rs: the store after a sequence of receipts.
use a.Prelude.{
  ℕ, ◌≡◌, refl, ap, ◌∙◌, String, Option-cases, List, [], ◌∷◌, arith, inl, inr, ltb, if◌then◌else◌,
}
use a.Prelude.Equality.{Pubkey, ◌==◌, string_eq}
use text.Mathlib.TextEquality.{eq_iff}
use a.Prelude.Map.{lookup, lookup-insert}
use a.Watchtower.Receipts.{
  StoredReceipt, ReceiptKey, ReceiptStore, should_store, nonce_of, storage_key, store_receipt,
  get_nonce,
}

module _ (pubkey_to_string : Pubkey → String) (u8_to_string : ℕ → String) where
  -- The receipts one after another.
  abbrev pub store_all : List (ReceiptKey × StoredReceipt) → ReceiptStore → ReceiptStore
  store_all [] receipts = receipts
  store_all ((key, receipt) ∷ arrivals) receipts =
      store_all arrivals (store_receipt pubkey_to_string u8_to_string key receipt receipts).1

  -- The greater of `n` and the nonce of a receipt under the key.
  abbrev pub newer : String → ReceiptKey → StoredReceipt → ℕ → ℕ
  newer key_text key receipt n =
      if key_text == storage_key pubkey_to_string u8_to_string key
      then if ltb n receipt.nonce then receipt.nonce else n
      else n

  abbrev pub newest : String → List (ReceiptKey × StoredReceipt) → ℕ → ℕ
  newest key_text [] n = n
  newest key_text ((key, receipt) ∷ arrivals) n =
      newest key_text arrivals (newer key_text key receipt n)

  nonce-store_receipt :
      (key_text : String) (key : ReceiptKey) (receipt : StoredReceipt) (receipts : ReceiptStore)
      → nonce_of
          (lookup key_text (store_receipt pubkey_to_string u8_to_string key receipt receipts).1)
        ≡ newer key_text key receipt (nonce_of (lookup key_text receipts))
  unfolding store_receipt should_store nonce_of
  nonce-store_receipt key_text key receipt receipts =
      let own = storage_key pubkey_to_string u8_to_string key in
      elim (Option-cases (lookup own receipts)) [
        | inl e ↦ ground (arith, eq_iff key_text own, lookup-insert own key_text receipt receipts)
        | inr (r, e) ↦
            ground (arith, eq_iff key_text own, lookup-insert own key_text receipt receipts)
      ]

  -- Whatever receipts arrive and in whatever order, the store keeps under each key the greatest of
  -- the nonces that arrived under it and the one that it had.
  pub store_all-newest :
      (arrivals : List (ReceiptKey × StoredReceipt)) (key : ReceiptKey) (receipts : ReceiptStore)
      → get_nonce pubkey_to_string u8_to_string key (store_all arrivals receipts)
        ≡ newest
            (storage_key pubkey_to_string u8_to_string key)
            arrivals
            (get_nonce pubkey_to_string u8_to_string key receipts)
  unfolding get_nonce
  store_all-newest [] key receipts = refl
  store_all-newest ((k, r) ∷ arrivals) key receipts =
      let own = storage_key pubkey_to_string u8_to_string key in
      store_all-newest arrivals key (store_receipt pubkey_to_string u8_to_string k r receipts).1
      ∙ ap (newest own arrivals) (nonce-store_receipt own k r receipts)
