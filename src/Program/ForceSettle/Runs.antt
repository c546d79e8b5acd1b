-- ===== src/Program/ForceSettle/Runs.antt =====
-- Many attempts to finalize one force settlement
-- (programs/a402_vault/src/instructions/force_settle_finalize.rs).
use a.Prelude.{
  ℕ, ◌+◌, ◌<◌, ◌≤◌, ◌≡◌, ◌≢◌, ◌⊎◌, refl, true, false, some, List, [], ◌∷◌, arith, inl, inr, u64_mod,
}
use a.Prelude.Int.{ℤ, leb_ℤ, ltb_ℤ}
use a.Prelude.Equality.{Pubkey, bytes_eq, beq_refl}
use a.Prelude.Outcome.{Result-cases, ok, err, panic, checked_add}
use a.Program.State.{ForceSettleRequest, Accounts}
use a.Program.Runtime.{TokenProgram, TokenLaws}
use a.Program.ForceSettle.{
  finalize_request, pay_claimable, claimable_locked, after_payment, without_payment,
  resolve_if_paid,
}
use a.Program.ForceSettle.Dispute.{due, finalize_request-Pays}

zero_or_more : (n : ℕ) → (n ≡ 0) ⊎ (0 < n)
zero_or_more n = omega arith

module _ (p : TokenProgram) where
  open p use {Tokens, amount_of}

  -- Finalization is tried at each of the times, by the same accounts; what fails changes nothing.
  unfoldable pub finalize_all :
      List ℤ
      → Pubkey
      → Pubkey
      → Accounts
      → ForceSettleRequest
      → Tokens
      → ForceSettleRequest × Tokens
  finalize_all [] vault_account recipient accounts request tokens = (request, tokens)
  finalize_all (now ∷ times) vault_account recipient accounts request tokens =
      elim (finalize_request p now vault_account recipient accounts request tokens) [
        | ok paid ↦ finalize_all times vault_account recipient accounts paid.0 paid.1
        | err e ↦ finalize_all times vault_account recipient accounts request tokens
        | panic ↦ finalize_all times vault_account recipient accounts request tokens
      ]

  -- An open force settlement of this vault resolves: once the dispute window is over and the locks
  -- have expired, if the vault has what is due and the token program lets the transfer through,
  -- finalization succeeds, nothing is owed any more and the request is resolved.
  pub finalize_request-Resolves :
      (now : ℤ) (recipient : Pubkey) (accounts : Accounts) (request : ForceSettleRequest)
      (tokens paid : Tokens)
      → request.vault ≡ accounts.vault_key
      → request.is_resolved ≡ false
      → request.recipient_ata ≡ recipient
      → ltb_ℤ request.dispute_deadline now ≡ true
      → leb_ℤ request.max_lock_expires_at now ≡ true
      → due request < u64_mod
      → due request ≤ amount_of tokens accounts.vault_config.vault_token_account
      → p.transfer accounts.vault_config.vault_token_account recipient accounts.vault_key
          (due request)
          tokens
        ≡ some paid
      → (request' : ForceSettleRequest) × (tokens' : Tokens) × (finalize_request p now
            accounts.vault_config.vault_token_account recipient accounts request tokens
          ≡ ok (request', tokens'))
        × (due request' ≡ 0)
        × (request'.is_resolved ≡ true)
  unfolding finalize_request pay_claimable claimable_locked after_payment without_payment
      resolve_if_paid checked_add
  finalize_request-Resolves now recipient accounts request tokens paid own open_ ata over unlocked
        fits solvent transferred =
      elim (zero_or_more (due request)) [
        | inl nothing ↦ (
          record request { is_resolved = true },
          tokens,
          ground (
            arith,
            beq_refl accounts.vault_key,
            beq_refl recipient,
            beq_refl accounts.vault_config.vault_token_account,
          ),
          nothing,
          refl,
        )
        | inr more ↦ (
          record request { free_balance_due = 0; locked_balance_due = 0; is_resolved = true },
          paid,
          ground (
            arith,
            beq_refl accounts.vault_key,
            beq_refl recipient,
            beq_refl accounts.vault_config.vault_token_account,
          ),
          refl,
          refl,
        )
      ]

module _ (p : TokenProgram) (laws : TokenLaws p) where
  open p use {Tokens, amount_of}

  -- However often and whenever finalization is tried, into an account other than the vault's, what
  -- left the vault is exactly what the debt shrank by, so never more than was due.
  pub finalize_all-Pays :
      (times : List ℤ) (vault_account recipient : Pubkey) (accounts : Accounts)
      (request : ForceSettleRequest) (tokens : Tokens)
      → vault_account ≢ recipient
      → amount_of
            (finalize_all p times vault_account recipient accounts request tokens).1
            vault_account
          + due request
        ≡ amount_of tokens vault_account
          + due (finalize_all p times vault_account recipient accounts request tokens).0
  unfolding finalize_all
  finalize_all-Pays [] va rc accounts request tokens differ = refl
  finalize_all-Pays (now ∷ times) va rc accounts request tokens differ =
      elim (Result-cases (finalize_request p now va rc accounts request tokens)) [
        | inl ((request', tokens'), e) ↦
            let first =
              finalize_request-Pays p laws now va rc accounts request request' tokens tokens' differ
                e in
            let rest = finalize_all-Pays times va rc accounts request' tokens' differ in
            rw (e, finalize_all) (omega arith)
        | inr (inl (x, e)) ↦
            rw (e, finalize_all) (finalize_all-Pays times va rc accounts request tokens differ)
        | inr (inr e) ↦
            rw (e, finalize_all) (finalize_all-Pays times va rc accounts request tokens differ)
      ]
