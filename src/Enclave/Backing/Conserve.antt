-- ===== src/Enclave/Backing/Conserve.antt =====
-- Every call, and every run of calls, keeps the vault backed and accounts for its money.
use a.Prelude.{
  ℕ, ◌+◌, ◌≡◌, ◌≢◌, refl, ap, true, false, Bool-cases, String, some, none, List, [], ◌∷◌, arith,
  inl, inr, Option-cases,
}
use a.Prelude.Int.{ℤ}
use a.Prelude.Equality.{Pubkey, nat_eq, string_eq, bytes_eq}
use a.Prelude.Map.{lookup}
use a.Prelude.Outcome.{Result, ok, err, panic}
use a.Enclave.Crypto.{Crypto}
use a.Enclave.Error.{EnclaveError}
use a.Enclave.State.{ChannelId, ChannelState, VaultState}
use a.Enclave.State.Status.{ChannelStatus, open_status, is_open}
use a.Enclave.Asc.Lifecycle.{close_channel_with_settlement_id}
use a.Enclave.Backing.{IsBacked, funds}
use a.Enclave.Backing.Channel.{Preserves}
use a.Enclave.Backing.Withdraw.{
  Authorizes, authorize_withdrawal-Authorizes, expire_pending_withdrawal-succeeds,
  apply_withdrawal-succeeds, apply_deposit-succeeds,
}
use a.Enclave.Backing.Open.{Opens, opened, open_channel_with_id-Opens}
use a.Enclave.Backing.Close.{close_channel-succeeds}
use a.Enclave.Backing.Request.{
  submit_request-Preserves, deliver_adaptor-Preserves, finalize_offchain-Preserves,
  finalize_onchain_claim-Preserves, expire_request-Preserves,
}
use a.Enclave.Backing.Run.{
  Call, deposit, authorize, expire_withdrawal, settle_withdrawal, open_asc, submit, deliver, reveal,
  claim, expire, close, paid_in, paid_out, Allowed, after, run, AllAllowed, total_in, total_out,
  withdrawn,
}

-- Backed again, with `in` more and `out` less.
abbrev pub Accounts : (Pubkey → ℕ) → ℕ → ℕ → VaultState → VaultState → Type 0
Accounts others paid taken v v' = IsBacked others v' × (funds v' + taken ≡ funds v + paid)

at_result :
    {A : Type 0} (others : Pubkey → ℕ) (paid taken : ℕ) (v : VaultState)
    (out : Result EnclaveError A × VaultState) (r : Result EnclaveError A) (v' : VaultState)
    → out ≡ (r, v')
    → Accounts others paid taken v v'
    → Accounts others paid taken v out.1
at_result others paid taken v out r v' e h = rw e h

Authorizes-Accounts :
    (others : Pubkey → ℕ) (v : VaultState) (out : Result EnclaveError Unit × VaultState)
    → IsBacked others v
    → Authorizes others v out
    → Accounts others 0 0 v out.1
Authorizes-Accounts others v (ok x, v') w (w', same) = (w', omega arith)
Authorizes-Accounts others v (err e, v') w same = rw same (w, refl)
Authorizes-Accounts others v (panic, v') w h = absurd h

Opens-Accounts :
    (others : Pubkey → ℕ) (c : ChannelState) (v : VaultState)
    (out : Result EnclaveError Unit × VaultState)
    → IsBacked others v
    → Opens others c v out
    → Accounts others 0 0 v out.1
Opens-Accounts others c v (ok x, v') w (w', same, _) = (w', omega arith)
Opens-Accounts others c v (err e, v') w same = rw same (w, refl)
Opens-Accounts others c v (panic, v') w h = absurd h

Preserves-Accounts :
    {A : Type 0} (others : Pubkey → ℕ) (v : VaultState) (out : Result EnclaveError A × VaultState)
    → Preserves others v out
    → Accounts others 0 0 v out.1
Preserves-Accounts others v (r, v') (_, w', same) = (w', omega arith)

-- A close of a channel that is missing or busy changes nothing.
close_missing :
    (id : ChannelId) (uuid : String) (now : ℤ) (v : VaultState)
    → lookup id v.active_channels ≡ none
    → (close_channel_with_settlement_id id none uuid now v).1 ≡ v
unfolding close_channel_with_settlement_id
close_missing id uuid now v missing = ground arith

close_busy :
    (id : ChannelId) (uuid : String) (now : ℤ) (v : VaultState) (c : ChannelState)
    → lookup id v.active_channels ≡ some c
    → is_open c.status ≡ false
    → (close_channel_with_settlement_id id none uuid now v).1 ≡ v
unfolding close_channel_with_settlement_id
close_busy id uuid now v c found busy = ground arith

is_open→eq : (s : ChannelStatus) → is_open s ≡ true → s ≡ open_status
is_open→eq s h = ground arith

close-Accounts :
    (others : Pubkey → ℕ) (id : ChannelId) (uuid : String) (now : ℤ) (v : VaultState)
    → IsBacked others v
    → ((c : ChannelState)
        → lookup id v.active_channels ≡ some c
        → lookup c.provider_id v.providers ≢ none)
    → Accounts others 0 0 v (close_channel_with_settlement_id id none uuid now v).1
close-Accounts others id uuid now v w known = elim (Option-cases (lookup id v.active_channels)) [
  | inl missing ↦ rw (close_missing id uuid now v missing) (w, refl)
  | inr (c, found) ↦ elim (Bool-cases (is_open c.status)) [
    | inl idle ↦
        let (_, v', done, w', same, _, _, _) =
          close_channel-succeeds others id none uuid now v c w found (is_open→eq c.status idle)
            (known c found) in
        at_result others 0 0 v _ _ v' done (w', omega arith)
    | inr busy ↦ rw (close_busy id uuid now v c found busy) (w, refl)
  ]
]

module _ (c : Crypto) (others : Pubkey → ℕ) where
  -- From a backed vault every allowed call leaves a backed vault, and its money changes by exactly
  -- what the call moved in and out.
  pub after-Accounts :
      (call : Call) (v : VaultState)
      → IsBacked others v
      → Allowed call v
      → Accounts others (paid_in call) (paid_out call v) v (after c call v)
  unfolding after
  after-Accounts (deposit client amount) v w (fits, room) =
      let (v', done, w', grown) = apply_deposit-succeeds others client amount v w fits room in
      at_result others amount 0 v _ _ v' done (w', omega arith)
  after-Accounts (authorize p) v w fresh =
      Authorizes-Accounts others v _ w (authorize_withdrawal-Authorizes others p v w fresh)
  after-Accounts (expire_withdrawal n) v w (p, found, positive) =
      let (v', done, w', same) = expire_pending_withdrawal-succeeds others n p v w found positive in
      at_result others 0 0 v _ _ v' done (w', omega arith)
  after-Accounts (settle_withdrawal n) v w (p, found, positive, room) =
      let (v', done, w', less) = apply_withdrawal-succeeds others n p v w found positive room in
      at_result others 0 (withdrawn (lookup n v.pending_withdrawals)) v _ _ v' done
        (w', omega (arith, ap withdrawn found))
  after-Accounts (open_asc id client provider_id amount now) v w fresh =
      Opens-Accounts others (opened id client provider_id amount now) v _ w
        (open_channel_with_id-Opens others id client provider_id amount now v w fresh)
  after-Accounts (submit id request_id amount hash now) v w (room, t) =
      Preserves-Accounts others v _
        (submit_request-Preserves others id v w room request_id amount hash now t)
  after-Accounts (deliver id point pre_sig encrypted hash pk now) v w room =
      Preserves-Accounts others v _
        (deliver_adaptor-Preserves others id v w room c point pre_sig encrypted hash pk now)
  after-Accounts (reveal id secret now) v w room =
      Preserves-Accounts others v _ (finalize_offchain-Preserves others id v w room c secret now)
  after-Accounts (claim id r s now) v w room =
      Preserves-Accounts others v _ (finalize_onchain_claim-Preserves others id v w room c r s now)
  after-Accounts (expire id now) v w room =
      Preserves-Accounts others v _ (expire_request-Preserves others id v w room now)
  after-Accounts (close id uuid now) v w known = close-Accounts others id uuid now v w known

  -- From a backed vault, any run of allowed calls on balances, withdrawals and channels ends in a
  -- backed vault, in which every locked unit of a client backs a channel, a pending withdrawal or
  -- an outside reservation; the money held grew by the deposits of the run, shrank by its settled
  -- withdrawals, and changed by nothing else.
  pub run-Accounts :
      (calls : List Call) (v : VaultState)
      → IsBacked others v
      → AllAllowed c calls v
      → Accounts others (total_in c calls) (total_out c calls v) v (run c calls v)
  unfolding run
  run-Accounts [] v w h = (w, refl)
  run-Accounts (call ∷ calls) v w (h, hs) =
      let (w1, moved1) = after-Accounts call v w h in
      let (w2, moved2) = run-Accounts calls (after c call v) w1 hs in (w2, omega arith)
