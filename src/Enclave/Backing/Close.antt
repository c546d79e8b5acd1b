-- ===== src/Enclave/Backing/Close.antt =====
-- Closing channels (enclave/src/asc_manager.rs) keeps the vault backed.
use mathlib.Core.Path.{subst, fun_ext}
use a.Prelude.{
  ℕ, zero, suc, ◌+◌, ◌-◌, ◌≤◌, ◌<◌, ◌≡◌, ◌≢◌, refl, sym, ◌∙◌, ap, true, String, Option, some, none,
  arith, inl, inr, Option-cases, u64_mod, ltb, if◌then◌else◌, [], ◌∷◌, ◌++◌,
}
use a.Prelude.Int.{ℤ}
use a.Prelude.Equality.{Pubkey, nat_eq, string_eq, bytes_eq}
use a.Prelude.Map.{
  lookup-erase_self, lookup, insert, insert-IsMap, sum_by-insert, sum_by-insert_new, le-sum_by,
}
use a.Prelude.Outcome.{add_u64-eq_ok, ok, add_u64, when}
use a.Enclave.Error.{EnclaveError, client_not_found}
use a.Enclave.State.{
  ChannelId, ChannelState, ClientBalance, ProviderCredit, ProviderRegistration, VaultState,
}
use a.Enclave.State.Status.{open_status}
use a.Enclave.Access.{at_balance}
use a.Enclave.Asc.Consistent.{IsConsistent}
use a.Enclave.Asc.Lifecycle.{
  close_channel_with_settlement_id, credit_provider, return_funds, CloseOutcome, settlement_id_or,
}
use a.Enclave.Backing.{IsBacked, credit_of, funds}
use a.Enclave.Backing.Balance.{
  plus, with_balance, funds-with_balance, holdings-le-funds, without_channel,
  without_channel-IsBacked, locked_client,
}
use a.Enclave.Backing.Reserve.{at_balance_found, unlock-IsBacked}

abbrev returned : ℕ → ℕ → ClientBalance → ClientBalance
returned t f b = record b { free = b.free + f; locked = b.locked - t }

return_funds_lem :
    (t f : ℕ) (b : ClientBalance)
    → b.free + f < u64_mod
    → return_funds t f b ≡ (ok tt, returned t f b)
unfolding return_funds add_u64
return_funds_lem t f b h = ground arith

-- The first assignments of a close: `t` leaves the client's locked balance and `f` of it is free.
return_step :
    (others : Pubkey → ℕ) (client : Pubkey) (t f : ℕ) (v : VaultState)
    → IsBacked (plus others client t) v
    → f ≤ t
    → (v' : VaultState) × (when (ltb 0 t) (at_balance client client_not_found (return_funds t f)) v
        ≡ (ok tt, v'))
      × IsBacked others v'
      × (funds v' + t ≡ funds v + f)
      × (v'.provider_credits ≡ v.provider_credits)
      × (v'.providers ≡ v.providers)
      × (v'.active_channels ≡ v.active_channels)
return_step others client zero f v w small = (
  v,
  refl,
  subst (λ o. IsBacked o v) (fun_ext (λ k. ground arith)) w,
  omega arith,
  refl,
  refl,
  refl,
)
return_step others client (suc n) f v w small =
    let t = suc n in
    let positive : ltb 0 t ≡ true = ground arith in
    let (b, found, enough) = locked_client others client t v w (omega arith) in
    let fits = holdings-le-funds client b b v found in
    let moved = funds-with_balance client b (returned t f b) v found in
    (
      with_balance client (returned t f b) v,
      rw positive (
          at_balance_found client client_not_found (return_funds t f) v b found
          ∙ rw (return_funds_lem t f b (omega (arith, w.supply)))),
      unlock-IsBacked others client t v b (returned t f b) w found (omega arith) (omega arith),
      omega arith,
      refl,
      refl,
      refl,
    )

abbrev pub with_credit : String → ProviderCredit → VaultState → VaultState
with_credit id credit v = record v { provider_credits = insert id credit v.provider_credits }

pub with_credit-IsBacked :
    (others : Pubkey → ℕ) (id : String) (credit : ProviderCredit) (v : VaultState)
    → IsBacked others v
    → funds (with_credit id credit v) < u64_mod
    → IsBacked others (with_credit id credit v)
with_credit-IsBacked others id credit v w fits = record {
  balances_map = w.balances_map;
  channels_map = w.channels_map;
  withdrawals_map = w.withdrawals_map;
  credits_map = insert-IsMap id credit v.provider_credits w.credits_map;
  consistent = w.consistent;
  covered = w.covered;
  supply = fits;
}

-- The credit after a close: a new one, or the old one raised.
abbrev credit_after :
    Option ProviderCredit → ProviderRegistration → String → ℕ → String → ℤ → ProviderCredit
credit_after none reg id amount settlement_id now = record {
  provider_id = id;
  settlement_token_account = reg.settlement_token_account;
  credited_amount = amount;
  oldest_credit_at = now;
  settlement_ids = settlement_id ∷ [];
}
credit_after (some credit) reg id amount settlement_id now = record credit {
  credited_amount = credit.credited_amount + amount;
  settlement_ids = credit.settlement_ids ++ settlement_id ∷ [];
}

credit_provider_lem :
    (id : String) (amount : ℕ) (sid : String) (now : ℤ) (v : VaultState)
    (reg : ProviderRegistration)
    → lookup id v.providers ≡ some reg
    → funds v + amount < u64_mod
    → credit_provider id amount sid now v ≡ (
      ok tt,
      with_credit id (credit_after (lookup id v.provider_credits) reg id amount sid now) v,
    )
unfolding credit_provider add_u64
credit_provider_lem id amount sid now v reg registered fits =
    elim (Option-cases (lookup id v.provider_credits)) [
      | inl new ↦ ground arith
      | inr (credit, old) ↦ ground (arith, le-sum_by credit_of id credit v.provider_credits old)
    ]

funds-with_credit :
    (id : String) (amount : ℕ) (sid : String) (now : ℤ) (v : VaultState)
    (reg : ProviderRegistration)
    → funds (with_credit id (credit_after (lookup id v.provider_credits) reg id amount sid now) v)
      ≡ funds v + amount
funds-with_credit id amount sid now v reg = elim (Option-cases (lookup id v.provider_credits)) [
  | inl new ↦ rw new (
      omega (
        arith,
        sum_by-insert_new credit_of id (credit_after none reg id amount sid now) v.provider_credits
            new,
      ))
  | inr (credit, old) ↦ rw old (
      omega (
        arith,
        sum_by-insert credit_of id (credit_after (some credit) reg id amount sid now) credit
            v.provider_credits old,
      ))
]

-- The last assignment of a close: the provider is credited with what the channel earned.
credit_step :
    (others : Pubkey → ℕ) (id : String) (amount : ℕ) (sid : String) (now : ℤ) (v : VaultState)
    → IsBacked others v
    → lookup id v.providers ≢ none
    → funds v + amount < u64_mod
    → (v' : VaultState) × (when (ltb 0 amount) (credit_provider id amount sid now) v ≡ (ok tt, v'))
      × IsBacked others v'
      × (funds v' ≡ funds v + amount)
      × (v'.active_channels ≡ v.active_channels)
credit_step others id zero sid now v w known fits = (v, refl, w, omega arith, refl)
credit_step others id (suc n) sid now v w known fits = elim (Option-cases (lookup id v.providers)) [
  | inl unknown ↦ absurd (known unknown)
  | inr (reg, registered) ↦
      let positive : ltb 0 (suc n) ≡ true = ground arith in
      let grown = funds-with_credit id (suc n) sid now v reg in
      (
        with_credit id (credit_after (lookup id v.provider_credits) reg id (suc n) sid now) v,
        rw positive (credit_provider_lem id (suc n) sid now v reg registered fits),
        with_credit-IsBacked others id
            (credit_after (lookup id v.provider_credits) reg id (suc n) sid now) v w (omega arith),
        grown,
        refl,
      )
]

open_locks_nothing :
    (c : ChannelState) → IsConsistent c → c.status ≡ open_status → c.client_locked ≡ 0
open_locks_nothing c k opened = ground (arith, k.matches)

-- What a successful close reports.
abbrev close_outcome : ChannelState → VaultState → Option String → String → CloseOutcome
close_outcome c v settlement uuid = record {
  client = c.client;
  provider_id = c.provider_id;
  returned_to_client = c.client_free;
  provider_earned = c.provider_earned;
  settlement_id = if ltb 0 c.provider_earned then some (settlement_id_or settlement uuid) else none;
  closed_channel = c;
  previous_provider_credit =
      if ltb 0 c.provider_earned then lookup c.provider_id v.provider_credits else none;
}

without_open_channel-IsBacked :
    (others : Pubkey → ℕ) (id : ChannelId) (c : ChannelState) (v : VaultState)
    → IsBacked others v
    → lookup id v.active_channels ≡ some c
    → c.client_locked ≡ 0
    → IsBacked (plus others c.client (c.client_free + c.provider_earned)) (without_channel id v)
without_open_channel-IsBacked others id c v w found idle =
    subst (λ n. IsBacked (plus others c.client n) (without_channel id v)) (omega arith)
      (without_channel-IsBacked others id c v w found)

-- The run of a close whose steps succeed.
close_run :
    (id : ChannelId) (settlement : Option String) (uuid : String) (now : ℤ) (v v2 v3 : VaultState)
    (c : ChannelState)
    → lookup id v.active_channels ≡ some c
    → c.status ≡ open_status
    → c.client_free + c.provider_earned < u64_mod
    → when
        (ltb 0 (c.client_free + c.provider_earned))
        (at_balance c.client client_not_found
          (return_funds (c.client_free + c.provider_earned) c.client_free))
        (without_channel id v)
      ≡ (ok tt, v2)
    → when
        (ltb 0 c.provider_earned)
        (credit_provider c.provider_id c.provider_earned (settlement_id_or settlement uuid) now)
        v2
      ≡ (ok tt, v3)
    → close_channel_with_settlement_id id settlement uuid now v
      ≡ (ok (close_outcome c v settlement uuid), v3)
unfolding close_channel_with_settlement_id
close_run id settlement uuid now v v2 v3 c found opened fits done2 done3 =
    ground (arith, add_u64-eq_ok {E = EnclaveError} c.client_free c.provider_earned fits)

-- The call succeeds, reports both shares and removes the channel; the money stays.
abbrev pub Closes :
    (Pubkey → ℕ) → ChannelId → Option String → String → ℤ → VaultState → ChannelState → Type 0
Closes others id settlement uuid now v c =
    (outcome : CloseOutcome) × (v' : VaultState) × (close_channel_with_settlement_id id settlement
        uuid now v
      ≡ (ok outcome, v'))
    × IsBacked others v'
    × (funds v' ≡ funds v)
    × (lookup id v'.active_channels ≡ none)
    × (outcome.returned_to_client ≡ c.client_free)
    × (outcome.provider_earned ≡ c.provider_earned)

-- Closing an open channel of a registered provider on a backed vault succeeds: the channel is gone,
-- the outcome reports what was free for the client and what the provider earned, and the vault
-- stays backed, its balances and credits together holding the same money.
pub close_channel-succeeds :
    (others : Pubkey → ℕ) (id : ChannelId) (settlement : Option String) (uuid : String) (now : ℤ)
    (v : VaultState) (c : ChannelState)
    → IsBacked others v
    → lookup id v.active_channels ≡ some c
    → c.status ≡ open_status
    → lookup c.provider_id v.providers ≢ none
    → Closes others id settlement uuid now v c
close_channel-succeeds others id settlement uuid now v c w found opened known =
    let earned = c.provider_earned in
    let t = c.client_free + earned in
    let idle = open_locks_nothing c (w.consistent id c found) opened in
    let (v2, done2, w2, moved2, _, same_providers, same2) =
      return_step others c.client t c.client_free (without_channel id v)
        (without_open_channel-IsBacked others id c v w found idle) (omega arith) in
    let (v3, done3, w3, moved3, same3) =
      credit_step others c.provider_id earned (settlement_id_or settlement uuid) now v2 w2
        (λ e. known (sym (ap (lookup c.provider_id) same_providers) ∙ e))
        (omega (arith, w.supply)) in
    (
      close_outcome c v settlement uuid,
      v3,
      close_run id settlement uuid now v v2 v3 c found opened
          (omega (arith, (w.consistent id c found).bounded)) done2 done3,
      w3,
      omega arith,
      ap (lookup id) (same3 ∙ same2) ∙ lookup-erase_self id v.active_channels w.channels_map,
      refl,
      refl,
    )
