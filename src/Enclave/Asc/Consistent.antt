-- ===== src/Enclave/Asc/Consistent.antt =====
-- The invariant of one channel, and what each operation does to the funds in it.
use a.Prelude.{
  ℕ, ◌+◌, ◌<◌, String, ◌≡◌, ◌≢◌, true, Option, none, some, List, ◌∷◌, arith, u64_mod, Option-cases,
  inl, inr,
}
use a.Prelude.Int.{ℤ, ◌+ℤ◌, in_i64}
use a.Prelude.Equality.{Bytes, beq_refl, contains, string_eq}
use a.Prelude.Outcome.{Result, panic, add_u64, sub_u64, add_i64}
use a.Enclave.Crypto.{Crypto}
use a.Enclave.Error.{EnclaveError}
use a.Enclave.AdaptorSig.{AdaptorPreSignature}
use a.Enclave.State.{ChannelRequest, ChannelState}
use a.Enclave.State.Status.{ChannelStatus, open_status, locked_status, pending_status}
use a.Enclave.Asc.Field.{request_expiry_sec}
use a.Enclave.Asc.Request.{
  submit_request_in, rollback_submit_request_in, deliver_adaptor_in, rollback_deliver_adaptor_in,
  expire_request_in, expire_replayed_request_in,
}
use a.Enclave.Asc.Finalize.{
  open_result, pay_provider, finalize_with_secret_in, finalize_replayed_request_in,
}

-- The money in a channel.
abbrev pub total : ChannelState → ℕ
total c = c.client_free + c.client_locked + c.provider_earned

abbrev pub IsDelivered : ChannelRequest → Type 0
IsDelivered r =
    (r.provider_pubkey ≢ none)
    × (r.adaptor_point ≢ none)
    × (r.provider_pre_sig ≢ none)
    × (r.encrypted_result ≢ none)
    × (r.result_hash ≢ none)

abbrev pub IsUndelivered : ChannelRequest → Type 0
IsUndelivered r =
    (r.provider_pubkey ≡ none)
    × (r.adaptor_point ≡ none)
    × (r.provider_pre_sig ≡ none)
    × (r.encrypted_result ≡ none)
    × (r.result_hash ≡ none)

-- An open channel has no request and nothing locked. A locked or pending one has exactly the amount
-- of its request locked, under an identifier that is used up; a locked one holds nothing of the
-- provider's, and a pending one all of it. No channel in the table is closed.
abbrev pub Matches : ChannelStatus → Option ChannelRequest → ChannelState → Type 0
Matches open_status none c = c.client_locked ≡ 0
Matches locked_status (some r) c =
    (c.client_locked ≡ r.amount)
    × (contains c.used_request_ids r.request_id ≡ true)
    × IsUndelivered r
Matches pending_status (some r) c =
    (c.client_locked ≡ r.amount) × (contains c.used_request_ids r.request_id ≡ true) × IsDelivered r
Matches _ _ c = ⊥

pub record IsConsistent (c : ChannelState) : Type 0 where
  pub matches : Matches c.status c.active_request c
  pub bounded : total c < u64_mod

-- Room for one more step of the channel's counter.
abbrev pub HasNonce : ChannelState → Type 0
HasNonce c = c.nonce + 1 < u64_mod

-- What an operation on a channel has done, however it ended: it did not panic, the channel is
-- consistent, its identity, owner and total are what they were.
abbrev pub Keeps : {A : Type 0} → ChannelState → Result EnclaveError A × ChannelState → Type 0
Keeps c (r, c') =
    (r ≢ panic)
    × IsConsistent c'
    × (total c' ≡ total c)
    × (c'.channel_id ≡ c.channel_id)
    × (c'.client ≡ c.client)
    × (c'.provider_id ≡ c.provider_id)

contains_head : (x : String) (xs : List String) → contains (x ∷ xs) x ≡ true
unfolding contains
contains_head x xs = rw (beq_refl x)

-- On a consistent channel with room for a step of its counter, submitting a request does not panic
-- and leaves the channel consistent, with the same identity, owner and total, whether it succeeds
-- or fails.
pub submit_request_in-Keeps :
    (request_id : String) (amount : ℕ) (hash : Bytes) (now : ℤ) (c : ChannelState)
    → IsConsistent c
    → HasNonce c
    → in_i64 (now +ℤ request_expiry_sec) ≡ true
    → Keeps c (submit_request_in request_id amount hash now c)
unfolding submit_request_in add_u64 sub_u64 add_i64
submit_request_in-Keeps request_id amount hash now c k n t =
    ground (arith, contains_head request_id c.used_request_ids)

module _ (c : Crypto) where
  -- On a consistent channel with room for a step of its counter, a delivery does not panic and
  -- leaves the channel consistent, with the same identity, owner and total, whether it succeeds or
  -- fails.
  pub deliver_adaptor_in-Keeps :
      (point : Bytes) (pre_sig : AdaptorPreSignature) (encrypted hash pk : Bytes) (now : ℤ)
      (ch : ChannelState)
      → IsConsistent ch
      → HasNonce ch
      → Keeps ch (deliver_adaptor_in c point pre_sig encrypted hash pk now ch)
  unfolding deliver_adaptor_in add_u64
  deliver_adaptor_in-Keeps point pre_sig encrypted hash pk now ch k n = ground arith

  -- What the checks of `finalize_with_secret` do: they fail or succeed, and write nothing.
  pub open_result_writes_nothing :
      (ch : ChannelState) (r : ChannelRequest) (t : c.Scalar) (secret : Option Bytes)
      (ch' : ChannelState)
      → ((open_result c ch r t secret ch').1 ≡ ch') × ((open_result c ch r t secret ch').0 ≢ panic)
  unfolding open_result
  open_result_writes_nothing ch r t secret ch' = ground arith

  -- On a consistent channel with room for a step of its counter, a finalization by any secret does
  -- not panic and leaves the channel consistent, with the same identity, owner and total, whether
  -- it succeeds or fails.
  pub finalize_with_secret_in-Keeps :
      (t : c.Scalar) (secret : Option Bytes) (now : ℤ) (ch : ChannelState)
      → IsConsistent ch
      → HasNonce ch
      → Keeps ch (finalize_with_secret_in c t secret now ch)
  unfolding finalize_with_secret_in pay_provider add_u64 sub_u64
  finalize_with_secret_in-Keeps t secret now ch k n = elim (Option-cases ch.active_request) [
    | inl idle ↦ ground arith
    | inr (r, active) ↦ ground (arith, open_result_writes_nothing ch r t secret ch)
  ]

-- On a consistent channel with room for a step of its counter, expiry does not panic and leaves the
-- channel consistent, with the same identity, owner and total, whether a request was stale or not.
pub expire_request_in-Keeps :
    (now : ℤ) (c : ChannelState) → IsConsistent c → HasNonce c → Keeps c (expire_request_in now c)
unfolding expire_request_in add_u64
expire_request_in-Keeps now c k n = ground arith

pub expire_replayed_request_in-Keeps :
    (request_id : String) (amount : ℕ) (now : ℤ) (c : ChannelState)
    → IsConsistent c
    → HasNonce c
    → Keeps c (expire_replayed_request_in request_id amount now c)
unfolding expire_replayed_request_in add_u64
expire_replayed_request_in-Keeps request_id amount now c k n = ground arith

pub finalize_replayed_request_in-Keeps :
    (request_id : String) (amount : ℕ) (now : ℤ) (c : ChannelState)
    → IsConsistent c
    → HasNonce c
    → Keeps c (finalize_replayed_request_in request_id amount now c)
unfolding finalize_replayed_request_in add_u64
finalize_replayed_request_in-Keeps request_id amount now c k n = ground arith

pub rollback_submit_request_in-Keeps :
    (request_id : String) (now : ℤ) (c : ChannelState)
    → IsConsistent c
    → Keeps c (rollback_submit_request_in request_id now c)
unfolding rollback_submit_request_in add_u64
rollback_submit_request_in-Keeps request_id now c k = ground arith

pub rollback_deliver_adaptor_in-Keeps :
    (request_id : String) (now : ℤ) (c : ChannelState)
    → IsConsistent c
    → Keeps c (rollback_deliver_adaptor_in request_id now c)
unfolding rollback_deliver_adaptor_in
rollback_deliver_adaptor_in-Keeps request_id now c k = ground arith
