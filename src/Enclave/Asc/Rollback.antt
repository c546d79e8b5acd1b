-- ===== src/Enclave/Asc/Rollback.antt =====
-- enclave/src/asc_manager.rs: submission, delivery, expiry and finalization against their rollbacks.
use a.Prelude.{
  ℕ, ◌≡◌, refl, false, String, Option, some, List, [], ◌∷◌, arith, Option-cases, inl, inr,
}
use a.Prelude.Int.{ℤ}
use a.Prelude.Equality.{Bytes, beq_refl, contains, remove, string_eq}
use a.Prelude.Outcome.{ok, add_u64, sub_u64, add_i64}
use a.Enclave.Crypto.{Crypto}
use a.Enclave.AdaptorSig.{AdaptorPreSignature}
use a.Enclave.State.{ChannelRequest, ChannelState}
use a.Enclave.Asc.Request.{
  ExpiredRequestOutcome, submit_request_in, rollback_submit_request_in, deliver_adaptor_in,
  rollback_deliver_adaptor_in, expire_request_in, rollback_expire_request_in,
}
use a.Enclave.Asc.Finalize.{
  FinalizeOutcome, pay_provider, finalize_with_secret_in, rollback_finalize_offchain_in,
}
use a.Enclave.Asc.Consistent.{IsConsistent, open_result_writes_nothing}

abbrev pub touched : ℤ → ChannelState → ChannelState
touched now c = record c { updated_at = now }

remove_absent : (xs : List String) (x : String) → contains xs x ≡ false → remove xs x ≡ xs
unfolding contains remove
remove_absent [] x h = refl
remove_absent (y ∷ ys) x h = ground (arith, remove_absent ys x)

remove_head : (xs : List String) (x : String) → contains xs x ≡ false → remove (x ∷ xs) x ≡ xs
unfolding remove
remove_head xs x h = ground (arith, beq_refl x, remove_absent xs x h)

-- Rolling back a submission that succeeded on a consistent channel gives the channel back as it
-- was, but for the time of the last update.
pub rollback-submit :
    (request_id : String) (amount : ℕ) (hash : Bytes) (now later : ℤ) (c c' : ChannelState)
    → IsConsistent c
    → submit_request_in request_id amount hash now c ≡ (ok tt, c')
    → rollback_submit_request_in request_id later c' ≡ (ok tt, touched later c)
unfolding submit_request_in rollback_submit_request_in add_u64 sub_u64 add_i64
rollback-submit request_id amount hash now later c c' k done =
    ground (arith, beq_refl request_id, remove_head c.used_request_ids request_id)

-- Rolling back a delivery that succeeded on a consistent channel gives the channel back as it was,
-- but for the time of the last update.
pub rollback-deliver :
    (g : Crypto) (point : Bytes) (pre_sig : AdaptorPreSignature) (encrypted hash pk : Bytes)
    (now later : ℤ) (c c' : ChannelState) (r : ChannelRequest)
    → IsConsistent c
    → c.active_request ≡ some r
    → deliver_adaptor_in g point pre_sig encrypted hash pk now c ≡ (ok tt, c')
    → rollback_deliver_adaptor_in r.request_id later c' ≡ (ok tt, touched later c)
unfolding deliver_adaptor_in rollback_deliver_adaptor_in add_u64
rollback-deliver g point pre_sig encrypted hash pk now later c c' r k active done =
    ground (arith, beq_refl r.request_id)

-- Rolling back the expiry of a request of a consistent channel gives the channel back as it was,
-- but for the time of the last update.
pub rollback-expire :
    (now later : ℤ) (c c' : ChannelState) (outcome : ExpiredRequestOutcome)
    → IsConsistent c
    → expire_request_in now c ≡ (ok (some outcome), c')
    → rollback_expire_request_in outcome later c' ≡ (ok tt, touched later c)
unfolding expire_request_in rollback_expire_request_in add_u64
rollback-expire now later c c' outcome k done = ground arith

-- Rolling back a finalization that succeeded on a consistent channel gives the channel back as it
-- was, but for the time of the last update.
pub rollback-finalize :
    (g : Crypto) (t : g.Scalar) (secret : Option Bytes) (now later : ℤ) (c c' : ChannelState)
    (outcome : FinalizeOutcome)
    → IsConsistent c
    → finalize_with_secret_in g t secret now c ≡ (ok outcome, c')
    → rollback_finalize_offchain_in outcome.request later c' ≡ (ok tt, touched later c)
unfolding finalize_with_secret_in pay_provider rollback_finalize_offchain_in add_u64 sub_u64
rollback-finalize g t secret now later c c' outcome k done = elim (Option-cases c.active_request) [
  | inl idle ↦ ground arith
  | inr (r, active) ↦ ground (arith, open_result_writes_nothing g c r t secret c)
]
