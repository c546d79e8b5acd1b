-- ===== src/Enclave/Tests/Channels.antt =====
-- One request on the toy curve, from its submission to its payment, and the theorems at it.
use a.Prelude.{◌≡◌, refl, true, none, some, [], ◌∷◌, arith}
use a.Prelude.Int.{pos, ◌+ℤ◌, in_i64}
use a.Prelude.Equality.{Bytes, bytes_beq, bytes_eq, contains, string_eq}
use a.Prelude.Map.{lookup}
use a.Prelude.Outcome.{ok, add_u64, sub_u64, add_i64}
use a.Enclave.AdaptorSig.{
  AdaptorPreSignature, AdaptedSignature, adapt, challenge_hash, extract, pre_verify, verify_adapted,
}
use a.Enclave.AdaptorSig.Laws.{adapt_complete}
use a.Enclave.Cipher.{decrypt_with_scalar, encrypt_with_scalar}
use a.Enclave.Cipher.RoundTrip.{decrypt-encrypt}
use a.Enclave.State.{ChannelRequest, ChannelState, VaultState}
use a.Enclave.State.Status.{locked_status, open_status, pending_status}
use a.Enclave.Asc.Field.{request_expiry_sec}
use a.Enclave.Asc.Request.{
  ExpiredRequestOutcome, submit_request_in, deliver_adaptor_in, expire_request_in,
}
use a.Enclave.Asc.Finalize.{
  FinalizeOutcome, finalize_with_secret_in, finalize_offchain, finalize_onchain_claim,
  rollback_finalize_offchain_in, pay_provider,
}
use a.Enclave.Asc.Consistent.{IsConsistent}
use a.Enclave.Asc.Rollback.{touched, rollback-finalize}
use a.Enclave.Asc.Atomic.{
  open_delivered, payment_of, delivered, Collects, IsReleased, finalize-deliver,
  finalize_with_secret_in-Opens,
}
use a.Enclave.Asc.Onchain.{finalize_onchain_claim-finalize_offchain}
use a.Enclave.Tests.Toy.{toy, toy_laws, toy_hash, length-toy_hash, read_bit}
use a.Enclave.Tests.Vaults.{client, channel, vault}

abbrev request : ChannelRequest
request = record {
  request_id = "r";
  amount = 2;
  request_hash = 8 ∷ [];
  provider_pubkey = none;
  adaptor_point = none;
  provider_pre_sig = none;
  encrypted_result = none;
  result_hash = none;
  created_at = pos 100;
  expires_at = pos 220;
}

abbrev pub locked_channel : ChannelState
locked_channel = record channel {
  balance = record { client_free = 3; client_locked = 2; provider_earned = 1 };
  status = locked_status;
  nonce = 5;
  updated_at = pos 100;
  used_request_ids = "r" ∷ "r0" ∷ [];
  active_request = some request;
}

abbrev pre_sig : AdaptorPreSignature
pre_sig = record { r_prime = 1 ∷ []; s_prime = 0 ∷ [] }

abbrev full_sig : AdaptedSignature
full_sig = record { r_bytes = 0 ∷ []; s_bytes = 1 ∷ [] }

abbrev result : Bytes
result = 42 ∷ 43 ∷ []

abbrev provider_key : Bytes
provider_key = 1 ∷ []

abbrev pending_channel : ChannelState
pending_channel = record locked_channel {
  status = pending_status;
  nonce = 6;
  updated_at = pos 110;
  active_request = some (delivered toy request true pre_sig result provider_key);
}

abbrev pending_vault : VaultState
pending_vault = record vault { active_channels = ("ch", pending_channel) ∷ [] }

locked_channel-IsConsistent : IsConsistent locked_channel
unfolding contains
locked_channel-IsConsistent = record { matches = ground arith; bounded = omega arith }

pending_channel-IsConsistent : IsConsistent pending_channel
unfolding contains
pending_channel-IsConsistent = record { matches = ground arith; bounded = omega arith }

submitted : submit_request_in "r" 2 (8 ∷ []) (pos 100) channel ≡ (ok tt, locked_channel)
unfolding submit_request_in contains add_u64 sub_u64 add_i64 ◌+ℤ◌
submitted = refl

checked : pre_verify toy provider_key (payment_of toy locked_channel request) true pre_sig ≡ true
unfolding pre_verify read_bit bytes_beq challenge_hash
checked = refl

adapted : adapt toy pre_sig true true ≡ some full_sig
unfolding adapt read_bit bytes_beq
adapted = refl

delivery :
    deliver_adaptor_in toy
      (1 ∷ [])
      pre_sig
      (encrypt_with_scalar toy_hash result (1 ∷ []))
      (toy_hash result)
      provider_key
      (pos 110)
      locked_channel
    ≡ (ok tt, pending_channel)
unfolding deliver_adaptor_in read_bit bytes_beq add_u64
delivery = rw checked refl

in_range : in_i64 (pos 100 +ℤ request_expiry_sec) ≡ true
unfolding ◌+ℤ◌
in_range = refl

finalize-deliver_example : Collects toy true (pos 500) pending_channel result 2
finalize-deliver_example =
    finalize-deliver toy toy_laws length-toy_hash true pre_sig result provider_key (pos 110)
      (pos 500) locked_channel pending_channel request locked_channel-IsConsistent (omega arith)
      refl delivery

finalize_onchain_claim-finalize_offchain_example :
    finalize_onchain_claim toy "ch" (0 ∷ []) (1 ∷ []) (pos 130) pending_vault
    ≡ finalize_offchain toy "ch" (1 ∷ []) (pos 130) pending_vault
unfolding lookup
finalize_onchain_claim-finalize_offchain_example =
    finalize_onchain_claim-finalize_offchain toy toy_laws "ch" true pre_sig full_sig result
      provider_key (pos 130) pending_vault pending_channel request refl refl refl refl checked
      adapted

adapt_complete_example :
    (full : AdaptedSignature) × (adapt toy pre_sig true true ≡ some full)
    × (verify_adapted toy provider_key (payment_of toy locked_channel request) full ≡ true)
    × (extract toy full pre_sig ≡ some true)
adapt_complete_example =
    adapt_complete toy toy_laws provider_key (payment_of toy locked_channel request) true pre_sig
      checked

decrypt-encrypt_example :
    decrypt_with_scalar toy_hash (encrypt_with_scalar toy_hash result (1 ∷ [])) (1 ∷ []) ≡ result
decrypt-encrypt_example = decrypt-encrypt toy_hash length-toy_hash result (1 ∷ [])

abbrev expired_channel : ChannelState
expired_channel = record locked_channel {
  balance = record { client_free = 5; client_locked = 0; provider_earned = 1 };
  status = open_status;
  nonce = 6;
  updated_at = pos 221;
  active_request = none;
}

abbrev expired : ExpiredRequestOutcome
expired = record {
  channel_id = "ch";
  client = client;
  previous_status = locked_status;
  request = request;
}

expiry : expire_request_in (pos 221) locked_channel ≡ (ok (some expired), expired_channel)
unfolding expire_request_in add_u64
expiry = refl

abbrev paid_channel : ChannelState
paid_channel = record pending_channel {
  balance = record { client_free = 3; client_locked = 0; provider_earned = 3 };
  status = open_status;
  nonce = 7;
  updated_at = pos 120;
  active_request = none;
}

abbrev outcome : FinalizeOutcome
outcome = record {
  request_id = "r";
  result_bytes = result;
  amount = 2;
  request = delivered toy request true pre_sig result provider_key;
}

payment :
    finalize_with_secret_in toy true (some (1 ∷ [])) (pos 120) pending_channel
    ≡ (ok outcome, paid_channel)
unfolding finalize_with_secret_in pay_provider add_u64 sub_u64
payment = ground (
  arith,
  open_delivered toy toy_laws length-toy_hash true pre_sig result provider_key pending_channel
      pending_channel request checked,
)

finalize_with_secret_in-Opens_example : IsReleased toy true pending_channel paid_channel outcome
finalize_with_secret_in-Opens_example =
    finalize_with_secret_in-Opens toy true (some (1 ∷ [])) (pos 120) pending_channel paid_channel
      outcome payment

rollback-finalize_example :
    rollback_finalize_offchain_in outcome.request (pos 300) paid_channel
    ≡ (ok tt, touched (pos 300) pending_channel)
rollback-finalize_example =
    rollback-finalize toy true (some (1 ∷ [])) (pos 120) (pos 300) pending_channel paid_channel
      outcome pending_channel-IsConsistent payment
