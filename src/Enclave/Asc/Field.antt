-- ===== src/Enclave/Asc/Field.antt =====
-- Assignments to the fields of a channel, `channel.balance.client_free -= amount` and the like.
use a.Prelude.{ℕ, ◌-◌, String, Option, ◌∷◌}
use a.Prelude.Int.{ℤ, pos}
use a.Prelude.Equality.{remove, string_eq}
use a.Prelude.Outcome.{get, lift, add_u64, sub_u64, ◌>>=◌}
use a.Enclave.State.{ChannelRequest}
use a.Enclave.State.Status.{ChannelStatus}
use a.Enclave.Access.{Channel, modify}

-- Default request expiry window (seconds).
abbrev pub request_expiry_sec : ℤ
request_expiry_sec = pos 120

abbrev pub set_free : ℕ → Channel Unit
set_free n = modify (λ c. record c { balance = record c.balance { client_free = n } })

abbrev pub set_locked : ℕ → Channel Unit
set_locked n = modify (λ c. record c { balance = record c.balance { client_locked = n } })

abbrev pub set_earned : ℕ → Channel Unit
set_earned n = modify (λ c. record c { balance = record c.balance { provider_earned = n } })

abbrev pub add_free : ℕ → Channel Unit
add_free amount = do c ← get; free ← lift (add_u64 c.client_free amount); set_free free

abbrev pub sub_free : ℕ → Channel Unit
sub_free amount = do c ← get; free ← lift (sub_u64 c.client_free amount); set_free free

abbrev pub add_locked : ℕ → Channel Unit
add_locked amount = do c ← get; locked ← lift (add_u64 c.client_locked amount); set_locked locked

abbrev pub sub_locked : ℕ → Channel Unit
sub_locked amount = do c ← get; locked ← lift (sub_u64 c.client_locked amount); set_locked locked

abbrev pub add_earned : ℕ → Channel Unit
add_earned amount = do c ← get; earned ← lift (add_u64 c.provider_earned amount); set_earned earned

-- `saturating_sub`
abbrev pub saturating_sub_free : ℕ → Channel Unit
saturating_sub_free amount = do c ← get; set_free (c.client_free - amount)

abbrev pub saturating_sub_locked : ℕ → Channel Unit
saturating_sub_locked amount = do c ← get; set_locked (c.client_locked - amount)

abbrev pub saturating_sub_earned : ℕ → Channel Unit
saturating_sub_earned amount = do c ← get; set_earned (c.provider_earned - amount)

abbrev pub set_status : ChannelStatus → Channel Unit
set_status status = modify (λ c. record c { status = status })

abbrev pub set_active_request : Option ChannelRequest → Channel Unit
set_active_request request = modify (λ c. record c { active_request = request })

-- `channel.nonce += 1`
abbrev pub next_nonce : Channel Unit
next_nonce = do c ← get; nonce ← lift (add_u64 c.nonce 1); modify (λ d. record d { nonce = nonce })

-- `channel.nonce = channel.nonce.saturating_sub(1)`
abbrev pub previous_nonce : Channel Unit
previous_nonce = modify (λ c. record c { nonce = c.nonce - 1 })

abbrev pub set_updated_at : ℤ → Channel Unit
set_updated_at now = modify (λ c. record c { updated_at = now })

abbrev pub mark_used : String → Channel Unit
mark_used request_id = modify (λ c. record c { used_request_ids = request_id ∷ c.used_request_ids })

abbrev pub unmark_used : String → Channel Unit
unmark_used request_id =
    modify (λ c. record c { used_request_ids = remove c.used_request_ids request_id })
