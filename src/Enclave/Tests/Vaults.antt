-- ===== src/Enclave/Tests/Vaults.antt =====
-- A vault with a client, an idle channel and a pending withdrawal.
use a.Prelude.{ℕ, ◌≡◌, refl, none, [], ◌∷◌, arith}
use a.Prelude.Int.{pos}
use a.Prelude.Equality.{Pubkey, bytes_eq, nat_eq, string_eq, bytes_beq_iff}
use a.Prelude.Map.{lookup, sum_by}
use a.Enclave.State.{ChannelState, PendingWithdrawal, ProviderRegistration, VaultState}
use a.Enclave.State.Status.{open_status}
use a.Enclave.Asc.Consistent.{IsConsistent}
use a.Enclave.Backing.{IsBacked}

abbrev pub client : Pubkey
client = 1 ∷ []

abbrev pub channel : ChannelState
channel = record {
  channel_id = "ch";
  client = client;
  provider_id = "p";
  balance = record { client_free = 5; client_locked = 0; provider_earned = 1 };
  status = open_status;
  nonce = 4;
  created_at = pos 0;
  updated_at = pos 0;
  used_request_ids = "r0" ∷ [];
  active_request = none;
}

abbrev pub withdrawal : PendingWithdrawal
withdrawal = record {
  client = client;
  recipient_ata = 2 ∷ [];
  amount = 3;
  withdraw_nonce = 7;
  issued_at = pos 0;
  expires_at = pos 60;
}

abbrev provider : ProviderRegistration
provider = record {
  provider_id = "p";
  display_name = "P";
  participant_pubkey = none;
  participant_attestation_policy_hash = none;
  participant_attestation_verified_at_ms = none;
  participant_attestation_mode = none;
  settlement_token_account = 3 ∷ [];
  network = "solana:devnet";
  asset_mint = 4 ∷ [];
  allowed_origins = [];
  auth_mode = "none";
  api_key_hash = none;
  mtls_cert_fingerprint = none;
  settlement_address = "s";
  asset_id = "usdc";
  chain_kind = "solana";
}

abbrev pub vault : VaultState
vault = record {
  vault_config = 9 ∷ [];
  auditor_master_secret = 3 ∷ [];
  auditor_epoch = 1;
  client_balances =
      (
        client,
        record {
          free = 10;
          locked = 9;
          max_lock_expires_at = pos 60;
          total_deposited = 19;
          total_withdrawn = 0;
        },
      )
      ∷ [];
  reservations = [];
  provider_credits = [];
  multi_chain_provider_credits = [];
  providers = ("p", provider) ∷ [];
  settlement_history = [];
  settlement_batches = [];
  pending_withdrawals = (7, withdrawal) ∷ [];
  active_channels = ("ch", channel) ∷ [];
  receipt_nonce = 1;
  withdraw_nonce = 8;
  last_batch_at = pos 0;
}

abbrev pub nothing : Pubkey → ℕ
nothing k = 0

pub channel-IsConsistent : IsConsistent channel
channel-IsConsistent = record { matches = refl; bounded = omega arith }

pub vault-IsBacked : IsBacked nothing vault
unfolding lookup sum_by
vault-IsBacked = record {
  balances_map = ground arith;
  channels_map = ground arith;
  withdrawals_map = ground arith;
  credits_map = ground arith;
  consistent = λ id c h. let same : c ≡ channel = ground arith in rw same channel-IsConsistent;
  covered = λ k. ground (arith, bytes_beq_iff k client, bytes_beq_iff client k);
  supply = omega arith;
}
