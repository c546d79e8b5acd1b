-- ===== src/Enclave/Asc/Atomic.antt =====
-- The exchange of a result for a payment is atomic (enclave/src/asc_manager.rs): a provider that
-- delivered an honest result can always collect by the secret, and whoever is paid has revealed it.
use a.Prelude.{
  ℕ, ◌+◌, ◌-◌, ◌≤◌, ◌≡◌, ◌<◌, u64_mod, refl, sym, true, Option, none, some, arith, length,
  Option-cases, inl, inr,
}
use a.Prelude.Int.{ℤ}
use a.Prelude.Equality.{Bytes, beq_refl, bytes_eq, string_eq}
use a.Prelude.Outcome.{Result-cases, ok, add_u64, sub_u64}
use a.Enclave.Crypto.{Crypto, CryptoLaws}
use a.Enclave.AdaptorSig.{AdaptorPreSignature, AdaptedSignature, adapt, pre_verify, verify_adapted}
use a.Enclave.AdaptorSig.Laws.{adapt_complete}
use a.Enclave.Cipher.{encrypt_with_scalar}
use a.Enclave.Cipher.RoundTrip.{decrypt-encrypt}
use a.Enclave.State.{ChannelRequest, ChannelState}
use a.Enclave.State.Status.{open_status, pending_status}
use a.Enclave.Asc.Request.{build_payment_message, deliver_adaptor_in}
use a.Enclave.Asc.Finalize.{
  FinalizeOutcome, hash_matches, open_result, pay_provider, finalize_with_secret_in,
}
use a.Enclave.Asc.Consistent.{IsConsistent, total, open_result_writes_nothing}

-- The amount went from locked to earned, and the channel is open again.
abbrev pub IsPaid : ChannelState → ChannelState → ℕ → Type 0
IsPaid ch ch' amount =
    (ch'.provider_earned ≡ ch.provider_earned + amount)
    × (ch'.client_locked + amount ≡ ch.client_locked)
    × (ch'.client_free ≡ ch.client_free)
    × (ch'.status ≡ open_status)
    × (ch'.active_request ≡ none)

module _ (c : Crypto) where
  open c use {Scalar, Point, smul, basepoint, point_beq, compress, decompress, to_bytes, sha256}

  -- The message that the provider of a request signs.
  abbrev pub payment_of : ChannelState → ChannelRequest → Bytes
  payment_of ch r = build_payment_message c ch.channel_id r.request_id r.amount r.request_hash

  -- What a delivery for the adaptor point of `t`, with the honest result, leaves in the channel.
  abbrev pub delivered :
      ChannelRequest → Scalar → AdaptorPreSignature → Bytes → Bytes → ChannelRequest
  delivered r t pre_sig result provider = record r {
    provider_pubkey = some provider;
    adaptor_point = some (compress (smul t basepoint));
    provider_pre_sig = some pre_sig;
    encrypted_result = some (encrypt_with_scalar sha256 result (to_bytes t));
    result_hash = some (sha256 result);
  }

  -- The secret `t` opens the request: it is the logarithm of the request's adaptor point, the
  -- pre-signature adapted by it is a signature of the payment by the provider, and the result in
  -- plain text, if the request has its hash, is the one that was committed to.
  abbrev pub IsOpenedBy : ChannelState → ChannelRequest → Scalar → Bytes → Type 0
  IsOpenedBy ch r t result =
      (pre_sig : AdaptorPreSignature) × (point_bytes : Bytes) × (point : Point) × (provider : Bytes)
      × (full_sig : AdaptedSignature) × (r.provider_pre_sig ≡ some pre_sig)
      × (r.adaptor_point ≡ some point_bytes)
      × (decompress point_bytes ≡ some point)
      × (r.provider_pubkey ≡ some provider)
      × (adapt c pre_sig t point ≡ some full_sig)
      × (point_beq point (smul t basepoint) ≡ true)
      × (verify_adapted c provider (payment_of ch r) full_sig ≡ true)
      × (hash_matches r.result_hash (sha256 result) ≡ true)

  -- A pending request was opened by the secret, and its amount paid.
  abbrev pub IsReleased : Scalar → ChannelState → ChannelState → FinalizeOutcome → Type 0
  IsReleased t ch ch' outcome =
      (r : ChannelRequest) × (ch.status ≡ pending_status)
      × (ch.active_request ≡ some r)
      × IsOpenedBy ch r t outcome.result_bytes
      × (outcome.amount ≡ r.amount)
      × IsPaid ch ch' r.amount

  open_result-IsOpenedBy :
      (ch : ChannelState) (r : ChannelRequest) (t : Scalar) (secret : Option Bytes)
      (ch' ch'' : ChannelState) (result : Bytes)
      → open_result c ch r t secret ch' ≡ (ok result, ch'')
      → IsOpenedBy ch r t result
  unfolding open_result
  open_result-IsOpenedBy ch r t secret ch' ch'' result h = ground arith

  -- A successful finalization found a pending request, the secret opens it (its point is t times
  -- the base point, the adapted pre-signature verifies for the payment, and the result matches the
  -- hash that was committed to), exactly its amount moves from locked to earned, and the channel is
  -- open again.
  pub finalize_with_secret_in-Opens :
      (t : Scalar) (secret : Option Bytes) (now : ℤ) (ch ch' : ChannelState)
      (outcome : FinalizeOutcome)
      → finalize_with_secret_in c t secret now ch ≡ (ok outcome, ch')
      → IsReleased t ch ch' outcome
  unfolding finalize_with_secret_in pay_provider add_u64 sub_u64
  finalize_with_secret_in-Opens t secret now ch ch' outcome h =
      elim (Option-cases ch.active_request) [
        | inl idle ↦ absurd (ground arith)
        | inr (r, active) ↦ elim (Result-cases (open_result c ch r t secret ch).0) [
          | inl (result, opened) ↦
              let whole : open_result c ch r t secret ch ≡ (ok result, ch) =
                ground (arith, open_result_writes_nothing c ch r t secret ch) in
              let same : result ≡ outcome.result_bytes = ground arith in
              (
                r,
                ground arith,
                active,
                rw (sym same) (open_result-IsOpenedBy ch r t secret ch ch result whole),
                ground arith,
                ground arith,
              )
          | inr other ↦ absurd (ground (arith, open_result_writes_nothing c ch r t secret ch))
        ]
      ]

-- Revealing `t` finalizes the request with the result, and pays the amount.
abbrev pub Collects : (c : Crypto) → c.Scalar → ℤ → ChannelState → Bytes → ℕ → Type 0
Collects c t later ch result amount =
    (outcome : FinalizeOutcome) × (ch' : ChannelState) × (finalize_with_secret_in c t
        (some (c.to_bytes t)) later ch
      ≡ (ok outcome, ch'))
    × (outcome.result_bytes ≡ result)
    × IsPaid ch ch' amount

module _ (c : Crypto) (laws : CryptoLaws c) (digest : (m : Bytes) → length (c.sha256 m) ≡ 32) where
  open c use {Scalar, Point, smul, basepoint, compress, to_bytes, sha256}

  deliver_writes :
      (t : Scalar) (pre_sig : AdaptorPreSignature) (result provider : Bytes) (now : ℤ)
      (ch ch' : ChannelState) (r : ChannelRequest)
      → ch.active_request ≡ some r
      → deliver_adaptor_in c
          (compress (smul t basepoint))
          pre_sig
          (encrypt_with_scalar sha256 result (to_bytes t))
          (sha256 result)
          provider
          now
          ch
        ≡ (ok tt, ch')
      → (pre_verify c provider (payment_of c ch r) (smul t basepoint) pre_sig ≡ true)
        × (ch' ≡ record ch {
          active_request = some (delivered c r t pre_sig result provider);
          status = pending_status;
          nonce = ch.nonce + 1;
          updated_at = now;
        })
  unfolding deliver_adaptor_in add_u64
  deliver_writes t pre_sig result provider now ch ch' r active h =
      ground (arith, laws.decompress-compress (smul t basepoint))

  pub open_delivered :
      (t : Scalar) (pre_sig : AdaptorPreSignature) (result provider : Bytes) (ch ch' : ChannelState)
      (r : ChannelRequest)
      → pre_verify c provider (payment_of c ch r) (smul t basepoint) pre_sig ≡ true
      → open_result c ch (delivered c r t pre_sig result provider) t (some (to_bytes t)) ch'
        ≡ (ok result, ch')
  unfolding open_result hash_matches
  open_delivered t pre_sig result provider ch ch' r h =
      let (full, adapts, verifies, extracts) =
        adapt_complete c laws provider (payment_of c ch r) t pre_sig h in
      let plain = decrypt-encrypt sha256 digest result (to_bytes t) in
      ground (
        arith,
        laws.decompress-compress (smul t basepoint),
        (laws.point_beq_iff (smul t basepoint) (smul t basepoint)).1 refl,
        plain,
        beq_refl (sha256 result),
      )

  deliver-matches :
      (t : Scalar) (pre_sig : AdaptorPreSignature) (result provider : Bytes) (now : ℤ)
      (ch ch' : ChannelState) (r : ChannelRequest)
      → IsConsistent ch
      → ch.active_request ≡ some r
      → deliver_adaptor_in c
          (compress (smul t basepoint))
          pre_sig
          (encrypt_with_scalar sha256 result (to_bytes t))
          (sha256 result)
          provider
          now
          ch
        ≡ (ok tt, ch')
      → (ch.client_locked ≡ r.amount) × (total ch < u64_mod)
  unfolding deliver_adaptor_in
  deliver-matches t pre_sig result provider now ch ch' r k active h = ground arith

  paid_state : ChannelState → ℕ → ℤ → ChannelState
  paid_state ch amount later = record ch {
    balance = record ch.balance {
      client_locked = ch.client_locked - amount;
      provider_earned = ch.provider_earned + amount;
    };
    status = open_status;
    active_request = none;
    nonce = ch.nonce + 1;
    updated_at = later;
  }

  pay_provider_writes :
      (ch : ChannelState) (amount : ℕ) (later : ℤ)
      → amount ≤ ch.client_locked
      → ch.provider_earned + amount < u64_mod
      → ch.nonce + 1 < u64_mod
      → pay_provider amount later ch ≡ (ok tt, paid_state ch amount later)
  unfolding pay_provider paid_state add_u64 sub_u64
  pay_provider_writes ch amount later enough room nonce = ground arith

  -- If the delivery for the adaptor point of t succeeds with the encryption of a result and its
  -- hash, then revealing t, at any later time, finalizes the request, returns that result in plain
  -- text and pays the provider its amount. The channel was consistent, with room for two more steps
  -- of its counter.
  pub finalize-deliver :
      (t : Scalar) (pre_sig : AdaptorPreSignature) (result provider : Bytes) (now later : ℤ)
      (ch ch' : ChannelState) (r : ChannelRequest)
      → IsConsistent ch
      → ch.nonce + 2 < u64_mod
      → ch.active_request ≡ some r
      → deliver_adaptor_in c
          (compress (smul t basepoint))
          pre_sig
          (encrypt_with_scalar sha256 result (to_bytes t))
          (sha256 result)
          provider
          now
          ch
        ≡ (ok tt, ch')
      → Collects c t later ch' result r.amount
  unfolding finalize_with_secret_in paid_state
  finalize-deliver t pre_sig result provider now later ch ch' r k room active h =
      let (checked, written) = deliver_writes t pre_sig result provider now ch ch' r active h in
      let opens = open_delivered t pre_sig result provider ch' ch' r (rw written checked) in
      let matched = deliver-matches t pre_sig result provider now ch ch' r k active h in
      let pays =
        pay_provider_writes ch' r.amount later (ground arith) (ground arith) (ground arith) in
      (
        record {
          request_id = r.request_id;
          result_bytes = result;
          amount = r.amount;
          request = delivered c r t pre_sig result provider;
        },
        paid_state ch' r.amount later,
        ground (arith, opens, pays),
        refl,
        ground arith,
      )
