-- ===== src/Enclave/State/Status.antt =====
-- enclave/src/state.rs: the status of a channel and of a reservation.
use a.Prelude.{Bool, true, false}

pub data ChannelStatus : Type 0 where
  open_status locked_status pending_status closed_status : ChannelStatus

pub data ReservationStatus : Type 0 where
  reserved settled_offchain cancelled expired batched_onchain : ReservationStatus

abbrev pub is_open : ChannelStatus → Bool
is_open ChannelStatus.open_status = true
is_open _ = false

abbrev pub is_locked : ChannelStatus → Bool
is_locked ChannelStatus.locked_status = true
is_locked _ = false

abbrev pub is_pending : ChannelStatus → Bool
is_pending ChannelStatus.pending_status = true
is_pending _ = false
