-- ===== src/Features.antt =====
-- controller/dataplane/features.c: the values of features from what was read of the registers, and
-- the timeouts of flows. The readings themselves come from the driver of the switch; `now` is the
-- monotonic clock in seconds, and the number of features is a parameter.
pub mod Values
pub mod Registers
pub mod SameValues
pub mod Over
pub mod Readings
pub mod Totals
pub mod Timeouts
pub mod Preparing
mod Tests
use marina.Prelude.{
  ℕ, zero, suc, ◌+◌, ◌-◌, ◌%◌, ◌^◌, ◌==◌, ltb, not, ◌&&◌, ◌||◌, Bool, true, false, Option, none,
  some, if◌then◌else◌, update, Status, success, failure,
}
use marina.Commands.{PacketItem, pkt_timeout_flow}
use marina.Ringbuffer.{Ringbuffer}
use marina.Ringbuffer

-- The arrays of `feature_register_t`.
pub record FeatureRegister : Type 0 where
  pub values : ℕ → ℕ
  pub data_plane_values : ℕ → ℕ
  pub last_data_plane_value : ℕ → ℕ

-- `MIN_SESSION_ID`.
abbrev pub min_session_id : ℕ
min_session_id = 4

-- `FLOW_TIMEOUT`.
abbrev pub flow_timeout : ℕ
flow_timeout = 30

-- `SWAP_DP_BUFFER`.
unfoldable pub swap_dp_buffer : FeatureRegister → FeatureRegister
swap_dp_buffer r = record r {
  data_plane_values = r.last_data_plane_value;
  last_data_plane_value = r.data_plane_values;
}

-- What a reading adds: a difference of `uint32_t`, to a `uint64_t`.
unfoldable pub accumulate : FeatureRegister → ℕ → FeatureRegister
accumulate r i = record r {
  values = update r.values i (
      (r.values i + (r.data_plane_values i + 2 ^ 32 - r.last_data_plane_value i) % 2 ^ 32)
      % 2 ^ 64);
}

-- The rounds of a loop over `k` indices from `i` on.
unfoldable pub each {ℓ} : {S : Type ℓ} → (ℕ → S → S) → ℕ → ℕ → S → S
each step zero i s = s
each step (suc k) i s = each step k (i + 1) (step i s)

-- `process_feature`.
unfoldable pub process_feature : ℕ → FeatureRegister → FeatureRegister
process_feature feature_size r =
    each (λ i s. accumulate s i) (feature_size - min_session_id) min_session_id r

-- What `process_and_age_feature` works on.
pub record Ageing : Type 0 where
  pub register : FeatureRegister
  pub last_flow_update : ℕ → ℕ
  pub packet_ring : Ringbuffer PacketItem

module _ (ring_size now : ℕ) (egress_feature_to_session_id : ℕ → Option ℕ) where
  abbrev pub has_session : Option ℕ → Bool
  has_session none = false
  has_session (some id) = true

  -- A timeout has been sent, or found no room.
  unfoldable pub timed_out : ℕ → Ageing → Status → Ageing
  timed_out i s success = record s { last_flow_update = update s.last_flow_update i 0 }
  timed_out i s failure = s

  unfoldable pub send_timeout : ℕ → Ageing → Option ℕ → Ageing
  send_timeout i s none = s
  send_timeout i s (some session_id) =
      let (status, ring) = Ringbuffer.put ring_size s.packet_ring (pkt_timeout_flow session_id) in
      timed_out i (record s { packet_ring = ring }) status

  -- A round of `process_and_age_feature`; `now - FLOW_TIMEOUT` is a `uint32_t`.
  unfoldable pub age : ℕ → Ageing → Ageing
  age i s =
      let r = s.register in
      let session = egress_feature_to_session_id i in
      let timeout = (now % 2 ^ 32 + 2 ^ 32 - flow_timeout) % 2 ^ 32 in
      let s' = record s { register = accumulate r i } in
      if not (r.data_plane_values i == r.last_data_plane_value i)
        || s.last_flow_update i == 0 && has_session session
      then record s' { last_flow_update = update s.last_flow_update i (now % 2 ^ 32) }
      else if ltb (s.last_flow_update i) timeout
      then send_timeout i s' session
      else s'

  unfoldable pub process_and_age_feature : ℕ → Ageing → Ageing
  process_and_age_feature feature_size s = each age (feature_size - min_session_id) min_session_id s

-- `set_new_flow_initial_timeout`.
pub set_new_flow_initial_timeout : ℕ → (ℕ → ℕ) → ℕ → ℕ → ℕ
set_new_flow_initial_timeout now last_flow_update flow_id =
    update last_flow_update flow_id (now % 2 ^ 32)
