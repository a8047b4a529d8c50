-- ===== src/Features/Tests.antt =====
-- A register that wraps between two readings, and a switch with one counter for all registers.
use marina.Prelude.{
  ℕ, ◌+◌, ◌-◌, ◌%◌, ◌^◌, ◌≡◌, ◌<◌, ◌≤◌, ◌++◌, length, refl, arith, ◌==◌, ◌&&◌, if◌then◌else◌,
  Option, none, some, List, [], ◌∷◌, success, failure, Bool, true, false, Status, update,
  update_self, update_ne, ℕ_discrete, ap, sym, ◌∙◌,
}
use marina.Commands.{PacketItem, pkt_remove_bloom_filter}
use marina.Ringbuffer
use marina.Features.{FeatureRegister, Ageing, process_and_age_feature}
use marina.Features.Registers.{
  Register, iat_log_reg, register_iat_log, RegisterDriver, FeatureStore, prepare_features,
}
use marina.Features.Readings.{IsReader}
use marina.Ringbuffer.Refine.{Holds, init-Holds}
use marina.Features.Timeouts.{timeouts, updated_at, timeouts_sent}
use marina.Features.Totals.{Moment, readings, Goes, stays, goes, readings_add_up}
use marina.Features.Preparing.{
  number_of, IsResetter, zeros, kept_registers, prepare_features_clears,
}

abbrev register : FeatureRegister
register = record {
  values = λ _. 100;
  data_plane_values = λ _. 4;
  last_data_plane_value = λ _. 4294967290;
}

abbrev sessions : ℕ → Option ℕ
sessions i = if i == 5 then some 4 else none

abbrev idle : Ageing
idle = record {
  register = record register { data_plane_values = λ _. 4294967290 };
  last_flow_update = λ _. 1;
  packet_ring = Ringbuffer.init (λ _. pkt_remove_bloom_filter) 0;
}

-- Whether the driver answers, what each register has counted, at index 0, and the copies of that.
abbrev Counter : Type 0
Counter = Bool × (ℕ → ℕ) × (ℕ → ℕ)

unfoldable sync_counter : Register → Counter → Status × Counter
sync_counter r (false, hw, sw) = (failure, (false, hw, sw))
sync_counter r (true, hw, sw) = (success, (true, hw, update sw (number_of r) (hw (number_of r))))

unfoldable read_counter : Register → (ℕ → ℕ) → Counter → Status × (ℕ → ℕ) × Counter
read_counter r b (false, hw, sw) = (failure, b, (false, hw, sw))
read_counter r b (true, hw, sw) = (success, (λ j. (sw (number_of r) + j) % 2 ^ 32), (true, hw, sw))

abbrev counter : RegisterDriver Counter
counter = record { reset = λ r p s. s; sync = sync_counter; read = read_counter }

abbrev counted : Counter → Register → ℕ → ℕ
counted s r j = s.1 (number_of r) + j

abbrev copied : Counter → Register → ℕ → ℕ
copied s r j = s.2 (number_of r) + j

sync_lem :
    (r r' : Register) (s : Counter) (j : ℕ)
    → (counted (sync_counter r s).1 r' j ≡ counted s r' j)
      × ((sync_counter r s).0 ≡ success → copied (sync_counter r s).1 r j ≡ counted s r j)
      × (copied s r' j ≡ counted s r' j → copied (sync_counter r s).1 r' j ≡ counted s r' j)
unfolding sync_counter
sync_lem r r' (false, hw, sw) j = (refl, (λ ok. cc ok), λ e. e)
sync_lem r r' (true, hw, sw) j = (
  refl,
  (λ ok. ap (λ n. n + j) (update_self sw (number_of r) (hw (number_of r)))),
  λ e. elim (ℕ_discrete (number_of r) (number_of r')) [
    | yes same ↦
        ap (λ n. update sw (number_of r) (hw (number_of r)) n + j) (sym same)
        ∙ ap (λ n. n + j) (update_self sw (number_of r) (hw (number_of r)))
        ∙ ap (λ n. hw n + j) same
    | no other ↦
        ap (λ n. n + j) (update_ne sw (number_of r) (hw (number_of r)) (number_of r') other) ∙ e
  ],
)

sync_up :
    (r : Register) (s : Counter)
    → s.0 ≡ true
    → ((sync_counter r s).0 ≡ success) × ((sync_counter r s).1.0 ≡ true)
unfolding sync_counter
sync_up r (false, hw, sw) up = cc up
sync_up r (true, hw, sw) up = (refl, refl)

read_lem :
    (r r' : Register) (b : ℕ → ℕ) (s : Counter) (j : ℕ)
    → (copied (read_counter r b s).2 r' j ≡ copied s r' j)
      × ((read_counter r b s).0 ≡ success → (read_counter r b s).1 j ≡ copied s r j % 2 ^ 32)
      × (s.0 ≡ true → ((read_counter r b s).0 ≡ success) × ((read_counter r b s).2.0 ≡ true))
unfolding read_counter
read_lem r r' b (false, hw, sw) j = (refl, (λ ok. cc ok), λ up. cc up)
read_lem r r' b (true, hw, sw) j = (refl, (λ ok. refl), λ up. (refl, refl))

counter-IsReader : IsReader counter counted copied (λ s. s.0)
counter-IsReader = record {
  sync_answers = sync_up;
  read_answers = λ r b s. (read_lem r r b s 0).2;
  sync_keeps = λ r r' s j. (sync_lem r r' s j).0;
  syncs = λ r s j. (sync_lem r r s j).1;
  sync_keeps_copy = λ r r' s j. (sync_lem r r' s j).2;
  read_keeps = λ r r' b s j. (read_lem r r' b s j).0;
  reads = λ r b s j. (read_lem r r b s j).1;
}

abbrev still : ℕ → Counter
still n = (true, (λ _. n), λ _. 0)

abbrev store : FeatureStore Counter
store = record {
  registers = λ _. zeros;
  last_flow_update = λ _. 0;
  packet_ring = Ringbuffer.init (λ _. pkt_remove_bloom_filter) 0;
  switch = still 0;
}

abbrev at : ℕ → Moment Counter
at n = record { switch = still n; now = 100; egress_feature_to_session_id = sessions }

abbrev moments : List (Moment Counter)
moments = at 4000000000 ∷ at 8000000000 ∷ []

moments_go : Goes (λ s. s.0) (λ w. counted w iat_log_reg 5) 0 moments 8000000005
moments_go = goes refl (omega arith) (omega arith) (goes refl (omega arith) (omega arith) stays)

readings_add_up_example :
    ((readings counter 2 8 moments store).registers 4).values 5 ≡ (0 + (8000000005 - 0)) % 2 ^ 64
readings_add_up_example =
    readings_add_up counter counted copied (λ s. s.0) counter-IsReader 2 8 moments store 4
      register_iat_log 5 0 8000000005 refl (omega arith) (omega arith) refl (omega arith) moments_go

-- A switch that keeps one number for each register and pipe.
abbrev plain_switch : RegisterDriver (ℕ → ℕ → ℕ)
plain_switch = record {
  reset = λ r p s n q. if number_of r == n && p == q then 0 else s n q;
  sync = λ r s. (success, s);
  read = λ r b s. (success, b, s);
}

abbrev cell : (ℕ → ℕ → ℕ) → Register → ℕ → ℕ → ℕ
cell s r p j = s (number_of r) p

plain_switch-IsResetter : IsResetter plain_switch cell
plain_switch-IsResetter = record { resets = λ r r' p p' s j. refl }

abbrev used : FeatureStore (ℕ → ℕ → ℕ)
used = record {
  registers = λ _. register;
  last_flow_update = λ _. 9;
  packet_ring = Ringbuffer.init (λ _. pkt_remove_bloom_filter) 0;
  switch = λ n p. 77;
}

prepare_features_clears_example :
    ((prepare_features plain_switch used).registers 4 ≡ zeros)
    × (cell (prepare_features plain_switch used).switch iat_log_reg 3 6 ≡ 77)
unfolding kept_registers
prepare_features_clears_example =
    prepare_features_clears plain_switch cell plain_switch-IsResetter iat_log_reg 6 used 4 3
      register_iat_log refl (omega arith)

abbrev no_items : List PacketItem
no_items = []

two : 0 < 2
two = omega arith

room :
    length no_items + length (timeouts 2 100 sessions idle.register idle.last_flow_update 4 4) ≤ 2
unfolding timeouts
room = omega arith

timeouts_sent_example :
    Holds 2
      (process_and_age_feature 2 100 sessions 8 idle).packet_ring
      (no_items ++ timeouts 2 100 sessions idle.register idle.last_flow_update 4 4)
    × ((process_and_age_feature 2 100 sessions 8 idle).last_flow_update 5
        ≡ updated_at 2 100 sessions idle.register idle.last_flow_update 5)
timeouts_sent_example =
    timeouts_sent 2 100 sessions 8 idle no_items 5 two
      (init-Holds 2 two (λ _. pkt_remove_bloom_filter) 0) room (omega arith) (omega arith)
