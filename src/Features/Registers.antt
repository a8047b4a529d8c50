-- ===== src/Features/Registers.antt =====
-- controller/dataplane/features.c: the descriptions of the feature registers, and the loops over
-- them that set the arrays up and read the switch. The functions of the driver are a parameter.
use marina.Prelude.{ℕ, ◌+◌, Option, List, [], ◌∷◌, update, Status}
use marina.Commands.{PacketItem}
use marina.Ringbuffer.{Ringbuffer}
use marina.DpApi.{ErrorCode, code_of}
use marina.Features.{
  FeatureRegister, swap_dp_buffer, each, process_feature, process_and_age_feature,
}

-- The registers of the switch that the functions of the driver are named for.
pub data Register : Type 0 where
  pkt_count_reg size_log_reg size_log_square_reg size_log_cube_reg : Register
  iat_log_reg iat_log_square_reg iat_log_cube_reg iat_last_timestamp_reg : Register

-- `process_register`.
pub data Process : Type 0 where
  ageing plain : Process

-- What `feature_register_t` says of a feature: the register that `table_hdl` names, those that
-- `read_fn`, `write_fn` and `reset_fn` work on, and how it is processed. The side of the switch is
-- a generated constant.
pub record Descriptor : Type 0 where
  pub table_of : Register
  pub read_of : Register
  pub write_of : Register
  pub reset_of : Register
  pub process_register : Process

-- All four from one register.
abbrev of_register : Register → Process → Descriptor
of_register r process = record {
  table_of = r;
  read_of = r;
  write_of = r;
  reset_of = r;
  process_register = process;
}

abbrev pub register_count : Descriptor
register_count = of_register pkt_count_reg ageing

abbrev pub register_size_log : Descriptor
register_size_log = of_register size_log_reg plain

abbrev pub register_size_log_square : Descriptor
register_size_log_square = of_register size_log_square_reg plain

abbrev pub register_size_log_cube : Descriptor
register_size_log_cube = of_register size_log_cube_reg plain

-- Its `reset_fn` is that of another register.
abbrev pub register_iat_log : Descriptor
register_iat_log = record {
  table_of = iat_log_reg;
  read_of = iat_log_reg;
  write_of = iat_log_reg;
  reset_of = iat_log_square_reg;
  process_register = plain;
}

abbrev pub register_iat_log_square : Descriptor
register_iat_log_square = of_register iat_log_square_reg plain

abbrev pub register_iat_log_cube : Descriptor
register_iat_log_cube = of_register iat_log_cube_reg plain

-- `STATIC_FEATURES_ARRAY`.
abbrev pub features : List Descriptor
features =
    register_count ∷ register_size_log ∷ register_size_log_square ∷ register_size_log_cube
    ∷ register_iat_log ∷ register_iat_log_square ∷ register_iat_log_cube ∷ []

-- The functions of the driver, on its state. `read` gives what the buffer holds afterwards.
pub record RegisterDriver (S : Type 0) : Type 0 where
  pub reset : Register → ℕ → S → S
  pub sync : Register → S → Status × S
  pub read : Register → (ℕ → ℕ) → S → Status × (ℕ → ℕ) × S

-- What the loops work on; `registers` has the arrays of the features by their place in `features`.
pub record FeatureStore (S : Type 0) : Type 0 where
  pub registers : ℕ → FeatureRegister
  pub last_flow_update : ℕ → ℕ
  pub packet_ring : Ringbuffer PacketItem
  pub switch : S

-- The loops over the array of features, from its place `i` on.
unfoldable pub over : {T : Type 0} → (ℕ → Descriptor → T → T) → ℕ → List Descriptor → T → T
over step i [] s = s
over step i (d ∷ rest) s = over step (i + 1) rest (step i d s)

module _ {S : Type 0} (driver : RegisterDriver S) where
  open driver use {reset, sync, read}

  unfoldable pub prepare_feature : ℕ → FeatureStore S → FeatureStore S
  prepare_feature i s = record s {
    registers =
        update s.registers i
          (record { values = λ _. 0; data_plane_values = λ _. 0; last_data_plane_value = λ _. 0 });
    last_flow_update = λ _. 0;
  }

  -- A round of the loop over the pipes.
  unfoldable pub reset_and_prepare : ℕ → Descriptor → ℕ → FeatureStore S → FeatureStore S
  reset_and_prepare i d pipe s =
      prepare_feature i (record s { switch = reset d.reset_of pipe s.switch })

  unfoldable pub prepare_features : FeatureStore S → FeatureStore S
  prepare_features s = over (λ i d. each (reset_and_prepare i d) 4 0) 0 features s

  unfoldable pub sync_feature : Descriptor → S → ErrorCode × S
  sync_feature d s = let (status, s') = sync d.table_of s in (code_of status, s')

  -- The buffers are swapped also if the driver fails.
  unfoldable pub read_feature : ℕ → Descriptor → FeatureStore S → ErrorCode × FeatureStore S
  read_feature i d s =
      let r = swap_dp_buffer (s.registers i) in
      let (status, buffer, switch) = read d.read_of r.data_plane_values s.switch in
      (
        code_of status,
        record s {
          registers = update s.registers i (record r { data_plane_values = buffer });
          switch = switch;
        },
      )

  module _ (ring_size now : ℕ) (egress_feature_to_session_id : ℕ → Option ℕ)
      (feature_size : ℕ) where
    -- `features[i]->process_register(features[i])`.
    unfoldable pub process_by : ℕ → Process → FeatureStore S → FeatureStore S
    process_by i plain s = record s {
      registers = update s.registers i (process_feature feature_size (s.registers i));
    }
    process_by i ageing s =
        let a =
          process_and_age_feature ring_size now egress_feature_to_session_id feature_size (record {
            register = s.registers i;
            last_flow_update = s.last_flow_update;
            packet_ring = s.packet_ring;
          }) in
        record s {
          registers = update s.registers i a.register;
          last_flow_update = a.last_flow_update;
          packet_ring = a.packet_ring;
        }

    -- The results of the first two loops are not looked at.
    unfoldable pub read_features : FeatureStore S → FeatureStore S
    read_features s =
        let synced =
          over (λ i d s. record s { switch = (sync_feature d s.switch).1 }) 0 features s in
        let filled = over (λ i d s. (read_feature i d s).1) 0 features synced in
        over (λ i d. process_by i d.process_register) 0 features filled
