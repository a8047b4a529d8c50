-- ===== src/SwitchSetup.antt =====
-- controller/dataplane/prepare_dataplane.c: how the tables and ports of the switch are set up, with
-- the tables of controller/port_config.h. The functions of the driver are a parameter; the entries
-- of controller/autogenerated, which the build makes, are one too. `none` is `exit(1)`.
mod Forwarding
mod Tests
use marina.Prelude.{
  ℕ, zero, suc, ◌+◌, ◌-◌, ◌%◌, ◌^◌, Bool, ltb, if◌then◌else◌, update, Option, none, some, ◌>>=◌,
  Status, success, failure, List, [], ◌∷◌,
}
use marina.Prelude.Int.{ℤ, pos, negsuc}

pub data Speed : Type 0 where
  bf_speed_100g : Speed

pub data Fec : Type 0 where
  bf_fec_typ_rs : Fec

pub record PortEntry : Type 0 where
  pub port : ℕ
  pub lane : ℕ
  pub speed : Speed
  pub fec : Fec

pub record ForwardEntry : Type 0 where
  pub from_port : ℕ
  pub from_lane : ℕ
  pub to_port : ℕ
  pub to_lane : ℕ

-- An entry of `iat_log_square` and `size_log_square`.
pub record LogSquareEntry : Type 0 where
  pub match_value : ℕ
  pub mask : ℕ
  pub value : ℕ
  pub square : ℕ
  pub cube : ℕ

abbrev pub port_entries : List PortEntry
port_entries =
    record { port = 1; lane = 0; speed = bf_speed_100g; fec = bf_fec_typ_rs }
    ∷ record { port = 2; lane = 0; speed = bf_speed_100g; fec = bf_fec_typ_rs }
    ∷ []

abbrev pub forward_entries : List ForwardEntry
forward_entries =
    record { from_port = 1; from_lane = 0; to_port = 2; to_lane = 0 }
    ∷ record { from_port = 2; from_lane = 0; to_port = 1; to_lane = 0 }
    ∷ []

pub data Table : Type 0 where
  forward_table iat_compute_log_table compute_size_log_table header_length_table : Table
  pkt_count_table bloom_filter_1_table bloom_filter_2_table bloom_filter_3_table : Table
  bloom_filter_4_table add_size_log_table add_size_log_square_table add_size_log_cube_table : Table
  iat_read_update_last_timestamp_table add_iat_log_table add_iat_log_square_table : Table
  add_iat_log_cube_table classification_ipv4 classification_ipv6 : Table

abbrev pub tables_to_clear : List Table
tables_to_clear =
    forward_table ∷ iat_compute_log_table ∷ compute_size_log_table ∷ header_length_table ∷ []

-- With ENABLE_IP4 and ENABLE_IP6.
abbrev pub tables_by_pipe : List Table
tables_by_pipe =
    pkt_count_table ∷ bloom_filter_1_table ∷ bloom_filter_2_table ∷ bloom_filter_3_table
    ∷ bloom_filter_4_table ∷ add_size_log_table ∷ add_size_log_square_table
    ∷ add_size_log_cube_table ∷ iat_read_update_last_timestamp_table ∷ add_iat_log_table
    ∷ add_iat_log_square_table ∷ add_iat_log_cube_table ∷ classification_ipv4 ∷ classification_ipv6
    ∷ []

-- The functions of the driver, on its state `S`, with handles `H` and, for the header lengths, the
-- entries `E`.
pub record SetupDriver (S H E : Type 0) : Type 0 where
  pub port_del_all : S → S
  pub get_entry_count : Table → S → Status × ℕ
  pub get_first_entry_handle : Table → S → H
  pub get_next_entry_handles : Table → H → ℕ → S → ℕ → H
  pub table_delete : Table → H → S → S
  pub table_reset_default_entry : Table → S → S
  pub set_property : Table → S → S
  pub set_cpuport : S → S
  pub add_iat_log : LogSquareEntry → S → Status × S
  pub add_size_log : LogSquareEntry → S → Status × S
  pub add_header_length : E → ℕ → S → Status × S
  pub front_port_to_dev_port : ℕ → ℕ → Status × ℕ
  pub is_port_internal : ℕ → S → Status × Bool
  pub port_add : ℕ → Speed → Fec → S → Status × S
  pub port_enable : ℕ → S → Status × S
  pub add_forward : ℕ → ℕ → S → Status × S

-- `DP_EXIT_ON_ERROR`.
unfoldable pub exit_on_error : {A : Type 0} → Status × A → Option A
exit_on_error (success, x) = some x
exit_on_error (failure, x) = none

-- A loop over an array.
unfoldable pub for_each : {A S : Type 0} → (A → S → Option S) → List A → S → Option S
for_each body [] s = some s
for_each body (x ∷ xs) s = body x s >>= for_each body xs

-- The conversion to `int16_t`.
unfoldable pub int16 : ℕ → ℤ
int16 n = if ltb (n % 2 ^ 16) (2 ^ 15) then pos (n % 2 ^ 16) else negsuc (2 ^ 16 - 1 - n % 2 ^ 16)

module _ {S H E : Type 0} (driver : SetupDriver S H E) where
  open driver use {
    port_del_all, get_entry_count, get_first_entry_handle, get_next_entry_handles, table_delete,
    table_reset_default_entry, set_property, set_cpuport, add_iat_log, add_size_log,
    add_header_length, front_port_to_dev_port, is_port_internal, port_add, port_enable, add_forward,
  }

  -- The handles in the array of CLEAR_TABLE; only the first one, if there is no other.
  pub handle_at : Table → ℕ → S → ℕ → H
  handle_at table count s zero = get_first_entry_handle table s
  handle_at table count s (suc i) =
      get_next_entry_handles table (get_first_entry_handle table s) (count - 1) s i

  pub delete_all : Table → (ℕ → H) → ℕ → ℕ → S → S
  delete_all table handles zero i s = s
  delete_all table handles (suc k) i s =
      delete_all table handles k (i + 1) (table_delete table (handles i) s)

  -- CLEAR_TABLE.
  pub clear_table : Table → S → Option S
  clear_table table s = exit_on_error (get_entry_count table s) >>= λ count.
      some (table_reset_default_entry table (delete_all table (handle_at table count s) count 0 s))

  -- SET_ASSYM for each of the tables.
  pub set_assym : List Table → S → S
  set_assym [] s = s
  set_assym (table ∷ rest) s = set_assym rest (set_property table s)

  -- The loop over `header_length_match` from index `i` on.
  pub add_header_lengths : List E → ℕ → S → Option S
  add_header_lengths [] i s = some s
  add_header_lengths (e ∷ rest) i s =
      exit_on_error (add_header_length e i s) >>= add_header_lengths rest (i + 1)

  unfoldable pub front_panel_to_devport : ℕ → ℕ → Option ℕ
  front_panel_to_devport port lane = exit_on_error (front_port_to_dev_port port lane)

  pub add_port : PortEntry → S → Option S
  add_port e s = front_panel_to_devport e.port e.lane >>= λ dev_port.
      exit_on_error (is_port_internal dev_port s) >>= λ is_internal.
      if is_internal
      then none
      else exit_on_error (port_add dev_port e.speed e.fec s) >>= λ s'.
          exit_on_error (port_enable dev_port s')

  -- An entry of the forwarding table, in `DEVPORT_MAPPING` and in the switch.
  unfoldable pub forward : ForwardEntry → (ℕ → ℤ) × S → Option ((ℕ → ℤ) × S)
  forward e (devport_mapping, s) = front_panel_to_devport e.from_port e.from_lane >>= λ from.
      front_panel_to_devport e.to_port e.to_lane >>= λ to.
      exit_on_error (add_forward from to s) >>= λ s'.
      some (update devport_mapping from (int16 to), s')

  -- The end of `prepare_dataplane`: -1 for each port, then the entries.
  unfoldable pub prepare_forwarding : S → Option ((ℕ → ℤ) × S)
  prepare_forwarding s = for_each forward forward_entries ((λ _. negsuc 0), s)

  pub prepare_dataplane :
      List LogSquareEntry → List LogSquareEntry → List E → S → Option ((ℕ → ℤ) × S)
  prepare_dataplane iat_log_square size_log_square header_length_match s =
      for_each clear_table tables_to_clear (port_del_all s) >>= λ s₁.
      for_each (λ e s. exit_on_error (add_iat_log e s)) iat_log_square
        (set_cpuport (set_assym tables_by_pipe s₁))
      >>= λ s₂. for_each (λ e s. exit_on_error (add_size_log e s)) size_log_square s₂ >>= λ s₃.
          add_header_lengths header_length_match 0 s₃ >>= λ s₄.
          for_each add_port port_entries s₄ >>= prepare_forwarding
