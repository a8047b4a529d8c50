-- ===== src/Dataplane.antt =====
-- controller/dataplane/dataplane.c: what the data plane thread makes of a command. The handles of
-- the classification entries are kept by flow id; of a feature register the array of values is
-- enough here. `status` is the variable that the thread keeps from round to round.
pub mod Mirror
pub mod MirrorSteps
pub mod Follows
mod Tests
use marina.Prelude.{ℕ, Bool, if◌then◌else◌, update, List, [], ◌∷◌}
use marina.Prelude.Int.{pos, pos_part, ◌+ℤ◌}
use marina.Structs.{flow_id_to_pipe, flow_id_to_register_index}
use marina.Commands.{
  DataplaneCommand, MatchTableCmd, dp_add_flow, dp_remove_flow, dp_clear_registers,
  dp_add_bloom_filter, dp_remove_bloom_filter,
}
use marina.DpApi.{
  Driver, ErrorCode, switch_add_classification_entry, switch_remove_classification_entry,
  switch_write_bloom_filter,
}

-- A feature: its values, and whether its register is on the egress side.
pub record Feature : Type 0 where
  pub values : ℕ → ℕ
  pub on_egress : Bool

pub record Dataplane (S H : Type 0) : Type 0 where
  pub switch : S
  pub entry_hdls : ℕ → H
  pub features : List Feature
  pub status : ErrorCode

-- The index of a session in the array of a feature.
pub value_index : Feature → MatchTableCmd → ℕ
value_index f c =
    if f.on_egress
    then pos_part (pos c.session_id +ℤ c.five_tuple.session_id_egress_offset)
    else c.session_id

pub clear_values : List Feature → MatchTableCmd → List Feature
clear_values [] c = []
clear_values (f ∷ rest) c =
    record f { values = update f.values (value_index f c) 0 } ∷ clear_values rest c

-- `write_last_timestamp` is the function of the driver that sets the register of the last timestamp.
module _ {S H : Type 0} (driver : Driver S H) (write_last_timestamp : ℕ → ℕ → ℕ → S → S) where
  pub clear_registers : Dataplane S H → MatchTableCmd → Dataplane S H
  clear_registers d c = record d {
    features = clear_values d.features c;
    switch =
        write_last_timestamp (flow_id_to_pipe c.session_id) (flow_id_to_register_index c.session_id)
          0 d.switch;
  }

  -- A round of `dataplane_thread`, without the counting and the message about an error.
  pub execute : Dataplane S H → DataplaneCommand → Dataplane S H
  execute d (dp_add_flow c) =
      let (status, handle, s) =
        switch_add_classification_entry driver c.five_tuple (flow_id_to_register_index c.session_id)
          (d.entry_hdls c.flow_id) d.switch in
      record d { status = status; switch = s; entry_hdls = update d.entry_hdls c.flow_id handle }
  execute d (dp_remove_flow c) =
      let (status, s) =
        switch_remove_classification_entry driver c.five_tuple (d.entry_hdls c.flow_id) d.switch in
      record d { status = status; switch = s }
  execute d (dp_clear_registers c) = clear_registers d c
  execute d (dp_add_bloom_filter c) =
      let (status, s) =
        switch_write_bloom_filter driver c.pipe_id c.bloom_filter_indices 1 d.switch in
      record d { status = status; switch = s }
  execute d (dp_remove_bloom_filter c) = d
