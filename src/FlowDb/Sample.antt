-- ===== src/FlowDb/Sample.antt =====
-- A flow database with two ids for each pipe, for the tests.
use marina.Prelude.{ℕ, ◌+◌, ◌<◌, ◌≤◌, true, arith, some}
use marina.Structs.{dev_port_to_pipe}
use marina.Heap.{Heap}
use marina.FlowHashtable.{zero_five_tuple}
use marina.Commands.{DataplaneCommand, dp_clear_registers}
use marina.Ringbuffer.{Ringbuffer}
use marina.Ringbuffer
use marina.FlowDb.{FlowDb, Setting}
use marina.FlowDb.Ids.{AllHeaps}
use marina.FlowDb.Start.{before_start}

abbrev pub setting : Setting
setting = record {
  use_sessions = true;
  murmur_h = λ h. h.src_port;
  murmur_sh = λ sh. sh.client_addr;
  table_size = 16;
  ring_size = 2;
  devport_mapping = λ port. some (port + 2);
}

abbrev pub no_ids : ℕ → Heap
no_ids _ = record { cur_size = 0; items = λ _. 0 }

pub no_ids-AllHeaps : AllHeaps no_ids
no_ids-AllHeaps q c p r s = absurd (omega arith)

abbrev pub zero_command : DataplaneCommand
zero_command =
    dp_clear_registers (record { five_tuple = zero_five_tuple; flow_id = 0; session_id = 0 })

abbrev pub empty_ring : Ringbuffer DataplaneCommand
empty_ring = Ringbuffer.init (λ _. zero_command) 0

abbrev pub initialised : FlowDb ℕ
initialised = before_start no_ids 0 empty_ring

pub pos_size : 0 < 16
pos_size = omega arith

pub ring_pos : 0 < 2
ring_pos = omega arith

pub fits : 12 ≤ 16
fits = omega arith

pub first_pipe : dev_port_to_pipe 0 < 4
unfolding dev_port_to_pipe
first_pipe = omega arith
