-- ===== src/FlowDb/Tests.antt =====
-- A flow database with two ids for each pipe, from its start to the removal of a flow.
use marina.Prelude.{arith, ℕ, ◌+◌, ◌<◌, refl, List, [], ◌∷◌, result_or, Returns, Returns-result}
use marina.FlowHashtable.{zero_five_tuple}
use marina.Commands.{DataplaneCommand, pkt_add_flow, pkt_timeout_flow}
use marina.BloomFilter.{DpFiveTuple, Entries, bloom_filter_init}
use marina.Ringbuffer.{taken, Slot, theirs, ours}
use marina.Ringbuffer.EnsurePut.{NoPuts, turns}
use marina.Ringbuffer.Refine.{init-Holds}
use marina.FlowDb.Sample.{
  setting, no_ids, no_ids-AllHeaps, zero_command, empty_ring, initialised, pos_size, ring_pos, fits,
  first_pipe,
}
use marina.FlowDb.{FlowDb, flowdb_start}
use marina.FlowDb.Invariant.{InOrder}
use marina.FlowDb.Start.{flowdb_start-InOrder}
use marina.FlowDb.Thread.{Surroundings, execute}
use marina.FlowDb.Reach.{Reachable, here, Reachable-InOrder, tables_never_full, messages_end}

flowdb_start-InOrder_example : Returns (InOrder setting pos_size 2) (flowdb_start 2 0 initialised)
flowdb_start-InOrder_example =
    flowdb_start-InOrder setting pos_size 2 0 no_ids empty_ring [] no_ids-AllHeaps
      (init-Holds 2 ring_pos (λ _. zero_command) 0)

started : Returns (InOrder setting pos_size 2) (flowdb_start 2 0 initialised)
started =
    flowdb_start-InOrder setting pos_size 2 0 no_ids empty_ring [] no_ids-AllHeaps
      (init-Holds 2 ring_pos (λ _. zero_command) 0)

abbrev fresh : FlowDb ℕ
fresh = result_or initialised (flowdb_start 2 0 initialised)

fresh-InOrder : InOrder setting pos_size 2 fresh
fresh-InOrder = Returns-result initialised started

-- The thread turns in vain while the buffer is full, the consumer takes one, and it turns twice.
abbrev two_turns : List (Slot DataplaneCommand)
two_turns = ours ∷ ours ∷ []

abbrev schedule : List (Slot DataplaneCommand)
schedule = ours ∷ theirs taken ∷ two_turns

abbrev crc : ℕ → DpFiveTuple → ℕ
crc i t = i + t.src_port

abbrev surroundings : Surroundings ℕ
surroundings = record { uuid = 7; garbage = 5; indices = λ _. 0; others = schedule }

abbrev start : FlowDb ℕ × Entries
start = (fresh, bloom_filter_init)

-- The state after the message that adds the flow.
first_message : Returns (Reachable setting crc (λ a. a) 8 start) (
    execute setting crc
      (λ a. a)
      8
      surroundings
      fresh
      bloom_filter_init
      (pkt_add_flow zero_five_tuple))
unfolding NoPuts turns
first_message =
    messages_end setting pos_size ring_pos 2 fits crc (λ a. a) 8 surroundings
      (pkt_add_flow zero_five_tuple) (ours ∷ []) two_turns [] fresh-InOrder here first_pipe refl tt
      (omega arith)

abbrev second : FlowDb ℕ × Entries
second = result_or start (
    execute setting crc (λ a. a) 8 surroundings fresh bloom_filter_init
      (pkt_add_flow zero_five_tuple))

second-Reachable : Reachable setting crc (λ a. a) 8 start second
second-Reachable = Returns-result start first_message

messages_end_example :
    Returns
      (Reachable setting crc (λ a. a) 8 start)
      (execute setting crc (λ a. a) 8 surroundings second.0 second.1 (pkt_timeout_flow 4))
unfolding NoPuts turns
messages_end_example =
    messages_end setting pos_size ring_pos 2 fits crc (λ a. a) 8 surroundings (pkt_timeout_flow 4)
      (ours ∷ []) two_turns [] fresh-InOrder second-Reachable tt refl tt (omega arith)

Reachable-InOrder_example : InOrder setting pos_size 2 second.0
Reachable-InOrder_example =
    Reachable-InOrder setting pos_size ring_pos 2 fits crc (λ a. a) 8 fresh-InOrder second-Reachable

tables_never_full_example :
    (second.0.flows.num_entries + 1 < 16) × (second.0.sessions.num_entries + 1 < 16)
tables_never_full_example =
    tables_never_full setting pos_size ring_pos 2 fits crc (λ a. a) 8 fresh-InOrder second-Reachable
