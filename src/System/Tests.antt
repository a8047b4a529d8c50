-- ===== src/System/Tests.antt =====
-- The system from the start of the flow database, on a switch with tables of rows.
use marina.Prelude.{
  ℕ, ◌+◌, ◌<◌, ◌≡◌, refl, arith, true, update, Option, none, some, [], result_or, Returns, returns,
  Returns-result, Returns-both, Returns-inv,
}
use marina.Prelude.Int.{pos}
use marina.Structs.{FiveTuple, ipv4, dev_port_to_pipe}
use marina.FlowHashtable.{zero_five_tuple}
use marina.FlowHashtable.Laws as FlowLaws
use marina.Commands.{BloomFilterCmd, dp_remove_bloom_filter, PacketItem, pkt_add_flow}
use marina.BloomFilter.{DpFiveTuple, Entries, bloom_filter_init}
use marina.Ringbuffer.{Ringbuffer}
use marina.Ringbuffer
use marina.Ringbuffer.Refine.{init-Holds}
use marina.Ringbuffer.EnsurePut.{ensure_put-put}
use marina.DpApi.{ok}
use marina.DpApi.Rows.{Row}
use marina.Dataplane.{Dataplane}
use marina.Dataplane
use marina.Dataplane.Mirror.{Live, proto_of, row_of}
use marina.Dataplane.Follows.{follow_all}
use marina.FlowDb.{FlowDb, flowdb_start}
use marina.FlowDb.Invariant.{InOrder}
use marina.FlowDb.Reach.{ring-InOrder, execute-InOrder}
use marina.FlowDb.Start.{flowdb_start-InOrder, flowdb_start_lem}
use marina.FlowDb.Tracks.{Tracks}
use marina.FlowDb.Thread.{Surroundings, execute}
use marina.DpApi.RowSwitch.{Switch, rows, driver, works}
use marina.FlowDb.Sample.{
  setting, no_ids, no_ids-AllHeaps, zero_command, empty_ring, initialised, pos_size, ring_pos, fits,
  first_pipe,
}
use marina.System.{System, Reachable, here, further, handles_message, carries_out, maintains}
use marina.System.Consistent.{IsConsistent, Reachable-IsConsistent, idle_switch_matches}

started :
    Returns
      (λ db.
        InOrder setting pos_size 2 db
        × ((db.flows ≡ initialised.flows)
            × (db.ring ≡ initialised.ring)
            × ((db.session_id_heap (dev_port_to_pipe 0)).cur_size ≡ 2)))
      (flowdb_start 2 0 initialised)
started =
    Returns-both
      (flowdb_start-InOrder setting pos_size 2 0 no_ids empty_ring [] no_ids-AllHeaps
        (init-Holds 2 ring_pos (λ _. zero_command) 0))
      (flowdb_start_lem 2 (dev_port_to_pipe 0) 0 initialised first_pipe)

abbrev set_up : FlowDb ℕ
set_up = result_or initialised (flowdb_start 2 0 initialised)

-- After the set-up; the ring buffer is the one before it.
abbrev fresh : FlowDb ℕ
fresh = record set_up { ring = empty_ring }

fresh-InOrder : InOrder setting pos_size 2 fresh
fresh-InOrder =
    ring-InOrder setting pos_size ring_pos 2 fits set_up empty_ring []
      (Returns-result initialised started).0 (init-Holds 2 ring_pos (λ _. zero_command) 0)

abbrev no_flows : ℕ → Option Live
no_flows f = none

fresh-Tracks : Tracks setting pos_size no_flows fresh
unfolding follow_all
fresh-Tracks = record {
  flow_map = λ _. none;
  models =
      rw (Returns-result initialised started).1.0
        (FlowLaws.flow_hashtable_init-Models setting.murmur_h 16 pos_size);
  queue = [];
  holds = init-Holds 2 ring_pos (λ _. zero_command) 0;
  live = no_flows;
  stream = refl;
  agrees = record { to = λ t f e. absurd (cc e); from = λ f l e. absurd (cc e) };
}

abbrev no_stamp : ℕ → ℕ → ℕ → Switch → Switch
no_stamp pipe index value s = s

abbrev start : System ℕ Switch
start = record {
  db = fresh;
  entries = bloom_filter_init;
  dataplane = record {
    switch = record { tables = λ p k. none; next = 0 };
    entry_hdls = λ f. 0;
    features = [];
    status = ok;
  };
}

start-IsConsistent :
    IsConsistent setting pos_size ring_pos 2 fits driver no_stamp rows works
      (λ pipe index value s. refl)
      start
start-IsConsistent = record {
  in_order = fresh-InOrder;
  executed = no_flows;
  tracks = fresh-Tracks;
  mirrors = record {
    typed = λ f l e. absurd (cc e);
    has = λ f l e. absurd (cc e);
    only = λ p k row e. absurd (cc e);
    apart = λ f f' l l' e e' code at. absurd (cc e);
  };
}

abbrev crc : ℕ → DpFiveTuple → ℕ
crc i t = i + t.src_port

abbrev surroundings : Surroundings ℕ
surroundings = record { uuid = 7; garbage = 5; indices = λ _. 0; others = [] }

abbrev new_flow : PacketItem
new_flow =
    pkt_add_flow (record zero_five_tuple { h = record zero_five_tuple.h { l3_proto = ipv4 } })

-- The message that adds a flow.
added :
    (r : FlowDb ℕ × Entries) × (execute setting crc
        (λ a. a)
        8
        surroundings
        fresh
        bloom_filter_init
        new_flow
      ≡ some r)
    × InOrder setting pos_size 2 r.0
added = Returns-inv (
    execute-InOrder setting pos_size ring_pos 2 fits crc (λ a. a) 8 surroundings fresh
      bloom_filter_init new_flow fresh-InOrder first_pipe
      λ x.
        rw (ensure_put-put 2 ring_pos x (init-Holds 2 ring_pos (λ _. zero_command) 0) (omega arith))
          (returns tt))

abbrev with_flow : System ℕ Switch
with_flow = record start { db = added.0.0; entries = added.0.1 }

session_left : 0 < (fresh.session_id_heap (dev_port_to_pipe 0)).cur_size
session_left = omega (arith, (Returns-result initialised started).1.2)

with_flow-Reachable : Reachable setting crc (λ a. a) 8 driver no_stamp start with_flow
unfolding Ringbuffer.init
with_flow-Reachable = further here (
    handles_message {s = start} {db = added.0.0} {entries = added.0.1} surroundings new_flow
      first_pipe refl session_left refl added.1)

Reachable-IsConsistent_example :
    IsConsistent setting pos_size ring_pos 2 fits driver no_stamp rows works
      (λ pipe index value s. refl)
      with_flow
Reachable-IsConsistent_example =
    Reachable-IsConsistent setting pos_size ring_pos 2 fits driver no_stamp rows works
      (λ pipe index value s. refl) crc (λ a. a) 8 start-IsConsistent with_flow-Reachable

abbrev bloom_command : BloomFilterCmd
bloom_command = record { bloom_filter_indices = λ i. pos i; pipe_id = 1 }

-- A command of the maintenance thread, which the data plane thread then takes.
abbrev waiting : System ℕ Switch
waiting = record start {
  db = record fresh {
    ring = (Ringbuffer.put 2 empty_ring (dp_remove_bloom_filter bloom_command)).1;
  };
}

abbrev idle : System ℕ Switch
idle = record waiting {
  db = record waiting.db { ring = (Ringbuffer.get 2 waiting.db.ring).1 };
  dataplane =
      Dataplane.execute driver no_stamp waiting.dataplane (dp_remove_bloom_filter bloom_command);
}

idle-Reachable : Reachable setting crc (λ a. a) 8 driver no_stamp start idle
unfolding Ringbuffer.init Ringbuffer.put Ringbuffer.put_locked Ringbuffer.store Ringbuffer.get
    Ringbuffer.take_item update
idle-Reachable =
    further (further here (maintains {s = start} bloom_command bloom_filter_init))
      (carries_out {s = waiting} (dp_remove_bloom_filter bloom_command) refl tt)

idle_ring : idle.db.ring.empty ≡ true
unfolding Ringbuffer.init Ringbuffer.put Ringbuffer.put_locked Ringbuffer.store Ringbuffer.get
    Ringbuffer.take_item update
idle_ring = refl

idle_switch_matches_example :
    (m : FiveTuple → Option ℕ) × FlowLaws.Models setting.murmur_h 16 pos_size idle.db.flows m
    × ((t : FiveTuple) (f : ℕ)
        → m t ≡ some f
        → (l : Live) × (l.five_tuple.h ≡ t.h)
          × (idle.dataplane.switch.tables (proto_of t) (idle.dataplane.entry_hdls f) ≡ row_of l))
    × ((p k : ℕ) (row : Row)
        → idle.dataplane.switch.tables p k ≡ some row
        → (t : FiveTuple) × (f : ℕ) × (m t ≡ some f)
          × (proto_of t ≡ p)
          × (idle.dataplane.entry_hdls f ≡ k))
idle_switch_matches_example =
    idle_switch_matches setting pos_size ring_pos 2 fits driver no_stamp rows works
      (λ pipe index value s. refl) crc (λ a. a) 8 start-IsConsistent idle-Reachable idle_ring
