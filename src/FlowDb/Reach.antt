-- ===== src/FlowDb/Reach.antt =====
-- controller/flow_db/flow_db.c: the states that the flow database gets into, as the thread works on
-- messages and other threads use the ring buffer of commands.
use marina.Prelude.{
  ℕ, ◌+◌, ◌<◌, ◌≤◌, ◌≡◌, sym, Bool, true, false, some, List, ◌∷◌, ◌++◌, if◌then◌else◌, Returns,
  returns, Returns-inv, Returns-bind,
}
use mathlib.Core.Path.{subst}
use marina.Structs.{dev_port_to_pipe}
use marina.Commands.{
  DataplaneCommand, PacketItem, pkt_add_flow, pkt_remove_flow, pkt_add_bloom_filter_irrelevant,
  pkt_fix_bloom_filter_relevant, pkt_remove_bloom_filter, pkt_timeout_flow,
}
use marina.BloomFilter.{
  DpFiveTuple, Entries, bloom_filter_set_irrelevant, bloom_filter_set_relevant,
}
use marina.Ringbuffer.{Ringbuffer, Action, taken, Slot, theirs}
use marina.Ringbuffer
use marina.Ringbuffer.Refine.{Holds}
use marina.Ringbuffer.Calls.{put-Holds, act-Holds}
use marina.Ringbuffer.EnsurePut.{WaitEnds, served-WaitEnds, NoPuts, turns}
use marina.FlowDb.{FlowDb, Setting}
use marina.FlowDb.Ids.{num_pipes, end_of_ids}
use marina.FlowDb.Invariant.{InOrder, flow_room, session_room}
use marina.FlowDb.Adding.{add_flow_keeps_ids}
use marina.FlowDb.Removing.{remove_by_five_tuple_keeps_ids, remove_by_flow_id_keeps_ids}
use marina.FlowDb.Thread.{Surroundings, execute}

-- The port of the flow of a message belongs to one of the pipes.
abbrev pub IsOnPipe : PacketItem → Type 0
IsOnPipe (pkt_add_flow t) = dev_port_to_pipe t.dev_port < num_pipes
IsOnPipe (pkt_remove_flow t) = dev_port_to_pipe t.dev_port < num_pipes
IsOnPipe _ = Unit

module _ {U : Type 0} (g : Setting) (crc : ℕ → DpFiveTuple → ℕ) (crc_of_address : ℕ → ℕ)
    (width : ℕ) where
  -- The thread works on a message, or another thread calls `get` or `put` of the ring buffer.
  pub data Step : FlowDb U × Entries → FlowDb U × Entries → Type 0 where
    message :
        {db : FlowDb U} {entries : Entries} {after : FlowDb U × Entries} (w : Surroundings U)
        (item : PacketItem)
        → IsOnPipe item
        → WaitEnds g.ring_size w.others db.ring
        → execute g crc crc_of_address width w db entries item ≡ some after
        → Step (db, entries) after
    other :
        {db : FlowDb U} {entries : Entries} (a : Action DataplaneCommand)
        → Step
            (db, entries)
            (record db { ring = (Ringbuffer.act g.ring_size a db.ring).1 }, entries)

  -- What the thread gets to from where it starts.
  pub data Reachable (start : FlowDb U × Entries) : FlowDb U × Entries → Type 0 where
    here : Reachable start start
    further : {s s' : FlowDb U × Entries} → Reachable start s → Step s s' → Reachable start s'

module _ {U : Type 0} (g : Setting) (pos : 0 < g.table_size) (ring_pos : 0 < g.ring_size)
    (heapsize : ℕ) (fits : end_of_ids heapsize ≤ g.table_size) where
  -- The ring buffer has changed.
  pub ring-InOrder :
      (db : FlowDb U) (ring : Ringbuffer DataplaneCommand) (queue : List DataplaneCommand)
      → InOrder g pos heapsize db
      → Holds g.ring_size ring queue
      → InOrder g pos heapsize (record db { ring = ring })
  ring-InOrder db ring queue v holds = record {
    flow_map = v.flow_map;
    session_map = v.session_map;
    keeps = record {
      flow_heaps = v.keeps.flow_heaps;
      session_heaps = v.keeps.session_heaps;
      flows = v.keeps.flows;
      sessions = v.keeps.sessions;
      flow_ids = v.keeps.flow_ids;
      session_ids = v.keeps.session_ids;
      ports = v.keeps.ports;
      queue = queue;
      commands = holds;
    };
  }

  -- A command may have been put.
  maybe_put-InOrder :
      (db : FlowDb U) (b : Bool) (command : DataplaneCommand)
      → InOrder g pos heapsize db
      → InOrder g pos heapsize (record db {
        ring = if b then (Ringbuffer.put g.ring_size db.ring command).1 else db.ring;
      })
  maybe_put-InOrder db false command v = ring-InOrder db db.ring _ v v.keeps.commands
  maybe_put-InOrder db true command v =
      ring-InOrder db _ _ v (put-Holds g.ring_size ring_pos command v.keeps.commands).1

  module _ (crc : ℕ → DpFiveTuple → ℕ) (crc_of_address : ℕ → ℕ) (width : ℕ) where
    -- From a state in order, a round of the thread ends in a state in order, whatever the
    -- message is, if the port of its flow belongs to one of the pipes and the wait of a timeout
    -- for room ends.
    pub execute-InOrder :
        (w : Surroundings U) (db : FlowDb U) (entries : Entries) (item : PacketItem)
        → InOrder g pos heapsize db
        → IsOnPipe item
        → WaitEnds g.ring_size w.others db.ring
        → Returns
            (λ after. InOrder g pos heapsize after.0)
            (execute g crc crc_of_address width w db entries item)
    unfolding execute bloom_filter_set_irrelevant bloom_filter_set_relevant
    execute-InOrder w db entries (pkt_add_flow t) v lt ends =
        Returns-bind (add_flow_keeps_ids g pos ring_pos heapsize fits db t w.uuid v lt)
          λ db' v'. returns v'
    execute-InOrder w db entries (pkt_remove_flow t) v lt ends =
        Returns-bind
          (remove_by_five_tuple_keeps_ids g pos ring_pos heapsize fits db t w.garbage v lt)
          λ db' v'. returns v'
    execute-InOrder w db entries (pkt_add_bloom_filter_irrelevant t) v lt ends =
        returns (maybe_put-InOrder db _ _ v)
    execute-InOrder w db entries (pkt_fix_bloom_filter_relevant t) v lt ends =
        returns (maybe_put-InOrder db _ _ v)
    execute-InOrder w db entries pkt_remove_bloom_filter v lt ends = returns v
    execute-InOrder w db entries (pkt_timeout_flow id) v lt ends =
        Returns-bind
          (remove_by_flow_id_keeps_ids g pos ring_pos heapsize fits db id w.garbage w.others v ends)
          λ db' v'. returns v'

    Step-InOrder :
        {s s' : FlowDb U × Entries}
        → InOrder g pos heapsize s.0
        → Step g crc crc_of_address width s s'
        → InOrder g pos heapsize s'.0
    Step-InOrder v (message {db} {entries} {after} w item lt ends e) =
        let (r, e', v') = Returns-inv (execute-InOrder w db entries item v lt ends) in
        let same : r ≡ after = cc (e, e') in subst (λ s. InOrder g pos heapsize s.0) same v'
    Step-InOrder v (other {db} a) =
        ring-InOrder db _ _ v (act-Holds g.ring_size ring_pos a v.keeps.commands).1

    -- Every state that the flow database reaches from a state in order is in order, however
    -- messages, and calls of `get` and `put` of the ring buffer by other threads, follow each
    -- other.
    pub Reachable-InOrder :
        {start s : FlowDb U × Entries}
        → InOrder g pos heapsize start.0
        → Reachable g crc crc_of_address width start s
        → InOrder g pos heapsize s.0
    Reachable-InOrder v here = v
    Reachable-InOrder v (further r step) = Step-InOrder (Reachable-InOrder v r) step

    -- In no state that the flow database reaches from a state in order is a table full: both
    -- tables have two free cells at least, so that every search and every removal ends.
    pub tables_never_full :
        {start s : FlowDb U × Entries}
        → InOrder g pos heapsize start.0
        → Reachable g crc crc_of_address width start s
        → (s.0.flows.num_entries + 1 < g.table_size) × (s.0.sessions.num_entries + 1 < g.table_size)
    tables_never_full v r =
        let k = (Reachable-InOrder v r).keeps in
        (flow_room g pos heapsize fits k, session_room g pos heapsize fits k)

    -- In every state that the flow database reaches from a state in order, the thread works any
    -- message off, whose flow has a port of one of the pipes, and gets to a further state, if at
    -- some time while it waits for room the consumer of the ring buffer takes a command, and the
    -- thread then has its turn twice before another thread puts.
    pub messages_end :
        {start s : FlowDb U × Entries} (w : Surroundings U) (item : PacketItem)
        (before mid later : List (Slot DataplaneCommand))
        → InOrder g pos heapsize start.0
        → Reachable g crc crc_of_address width start s
        → IsOnPipe item
        → w.others ≡ before ++ theirs taken ∷ (mid ++ later)
        → NoPuts mid
        → 2 ≤ turns mid
        → Returns
            (Reachable g crc crc_of_address width start)
            (execute g crc crc_of_address width w s.0 s.1 item)
    messages_end {start} {s} w item before mid later v r lt served quiet le =
        let v' = Reachable-InOrder v r in
        let ends : WaitEnds g.ring_size w.others s.0.ring =
          subst (λ slots. WaitEnds g.ring_size slots s.0.ring) (sym served)
            (served-WaitEnds g.ring_size ring_pos before mid later v'.keeps.commands quiet le) in
        let (after, e, _) = Returns-inv (execute-InOrder w s.0 s.1 item v' lt ends) in
        rw e (returns (further r (message w item lt ends e)))
