-- ===== src/FlowDb/Removing.antt =====
-- controller/flow_db/flow_db.c: the invariant across the removal of a flow.
use marina.Prelude.{
  ℕ, ◌+◌, ◌<◌, ◌≤◌, ◌≡◌, sym, ap, ◌∙◌, true, arith, ltb→lt, update, Option, some, Option-cases, inl,
  inr, List, Returns, returns, Returns-inv, Returns-bind, Returns-then,
}
use marina.Structs.{FiveTuple, dev_port_to_pipe}
use marina.Commands.{DataplaneCommand}
use marina.Hashtable.Keys.{AllKeys-at}
use marina.Hashtable.Represents.{unbind}
use marina.Heap.{Heap}
use marina.FlowHashtable.{FlowHashtable}
use marina.FlowHashtable.Laws as FlowLaws
use marina.FlowHashtable.Uses.{in_use-remove}
use marina.FlowHashtable.Updates.{
  flow_hashtable_remove_lem, flow_hashtable_remove-missing, flow_hashtable_remove_by_value_lem,
  Removed,
}
use marina.Ringbuffer.{Ringbuffer, Slot}
use marina.Ringbuffer
use marina.Ringbuffer.Refine.{Holds}
use marina.Ringbuffer.Calls.{put-Holds}
use marina.Ringbuffer.EnsurePut.{WaitEnds, ensure_put_lem}
use marina.FlowDb.{
  FlowDb, Setting, free_flow_id, removal_command, removed, remove_flow_by_five_tuple, removed_by_id,
  remove_flow_by_flow_id,
}
use marina.FlowDb.Cleanup.{cleanup_lem}
use marina.FlowDb.Ids.{num_pipes, end_of_ids, once, push_lem, AllHeaps, free_copies}
use marina.FlowDb.Invariant.{Keeps, InOrder, nothing, on_pipe, flow_room}

module _ {U : Type 0} (g : Setting) (pos : 0 < g.table_size) (ring_pos : 0 < g.ring_size)
    (heapsize : ℕ) (fits : end_of_ids heapsize ≤ g.table_size) where
  open g use {use_sessions, murmur_h, murmur_sh, table_size, ring_size}

  -- The id of a flow that the table has given up is back in a heap, and the ring has changed.
  given_back :
      (db : FlowDb U) (m ms : FiveTuple → Option ℕ) (id p : ℕ) (h : Heap)
      (ring : Ringbuffer DataplaneCommand) (queue : List DataplaneCommand)
      → Keeps g pos heapsize (once id) nothing m ms db
      → AllHeaps (update db.flow_id_heap p h)
      → ((x : ℕ)
          → free_copies (update db.flow_id_heap p h) x ≡ free_copies db.flow_id_heap x + once id x)
      → Holds ring_size ring queue
      → Keeps g pos heapsize nothing nothing m ms
          (record db { flow_id_heap = update db.flow_id_heap p h; ring = ring })
  given_back db m ms id p h ring queue k heaps more holds = record {
    flow_heaps = heaps;
    session_heaps = k.session_heaps;
    flows = k.flows;
    sessions = k.sessions;
    flow_ids = λ x. omega (arith, k.flow_ids x, more x);
    session_ids = k.session_ids;
    ports = k.ports;
    queue = queue;
    commands = holds;
  }

  -- Without a flow in the table, which the call then holds.
  taken_out :
      (db : FlowDb U) (m ms : FiveTuple → Option ℕ) (key : FiveTuple) (id : ℕ)
      (flows : FlowHashtable) (k : Keeps g pos heapsize nothing nothing m ms db)
      → m key ≡ some id
      → Removed murmur_h table_size pos db.flows m k.flows key flows
      → Keeps g pos heapsize
          (once id)
          nothing
          (unbind (FlowLaws.flows murmur_h table_size pos) key m)
          ms
          (record db { flows = flows })
  taken_out db m ms key id flows k known gone = record {
    flow_heaps = k.flow_heaps;
    session_heaps = k.session_heaps;
    flows = gone.now;
    sessions = k.sessions;
    flow_ids = λ x. omega (
      arith,
      k.flow_ids x,
      in_use-remove murmur_h table_size pos db.flows flows m key id k.flows known gone.now x,
    );
    session_ids = k.session_ids;
    ports = gone.keys on_pipe k.ports;
    queue = k.queue;
    commands = k.commands;
  }

  removed_lem :
      (db : FlowDb U) (m ms : FiveTuple → Option ℕ) (five_tuple : FiveTuple) (garbage id : ℕ)
      → Keeps g pos heapsize (once id) nothing m ms db
      → dev_port_to_pipe five_tuple.dev_port < num_pipes
      → Returns (InOrder g pos heapsize) (removed g db five_tuple garbage (some id))
  unfolding removed free_flow_id
  removed_lem db m ms five_tuple garbage id k lt =
      let p = dev_port_to_pipe five_tuple.dev_port in
      Returns-then _ (push_lem db.flow_id_heap p lt k.flow_heaps id) λ h (heaps, more).
        let (_, ring) = Ringbuffer.put ring_size db.ring (removal_command five_tuple id) in
        cleanup_lem g pos ring_pos heapsize fits
          (record db { flow_id_heap = update db.flow_id_heap p h; ring = ring }) m ms five_tuple
          garbage
          (given_back db m ms id p h ring _ k heaps more
            (put-Holds ring_size ring_pos _ k.commands).1)
          lt

  -- From a state in order, and for a port of one of the four pipes, `remove_flow_by_five_tuple`
  -- ends in a state in order, whether or not the table has the flow, and whatever the
  -- uninitialised session id holds.
  pub remove_by_five_tuple_keeps_ids :
      (db : FlowDb U) (five_tuple : FiveTuple) (garbage : ℕ)
      → InOrder g pos heapsize db
      → dev_port_to_pipe five_tuple.dev_port < num_pipes
      → Returns (InOrder g pos heapsize) (remove_flow_by_five_tuple g db five_tuple garbage)
  unfolding remove_flow_by_five_tuple removed
  remove_by_five_tuple_keeps_ids db five_tuple garbage v lt =
      let m = v.flow_map in
      let k = v.keeps in
      let room : db.flows.num_entries < table_size =
        omega (arith, flow_room g pos heapsize fits k) in
      elim (Option-cases (m five_tuple)) [
        | inl missing ↦
            rw
              (flow_hashtable_remove-missing murmur_h table_size pos db.flows m k.flows five_tuple
                missing room)
              (returns v)
        | inr (id, known) ↦
            Returns-bind
              (flow_hashtable_remove_lem murmur_h table_size pos db.flows m k.flows five_tuple id
                known room)
              λ (out, flows) (same, gone). rw same (
                removed_lem (record db { flows = flows }) _ v.session_map five_tuple garbage id
                  (taken_out db m v.session_map five_tuple id flows k known gone) lt)
      ]

  removed_by_id_lem :
      (db : FlowDb U) (m ms : FiveTuple → Option ℕ) (five_tuple : FiveTuple) (id garbage : ℕ)
      (others : List (Slot DataplaneCommand))
      → Keeps g pos heapsize (once id) nothing m ms db
      → WaitEnds ring_size others db.ring
      → dev_port_to_pipe five_tuple.dev_port < num_pipes
      → Returns (InOrder g pos heapsize) (removed_by_id g db id garbage others (some five_tuple))
  unfolding removed_by_id free_flow_id
  removed_by_id_lem db m ms five_tuple id garbage others k ends lt =
      let p = dev_port_to_pipe five_tuple.dev_port in
      let command = removal_command five_tuple id in
      let (ring, e, _) = Returns-inv (ends command) in
      let (_, _, _, holds) = ensure_put_lem ring_size ring_pos _ command k.commands e in
      Returns-then _ (push_lem db.flow_id_heap p lt k.flow_heaps id) λ h (heaps, more). rw e (
        cleanup_lem g pos ring_pos heapsize fits
          (record db { flow_id_heap = update db.flow_id_heap p h; ring = ring }) m ms five_tuple
          garbage (given_back db m ms id p h ring _ k heaps more holds) lt)

  -- From a state in order, `remove_flow_by_flow_id` ends in a state in order, whether or not a
  -- flow has the id, if its wait for room in the ring buffer ends.
  pub remove_by_flow_id_keeps_ids :
      (db : FlowDb U) (id garbage : ℕ) (others : List (Slot DataplaneCommand))
      → InOrder g pos heapsize db
      → WaitEnds ring_size others db.ring
      → Returns (InOrder g pos heapsize) (remove_flow_by_flow_id g db id garbage others)
  unfolding remove_flow_by_flow_id removed_by_id
  remove_by_flow_id_keeps_ids db id garbage others v ends =
      let m = v.flow_map in
      let k = v.keeps in
      Returns-bind
        (flow_hashtable_remove_by_value_lem murmur_h table_size pos db.flows m k.flows id
          (omega (arith, flow_room g pos heapsize fits k)))
        λ (out, flows) outcome. elim outcome [
          | inr (e, _) ↦ rw (ap (λ r. r.0) e, ap (λ r. r.1) e) (returns v)
          | inl (key, same, (i, hi, on, here), known, gone) ↦
              let on_one : on_pipe key ≡ true =
                ap on_pipe (sym here)
                ∙ AllKeys-at (FlowLaws.flows murmur_h table_size pos) on_pipe db.flows.entries i
                    k.ports hi on in
              rw same (
                removed_by_id_lem (record db { flows = flows }) _ v.session_map key id garbage
                  others (taken_out db m v.session_map key id flows k known gone) ends
                  (ltb→lt (dev_port_to_pipe key.dev_port) num_pipes on_one))
        ]
