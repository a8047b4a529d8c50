-- ===== src/FlowDb/Cleanup.antt =====
-- controller/flow_db/flow_db.c: the end of a removal, which takes the session of the flow out.
use marina.Prelude.{
  ℕ, ◌<◌, ◌≤◌, arith, Option, inl, inr, Returns, returns, Returns-bind, Returns-then, success,
}
use marina.Structs.{FiveTuple, dev_port_to_pipe}
use marina.SessionHashtable.Uses.{leave_lem}
use marina.Ringbuffer.Calls.{put-Holds}
use marina.FlowDb.{
  FlowDb, Setting, free_session_id, clear_registers, cleaned, session_cleanup_after_flow_remove,
}
use marina.FlowDb.Ids.{num_pipes, end_of_ids, once, push_lem}
use marina.FlowDb.Invariant.{Keeps, InOrder, nothing, session_room}

module _ {U : Type 0} (g : Setting) (pos : 0 < g.table_size) (ring_pos : 0 < g.ring_size)
    (heapsize : ℕ) (fits : end_of_ids heapsize ≤ g.table_size) where
  open g use {use_sessions, murmur_h, murmur_sh, table_size, ring_size}

  -- The end of a removal, which holds the id of the session if there was one to remove.
  cleaned_lem :
      (db : FlowDb U) (m ms : FiveTuple → Option ℕ) (five_tuple : FiveTuple) (session_id : ℕ)
      → Keeps g pos heapsize nothing (once session_id) m ms db
      → dev_port_to_pipe five_tuple.dev_port < num_pipes
      → Returns (InOrder g pos heapsize) (cleaned g db five_tuple session_id success)
  unfolding cleaned free_session_id clear_registers
  cleaned_lem db m ms five_tuple session_id k lt =
      Returns-then _
        (push_lem db.session_id_heap (dev_port_to_pipe five_tuple.dev_port) lt k.session_heaps
          session_id)
        λ h (heaps, more). returns (record {
          flow_map = m;
          session_map = ms;
          keeps = record {
            flow_heaps = k.flow_heaps;
            session_heaps = heaps;
            flows = k.flows;
            sessions = k.sessions;
            flow_ids = k.flow_ids;
            session_ids = λ x. omega (arith, k.session_ids x, more x);
            ports = k.ports;
            queue = _;
            commands = (put-Holds ring_size ring_pos _ k.commands).1;
          };
        })

  pub cleanup_lem :
      (db : FlowDb U) (m ms : FiveTuple → Option ℕ) (five_tuple : FiveTuple) (garbage : ℕ)
      → Keeps g pos heapsize nothing nothing m ms db
      → dev_port_to_pipe five_tuple.dev_port < num_pipes
      → Returns (InOrder g pos heapsize) (session_cleanup_after_flow_remove g db five_tuple garbage)
  unfolding session_cleanup_after_flow_remove cleaned
  cleanup_lem db m ms five_tuple garbage k lt =
      Returns-bind
        (leave_lem use_sessions murmur_h murmur_sh table_size pos db.sessions ms k.sessions
          (omega (arith, session_room g pos heapsize fits k)) five_tuple garbage)
        λ (status, session_id, sessions) (ms', models, outcome). elim outcome [
          | inl (e, same) ↦ rw e (
              returns (record {
                flow_map = m;
                session_map = ms';
                keeps = record {
                  flow_heaps = k.flow_heaps;
                  session_heaps = k.session_heaps;
                  flows = k.flows;
                  sessions = models;
                  flow_ids = k.flow_ids;
                  session_ids = λ x. omega (arith, k.session_ids x, same x);
                  ports = k.ports;
                  queue = k.queue;
                  commands = k.commands;
                };
              }))
          | inr (e, less) ↦ rw e (
              cleaned_lem (record db { sessions = sessions }) m ms' five_tuple session_id
                (record {
                  flow_heaps = k.flow_heaps;
                  session_heaps = k.session_heaps;
                  flows = k.flows;
                  sessions = models;
                  flow_ids = k.flow_ids;
                  session_ids = λ x. omega (arith, k.session_ids x, less x);
                  ports = k.ports;
                  queue = k.queue;
                  commands = k.commands;
                })
                lt)
        ]
