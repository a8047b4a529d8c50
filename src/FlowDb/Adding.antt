-- ===== src/FlowDb/Adding.antt =====
-- controller/flow_db/flow_db.c: the invariant across `add_flow`.
use marina.Prelude.{
  ℕ, ◌<◌, ◌≤◌, ◌≡◌, ◌≢◌, refl, ap, arith, update, ne→==_false, Option, none, some, Option-cases,
  inl, inr, Returns, returns, Returns-bind,
}
use marina.Structs.{FiveTuple, dev_port_to_pipe}
use marina.Hashtable.Represents.{bind}
use marina.Hashtable.Uses.{uses_of}
use marina.FlowHashtable.Laws as FlowLaws
use marina.FlowHashtable.Uses.{in_use-add}
use marina.FlowHashtable.Updates.{flow_hashtable_add_lem, flow_hashtable_add-fails}
use marina.SessionHashtable.Laws as SessionLaws
use marina.FlowDb.{
  FlowDb, Setting, free_flow_id, added, add_with_id, with_offset, add_to_egress, add_flow,
}
use marina.FlowDb.Ids.{num_pipes, end_of_ids, once, push_lem, pop_lem}
use marina.FlowDb.Invariant.{Keeps, InOrder, nothing, on_pipe, flow_room, session_room}
use marina.FlowDb.Joining.{find_session_lem}

module _ {U : Type 0} (g : Setting) (pos : 0 < g.table_size) (ring_pos : 0 < g.ring_size)
    (heapsize : ℕ) (fits : end_of_ids heapsize ≤ g.table_size) where
  open g use {use_sessions, murmur_h, murmur_sh, table_size, ring_size, devport_mapping}

  -- `add_flow` with the id that is out of the heap and not in use.
  add_with_id_lem :
      (db : FlowDb U) (m ms : FiveTuple → Option ℕ) (five_tuple : FiveTuple) (id : ℕ) (uuid : U)
      → Keeps g pos heapsize (once id) nothing m ms db
      → db.flows.feature_index_to_entry_map id ≡ none
      → dev_port_to_pipe five_tuple.dev_port < num_pipes
      → Returns (InOrder g pos heapsize) (add_with_id g db five_tuple id uuid)
  unfolding add_with_id added free_flow_id
  add_with_id_lem db m ms five_tuple id uuid k unused lt = elim (Option-cases (m five_tuple)) [
    | inr (v, known) ↦
        rw
          (flow_hashtable_add-fails murmur_h table_size pos db.flows m k.flows five_tuple id
            (inr (v, known)))
          (Returns-bind
            (push_lem db.flow_id_heap (dev_port_to_pipe five_tuple.dev_port) lt k.flow_heaps id)
            λ h (heaps, more). returns (record {
              flow_map = m;
              session_map = ms;
              keeps = record {
                flow_heaps = heaps;
                session_heaps = k.session_heaps;
                flows = k.flows;
                sessions = k.sessions;
                flow_ids = λ x. omega (arith, k.flow_ids x, more x);
                session_ids = k.session_ids;
                ports = k.ports;
                queue = k.queue;
                commands = k.commands;
              };
            }))
    | inl missing ↦
        Returns-bind
          (flow_hashtable_add_lem murmur_h table_size pos db.flows m k.flows five_tuple id missing
            unused (omega (arith, flow_room g pos heapsize fits k)))
          λ (status, flows) a.
            rw
              (
                a.status,
                SessionLaws.session_hashtable_get_lem use_sessions murmur_h murmur_sh table_size pos
                    db.sessions ms k.sessions five_tuple
                    (omega (arith, session_room g pos heapsize fits k)),
              )
              (find_session_lem g pos ring_pos heapsize fits (record db { flows = flows })
                (bind (FlowLaws.flows murmur_h table_size pos) five_tuple id m) ms five_tuple id
                uuid (ms five_tuple)
                (record {
                  flow_heaps = k.flow_heaps;
                  session_heaps = k.session_heaps;
                  flows = a.models;
                  sessions = k.sessions;
                  flow_ids = λ x. omega (
                    arith,
                    k.flow_ids x,
                    in_use-add murmur_h table_size pos db.flows flows m five_tuple id k.flows
                        missing unused a.models x,
                  );
                  session_ids = k.session_ids;
                  ports = a.keys on_pipe (ground (arith, lt)) k.ports;
                  queue = k.queue;
                  commands = k.commands;
                })
                refl (rw ((FlowLaws.lawful murmur_h table_size pos).same_refl five_tuple) refl) lt)
  ]

  add_to_egress_lem :
      (db : FlowDb U) (five_tuple : FiveTuple) (uuid : U) (egress : Option ℕ)
      → InOrder g pos heapsize db
      → dev_port_to_pipe five_tuple.dev_port < num_pipes
      → Returns (InOrder g pos heapsize) (add_to_egress g db five_tuple uuid egress)
  unfolding add_to_egress
  add_to_egress_lem db five_tuple uuid none v lt = returns v
  add_to_egress_lem db five_tuple uuid (some egress) v lt =
      let p = dev_port_to_pipe five_tuple.dev_port in
      let k = v.keeps in
      Returns-bind (pop_lem db.flow_id_heap p lt k.flow_heaps) λ (id, h) (heaps, taken).
        let db' = record db { flow_id_heap = update db.flow_id_heap p h } in
        elim taken [
          | inl (e, same) ↦ rw e (
              returns (record {
                flow_map = v.flow_map;
                session_map = v.session_map;
                keeps = record {
                  flow_heaps = heaps;
                  session_heaps = k.session_heaps;
                  flows = k.flows;
                  sessions = k.sessions;
                  flow_ids = λ x. omega (arith, k.flow_ids x, same x);
                  session_ids = k.session_ids;
                  ports = k.ports;
                  queue = k.queue;
                  commands = k.commands;
                };
              }))
          | inr less ↦
              let positive : id ≢ 0 = λ e. ground (arith, e, less 0, k.flow_ids 0) in
              let unused : db.flows.feature_index_to_entry_map id ≡ none =
                elim (Option-cases (db.flows.feature_index_to_entry_map id)) [
                  | inl unused ↦ unused
                  | inr (i, used) ↦ absurd (ground (arith, less id, k.flow_ids id, ap uses_of used))
                ] in
              rw (ne→==_false id 0 positive) (
                add_with_id_lem db' v.flow_map v.session_map (with_offset five_tuple egress) id uuid
                  (record {
                    flow_heaps = heaps;
                    session_heaps = k.session_heaps;
                    flows = k.flows;
                    sessions = k.sessions;
                    flow_ids = λ x. omega (arith, k.flow_ids x, less x);
                    session_ids = k.session_ids;
                    ports = k.ports;
                    queue = k.queue;
                    commands = k.commands;
                  })
                  unused lt)
        ]

  -- From a state in order, and for a port of one of the four pipes, `add_flow` ends in a state
  -- in order on every branch: for a port with no egress, with no flow id left, for a flow that
  -- is known, with no session id left, and if the command finds no room. In order means that
  -- each id of a flow or a session is in one heap or in use by one entry of its table, and in
  -- one place only, that the heaps are heaps, that both tables represent maps, that the ring
  -- buffer holds a queue, and that the flows in the table have ports of the four pipes. The
  -- tables need as many cells as there are numbers below the end of the ids; that they then
  -- never fill up is part of the proof.
  pub add_flow_keeps_ids :
      (db : FlowDb U) (five_tuple : FiveTuple) (uuid : U)
      → InOrder g pos heapsize db
      → dev_port_to_pipe five_tuple.dev_port < num_pipes
      → Returns (InOrder g pos heapsize) (add_flow g db five_tuple uuid)
  unfolding add_flow
  add_flow_keeps_ids db five_tuple uuid v lt =
      add_to_egress_lem db five_tuple uuid (devport_mapping five_tuple.dev_port) v lt
