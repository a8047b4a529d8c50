-- ===== src/FlowDb/Joining.antt =====
-- controller/flow_db/flow_db.c: the invariant across the part of `add_flow` that works on sessions.
use marina.Prelude.{
  ℕ, ◌<◌, ◌≤◌, ◌≡◌, ◌≢◌, refl, ap, arith, update, ne→==_false, Option, none, some, Option-cases,
  inl, inr, Returns, returns, Returns-bind, Returns-then, Status, success, failure,
}
use marina.Structs.{FiveTuple, dev_port_to_pipe}
use marina.Commands.{dp_add_flow}
use marina.Hashtable.Uses.{uses_of}
use marina.FlowHashtable.Uses.{in_use-remove}
use marina.FlowHashtable.Updates.{flow_hashtable_remove_by_value_lem}
use marina.SessionHashtable.Uses.{Joins, join_lem}
use marina.Ringbuffer
use marina.Ringbuffer.Calls.{put-Holds}
use marina.FlowDb.{FlowDb, Setting, sent, join_session, new_session, find_session, free_flow_id}
use marina.FlowDb.Ids.{num_pipes, end_of_ids, once, push_lem, pop_lem}
use marina.FlowDb.Invariant.{Keeps, InOrder, nothing, on_pipe, flow_room, session_room}

module _ {U : Type 0} (g : Setting) (pos : 0 < g.table_size) (ring_pos : 0 < g.ring_size)
    (heapsize : ℕ) (fits : end_of_ids heapsize ≤ g.table_size) where
  open g use {use_sessions, murmur_h, murmur_sh, table_size, ring_size, devport_mapping}

  abbrev pub K : (out out_s : ℕ → ℕ) (m ms : FiveTuple → Option ℕ) → FlowDb U → Type 0
  K = Keeps g pos heapsize

  abbrev pub Good : FlowDb U → Type 0
  Good = InOrder g pos heapsize

  sent_lem :
      (db : FlowDb U) (m ms : FiveTuple → Option ℕ) (key : FiveTuple) (p id : ℕ) (status : Status)
      → K nothing nothing m ms db
      → m key ≡ some id
      → p < num_pipes
      → Returns Good (sent g db p id status)
  unfolding sent free_flow_id
  sent_lem db m ms key p id success k known lt =
      returns (record { flow_map = m; session_map = ms; keeps = k })
  sent_lem db m ms key p id failure k known lt =
      Returns-then _ (push_lem db.flow_id_heap p lt k.flow_heaps id) λ h (heaps, more).
        Returns-bind
          (flow_hashtable_remove_by_value_lem murmur_h table_size pos db.flows m k.flows id
            (omega (arith, flow_room g pos heapsize fits k)))
          λ (out, flows) outcome. elim outcome [
            | inl (key', _, _, known', gone) ↦ returns (record {
              flow_map = _;
              session_map = ms;
              keeps = record {
                flow_heaps = heaps;
                session_heaps = k.session_heaps;
                flows = gone.now;
                sessions = k.sessions;
                flow_ids = λ x. omega (
                  arith,
                  k.flow_ids x,
                  more x,
                  in_use-remove murmur_h table_size pos db.flows flows m key' id k.flows known'
                      gone.now x,
                );
                session_ids = k.session_ids;
                ports = gone.keys on_pipe k.ports;
                queue = k.queue;
                commands = k.commands;
              };
            })
            | inr (_, nobody) ↦ absurd (nobody key known)
          ]

  -- The call holds `session_id` if the session is new, and no id if it is known.
  join_session_lem :
      (db : FlowDb U) (m ms : FiveTuple → Option ℕ) (five_tuple : FiveTuple) (id session_id : ℕ)
      (out_s : ℕ → ℕ) (k : K nothing out_s m ms db)
      → Joins use_sessions murmur_h murmur_sh table_size pos db.sessions ms k.sessions
          (omega (arith, session_room g pos heapsize fits k))
          five_tuple
          session_id
          out_s
      → m five_tuple ≡ some id
      → dev_port_to_pipe five_tuple.dev_port < num_pipes
      → Returns Good (join_session g db five_tuple id session_id)
  unfolding join_session
  join_session_lem db m ms five_tuple id session_id out_s k joins known lt =
      Returns-bind
        (join_lem use_sessions murmur_h murmur_sh table_size pos db.sessions ms k.sessions
          (omega (arith, session_room g pos heapsize fits k)) five_tuple session_id out_s joins)
        λ (_, sessions) (ms', models, uses).
          let command =
            dp_add_flow
              (record { five_tuple = five_tuple; flow_id = id; session_id = session_id }) in
          let (status, ring) = Ringbuffer.put ring_size db.ring command in
          sent_lem (record db { sessions = sessions; ring = ring }) m ms' five_tuple
            (dev_port_to_pipe five_tuple.dev_port) id status
            (record {
              flow_heaps = k.flow_heaps;
              session_heaps = k.session_heaps;
              flows = k.flows;
              sessions = models;
              flow_ids = k.flow_ids;
              session_ids = λ x. omega (arith, k.session_ids x, uses x);
              ports = k.ports;
              queue = _;
              commands = (put-Holds ring_size ring_pos command k.commands).1;
            })
            known lt

  new_session_lem :
      (db : FlowDb U) (m ms : FiveTuple → Option ℕ) (five_tuple : FiveTuple) (id : ℕ) (uuid : U)
      → K nothing nothing m ms db
      → ms five_tuple ≡ none
      → m five_tuple ≡ some id
      → dev_port_to_pipe five_tuple.dev_port < num_pipes
      → Returns Good (new_session g db five_tuple id uuid)
  unfolding new_session
  new_session_lem db m ms five_tuple id uuid k missing known lt =
      let p = dev_port_to_pipe five_tuple.dev_port in
      Returns-bind (pop_lem db.session_id_heap p lt k.session_heaps)
        λ (session_id, h) (heaps, taken).
          let db' = record db {
            session_id_heap = update db.session_id_heap p h;
            uuid_mapping = update db.uuid_mapping session_id uuid;
          } in
          elim taken [
            | inl (e, same) ↦ rw e (
                returns (record {
                  flow_map = m;
                  session_map = ms;
                  keeps = record {
                    flow_heaps = k.flow_heaps;
                    session_heaps = heaps;
                    flows = k.flows;
                    sessions = k.sessions;
                    flow_ids = k.flow_ids;
                    session_ids = λ x. omega (arith, k.session_ids x, same x);
                    ports = k.ports;
                    queue = k.queue;
                    commands = k.commands;
                  };
                }))
            | inr less ↦
                let positive : session_id ≢ 0 = λ e. ground (arith, e, less 0, k.session_ids 0) in
                let unused : db.sessions.feature_index_to_entry_map session_id ≡ none =
                  elim (Option-cases (db.sessions.feature_index_to_entry_map session_id)) [
                    | inl unused ↦ unused
                    | inr (i, used) ↦
                        absurd (
                          ground
                            (arith, less session_id, k.session_ids session_id, ap uses_of used))
                  ] in
                rw (ne→==_false session_id 0 positive) (
                  join_session_lem db' m ms five_tuple id session_id (once session_id)
                    (record {
                      flow_heaps = k.flow_heaps;
                      session_heaps = heaps;
                      flows = k.flows;
                      sessions = k.sessions;
                      flow_ids = k.flow_ids;
                      session_ids = λ x. omega (arith, k.session_ids x, less x);
                      ports = k.ports;
                      queue = k.queue;
                      commands = k.commands;
                    })
                    (inr (missing, unused, λ x. refl)) known lt)
          ]

  pub find_session_lem :
      (db : FlowDb U) (m ms : FiveTuple → Option ℕ) (five_tuple : FiveTuple) (id : ℕ) (uuid : U)
      (found : Option ℕ)
      → K nothing nothing m ms db
      → ms five_tuple ≡ found
      → m five_tuple ≡ some id
      → dev_port_to_pipe five_tuple.dev_port < num_pipes
      → Returns Good (find_session g db five_tuple id uuid found)
  unfolding find_session
  find_session_lem db m ms five_tuple id uuid (some session_id) k e known lt =
      join_session_lem db m ms five_tuple id session_id nothing k (inl (e, λ x. refl)) known lt
  find_session_lem db m ms five_tuple id uuid none k e known lt =
      new_session_lem db m ms five_tuple id uuid k e known lt
