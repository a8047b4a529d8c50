-- ===== src/FlowDb/TrackAdding.antt =====
-- controller/flow_db/flow_db.c: the command of `add_flow` beside the flow that it adds.
use marina.Prelude.{
  ℕ, ◌+◌, ◌<◌, ◌≤◌, ◌≡◌, ◌≢◌, ◌⊎◌, refl, sym, ap, ◌∙◌, arith, ◌==◌, ne→==_false, update, Bool-cases,
  inl, inr, Option-cases, Option, none, some, List, [], ◌∷◌, ◌++◌, length, success, Returns-inv,
  Returns-at, Ends, Ends-some, Ends-bind,
}
use marina.Structs.{FiveTuple, dev_port_to_pipe, flow_id_to_register_index}
use marina.Commands.{DataplaneCommand, dp_add_flow}
use marina.Hashtable.Represents.{bind}
use marina.Hashtable.Uses.{uses_of}
use marina.Heap.{Heap, heap_pop, heap_push}
use marina.FlowHashtable.Laws as FlowLaws
use marina.FlowHashtable.Updates.{flow_hashtable_add_lem, flow_hashtable_add-fails}
use marina.SessionHashtable.{session_hashtable_get, session_hashtable_add_or_increase_flow_count}
use marina.Ringbuffer
use marina.Ringbuffer.Refine.{Holds}
use marina.Ringbuffer.Calls.{put_fits}
use marina.Dataplane.Mirror.{Live, follow, put_live}
use marina.Dataplane.Follows.{follow_all, follow_all-append}
use marina.FlowDb.{
  FlowDb, Setting, free_flow_id, sent, join_session, new_session, find_session, added, add_with_id,
  with_offset, add_to_egress, add_flow,
}
use marina.FlowDb.Ids.{num_pipes, end_of_ids, once, pop_lem, pop_some, free_copies}
use marina.FlowDb.Invariant.{InOrder, flow_room}
use marina.FlowDb.Tracks.{Tracks, Tracks-same, Agrees, Agrees-bind, unused-absent}

-- The pipe has an id for a session left.
abbrev SessionLeft : {U : Type 0} → FlowDb U → ℕ → Type 0
SessionLeft db pipe =
    (session_id : ℕ) (h : Heap)
    → heap_pop (db.session_id_heap pipe) ≡ some (session_id, h)
    → session_id ≢ 0

module _ {U : Type 0} (g : Setting) (pos : 0 < g.table_size) (ring_pos : 0 < g.ring_size) where
  open g use {use_sessions, murmur_h, murmur_sh, table_size, ring_size, devport_mapping}

  -- A command that finds room, and leads to the flows of the table.
  pub put-Tracks :
      (executed live live' : ℕ → Option Live) (m : FiveTuple → Option ℕ) (db : FlowDb U)
      (queue : List DataplaneCommand) (command : DataplaneCommand)
      → FlowLaws.Models murmur_h table_size pos db.flows m
      → Holds ring_size db.ring queue
      → length queue + 1 ≤ ring_size
      → follow_all queue executed ≡ some live
      → follow command live ≡ some live'
      → Agrees live' m
      → ((Ringbuffer.put ring_size db.ring command).0 ≡ success)
        × Tracks g pos executed (record db { ring = (Ringbuffer.put ring_size db.ring command).1 })
  put-Tracks executed live live' m db queue command models holds room stream step agrees =
      let (good, holds') = put_fits ring_size ring_pos command holds room in
      (
        good,
        record {
          flow_map = m;
          models = models;
          queue = queue ++ command ∷ [];
          holds = holds';
          live = live';
          stream = follow_all-append queue command executed live stream ∙ step;
          agrees = agrees;
        },
      )

  module _ (executed : ℕ → Option Live) (five_tuple : FiveTuple) (id : ℕ) (live : ℕ → Option Live)
      (m : FiveTuple → Option ℕ) (queue : List DataplaneCommand)
      (room : length queue + 1 ≤ ring_size) (stream : follow_all queue executed ≡ some live)
      (absent : live id ≡ none)
      (agrees : (r : ℕ)
        → Agrees
            (update live id (some (record { five_tuple = five_tuple; register_index = r })))
            (bind (FlowLaws.flows murmur_h table_size pos) five_tuple id m)) where
    -- The flow is in the table, and the ring buffer is as before.
    abbrev IsAdded : FlowDb U → Type 0
    IsAdded db =
        Holds ring_size db.ring queue
        × FlowLaws.Models murmur_h table_size pos db.flows
            (bind (FlowLaws.flows murmur_h table_size pos) five_tuple id m)

    join_session-Tracks :
        (db : FlowDb U) (session_id : ℕ)
        → IsAdded db
        → Ends (Tracks g pos executed) (join_session g db five_tuple id session_id)
    unfolding join_session sent follow put_live
    join_session-Tracks db session_id (holds, models) =
        Ends-bind
          (session_hashtable_add_or_increase_flow_count use_sessions murmur_h murmur_sh table_size
            db.sessions five_tuple session_id)
          λ (_, sessions) _.
            let command =
              dp_add_flow
                (record { five_tuple = five_tuple; flow_id = id; session_id = session_id }) in
            let (good, t) =
              put-Tracks executed live _ _ (record db { sessions = sessions }) queue command models
                holds room stream (rw absent refl)
                (agrees (flow_id_to_register_index session_id)) in
            rw good (Ends-some t)

    find_session-Tracks :
        (db : FlowDb U) (uuid : U) (found : Option ℕ)
        → IsAdded db
        → SessionLeft db (dev_port_to_pipe five_tuple.dev_port)
        → Ends (Tracks g pos executed) (find_session g db five_tuple id uuid found)
    unfolding find_session new_session
    find_session-Tracks db uuid (some session_id) at left = join_session-Tracks db session_id at
    find_session-Tracks db uuid none at left =
        Ends-bind (heap_pop (db.session_id_heap (dev_port_to_pipe five_tuple.dev_port)))
          λ (session_id, h) e.
            rw (ne→==_false session_id 0 (left session_id h e))
              (join_session-Tracks _ session_id at)

  module _ (heapsize : ℕ) (fits : end_of_ids heapsize ≤ g.table_size) where
    add_with_id-Tracks :
        (executed : ℕ → Option Live) (db : FlowDb U) (five_tuple : FiveTuple) (id : ℕ) (uuid : U)
        (t : Tracks g pos executed db)
        → db.flows.feature_index_to_entry_map id ≡ none
        → db.flows.num_entries < table_size
        → length t.queue + 1 ≤ ring_size
        → SessionLeft db (dev_port_to_pipe five_tuple.dev_port)
        → Ends (Tracks g pos executed) (add_with_id g db five_tuple id uuid)
    unfolding add_with_id added free_flow_id
    add_with_id-Tracks executed db five_tuple id uuid t unused space room left =
        elim (Option-cases (t.flow_map five_tuple)) [
          | inr (v, known) ↦
              rw
                (flow_hashtable_add-fails murmur_h table_size pos db.flows t.flow_map t.models
                  five_tuple id (inr (v, known)))
                (Ends-bind (heap_push (db.flow_id_heap (dev_port_to_pipe five_tuple.dev_port)) id)
                  λ h _. Ends-some (Tracks-same g pos executed db _ t refl refl))
          | inl missing ↦
              let absent =
                unused-absent murmur_h table_size pos db.flows t.flow_map t.live id t.models
                  t.agrees unused in
              let (r, e, a) = Returns-inv (
                flow_hashtable_add_lem murmur_h table_size pos db.flows t.flow_map t.models
                  five_tuple id missing unused space) in
              rw (e, a.status)
                (Ends-bind
                  (session_hashtable_get use_sessions murmur_h murmur_sh table_size db.sessions
                    five_tuple)
                  λ found _.
                    find_session-Tracks executed five_tuple id t.live t.flow_map t.queue room
                      t.stream absent
                      (λ register_index.
                        Agrees-bind murmur_h table_size pos db.flows t.flow_map t.models t.live
                          t.agrees id
                          (record { five_tuple = five_tuple; register_index = register_index })
                          absent missing)
                      (record db { flows = r.1 }) uuid found (t.holds, a.models) left)
        ]

    -- An id that was in a heap is not in use.
    popped_unused :
        (db : FlowDb U) (id popped : ℕ) (hs : ℕ → Heap)
        → InOrder g pos heapsize db
        → id ≢ 0
        → popped ≡ id
        → ((popped ≡ 0) × ((x : ℕ) → free_copies hs x ≡ free_copies db.flow_id_heap x))
          ⊎ ((x : ℕ) → free_copies hs x + once popped x ≡ free_copies db.flow_id_heap x)
        → db.flows.feature_index_to_entry_map id ≡ none
    popped_unused db id popped hs v positive same (inl (zero, _)) =
        absurd (positive (sym same ∙ zero))
    popped_unused db id popped hs v positive same (inr less) =
        elim (Option-cases (db.flows.feature_index_to_entry_map id)) [
          | inl unused ↦ unused
          | inr (i, used) ↦
              absurd (ground (arith, less id, v.keeps.flow_ids id, same, ap uses_of used))
        ]

    add_to_egress-Tracks :
        (executed : ℕ → Option Live) (db : FlowDb U) (five_tuple : FiveTuple) (uuid : U)
        (egress : Option ℕ) (t : Tracks g pos executed db)
        → InOrder g pos heapsize db
        → dev_port_to_pipe five_tuple.dev_port < num_pipes
        → length t.queue + 1 ≤ ring_size
        → SessionLeft db (dev_port_to_pipe five_tuple.dev_port)
        → Ends (Tracks g pos executed) (add_to_egress g db five_tuple uuid egress)
    unfolding add_to_egress
    add_to_egress-Tracks executed db five_tuple uuid none t v lt room left = Ends-some t
    add_to_egress-Tracks executed db five_tuple uuid (some egress) t v lt room left =
        let p = dev_port_to_pipe five_tuple.dev_port in
        let k = v.keeps in
        Ends-bind (heap_pop (db.flow_id_heap p)) λ (id, h) e.
          let (r, e', (heaps, taken)) = Returns-inv (pop_lem db.flow_id_heap p lt k.flow_heaps) in
          let same : r ≡ (id, h) = cc (e, e') in
          elim (Bool-cases (id == 0)) [
            | inl zero ↦ rw zero (Ends-some (Tracks-same g pos executed db _ t refl refl))
            | inr positive ↦ rw positive (
                add_with_id-Tracks executed _ (with_offset five_tuple egress) id uuid
                  (record {
                    flow_map = t.flow_map;
                    models = t.models;
                    queue = t.queue;
                    holds = t.holds;
                    live = t.live;
                    stream = t.stream;
                    agrees = t.agrees;
                  })
                  (popped_unused db id r.0 _ v (ground (arith, positive)) (ap (λ x. x.0) same)
                    taken)
                  (omega (arith, flow_room g pos heapsize fits k)) room left)
          ]

    -- A pipe with ids for sessions does not give the id 0.
    session_left :
        (db : FlowDb U) (pipe : ℕ)
        → InOrder g pos heapsize db
        → pipe < num_pipes
        → 0 < (db.session_id_heap pipe).cur_size
        → SessionLeft db pipe
    session_left db pipe v lt more session_id h e zero =
        let (heaps, others) =
          Returns-at (pop_some db.session_id_heap pipe lt v.keeps.session_heaps more) e in
        ground (arith, zero, others 0, v.keeps.session_ids 0)

    -- `add_flow` keeps to the commands, if there is room for its command and an id for a session:
    -- whatever becomes of the flow, the commands lead to the flows in the table.
    pub add_flow-Tracks :
        (executed : ℕ → Option Live) (db : FlowDb U) (five_tuple : FiveTuple) (uuid : U)
        (t : Tracks g pos executed db)
        → InOrder g pos heapsize db
        → dev_port_to_pipe five_tuple.dev_port < num_pipes
        → length t.queue + 1 ≤ ring_size
        → 0 < (db.session_id_heap (dev_port_to_pipe five_tuple.dev_port)).cur_size
        → Ends (Tracks g pos executed) (add_flow g db five_tuple uuid)
    unfolding add_flow
    add_flow-Tracks executed db five_tuple uuid t v lt room more =
        add_to_egress-Tracks executed db five_tuple uuid (devport_mapping five_tuple.dev_port) t v
          lt room (session_left db (dev_port_to_pipe five_tuple.dev_port) v lt more)
