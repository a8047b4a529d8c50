-- ===== src/FlowDb.antt =====
-- controller/flow_db/flow_db.c: the ids of flows and sessions, which heaps hold while they are free,
-- and the tables while they are in use. Parameters are the hash functions, the sizes, the mapping
-- of ports and, for each call, what it does not compute itself: the new uuid, what an uninitialised
-- variable holds, and what other threads do while `ensure_put` waits. Each call is one step.
pub mod Ids
pub mod Invariant
pub mod Joining
pub mod Adding
mod Cleanup
pub mod Removing
pub mod Start
pub mod Thread
pub mod Reach
pub mod Sample
pub mod Tracks
pub mod TrackAdding
pub mod TrackRemoving
mod Tests
use marina.Prelude.{
  ℕ, zero, suc, ◌+◌, ◌-◌, ◌*◌, ◌==◌, Bool, Option, none, some, ◌>>=◌, if◌then◌else◌, update, Status,
  success, failure, List,
}
use marina.Prelude.Int.{pos, ◌-ℤ◌}
use marina.Structs.{FiveTuple, FiveTupleForHash, FiveTupleForSessionHash, dev_port_to_pipe}
use marina.Commands.{
  DataplaneCommand, MatchTableCmd, dp_add_flow, dp_remove_flow, dp_clear_registers,
}
use marina.Heap.{Heap, heap_pop, heap_push, heap_build}
use marina.FlowHashtable.{
  FlowHashtable, flow_hashtable_add, flow_hashtable_remove, flow_hashtable_remove_by_value,
}
use marina.SessionHashtable.{
  SessionHashtable, session_hashtable_get, session_hashtable_add_or_increase_flow_count,
  session_hashtable_remove_or_decrease_flow_count,
}
use marina.Ringbuffer.{Ringbuffer, Slot}
use marina.Ringbuffer

-- What the thread of the flow database works on; `U` is the type of uuids.
pub record FlowDb (U : Type 0) : Type 0 where
  pub flow_id_heap : ℕ → Heap
  pub session_id_heap : ℕ → Heap
  pub flows : FlowHashtable
  pub sessions : SessionHashtable
  pub uuid_mapping : ℕ → U
  pub ring : Ringbuffer DataplaneCommand

-- The sizes, the hash functions and the settings.
pub record Setting : Type 0 where
  pub use_sessions : Bool
  pub murmur_h : FiveTupleForHash → ℕ
  pub murmur_sh : FiveTupleForSessionHash → ℕ
  pub table_size : ℕ
  pub ring_size : ℕ
  -- `DEVPORT_MAPPING`; `none` is -1.
  pub devport_mapping : ℕ → Option ℕ

-- The five tuple with the way from the pipe of its port to that of the egress port.
abbrev pub with_offset : FiveTuple → ℕ → FiveTuple
with_offset five_tuple egress_port = record five_tuple {
  session_id_egress_offset =
      pos (dev_port_to_pipe egress_port) -ℤ pos (dev_port_to_pipe five_tuple.dev_port);
}

unfoldable pub removal_command : FiveTuple → ℕ → DataplaneCommand
removal_command five_tuple flow_id =
    dp_remove_flow (record { five_tuple = five_tuple; flow_id = flow_id; session_id = 0 })

module _ {U : Type 0} where
  -- `heap_push(&flow_id_heap[pipe], flow_id)`.
  unfoldable pub free_flow_id : FlowDb U → ℕ → ℕ → Option (FlowDb U)
  free_flow_id db pipe flow_id = heap_push (db.flow_id_heap pipe) flow_id >>= λ h.
      some (record db { flow_id_heap = update db.flow_id_heap pipe h })

  unfoldable pub free_session_id : FlowDb U → ℕ → ℕ → Option (FlowDb U)
  free_session_id db pipe session_id = heap_push (db.session_id_heap pipe) session_id >>= λ h.
      some (record db { session_id_heap = update db.session_id_heap pipe h })

module _ {U : Type 0} (g : Setting) where
  open g use {use_sessions, murmur_h, murmur_sh, table_size, ring_size, devport_mapping}

  -- The end of `add_flow`, where the command has been put or not.
  unfoldable pub sent : FlowDb U → ℕ → ℕ → Status → Option (FlowDb U)
  sent db pipe flow_id success = some db
  sent db pipe flow_id failure = free_flow_id db pipe flow_id >>= λ db'.
      flow_hashtable_remove_by_value murmur_h table_size db'.flows flow_id >>= λ (_, flows).
      some (record db' { flows = flows })

  -- `add_flow` from the session table on, with an id for the session.
  unfoldable pub join_session : FlowDb U → FiveTuple → ℕ → ℕ → Option (FlowDb U)
  join_session db five_tuple flow_id session_id =
      session_hashtable_add_or_increase_flow_count use_sessions murmur_h murmur_sh table_size
        db.sessions five_tuple session_id
      >>= λ (_, sessions).
          let command =
            dp_add_flow
              (record { five_tuple = five_tuple; flow_id = flow_id; session_id = session_id }) in
          let (status, ring) = Ringbuffer.put ring_size db.ring command in
          sent (record db { sessions = sessions; ring = ring })
            (dev_port_to_pipe five_tuple.dev_port) flow_id status

  -- A new session: its id, if there is one, gets the uuid; the slot 0 does if there is none.
  unfoldable pub new_session : FlowDb U → FiveTuple → ℕ → U → Option (FlowDb U)
  new_session db five_tuple flow_id uuid =
      let pipe = dev_port_to_pipe five_tuple.dev_port in
      heap_pop (db.session_id_heap pipe) >>= λ (session_id, h).
      let db' = record db {
        session_id_heap = update db.session_id_heap pipe h;
        uuid_mapping = update db.uuid_mapping session_id uuid;
      } in
      let rest = join_session db' five_tuple flow_id session_id in
      if session_id == 0 then some db' else rest

  unfoldable pub find_session : FlowDb U → FiveTuple → ℕ → U → Option ℕ → Option (FlowDb U)
  find_session db five_tuple flow_id uuid none = new_session db five_tuple flow_id uuid
  find_session db five_tuple flow_id uuid (some session_id) =
      join_session db five_tuple flow_id session_id

  -- `add_flow` where the flow table has taken the flow, or not.
  unfoldable pub added : FlowDb U → FiveTuple → ℕ → U → Status → Option (FlowDb U)
  added db five_tuple flow_id uuid failure =
      free_flow_id db (dev_port_to_pipe five_tuple.dev_port) flow_id
  added db five_tuple flow_id uuid success =
      session_hashtable_get use_sessions murmur_h murmur_sh table_size db.sessions five_tuple
      >>= find_session db five_tuple flow_id uuid

  -- `add_flow` with the id that the heap gave.
  unfoldable pub add_with_id : FlowDb U → FiveTuple → ℕ → U → Option (FlowDb U)
  add_with_id db five_tuple flow_id uuid =
      flow_hashtable_add murmur_h table_size db.flows five_tuple flow_id >>= λ (status, flows).
      added (record db { flows = flows }) five_tuple flow_id uuid status

  unfoldable pub add_to_egress : FlowDb U → FiveTuple → U → Option ℕ → Option (FlowDb U)
  add_to_egress db five_tuple uuid none = some db
  add_to_egress db five_tuple uuid (some egress_port) =
      let pipe = dev_port_to_pipe five_tuple.dev_port in
      heap_pop (db.flow_id_heap pipe) >>= λ (flow_id, h).
      let db' = record db { flow_id_heap = update db.flow_id_heap pipe h } in
      let rest = add_with_id db' (with_offset five_tuple egress_port) flow_id uuid in
      if flow_id == 0 then some db' else rest

  pub add_flow : FlowDb U → FiveTuple → U → Option (FlowDb U)
  add_flow db five_tuple uuid =
      add_to_egress db five_tuple uuid (devport_mapping five_tuple.dev_port)

  unfoldable pub clear_registers : FlowDb U → FiveTuple → ℕ → FlowDb U
  clear_registers db five_tuple session_id =
      let command =
        dp_clear_registers
          (record { five_tuple = five_tuple; flow_id = 0; session_id = session_id }) in
      record db { ring = (Ringbuffer.put ring_size db.ring command).1 }

  unfoldable pub cleaned : FlowDb U → FiveTuple → ℕ → Status → Option (FlowDb U)
  cleaned db five_tuple session_id failure = some db
  cleaned db five_tuple session_id success =
      free_session_id db (dev_port_to_pipe five_tuple.dev_port) session_id >>= λ db'.
      some (clear_registers db' five_tuple session_id)

  -- `garbage` is what the uninitialised `session_id` holds.
  pub session_cleanup_after_flow_remove : FlowDb U → FiveTuple → ℕ → Option (FlowDb U)
  session_cleanup_after_flow_remove db five_tuple garbage =
      session_hashtable_remove_or_decrease_flow_count use_sessions murmur_h murmur_sh table_size
        db.sessions five_tuple garbage
      >>= λ (status, session_id, sessions).
          cleaned (record db { sessions = sessions }) five_tuple session_id status

  unfoldable pub removed : FlowDb U → FiveTuple → ℕ → Option ℕ → Option (FlowDb U)
  removed db five_tuple garbage none = some db
  removed db five_tuple garbage (some flow_id) =
      free_flow_id db (dev_port_to_pipe five_tuple.dev_port) flow_id >>= λ db'.
      session_cleanup_after_flow_remove
        (record db' {
          ring = (Ringbuffer.put ring_size db'.ring (removal_command five_tuple flow_id)).1;
        })
        five_tuple garbage

  pub remove_flow_by_five_tuple : FlowDb U → FiveTuple → ℕ → Option (FlowDb U)
  remove_flow_by_five_tuple db five_tuple garbage =
      flow_hashtable_remove murmur_h table_size db.flows five_tuple >>= λ (flow_id, flows).
      removed (record db { flows = flows }) five_tuple garbage flow_id

  -- `others` is the schedule of `ensure_put` and the other threads while it waits for room.
  unfoldable pub removed_by_id :
      FlowDb U → ℕ → ℕ → List (Slot DataplaneCommand) → Option FiveTuple → Option (FlowDb U)
  removed_by_id db flow_id garbage others none = some db
  removed_by_id db flow_id garbage others (some five_tuple) =
      free_flow_id db (dev_port_to_pipe five_tuple.dev_port) flow_id >>= λ db'.
      Ringbuffer.ensure_put ring_size others db'.ring (removal_command five_tuple flow_id)
      >>= λ ring. session_cleanup_after_flow_remove (record db' { ring = ring }) five_tuple garbage

  pub remove_flow_by_flow_id : FlowDb U → ℕ → ℕ → List (Slot DataplaneCommand) → Option (FlowDb U)
  remove_flow_by_flow_id db flow_id garbage others =
      flow_hashtable_remove_by_value murmur_h table_size db.flows flow_id >>= λ (five_tuple, flows).
      removed_by_id (record db { flows = flows }) flow_id garbage others five_tuple

-- The ids that the thread fills the heap of a pipe with.
abbrev pub id_of : ℕ → ℕ → ℕ
id_of pipe index = (index + 1) * 4 + pipe

-- The heap of a pipe as the thread sets it up, in an array of `heapsize` ids.
pub filled_heap : ℕ → ℕ → Option Heap
filled_heap heapsize pipe = heap_build (record { cur_size = 0; items = id_of pipe }) heapsize

-- The loop over the pipes, up to the pipe `n`.
unfoldable pub fill_heaps : ℕ → ℕ → (ℕ → Heap) → Option (ℕ → Heap)
fill_heaps heapsize zero heaps = some heaps
fill_heaps heapsize (suc n) heaps = fill_heaps heapsize n heaps >>= λ heaps'.
    filled_heap heapsize n >>= λ h. some (update heaps' n h)

-- What `flowdb_thread` does before its loop; `zeros` is an uuid of zero bytes.
pub flowdb_start : {U : Type 0} → ℕ → U → FlowDb U → Option (FlowDb U)
flowdb_start heapsize zeros db = fill_heaps heapsize 4 db.flow_id_heap >>= λ flow_heaps.
    fill_heaps heapsize 4 db.session_id_heap >>= λ session_heaps. some (record db {
      flow_id_heap = flow_heaps;
      session_id_heap = session_heaps;
      uuid_mapping = λ _. zeros;
    })
