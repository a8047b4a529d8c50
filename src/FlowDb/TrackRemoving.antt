-- ===== src/FlowDb/TrackRemoving.antt =====
-- controller/flow_db/flow_db.c: the commands of a removal beside the flow that it removes.
use marina.Prelude.{
  ℕ, ◌+◌, ◌<◌, ◌≤◌, ◌≡◌, refl, ap, ◌∙◌, arith, true, ◌==◌, update, Bool-cases, ltb, inl, inr,
  Option-cases, Option, some, [], length, Status, success, failure, Returns-inv, Ends, Ends-some,
  Ends-bind, Ends-then,
}
use marina.Structs.{FiveTuple, dev_port_to_pipe, l3_code}
use marina.Commands.{DataplaneCommand}
use marina.Hashtable.Represents.{unbind}
use marina.Heap.{heap_push}
use marina.FlowHashtable.{FlowHashtable}
use marina.FlowHashtable.Laws as FlowLaws
use marina.FlowHashtable.Updates.{
  flow_hashtable_remove_lem, flow_hashtable_remove-missing, flow_hashtable_remove_by_value_lem,
}
use marina.SessionHashtable.{session_hashtable_remove_or_decrease_flow_count}
use marina.Ringbuffer
use marina.Ringbuffer.Queue
use marina.Ringbuffer.Calls.{put-Holds}
use marina.Ringbuffer.EnsurePut.{ensure_put-put}
use marina.Dataplane.Mirror.{Live, follow, drop_live}
use marina.Dataplane.Follows.{follow_all-append}
use marina.FlowDb.{
  FlowDb, Setting, free_flow_id, free_session_id, removal_command, clear_registers, cleaned,
  session_cleanup_after_flow_remove, removed, remove_flow_by_five_tuple, removed_by_id,
  remove_flow_by_flow_id,
}
use marina.FlowDb.Ids.{end_of_ids}
use marina.FlowDb.Invariant.{InOrder, flow_room}
use marina.FlowDb.Tracks.{Tracks, Tracks-same, Agrees-unbind}
use marina.FlowDb.TrackAdding.{put-Tracks}

module _ {U : Type 0} (g : Setting) (pos : 0 < g.table_size) (ring_pos : 0 < g.ring_size) where
  open g use {use_sessions, murmur_h, murmur_sh, table_size, ring_size}

  -- A command that adds and removes no flow, whether or not it finds room.
  pub put_neutral-Tracks :
      (executed : ℕ → Option Live) (db : FlowDb U) (command : DataplaneCommand)
      → ((live : ℕ → Option Live) → follow command live ≡ some live)
      → Tracks g pos executed db
      → Tracks g pos executed (record db { ring = (Ringbuffer.put ring_size db.ring command).1 })
  unfolding Queue.push
  put_neutral-Tracks executed db command neutral t = record {
    flow_map = t.flow_map;
    models = t.models;
    queue = Queue.push ring_size command t.queue;
    holds = (put-Holds ring_size ring_pos command t.holds).1;
    live = t.live;
    stream = elim (Bool-cases (ltb (length t.queue) ring_size)) [
      | inl room ↦
          rw room (follow_all-append t.queue command executed t.live t.stream ∙ neutral t.live)
      | inr full ↦ rw full t.stream
    ];
    agrees = t.agrees;
  }

  cleaned-Tracks :
      (executed : ℕ → Option Live) (db : FlowDb U) (five_tuple : FiveTuple) (session_id : ℕ)
      (status : Status)
      → Tracks g pos executed db
      → Ends (Tracks g pos executed) (cleaned g db five_tuple session_id status)
  unfolding cleaned free_session_id clear_registers follow
  cleaned-Tracks executed db five_tuple session_id failure t = Ends-some t
  cleaned-Tracks executed db five_tuple session_id success t =
      let pipe = dev_port_to_pipe five_tuple.dev_port in
      Ends-then _ (heap_push (db.session_id_heap pipe) session_id) λ h _. Ends-some (
        put_neutral-Tracks executed
          (record db { session_id_heap = update db.session_id_heap pipe h }) _ (λ live. refl)
          (Tracks-same g pos executed db _ t refl refl))

  cleanup-Tracks :
      (executed : ℕ → Option Live) (db : FlowDb U) (five_tuple : FiveTuple) (garbage : ℕ)
      → Tracks g pos executed db
      → Ends (Tracks g pos executed) (session_cleanup_after_flow_remove g db five_tuple garbage)
  unfolding session_cleanup_after_flow_remove
  cleanup-Tracks executed db five_tuple garbage t =
      Ends-bind
        (session_hashtable_remove_or_decrease_flow_count use_sessions murmur_h murmur_sh table_size
          db.sessions five_tuple garbage)
        λ (status, session_id, sessions) _.
          cleaned-Tracks executed (record db { sessions = sessions }) five_tuple session_id status
            (Tracks-same g pos executed db _ t refl refl)

  -- The command for a flow that the table has given up.
  removal-Tracks :
      (executed : ℕ → Option Live) (db : FlowDb U) (flows : FlowHashtable) (five_tuple : FiveTuple)
      (id : ℕ) (t : Tracks g pos executed db)
      → t.flow_map five_tuple ≡ some id
      → FlowLaws.Models murmur_h table_size pos flows
          (unbind (FlowLaws.flows murmur_h table_size pos) five_tuple t.flow_map)
      → length t.queue + 1 ≤ ring_size
      → Tracks g pos executed (record db {
        flows = flows;
        ring = (Ringbuffer.put ring_size db.ring (removal_command five_tuple id)).1;
      })
  unfolding follow drop_live removal_command
  removal-Tracks executed db flows five_tuple id t known gone room =
      let (l, present, alike) = t.agrees.to five_tuple id known in
      let same : (l3_code l.five_tuple.h.l3_proto == l3_code five_tuple.h.l3_proto) ≡ true =
        rw alike (ground arith) in
      (put-Tracks g pos ring_pos executed t.live _ _ (record db { flows = flows }) t.queue
        (removal_command five_tuple id) gone t.holds room t.stream (rw (present, same) refl)
        (Agrees-unbind murmur_h table_size pos db.flows t.flow_map t.models t.live t.agrees id
          five_tuple known)).1

  module _ (heapsize : ℕ) (fits : end_of_ids heapsize ≤ g.table_size) where
    -- `remove_flow_by_five_tuple` keeps to the commands, if there is room for its command.
    pub remove_by_five_tuple-Tracks :
        (executed : ℕ → Option Live) (db : FlowDb U) (five_tuple : FiveTuple) (garbage : ℕ)
        (t : Tracks g pos executed db)
        → InOrder g pos heapsize db
        → length t.queue + 1 ≤ ring_size
        → Ends (Tracks g pos executed) (remove_flow_by_five_tuple g db five_tuple garbage)
    unfolding remove_flow_by_five_tuple removed free_flow_id
    remove_by_five_tuple-Tracks executed db five_tuple garbage t v room =
        let space : db.flows.num_entries < table_size =
          omega (arith, flow_room g pos heapsize fits v.keeps) in
        elim (Option-cases (t.flow_map five_tuple)) [
          | inl missing ↦
              rw
                (flow_hashtable_remove-missing murmur_h table_size pos db.flows t.flow_map t.models
                  five_tuple missing space)
                (Ends-some t)
          | inr (id, known) ↦
              let (r, e, (same, gone)) = Returns-inv (
                flow_hashtable_remove_lem murmur_h table_size pos db.flows t.flow_map t.models
                  five_tuple id known space) in
              rw (e, same)
                (Ends-then _ (heap_push (db.flow_id_heap (dev_port_to_pipe five_tuple.dev_port)) id)
                  λ h _. cleanup-Tracks executed _ five_tuple garbage (
                    Tracks-same g pos executed _ _
                      (removal-Tracks executed db r.1 five_tuple id t known gone.now room) refl
                      refl))
        ]

    -- `remove_flow_by_flow_id` keeps to the commands, if it finds room for its command at once.
    pub remove_by_flow_id-Tracks :
        (executed : ℕ → Option Live) (db : FlowDb U) (id garbage : ℕ) (t : Tracks g pos executed db)
        → InOrder g pos heapsize db
        → length t.queue + 1 ≤ ring_size
        → Ends (Tracks g pos executed) (remove_flow_by_flow_id g db id garbage [])
    unfolding remove_flow_by_flow_id removed_by_id free_flow_id
    remove_by_flow_id-Tracks executed db id garbage t v room =
        let (r, e, outcome) = Returns-inv (
          flow_hashtable_remove_by_value_lem murmur_h table_size pos db.flows t.flow_map t.models id
            (omega (arith, flow_room g pos heapsize fits v.keeps))) in
        rw e (elim outcome [
          | inr (nothing, _) ↦
              rw (ap (λ r. r.0) nothing)
                (Ends-some (Tracks-same g pos executed db _ t (ap (λ r. r.1) nothing) refl))
          | inl (key, same, _, known, gone) ↦ rw same (
              Ends-then _ (heap_push (db.flow_id_heap (dev_port_to_pipe key.dev_port)) id) λ h _.
                rw (ensure_put-put ring_size ring_pos (removal_command key id) t.holds room) (
                  cleanup-Tracks executed _ key garbage (
                    Tracks-same g pos executed _ _
                      (removal-Tracks executed db r.1 key id t known gone.now room) refl refl)))
        ])
