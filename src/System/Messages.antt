-- ===== src/System/Messages.antt =====
-- What a message, and the taking of a command, make of the commands that wait.
use marina.Prelude.{
  ℕ, ◌+◌, ◌<◌, ◌≤◌, ◌≡◌, refl, arith, Bool, true, false, Option, some, [], length, if◌then◌else◌,
  Ends, Ends-some, Ends-bind, returns,
}
use marina.Commands.{
  DataplaneCommand, PacketItem, pkt_add_flow, pkt_remove_flow, pkt_add_bloom_filter_irrelevant,
  pkt_fix_bloom_filter_relevant, pkt_remove_bloom_filter, pkt_timeout_flow,
}
use marina.BloomFilter.{
  DpFiveTuple, Entries, bloom_filter_set_irrelevant, bloom_filter_set_relevant,
}
use marina.Ringbuffer.{Ringbuffer, taken}
use marina.Ringbuffer
use marina.Ringbuffer.Calls.{get-first}
use marina.Ringbuffer.EnsurePut.{WaitEnds, ensure_put-put}
use marina.Dataplane.Mirror.{Live, follow}
use marina.Dataplane.Follows.{follow_all, bind-some}
use marina.FlowDb.{FlowDb, Setting, add_flow, remove_flow_by_five_tuple, remove_flow_by_flow_id}
use marina.FlowDb.Ids.{end_of_ids}
use marina.FlowDb.Invariant.{InOrder}
use marina.FlowDb.Reach.{IsOnPipe}
use marina.FlowDb.Tracks.{Tracks}
use marina.FlowDb.TrackAdding.{add_flow-Tracks}
use marina.FlowDb.TrackRemoving.{
  put_neutral-Tracks, remove_by_five_tuple-Tracks, remove_by_flow_id-Tracks,
}
use marina.FlowDb.Thread.{Surroundings}
use marina.FlowDb.Thread
use marina.System.{HasSession}

module _ {U : Type 0} (g : Setting) (pos : 0 < g.table_size) (ring_pos : 0 < g.ring_size)
    (heapsize : ℕ) (fits : end_of_ids heapsize ≤ g.table_size) where
  -- A command may have been put that adds and removes no flow.
  maybe_put-Tracks :
      (executed : ℕ → Option Live) (db : FlowDb U) (b : Bool) (c : DataplaneCommand)
      → ((live : ℕ → Option Live) → follow c live ≡ some live)
      → Tracks g pos executed db
      → Tracks g pos executed
          (record db { ring = if b then (Ringbuffer.put g.ring_size db.ring c).1 else db.ring })
  maybe_put-Tracks executed db false c neutral t = t
  maybe_put-Tracks executed db true c neutral t =
      put_neutral-Tracks g pos ring_pos executed db c neutral t

  has_room :
      {executed : ℕ → Option Live} (db : FlowDb U) (t : Tracks g pos executed db)
      → db.ring.full ≡ false
      → length t.queue + 1 ≤ g.ring_size
  has_room db t room = ground (arith, t.holds.full_at, t.holds.fits)

  -- The command that is taken is the first of those that wait.
  pub taken-Tracks :
      (executed : ℕ → Option Live) (db : FlowDb U) (c : DataplaneCommand)
      → Tracks g pos executed db
      → (Ringbuffer.get g.ring_size db.ring).0 ≡ some c
      → (executed' : ℕ → Option Live) × (follow c executed ≡ some executed')
        × Tracks g pos executed' (record db { ring = (Ringbuffer.get g.ring_size db.ring).1 })
  unfolding follow_all
  taken-Tracks executed db c t e =
      let (rest, split, holds) = get-first g.ring_size ring_pos t.queue c t.holds e in
      let (executed', step, stream) =
        bind-some (follow c executed) (follow_all rest) t.live (rw split at t.stream) in
      (
        executed',
        step,
        record {
          flow_map = t.flow_map;
          models = t.models;
          queue = rest;
          holds = holds;
          live = t.live;
          stream = stream;
          agrees = t.agrees;
        },
      )

  -- With room, no call has to wait.
  pub no_wait :
      (w : Surroundings U) {executed : ℕ → Option Live} (db : FlowDb U)
      (t : Tracks g pos executed db)
      → db.ring.full ≡ false
      → w.others ≡ []
      → WaitEnds g.ring_size w.others db.ring
  no_wait w db t room alone x =
      rw (alone, ensure_put-put g.ring_size ring_pos x t.holds (has_room db t room)) (returns tt)

  module _ (crc : ℕ → DpFiveTuple → ℕ) (crc_of_address : ℕ → ℕ) (width : ℕ) where
    pub message-Tracks :
        (w : Surroundings U) (executed : ℕ → Option Live) (db : FlowDb U) (entries : Entries)
        (item : PacketItem)
        → InOrder g pos heapsize db
        → Tracks g pos executed db
        → IsOnPipe item
        → db.ring.full ≡ false
        → HasSession db item
        → w.others ≡ []
        → Ends
            (λ r. Tracks g pos executed r.0)
            (Thread.execute g crc crc_of_address width w db entries item)
    unfolding Thread.execute follow bloom_filter_set_irrelevant bloom_filter_set_relevant
    message-Tracks w executed db entries (pkt_add_flow f) v t on room left alone =
        Ends-bind (add_flow g db f w.uuid) λ db' e. Ends-some (
          (add_flow-Tracks g pos ring_pos heapsize fits executed db f w.uuid t v on
              (has_room db t room) left).ends
            db' e)
    message-Tracks w executed db entries (pkt_remove_flow f) v t on room left alone =
        Ends-bind (remove_flow_by_five_tuple g db f w.garbage) λ db' e. Ends-some (
          (remove_by_five_tuple-Tracks g pos ring_pos heapsize fits executed db f w.garbage t v
              (has_room db t room)).ends
            db' e)
    message-Tracks w executed db entries (pkt_add_bloom_filter_irrelevant f) v t on room left
          alone =
        Ends-some (maybe_put-Tracks executed db _ _ (λ live. refl) t)
    message-Tracks w executed db entries (pkt_fix_bloom_filter_relevant f) v t on room left alone =
        Ends-some (maybe_put-Tracks executed db _ _ (λ live. refl) t)
    message-Tracks w executed db entries pkt_remove_bloom_filter v t on room left alone =
        Ends-some t
    message-Tracks w executed db entries (pkt_timeout_flow id) v t on room left alone = rw alone (
        Ends-bind (remove_flow_by_flow_id g db id w.garbage []) λ db' e. Ends-some (
          (remove_by_flow_id-Tracks g pos ring_pos heapsize fits executed db id w.garbage t v
              (has_room db t room)).ends
            db' e))
