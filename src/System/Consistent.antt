-- ===== src/System/Consistent.antt =====
-- That the switch holds what the flow database holds.
use marina.Prelude.{
  ℕ, ◌<◌, ◌≤◌, ◌≡◌, refl, sym, ap, ◌∙◌, arith, true, Option, some, List, [], ◌∷◌, length,
  Returns-at,
}
use mathlib.Core.Path.{subst}
use marina.Structs.{FiveTuple, l3_code}
use marina.Commands.{
  DataplaneCommand, dp_add_flow, dp_remove_flow, dp_clear_registers, dp_add_bloom_filter,
  dp_remove_bloom_filter,
}
use marina.BloomFilter.{DpFiveTuple}
use marina.Ringbuffer.Calls.{put-Holds}
use marina.DpApi.{Driver}
use marina.DpApi.Rows.{Row, Works}
use marina.Dataplane.{Dataplane}
use marina.Dataplane
use marina.Dataplane.Mirror.{Live, proto_of, row_of, follow, Mirrors}
use marina.Dataplane.Follows.{follow_all, AllAdded, execute-Mirrors}
use marina.FlowHashtable.Laws as FlowLaws
use marina.FlowDb.{Setting}
use marina.FlowDb.Ids.{end_of_ids}
use marina.FlowDb.Invariant.{InOrder}
use marina.FlowDb.Reach.{execute-InOrder, ring-InOrder}
use marina.FlowDb.Tracks.{Tracks}
use marina.FlowDb.TrackRemoving.{put_neutral-Tracks}
use marina.System.Messages.{message-Tracks, taken-Tracks, no_wait}
use marina.System.{
  System, NotRefused, Step, handles_message, carries_out, maintains, Reachable, here, further,
}

length-zero : {A : Type 0} (q : List A) → length q ≡ 0 → q ≡ []
length-zero [] e = refl
length-zero (x ∷ q) e = absurd (omega (arith, e))

module _ {S : Type 0} (driver : Driver S ℕ) (write_last_timestamp : ℕ → ℕ → ℕ → S → S) where
  accepted_one :
      (c : DataplaneCommand) (d : Dataplane S ℕ)
      → NotRefused c (Dataplane.execute driver write_last_timestamp d c).status
      → AllAdded driver write_last_timestamp (c ∷ []) d
  unfolding AllAdded
  accepted_one (dp_add_flow c) d good = (good, tt)
  accepted_one (dp_remove_flow c) d good = tt
  accepted_one (dp_clear_registers c) d good = tt
  accepted_one (dp_add_bloom_filter c) d good = tt
  accepted_one (dp_remove_bloom_filter c) d good = tt

module _ {U S : Type 0} (g : Setting) (pos : 0 < g.table_size) (ring_pos : 0 < g.ring_size)
    (heapsize : ℕ) (fits : end_of_ids heapsize ≤ g.table_size) (driver : Driver S ℕ)
    (write_last_timestamp : ℕ → ℕ → ℕ → S → S) (rows : S → ℕ → ℕ → Option Row)
    (works : Works driver rows)
    (stamp : (pipe index value : ℕ) (s : S)
      → rows (write_last_timestamp pipe index value s) ≡ rows s) where
  -- The flow database is in order, the tables of the switch are those of the flows that the data
  -- plane thread knows, and the commands that wait lead from these to the flows of the database.
  pub record IsConsistent (s : System U S) : Type 0 where
    pub in_order : InOrder g pos heapsize s.db
    pub executed : ℕ → Option Live
    pub tracks : Tracks g pos executed s.db
    pub mirrors : Mirrors driver rows executed s.dataplane

  module _ (crc : ℕ → DpFiveTuple → ℕ) (crc_of_address : ℕ → ℕ) (width : ℕ) where
    Step-IsConsistent :
        {s s' : System U S}
        → IsConsistent s
        → Step g crc crc_of_address width driver write_last_timestamp s s'
        → IsConsistent s'
    unfolding follow
    Step-IsConsistent v (handles_message {s} {db} {entries} w item on room left alone e) = record {
      in_order =
          Returns-at
            (execute-InOrder g pos ring_pos heapsize fits crc crc_of_address width w s.db s.entries
              item v.in_order on (no_wait g pos ring_pos heapsize fits w s.db v.tracks room alone))
            e;
      executed = v.executed;
      tracks =
          (message-Tracks g pos ring_pos heapsize fits crc crc_of_address width w v.executed s.db
              s.entries item v.in_order v.tracks on room left alone).ends
            (db, entries) e;
      mirrors = v.mirrors;
    }
    Step-IsConsistent v (carries_out {s} c e e') =
        let (executed', step, tracks) =
          taken-Tracks g pos ring_pos heapsize fits v.executed s.db c v.tracks e in
        record {
          in_order =
              ring-InOrder g pos ring_pos heapsize fits s.db _ tracks.queue v.in_order tracks.holds;
          executed = executed';
          tracks = tracks;
          mirrors =
              execute-Mirrors driver write_last_timestamp rows works stamp c v.executed executed'
                s.dataplane v.mirrors step
                (accepted_one driver write_last_timestamp c s.dataplane e');
        }
    Step-IsConsistent v (maintains {s} c entries) = record {
      in_order =
          ring-InOrder g pos ring_pos heapsize fits s.db _ _ v.in_order
            (put-Holds g.ring_size ring_pos _ v.in_order.keeps.commands).1;
      executed = v.executed;
      tracks =
          put_neutral-Tracks g pos ring_pos v.executed s.db (dp_remove_bloom_filter c)
            (λ live. refl) v.tracks;
      mirrors = v.mirrors;
    }

    -- Every state that the threads reach from a consistent state, while nothing runs out, is
    -- consistent: the flow database is in order, the classification tables of the switch hold a
    -- row for each flow that the data plane thread knows, at the handle that it keeps for the id,
    -- and no other, and the commands that wait, in their order, lead from these flows to those of
    -- the flow database. Nothing runs out means that a message finds the ring buffer not full, and
    -- an id for a session, and that the driver refuses no addition.
    pub Reachable-IsConsistent :
        {start s : System U S}
        → IsConsistent start
        → Reachable g crc crc_of_address width driver write_last_timestamp start s
        → IsConsistent s
    Reachable-IsConsistent v here = v
    Reachable-IsConsistent v (further r step) = Step-IsConsistent (Reachable-IsConsistent v r) step

    -- Whenever no command waits, in a state that the threads reach from a consistent state while
    -- nothing runs out, the switch matches the flow database: for every flow of the map that its
    -- table represents, there is the row of that flow at the handle that is kept for its id, and
    -- every row is at the handle of such a flow.
    pub idle_switch_matches :
        {start s : System U S}
        → IsConsistent start
        → Reachable g crc crc_of_address width driver write_last_timestamp start s
        → s.db.ring.empty ≡ true
        → (m : FiveTuple → Option ℕ) × FlowLaws.Models g.murmur_h g.table_size pos s.db.flows m
          × ((t : FiveTuple) (f : ℕ)
              → m t ≡ some f
              → (l : Live) × (l.five_tuple.h ≡ t.h)
                × (rows s.dataplane.switch (proto_of t) (s.dataplane.entry_hdls f) ≡ row_of l))
          × ((p k : ℕ) (row : Row)
              → rows s.dataplane.switch p k ≡ some row
              → (t : FiveTuple) × (f : ℕ) × (m t ≡ some f)
                × (proto_of t ≡ p)
                × (s.dataplane.entry_hdls f ≡ k))
    unfolding follow_all
    idle_switch_matches {s = s} v r idle =
        let c = Reachable-IsConsistent v r in
        let t = c.tracks in
        let none_waits : t.queue ≡ [] =
          length-zero t.queue (ground (arith, t.holds.empty_at, idle)) in
        let stream : some c.executed ≡ some t.live =
          subst (λ q. follow_all q c.executed ≡ some t.live) none_waits t.stream in
        let same : c.executed ≡ t.live = cc stream in
        (
          t.flow_map,
          t.models,
          (λ u f known.
              let (l, present, alike) = t.agrees.to u f known in
              (
                l,
                alike,
                ap (λ h. rows s.dataplane.switch (l3_code h.l3_proto) (s.dataplane.entry_hdls f))
                      (sym alike)
                    ∙ c.mirrors.has f l (rw same present),
              )),
          λ p k row there.
              let (f, l, present, code, at) = c.mirrors.only p k row there in
              (l.five_tuple, f, t.agrees.from f l (rw (sym same) present), code, at),
        )
