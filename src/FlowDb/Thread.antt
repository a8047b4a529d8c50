-- ===== src/FlowDb/Thread.antt =====
-- A round of `flowdb_thread`: one message from the packet ring buffer, and what it does to the flow
-- database and to the counters of bloom_filter.c.
use marina.Prelude.{ℕ, ◌>>=◌, Option, some, List}
use marina.Commands.{
  DataplaneCommand, PacketItem, pkt_add_flow, pkt_remove_flow, pkt_add_bloom_filter_irrelevant,
  pkt_fix_bloom_filter_relevant, pkt_remove_bloom_filter, pkt_timeout_flow,
}
use marina.BloomFilter.{
  DpFiveTuple, Entries, bloom_filter_set_irrelevant, bloom_filter_set_relevant,
}
use marina.Ringbuffer.{Slot}
use marina.FlowDb.{FlowDb, Setting, add_flow, remove_flow_by_five_tuple, remove_flow_by_flow_id}

-- What a round does not compute itself: the uuid, what uninitialised variables hold, and what other
-- threads do while it waits for room, between its own steps.
pub record Surroundings (U : Type 0) : Type 0 where
  pub uuid : U
  pub garbage : ℕ
  pub indices : ℕ → ℕ
  pub others : List (Slot DataplaneCommand)

module _ {U : Type 0} (g : Setting) (crc : ℕ → DpFiveTuple → ℕ) (crc_of_address : ℕ → ℕ)
    (width : ℕ) where
  -- `PKT_TIMEOUT_FLOW` falls through to the default, which does nothing.
  unfoldable pub execute :
      Surroundings U → FlowDb U → Entries → PacketItem → Option (FlowDb U × Entries)
  execute w db entries (pkt_add_flow t) = add_flow g db t w.uuid >>= λ db'. some (db', entries)
  execute w db entries (pkt_remove_flow t) =
      remove_flow_by_five_tuple g db t w.garbage >>= λ db'. some (db', entries)
  execute w db entries (pkt_add_bloom_filter_irrelevant t) =
      let (entries', ring) =
        bloom_filter_set_irrelevant crc crc_of_address width g.ring_size w.indices entries db.ring
          t in
      some (record db { ring = ring }, entries')
  execute w db entries (pkt_fix_bloom_filter_relevant t) = some (
    record db {
      ring =
          bloom_filter_set_relevant crc crc_of_address width g.ring_size w.indices entries db.ring
            t;
    },
    entries,
  )
  execute w db entries pkt_remove_bloom_filter = some (db, entries)
  execute w db entries (pkt_timeout_flow flow_id) =
      remove_flow_by_flow_id g db flow_id w.garbage w.others >>= λ db'. some (db', entries)
