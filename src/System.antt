-- ===== src/System.antt =====
-- The thread of the flow database (controller/flow_db/flow_db.c), the data plane thread
-- (controller/dataplane/dataplane.c) and the maintenance of the bloom filters
-- (controller/datastructures/bloom_filter.c) on the ring buffer of commands between them.
mod Messages
mod Consistent
mod Tests
use marina.Prelude.{ℕ, ◌<◌, ◌≡◌, ◌≢◌, false, Option, none, some, List, [], if◌then◌else◌}
use marina.Structs.{FiveTuple, dev_port_to_pipe}
use marina.Commands.{
  DataplaneCommand, BloomFilterCmd, PacketItem, dp_add_flow, dp_remove_bloom_filter, pkt_add_flow,
}
use marina.BloomFilter.{DpFiveTuple, Entries}
use marina.Ringbuffer
use marina.DpApi.{Driver, ok, ErrorCode}
use marina.Dataplane.{Dataplane}
use marina.Dataplane
use marina.FlowDb.{FlowDb, Setting}
use marina.FlowDb.Reach.{IsOnPipe}
use marina.FlowDb.Thread.{Surroundings}
use marina.FlowDb.Thread

-- What the threads work on.
pub record System (U S : Type 0) : Type 0 where
  pub db : FlowDb U
  pub entries : Entries
  pub dataplane : Dataplane S ℕ

-- There is an id for the session of a flow that is to be added.
abbrev pub HasSession : {U : Type 0} → FlowDb U → PacketItem → Type 0
HasSession db (pkt_add_flow t) = 0 < (db.session_id_heap (dev_port_to_pipe t.dev_port)).cur_size
HasSession db _ = Unit

-- The driver has not refused an addition.
abbrev pub NotRefused : DataplaneCommand → ErrorCode → Type 0
NotRefused (dp_add_flow c) status = status ≡ ok
NotRefused _ status = Unit

module _ {U S : Type 0} (g : Setting) (crc : ℕ → DpFiveTuple → ℕ) (crc_of_address : ℕ → ℕ)
    (width : ℕ) (driver : Driver S ℕ) (write_last_timestamp : ℕ → ℕ → ℕ → S → S) where
  -- What the threads do while nothing runs out: a message for the flow database, which finds room
  -- for its command at once, and a session id where it needs one; a command for the data plane,
  -- which the driver does not refuse; and a command of the maintenance thread.
  pub data Step : System U S → System U S → Type 0 where
    handles_message :
        {s : System U S} {db : FlowDb U} {entries : Entries} (w : Surroundings U)
        (item : PacketItem)
        → IsOnPipe item
        → s.db.ring.full ≡ false
        → HasSession s.db item
        → w.others ≡ []
        → Thread.execute g crc crc_of_address width w s.db s.entries item ≡ some (db, entries)
        → Step s (record s { db = db; entries = entries })
    carries_out :
        {s : System U S} (c : DataplaneCommand)
        → (Ringbuffer.get g.ring_size s.db.ring).0 ≡ some c
        → NotRefused c (Dataplane.execute driver write_last_timestamp s.dataplane c).status
        → Step s (record s {
          db = record s.db { ring = (Ringbuffer.get g.ring_size s.db.ring).1 };
          dataplane = Dataplane.execute driver write_last_timestamp s.dataplane c;
        })
    maintains :
        {s : System U S} (c : BloomFilterCmd) (entries : Entries)
        → Step s (record s {
          db = record s.db {
            ring = (Ringbuffer.put g.ring_size s.db.ring (dp_remove_bloom_filter c)).1;
          };
          entries = entries;
        })

  pub data Reachable (start : System U S) : System U S → Type 0 where
    here : Reachable start start
    further : {s s' : System U S} → Reachable start s → Step s s' → Reachable start s'
