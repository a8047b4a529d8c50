-- ===== src/Commands.antt =====
-- The messages between the threads: controller/datastructures/dataplane_ringbuffer.h,
-- packet_ringbuffer.h and dns_ringbuffer.h. A union with its tag is a data type.
use marina.Prelude.{ℕ, List}
use marina.Prelude.Int.{ℤ}
use marina.Structs.{FiveTuple}
use marina.DnsHashtable.{DnsHashtableKey}

-- `match_table_cmd`; a field that an initialiser does not name is 0.
pub record MatchTableCmd : Type 0 where
  pub five_tuple : FiveTuple
  pub flow_id : ℕ
  pub session_id : ℕ

pub record BloomFilterCmd : Type 0 where
  pub bloom_filter_indices : ℕ → ℤ
  pub pipe_id : ℕ

pub data DataplaneCommand : Type 0 where
  dp_add_flow dp_remove_flow dp_clear_registers : MatchTableCmd → DataplaneCommand
  dp_add_bloom_filter dp_remove_bloom_filter : BloomFilterCmd → DataplaneCommand

pub data PacketItem : Type 0 where
  pkt_add_flow pkt_remove_flow pkt_add_bloom_filter_irrelevant pkt_fix_bloom_filter_relevant :
      FiveTuple → PacketItem
  pkt_remove_bloom_filter : PacketItem
  pkt_timeout_flow : ℕ → PacketItem

-- The bytes of a packet stand for `len` and `pkt`.
pub data DnsItem : Type 0 where
  dns_add_pkt : List ℕ → DnsItem
  dns_remove_ip : DnsHashtableKey → DnsItem
