-- ===== src/BloomFilter.antt =====
-- controller/datastructures/bloom_filter.c: counters of irrelevant flows, by pipe, filter and
-- index. The CRCs of hashes/crc.c and the width of a filter are parameters; Hashes puts the CRCs in.
-- Each locked access to a counter is one step, and so is a call.
pub mod Counting
pub mod Maintenance
pub mod Sent
pub mod Thinning
mod Hashes
mod Tests
use marina.Prelude.{
  ℕ, zero, suc, ◌+◌, ◌%◌, ◌^◌, ◌==◌, ◌||◌, Bool, true, false, if◌then◌else◌, update,
}
use marina.Prelude
use marina.Prelude.Int.{pos}
use marina.Structs.{
  FiveTuple, FiveTupleForHash, unspec, ipv4, ipv6, L3Proto, swap_endian_16, dev_port_to_pipe,
}
use marina.Commands.{DataplaneCommand, BloomFilterCmd, dp_add_bloom_filter, dp_remove_bloom_filter}
use marina.Ringbuffer.{Ringbuffer}
use marina.Ringbuffer

-- `dp_five_tuple_t`: what a CRC is taken of.
pub record DpFiveTuple : Type 0 where
  pub src_addr : ℕ
  pub dst_addr : ℕ
  pub src_port : ℕ
  pub dst_port : ℕ

-- `NUM_BLOOMFILTERS`.
abbrev pub num_bloomfilters : ℕ
num_bloomfilters = 4

-- `bloom_filter.entries`.
abbrev pub Entries : Type 0
Entries = ℕ → ℕ → ℕ → ℕ

pub bloom_filter_init : Entries
bloom_filter_init pipe i index = 0

-- `entries[pipe][i][index] = n`.
abbrev pub write : Entries → ℕ → ℕ → ℕ → ℕ → Entries
write entries pipe i index n =
    update entries pipe (update (entries pipe) i (update (entries pipe i) index n))

-- What the loops over the filters change: the counters, the indices of the command, and `send`.
pub record Pass : Type 0 where
  pub entries : Entries
  pub indices : ℕ → ℕ
  pub send : Bool

module _ (crc : ℕ → DpFiveTuple → ℕ) (crc_of_address : ℕ → ℕ) (width : ℕ) where
  unfoldable pub mk_ipv4_hash : FiveTupleForHash → ℕ → ℕ
  mk_ipv4_hash h i =
      crc i (record {
        src_addr = h.src_addr;
        dst_addr = h.dst_addr;
        src_port = swap_endian_16 h.src_port;
        dst_port = swap_endian_16 h.dst_port;
      })
      % width

  unfoldable pub mk_ipv6_hash : FiveTupleForHash → ℕ → ℕ
  mk_ipv6_hash h i =
      crc i (record {
        src_addr = crc_of_address h.src_addr;
        dst_addr = crc_of_address h.dst_addr;
        src_port = swap_endian_16 h.src_port;
        dst_port = swap_endian_16 h.dst_port;
      })
      % width

  unfoldable pub hashes_of : L3Proto → (ℕ → ℕ) → FiveTupleForHash → ℕ → ℕ
  hashes_of unspec before h = before
  hashes_of ipv4 before h = mk_ipv4_hash h
  hashes_of ipv6 before h = mk_ipv6_hash h

  -- `get_hashes`; for another protocol the memory keeps what it has.
  unfoldable pub get_hashes : (ℕ → ℕ) → FiveTuple → ℕ → ℕ
  get_hashes before five_tuple = hashes_of five_tuple.h.l3_proto before five_tuple.h

-- A round of the loop of `bloom_filter_set_irrelevant`.
pub count_irrelevant : ℕ → (ℕ → ℕ) → ℕ → Pass → Pass
count_irrelevant pipe hashes i s =
    let index = hashes i in
    let n = (s.entries pipe i index + 1) % 2 ^ 16 in
    record {
      entries = write s.entries pipe i index n;
      indices = if n == 1 then update s.indices i index else s.indices;
      send = s.send || n == 1;
    }

-- A round of the loop of `bloom_filter_set_relevant`.
pub note_relevant : ℕ → (ℕ → ℕ) → ℕ → Pass → Pass
note_relevant pipe hashes i s =
    let index = hashes i in
    let clear = s.entries pipe i index == 0 in
    record s {
      indices = if clear then update s.indices i index else s.indices;
      send = s.send || clear;
    }

-- The rounds for the filters from `i` on.
unfoldable pub rounds : (ℕ → Pass → Pass) → ℕ → ℕ → Pass → Pass
rounds step zero i s = s
rounds step (suc k) i s = rounds step k (i + 1) (step i s)

abbrev pub begin : Entries → Pass
begin entries = record { entries = entries; indices = λ _. 0; send = false }

module _ (crc : ℕ → DpFiveTuple → ℕ) (crc_of_address : ℕ → ℕ) (width ring_size : ℕ) where
  -- The pass over the filters, before the command is sent.
  unfoldable pub pass_irrelevant : (ℕ → ℕ) → Entries → FiveTuple → Pass
  pass_irrelevant before entries five_tuple =
      rounds
        (count_irrelevant (dev_port_to_pipe five_tuple.dev_port)
          (get_hashes crc crc_of_address width before five_tuple))
        num_bloomfilters 0 (begin entries)

  unfoldable pub bloom_filter_set_irrelevant :
      (ℕ → ℕ)
      → Entries
      → Ringbuffer DataplaneCommand
      → FiveTuple
      → Entries × Ringbuffer DataplaneCommand
  bloom_filter_set_irrelevant before entries ring five_tuple =
      let s = pass_irrelevant before entries five_tuple in
      let command = dp_add_bloom_filter (record {
        bloom_filter_indices = λ i. pos (s.indices i);
        pipe_id = dev_port_to_pipe five_tuple.dev_port;
      }) in
      (s.entries, if s.send then (Ringbuffer.put ring_size ring command).1 else ring)

  unfoldable pub pass_relevant : (ℕ → ℕ) → Entries → FiveTuple → Pass
  pass_relevant before entries five_tuple =
      rounds
        (note_relevant (dev_port_to_pipe five_tuple.dev_port)
          (get_hashes crc crc_of_address width before five_tuple))
        num_bloomfilters 0 (begin entries)

  -- It writes no counter.
  unfoldable pub bloom_filter_set_relevant :
      (ℕ → ℕ) → Entries → Ringbuffer DataplaneCommand → FiveTuple → Ringbuffer DataplaneCommand
  bloom_filter_set_relevant before entries ring five_tuple =
      let s = pass_relevant before entries five_tuple in
      let command = dp_remove_bloom_filter (record {
        bloom_filter_indices = λ i. pos (s.indices i);
        pipe_id = dev_port_to_pipe five_tuple.dev_port;
      }) in
      if s.send then (Ringbuffer.put ring_size ring command).1 else ring
