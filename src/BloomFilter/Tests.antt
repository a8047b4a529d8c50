-- ===== src/BloomFilter/Tests.antt =====
-- A flow of pipe 1 in filters of eight counters.
use marina.Prelude.{
  ℕ, ◌+◌, ◌-◌, ◌%◌, ◌<◌, ◌≤◌, ◌≡◌, refl, Bool, ltb, ◌==◌, ◌&&◌, if◌then◌else◌, List, [], length,
  arith,
}
use marina.Structs.{FiveTuple, dev_port_to_pipe, ipv4}
use marina.Commands.{DataplaneCommand, dp_clear_registers}
use marina.FlowHashtable.{zero_five_tuple}
use marina.Ringbuffer.{Ringbuffer}
use marina.Ringbuffer
use marina.BloomFilter.{DpFiveTuple, bloom_filter_init, bloom_filter_set_irrelevant, get_hashes}
use marina.Ringbuffer.Refine.{Holds, init-Holds}
use marina.BloomFilter.Maintenance.{Upkeep, bloom_filter_maintenance}
use marina.BloomFilter.Hashes.{crc_of_tuple, crc_of_address, hashed_bytes, is_ipv4, get_hashes_lem}
use marina.Crc.Checksums.{by_bits}
use marina.BloomFilter.Sent.{sent, sent_in_pipe, sends_at}
use marina.BloomFilter.Thinning.{bloom_filter_maintenance_thins}
use marina.BloomFilter.Counting.{counted, set_irrelevant_counts}

abbrev crc : ℕ → DpFiveTuple → ℕ
crc i t = i + t.src_addr

abbrev flow : FiveTuple
flow = record zero_five_tuple {
  h = record zero_five_tuple.h { src_addr = 5; l3_proto = ipv4 };
  dev_port = 130;
}

abbrev fresh : Ringbuffer DataplaneCommand
fresh =
    Ringbuffer.init
      (λ _.
        dp_clear_registers (record { five_tuple = zero_five_tuple; flow_id = 0; session_id = 0 }))
      0

abbrev no_hashes : ℕ → ℕ
no_hashes _ = 0

set_irrelevant_counts_example :
    (bloom_filter_set_irrelevant crc (λ a. a) 8 2 no_hashes bloom_filter_init fresh flow).0 1 2 7
    ≡ counted bloom_filter_init
        (dev_port_to_pipe 130)
        (get_hashes crc (λ a. a) 8 no_hashes flow)
        0
        4
        1
        2
        7
set_irrelevant_counts_example =
    set_irrelevant_counts crc (λ a. a) 8 2 no_hashes bloom_filter_init fresh flow 1 2 7

-- The filters of pipe 1 after one flow, at another index in each, and counters of even index drawn.
abbrev upkeep : Upkeep
upkeep = record {
  entries = λ pipe i j. if pipe == 1 && j == i + 4 then 1 else 0;
  indices = no_hashes;
  ring = fresh;
}

abbrev even : ℕ → ℕ → ℕ → Bool
even _ j _ = j % 2 == 0

abbrev none_waiting : List DataplaneCommand
none_waiting = []

roomy : 0 < 2
roomy = omega arith

-- Two counters that are 1 were drawn, at two indices.
two_sent : sent even 8 upkeep.entries 4 0 ≡ 2
unfolding sent sent_in_pipe sends_at
two_sent = refl

room_for_all : length none_waiting + sent even 8 upkeep.entries 4 0 ≤ 2
room_for_all = omega (arith, two_sent)

bloom_filter_maintenance_thins_example :
    let u' = bloom_filter_maintenance 2 even 8 upkeep in
    ((p f j : ℕ)
      → u'.entries p f j ≡ (
          if ltb p 4 && ltb f 4 && ltb j 8 && even p j f
          then upkeep.entries p f j - 1
          else upkeep.entries p f j))
    × ((q' : List DataplaneCommand) × (Holds 2 u'.ring q'
          × (length q' ≤ length none_waiting + sent even 8 upkeep.entries 4 0)))
bloom_filter_maintenance_thins_example =
    bloom_filter_maintenance_thins 2 even 8 upkeep none_waiting roomy (init-Holds 2 roomy _ 0)
      room_for_all

get_hashes_example :
    get_hashes crc_of_tuple crc_of_address 512 no_hashes flow 1
    ≡ by_bits 1 (hashed_bytes flow.h) 0 % 512
get_hashes_example = get_hashes_lem 512 no_hashes flow 1 is_ipv4
