-- ===== src/BloomFilter/Counting.antt =====
-- What marking a flow as irrelevant changes in the counters, and what it tells the data plane.
use marina.Prelude.{
  ℕ, zero, suc, ◌+◌, ◌%◌, ◌^◌, ◌≡◌, arith, leb, ltb, ◌==◌, ◌&&◌, if◌then◌else◌, update,
}
use marina.Structs.{FiveTuple, dev_port_to_pipe}
use marina.Commands.{DataplaneCommand}
use marina.Ringbuffer.{Ringbuffer}
use marina.BloomFilter.{
  bloom_filter_set_irrelevant, Entries, Pass, count_irrelevant, rounds, begin, pass_irrelevant,
  get_hashes, DpFiveTuple,
}

-- The counter of a cell after the flow is counted in the filters from `i` up to `n`.
abbrev pub counted : Entries → ℕ → (ℕ → ℕ) → ℕ → ℕ → ℕ → ℕ → ℕ → ℕ
counted entries pipe hashes i n q j x =
    if q == pipe && leb i j && ltb j n && x == hashes j
    then (entries q j x + 1) % 2 ^ 16
    else entries q j x

rounds-entries :
    (pipe : ℕ) (hashes : ℕ → ℕ) (k i : ℕ) (s : Pass) (q j x : ℕ)
    → (rounds (count_irrelevant pipe hashes) k i s).entries q j x
      ≡ counted s.entries pipe hashes i (i + k) q j x
unfolding rounds count_irrelevant update
rounds-entries pipe hashes zero i s q j x = ground arith
rounds-entries pipe hashes (suc k) i s q j x =
    ground (arith, rounds-entries pipe hashes k (i + 1) (count_irrelevant pipe hashes i s) q j x)

rounds-indices :
    (pipe : ℕ) (hashes : ℕ → ℕ) (k i : ℕ) (s : Pass) (j : ℕ)
    → (rounds (count_irrelevant pipe hashes) k i s).indices j ≡ (
        if leb i j && ltb j (i + k) && (s.entries pipe j (hashes j) + 1) % 2 ^ 16 == 1
        then hashes j
        else s.indices j)
unfolding rounds count_irrelevant update
rounds-indices pipe hashes zero i s j = ground arith
rounds-indices pipe hashes (suc k) i s j =
    ground (arith, rounds-indices pipe hashes k (i + 1) (count_irrelevant pipe hashes i s) j)

module _ (crc : ℕ → DpFiveTuple → ℕ) (crc_of_address : ℕ → ℕ) (width ring_size : ℕ) where
  -- `bloom_filter_set_irrelevant` counts the flow once in each of the four filters of its pipe, in 16 bits, and changes no other counter.
  pub set_irrelevant_counts :
      (before : ℕ → ℕ) (entries : Entries) (ring : Ringbuffer DataplaneCommand)
      (five_tuple : FiveTuple) (q j x : ℕ)
      → (bloom_filter_set_irrelevant crc crc_of_address width ring_size before entries ring
            five_tuple).0
          q j x
        ≡ counted entries
            (dev_port_to_pipe five_tuple.dev_port)
            (get_hashes crc crc_of_address width before five_tuple)
            0
            4
            q
            j
            x
  unfolding bloom_filter_set_irrelevant pass_irrelevant
  set_irrelevant_counts before entries ring five_tuple q j x =
      rounds-entries (dev_port_to_pipe five_tuple.dev_port)
        (get_hashes crc crc_of_address width before five_tuple) 4 0 (begin entries) q j x

  -- The command that `bloom_filter_set_irrelevant` prepares names, for each filter whose counter has become 1, the index of the flow, and for every other filter the index 0.
  pub set_irrelevant_indices :
      (before : ℕ → ℕ) (entries : Entries) (five_tuple : FiveTuple) (j : ℕ)
      → let hashes = get_hashes crc crc_of_address width before five_tuple in
        (pass_irrelevant crc crc_of_address width ring_size before entries five_tuple).indices j ≡ (
          if ltb j 4
            && (entries (dev_port_to_pipe five_tuple.dev_port) j (hashes j) + 1) % 2 ^ 16 == 1
          then hashes j
          else 0)
  unfolding pass_irrelevant
  set_irrelevant_indices before entries five_tuple j = ground (
    arith,
    rounds-indices (dev_port_to_pipe five_tuple.dev_port)
        (get_hashes crc crc_of_address width before five_tuple) 4 0 (begin entries) j,
  )
