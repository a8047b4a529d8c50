-- ===== src/BloomFilter/Maintenance.antt =====
-- controller/datastructures/bloom_filter.c: the maintenance thread, which takes counters down at
-- random. `draws pipe index i` is whether the random number that is drawn for a counter is below
-- the threshold. The command, with its indices, is kept from round to round.
use marina.Prelude.{
  ℕ, zero, suc, ◌+◌, ◌-◌, ◌%◌, ◌^◌, ◌==◌, ◌&&◌, ◌||◌, not, Bool, false, if◌then◌else◌, update,
  Status, success, failure,
}
use marina.Prelude.Int.{pos}
use marina.Commands.{DataplaneCommand, dp_remove_bloom_filter}
use marina.Ringbuffer.{Ringbuffer}
use marina.Ringbuffer
use marina.BloomFilter.{Entries, write, Pass, rounds, num_bloomfilters}

-- What the thread works on.
pub record Upkeep : Type 0 where
  pub entries : Entries
  pub indices : ℕ → ℕ
  pub ring : Ringbuffer DataplaneCommand

-- A round of the loop over the filters.
unfoldable pub take_down : ℕ → ℕ → (ℕ → Bool) → ℕ → Pass → Pass
take_down pipe index drawn i s =
    let n = s.entries pipe i index in
    if drawn i && not (n == 0)
    then record {
      entries = write s.entries pipe i index (n - 1);
      indices = if n == 1 then update s.indices i index else s.indices;
      send = s.send || n == 1;
    }
    else s

-- The loop that takes the counters up again, for `k` filters from `i` on.
unfoldable pub take_up : ℕ → (ℕ → ℕ) → ℕ → ℕ → Entries → Entries
take_up pipe indices zero i entries = entries
take_up pipe indices (suc k) i entries =
    take_up pipe indices k (i + 1)
      (write entries pipe i (indices i) ((entries pipe i (indices i) + 1) % 2 ^ 16))

module _ (ring_size : ℕ) where
  -- The command has been put, or found no room.
  unfoldable pub told : ℕ → Upkeep → Status → Upkeep
  told pipe u success = u
  told pipe u failure = record u { entries = take_up pipe u.indices num_bloomfilters 0 u.entries }

  unfoldable pub send_removal : ℕ → Upkeep → Upkeep
  send_removal pipe u =
      let command =
        dp_remove_bloom_filter
          (record { bloom_filter_indices = λ i. pos (u.indices i); pipe_id = pipe }) in
      let (status, ring) = Ringbuffer.put ring_size u.ring command in
      told pipe (record u { ring = ring }) status

  -- A round of the loop over the indices; `send` is false before it, and after it.
  unfoldable pub maintain_index : (ℕ → Bool) → ℕ → ℕ → Upkeep → Upkeep
  maintain_index drawn pipe index u =
      let s =
        rounds (take_down pipe index drawn) num_bloomfilters 0
          (record { entries = u.entries; indices = u.indices; send = false }) in
      let u' = record u { entries = s.entries; indices = s.indices } in
      if s.send then send_removal pipe u' else u'

  -- The loop over `k` indices from `index` on.
  unfoldable pub maintain_pipe : (ℕ → ℕ → Bool) → ℕ → ℕ → ℕ → Upkeep → Upkeep
  maintain_pipe drawn pipe zero index u = u
  maintain_pipe drawn pipe (suc k) index u =
      maintain_pipe drawn pipe k (index + 1) (maintain_index (drawn index) pipe index u)

  -- The loop over `k` pipes from `pipe` on.
  unfoldable pub maintain_pipes : (ℕ → ℕ → ℕ → Bool) → ℕ → ℕ → ℕ → Upkeep → Upkeep
  maintain_pipes draws width zero pipe u = u
  maintain_pipes draws width (suc k) pipe u =
      maintain_pipes draws width k (pipe + 1) (maintain_pipe (draws pipe) pipe width 0 u)

  -- A round of `bloom_filter_maintenance`.
  unfoldable pub bloom_filter_maintenance : (ℕ → ℕ → ℕ → Bool) → ℕ → Upkeep → Upkeep
  bloom_filter_maintenance draws width u = maintain_pipes draws width 4 0 u
