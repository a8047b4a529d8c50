-- ===== src/BloomFilter/Thinning.antt =====
-- What a round of the maintenance thread makes of the counters.
use marina.Prelude.{
  ℕ, zero, suc, ◌+◌, ◌-◌, ◌<◌, ◌≤◌, ◌≡◌, refl, ◌∙◌, arith, ◌==◌, ltb, leb, ◌&&◌, ◌||◌, Bool, false,
  if◌then◌else◌, List, [], ◌∷◌, ◌++◌, length, length-append, ℕ_discrete, Bool-cases, inl, inr,
}
use marina.Prelude.Int
use marina.Commands.{DataplaneCommand, dp_remove_bloom_filter}
use marina.Ringbuffer.Refine.{Holds}
use marina.Ringbuffer.Calls.{put_fits}
use marina.BloomFilter.{Pass, rounds, num_bloomfilters}
use marina.BloomFilter.Sent.{
  entries-rounds, sends_at, send-rounds, sent_in_pipe, sent_in_pipe-same, sent, sent-same,
}
use marina.BloomFilter.Maintenance.{
  Upkeep, take_down, told, send_removal, maintain_index, maintain_pipe, maintain_pipes,
  bloom_filter_maintenance,
}

module _ (ring_size : ℕ) (pos : 0 < ring_size) where
  -- What calls leave that put `n` commands at most: the ring buffer holds a queue, and the
  -- counters that `down` says are one less, unless they were 0.
  pub record Thinned (u : Upkeep) (q : List DataplaneCommand) (n : ℕ) (down : ℕ → ℕ → ℕ → Bool)
      (u' : Upkeep) : Type 0 where
    pub queue : List DataplaneCommand
    pub holds : Holds ring_size u'.ring queue
    pub grown : length queue ≤ length q + n
    pub counters :
        (p f j : ℕ)
        → u'.entries p f j ≡ (if down p f j then u.entries p f j - 1 else u.entries p f j)

  send_removal_puts :
      (pipe : ℕ) (u : Upkeep) (q : List DataplaneCommand)
      → Holds ring_size u.ring q
      → length q + 1 ≤ ring_size
      → ((send_removal ring_size pipe u).entries ≡ u.entries)
        × ((queue : List DataplaneCommand) × Holds ring_size
              (send_removal ring_size pipe u).ring
              queue
            × (length queue ≤ length q + 1))
  unfolding send_removal told
  send_removal_puts pipe u q h le =
      let command : DataplaneCommand =
        dp_remove_bloom_filter
          (record { bloom_filter_indices = λ i. Int.pos (u.indices i); pipe_id = pipe }) in
      let (status, h') = put_fits ring_size pos command h le in
      rw status (refl, (q ++ command ∷ [], h', omega (arith, length-append q (command ∷ []))))

  maintain_index-Thinned :
      (drawn : ℕ → Bool) (pipe index n : ℕ) (u : Upkeep) (q : List DataplaneCommand)
      → Holds ring_size u.ring q
      → (if sends_at pipe index drawn u.entries num_bloomfilters 0 then 1 else 0) ≡ n
      → length q + n ≤ ring_size
      → Thinned u q n
          (λ p f j. p == pipe && j == index && ltb f 4 && drawn f)
          (maintain_index ring_size drawn pipe index u)
  unfolding maintain_index
  maintain_index-Thinned drawn pipe index n u q h e le =
      let before : Pass = record { entries = u.entries; indices = u.indices; send = false } in
      let s = rounds (take_down pipe index drawn) num_bloomfilters 0 before in
      let u' = record u { entries = s.entries; indices = s.indices } in
      let counters : (p f j : ℕ)
          → s.entries p f j ≡ (
              if p == pipe && j == index && ltb f 4 && drawn f
              then u.entries p f j - 1
              else u.entries p f j) =
        λ p f j. entries-rounds pipe index drawn 4 0 before p f j ∙ ground arith in
      let sending : s.send ≡ sends_at pipe index drawn u.entries num_bloomfilters 0 =
        send-rounds pipe index drawn num_bloomfilters 0 before in
      elim (Bool-cases s.send) [
        | inr quiet ↦
            rw quiet (record { queue = q; holds = h; grown = omega arith; counters = counters })
        | inl sends ↦
            let one : n ≡ 1 = ground (arith, sending, sends, e) in
            let (same, (queue, holds, grown)) =
              send_removal_puts pipe u' q h (omega (arith, one)) in
            rw sends (record {
              queue = queue;
              holds = holds;
              grown = omega (arith, one, grown);
              counters = λ p f j. rw same (counters p f j);
            })
      ]

  -- One after the other, if no counter is in both parts.
  Thinned-both :
      (u u' u'' : Upkeep) (q : List DataplaneCommand) (n k total : ℕ) (d e both : ℕ → ℕ → ℕ → Bool)
      (first : Thinned u q n d u')
      → Thinned u' first.queue k e u''
      → ((p f j : ℕ) → both p f j ≡ (d p f j || e p f j))
      → ((p f j : ℕ) → (d p f j && e p f j) ≡ false)
      → n + k ≤ total
      → Thinned u q total both u''
  Thinned-both u u' u'' q n k total d e both first second any apart le = record {
    queue = second.queue;
    holds = second.holds;
    grown = omega (arith, first.grown, second.grown);
    counters = λ p f j.
        ground (arith, second.counters p f j, first.counters p f j, any p f j, apart p f j);
  }

  maintain_pipe-Thinned :
      (drawn : ℕ → ℕ → Bool) (pipe k index n : ℕ) (u : Upkeep) (q : List DataplaneCommand)
      → Holds ring_size u.ring q
      → sent_in_pipe pipe drawn u.entries k index ≡ n
      → length q + n ≤ ring_size
      → Thinned u q n
          (λ p f j. p == pipe && leb index j && ltb j (index + k) && ltb f 4 && drawn j f)
          (maintain_pipe ring_size drawn pipe k index u)
  unfolding maintain_pipe sent_in_pipe
  maintain_pipe-Thinned drawn pipe zero index n u q h e le = record {
    queue = q;
    holds = h;
    grown = omega arith;
    counters = λ p f j. ground arith;
  }
  maintain_pipe-Thinned drawn pipe (suc k) index n u q h e le =
      let now : ℕ =
        if sends_at pipe index (drawn index) u.entries num_bloomfilters 0 then 1 else 0 in
      let later : ℕ = sent_in_pipe pipe drawn u.entries k (index + 1) in
      let first =
        maintain_index-Thinned (drawn index) pipe index now u q h refl (omega (arith, e)) in
      let u' = maintain_index ring_size (drawn index) pipe index u in
      let same : sent_in_pipe pipe drawn u'.entries k (index + 1) ≡ later =
        sent_in_pipe-same pipe drawn u'.entries u.entries k (index + 1)
          (λ f j low. first.counters pipe f j ∙ ground (arith, low)) in
      let second =
        maintain_pipe-Thinned drawn pipe k (index + 1) later u' first.queue first.holds same
          (omega (arith, first.grown, e)) in
      Thinned-both u u' (maintain_pipe ring_size drawn pipe k (index + 1) u') q now later n
        (λ p f j. p == pipe && j == index && ltb f 4 && drawn index f)
        (λ p f j. p == pipe && leb (index + 1) j && ltb j (index + 1 + k) && ltb f 4 && drawn j f)
        (λ p f j. p == pipe && leb index j && ltb j (index + suc k) && ltb f 4 && drawn j f) first
        second
        (λ p f j. elim (ℕ_discrete j index) [ yes e ↦ rw e (ground arith) | no ne ↦ ground arith ])
        (λ p f j. ground arith) (omega (arith, e))

  maintain_pipes-Thinned :
      (draws : ℕ → ℕ → ℕ → Bool) (width k pipe n : ℕ) (u : Upkeep) (q : List DataplaneCommand)
      → Holds ring_size u.ring q
      → sent draws width u.entries k pipe ≡ n
      → length q + n ≤ ring_size
      → Thinned u q n
          (λ p f j. leb pipe p && ltb p (pipe + k) && ltb j width && ltb f 4 && draws p j f)
          (maintain_pipes ring_size draws width k pipe u)
  unfolding maintain_pipes sent
  maintain_pipes-Thinned draws width zero pipe n u q h e le = record {
    queue = q;
    holds = h;
    grown = omega arith;
    counters = λ p f j. ground arith;
  }
  maintain_pipes-Thinned draws width (suc k) pipe n u q h e le =
      let now : ℕ = sent_in_pipe pipe (draws pipe) u.entries width 0 in
      let later : ℕ = sent draws width u.entries k (pipe + 1) in
      let first =
        maintain_pipe-Thinned (draws pipe) pipe width 0 now u q h refl (omega (arith, e)) in
      let u' = maintain_pipe ring_size (draws pipe) pipe width 0 u in
      let same : sent draws width u'.entries k (pipe + 1) ≡ later =
        sent-same draws width u'.entries u.entries k (pipe + 1)
          (λ p f j low. first.counters p f j ∙ ground (arith, low)) in
      let second =
        maintain_pipes-Thinned draws width k (pipe + 1) later u' first.queue first.holds same
          (omega (arith, first.grown, e)) in
      Thinned-both u u' (maintain_pipes ring_size draws width k (pipe + 1) u') q now later n
        (λ p f j. p == pipe && leb 0 j && ltb j (0 + width) && ltb f 4 && draws pipe j f)
        (λ p f j. leb (pipe + 1) p && ltb p (pipe + 1 + k) && ltb j width && ltb f 4 && draws p j f)
        (λ p f j. leb pipe p && ltb p (pipe + suc k) && ltb j width && ltb f 4 && draws p j f) first
        second
        (λ p f j. elim (ℕ_discrete p pipe) [ yes e ↦ rw e (ground arith) | no ne ↦ ground arith ])
        (λ p f j. ground arith) (omega (arith, e))

-- If the ring buffer has room for a command for each index of a pipe at which a counter that is 1
-- was drawn, a round of the maintenance thread takes each counter below the width down by one that
-- was drawn and is not 0, leaves all others as they are, and puts no more commands than that.
pub bloom_filter_maintenance_thins :
    (ring_size : ℕ) (draws : ℕ → ℕ → ℕ → Bool) (width : ℕ) (u : Upkeep) (q : List DataplaneCommand)
    → 0 < ring_size
    → Holds ring_size u.ring q
    → length q + sent draws width u.entries 4 0 ≤ ring_size
    → let u' = bloom_filter_maintenance ring_size draws width u in
      ((p f j : ℕ)
        → u'.entries p f j ≡ (
            if ltb p 4 && ltb f 4 && ltb j width && draws p j f
            then u.entries p f j - 1
            else u.entries p f j))
      × ((q' : List DataplaneCommand) × (Holds ring_size u'.ring q'
            × (length q' ≤ length q + sent draws width u.entries 4 0)))
unfolding bloom_filter_maintenance
bloom_filter_maintenance_thins ring_size draws width u q pos h le =
    let t =
      maintain_pipes-Thinned ring_size pos draws width 4 0 (sent draws width u.entries 4 0) u q h
        refl le in
    (λ p f j. t.counters p f j ∙ ground arith, (t.queue, (t.holds, t.grown)))
