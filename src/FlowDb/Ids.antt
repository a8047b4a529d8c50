-- ===== src/FlowDb/Ids.antt =====
-- The heaps of free ids, one for each pipe, and the ids in all of them together.
use marina.Prelude.{
  ℕ, zero, suc, ◌+◌, ◌*◌, ◌<◌, ◌≤◌, ◌≡◌, ◌⊎◌, inl, inr, refl, sym, ap, arith, ◌==◌, ◌&&◌, ltb, leb,
  if◌then◌else◌, update, update_self, update_ne, ℕ_discrete, total, Returns, returns, Returns-map,
}
use marina.Heap.{Heap, heap_pop, heap_push}
use marina.Heap.Order.{IsHeap, copies}
use marina.Heap.Up.{heap_push_lem, heap_pop_lem, pop-empty}

-- `NUM_PIPES`.
abbrev pub num_pipes : ℕ
num_pipes = 4

-- Where the ids of all pipes end, with `heapsize` ids for each of them.
abbrev pub end_of_ids : ℕ → ℕ
end_of_ids heapsize = 4 * (heapsize + 1)

-- 1 for the ids that there are: those from 4 on, up to the last of the last pipe.
abbrev pub is_id : ℕ → ℕ → ℕ
is_id heapsize x = if leb 4 x && ltb x (end_of_ids heapsize) then 1 else 0

abbrev pub once : ℕ → ℕ → ℕ
once id x = if id == x then 1 else 0

module _ (F : Heap → ℕ) (hs : ℕ → Heap) (p : ℕ) (h : Heap) where
  pub total-update_ge :
      (n : ℕ) → n ≤ p → total (λ q. F (update hs p h q)) n ≡ total (λ q. F (hs q)) n
  unfolding total
  total-update_ge zero le = refl
  total-update_ge (suc n) le =
      omega (arith, ap F (update_ne hs p h n (omega arith)), total-update_ge n (omega arith))

  -- A write trades one summand for another.
  total-update :
      (n : ℕ)
      → p < n
      → total (λ q. F (update hs p h q)) n + F (hs p) ≡ total (λ q. F (hs q)) n + F h
  unfolding total
  total-update zero lt = absurd (omega arith)
  total-update (suc n) lt = elim (ℕ_discrete p n) [
    | yes e ↦ rw (sym e) (omega (arith, ap F (update_self hs p h), total-update_ge p (omega arith)))
    | no ne ↦ omega (arith, ap F (update_ne hs p h n ne), total-update n (omega arith))
  ]

-- How often an id is in the heaps.
abbrev pub free_copies : (ℕ → Heap) → ℕ → ℕ
free_copies hs x = total (λ q. copies (hs q) x) num_pipes

abbrev pub AllHeaps : (ℕ → Heap) → Type 0
AllHeaps hs = (q : ℕ) → IsHeap (hs q)

module _ (hs : ℕ → Heap) (p : ℕ) (lt : p < num_pipes) (all : AllHeaps hs) where
  -- The heap of a pipe after a change.
  pub all_heaps : (h : Heap) → IsHeap h → AllHeaps (update hs p h)
  all_heaps h good q = elim (ℕ_discrete p q) [
    | yes e ↦ rw (sym e, update_self hs p h) good
    | no ne ↦ rw (update_ne hs p h q ne) (all q)
  ]

  -- Giving an id back.
  pub push_lem :
      (id : ℕ)
      → Returns
          (λ h.
            AllHeaps (update hs p h)
            × ((x : ℕ) → free_copies (update hs p h) x ≡ free_copies hs x + once id x))
          (heap_push (hs p) id)
  push_lem id = Returns-map (heap_push_lem (hs p) id (all p)) λ h (good, _, more). (
    all_heaps h good,
    λ x. omega (arith, more x, total-update (λ k. copies k x) hs p h num_pipes lt),
  )

  -- The id 0, from a heap that has none left, or an id that was in the heaps.
  abbrev Taken : ℕ → (ℕ → Heap) → Type 0
  Taken id hs' =
      ((id ≡ 0) × ((x : ℕ) → free_copies hs' x ≡ free_copies hs x))
      ⊎ ((x : ℕ) → free_copies hs' x + once id x ≡ free_copies hs x)

  -- Taking an id out of a heap that has one.
  pub pop_some :
      0 < (hs p).cur_size
      → Returns
          (λ (id, h).
            AllHeaps (update hs p h)
            × ((x : ℕ) → free_copies (update hs p h) x + once id x ≡ free_copies hs x))
          (heap_pop (hs p))
  pop_some more = Returns-map (heap_pop_lem (hs p) (all p) more) λ (id, h) popped. (
    all_heaps h popped.heap,
    λ x. omega (arith, popped.others x, total-update (λ k. copies k x) hs p h num_pipes lt),
  )

  -- Taking an id out.
  pub pop_lem :
      Returns (λ (id, h). AllHeaps (update hs p h) × Taken id (update hs p h)) (heap_pop (hs p))
  pop_lem = elim (ℕ_discrete (hs p).cur_size 0) [
    | yes e ↦ rw (pop-empty (hs p) e) (
        returns (
          all_heaps (hs p) (all p),
          inl (refl, λ x. omega (arith, total-update (λ k. copies k x) hs p (hs p) num_pipes lt)),
        ))
    | no ne ↦ Returns-map (pop_some (omega arith)) λ (id, h) (heaps, others). (heaps, inr others)
  ]
