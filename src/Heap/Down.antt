-- ===== src/Heap/Down.antt =====
-- `heapify` on a heap with one entry too high in the tree.
use marina.Prelude.{
  ℕ, zero, suc, ◌+◌, ◌≤◌, ◌<◌, ◌≡◌, ◌≢◌, refl, arith, swap, swap_lem, count-swap, Returns, returns,
  Returns-map, Returns-bind, ◌∙◌, ℕ_discrete, ==_iff, ne→==_false,
}
use marina.Heap.{Heap, left, right, parent, smallest, heapify_loop, heapify}
use marina.Heap.Order.{IsHeapFrom, IsBridged, Sifted}

-- Only the edges below `i` may be out of order.
pub record DownInv (lo n : ℕ) (a : ℕ → ℕ) (i : ℕ) : Type 0 where
  pub edges : (c : ℕ) → 0 < c → c < n → lo ≤ parent c → parent c ≢ i → a (parent c) ≤ a c
  pub bridged : IsBridged lo n a i

-- `m` is `i` or a child of it, and no child of `i` is smaller.
record IsSmallest (n : ℕ) (a : ℕ → ℕ) (i m : ℕ) : Type 0 where
  least : (c : ℕ) → 0 < c → c < n → parent c ≡ i → a m ≤ a c
  at_most : a m ≤ a i
  child : m ≢ i → (0 < m) × (m < n) × (parent m ≡ i) × (i < m)

child_cases : (c i : ℕ) → 0 < c → parent c ≡ i → (c ≢ left i) → c ≡ right i
child_cases c i p e ne = omega arith

smallest_lem : (n : ℕ) (a : ℕ → ℕ) (i : ℕ) → IsSmallest n a i (smallest n a i)
unfolding smallest
smallest_lem n a i = record {
  least = λ c p q e. elim (ℕ_discrete c (left i)) [
    | yes l ↦ rw l (ground arith)
    | no l ↦ rw (child_cases c i p e l) (ground arith)
  ];
  at_most = ground arith;
  child = ground arith;
}

module _ (lo n : ℕ) (a : ℕ → ℕ) (i m : ℕ) (small : IsSmallest n a i m)
    (inv : DownInv lo n a i) where
  settled : m ≡ i → IsHeapFrom lo n a
  settled e c p q r = elim (ℕ_discrete (parent c) i) [
    | yes at ↦ ground (arith, small.least c)
    | no other ↦ inv.edges c p q r other
  ]

  sunk : m ≢ i → lo ≤ i → DownInv lo n (swap a i m) m
  sunk ne low = record {
    edges = λ c p q r s. ground (
      arith,
      swap_lem a i m c,
      swap_lem a i m (parent c),
      small.child ne,
      small.at_most,
      small.least c,
      inv.edges c,
      inv.bridged m,
    );
    bridged = λ c p q e s t.
        ground (arith, swap_lem a i m c, swap_lem a i m (parent m), small.child ne, inv.edges c);
  }

heapify_loop_restores :
    (k lo n : ℕ) (a : ℕ → ℕ) (i : ℕ)
    → 0 < k
    → n < i + k
    → lo ≤ i
    → DownInv lo n a i
    → Returns (Sifted lo n a) (heapify_loop k n a i)
unfolding heapify_loop
heapify_loop_restores zero lo n a i pos f low inv = absurd (omega arith)
heapify_loop_restores (suc k) lo n a i pos f low inv =
    let m = smallest n a i in
    let small = smallest_lem n a i in
    elim (ℕ_discrete m i) [
      | yes e ↦ rw ((==_iff m i).1 e) (returns (settled lo n a i m small inv e, λ x. refl))
      | no ne ↦
          let (_, inside, _, below) = small.child ne in
          rw (ne→==_false m i ne) (
            Returns-map
              (heapify_loop_restores k lo n (swap a i m) m (omega arith) (omega arith) (omega arith)
                (sunk lo n a i m small inv ne low))
              λ b (heap, same). (heap, λ x. same x ∙ count-swap a n i m x (omega arith) inside))
    ]

-- `heapify` ends. If only the edges below `a` may be out of order, the entries from `lo` on are then in heap
-- order, and they are the same entries.
pub heapify_restores :
    (lo : ℕ) (h : Heap) (a : ℕ)
    → lo ≤ a
    → DownInv lo h.cur_size h.items a
    → Returns
        (λ h'. (h'.cur_size ≡ h.cur_size) × Sifted lo h.cur_size h.items h'.items)
        (heapify h a)
unfolding heapify
heapify_restores lo h a low inv =
    Returns-bind
      (heapify_loop_restores (h.cur_size + 1) lo h.cur_size h.items a (omega arith) (omega arith)
        low inv)
      λ b s. returns (refl, s)
