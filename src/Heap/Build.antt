-- ===== src/Heap/Build.antt =====
-- `heap_build`.
use marina.Prelude.{
  ℕ, zero, suc, ◌/◌, ◌≡◌, refl, ◌∙◌, arith, Returns, returns, Returns-map, Returns-bind, ltb,
  Bool-cases, inl, inr,
}
use marina.Heap.{Heap, build_loop, heap_build}
use marina.Heap.Order.{IsHeap, IsHeapFrom, SameItems}
use marina.Heap.Down.{heapify_restores}

-- `h'` is a heap of the first `n` entries of `a`.
pub record Built (n : ℕ) (a : ℕ → ℕ) (h' : Heap) : Type 0 where
  pub size : h'.cur_size ≡ n
  pub heap : IsHeap h'
  pub same : SameItems n a h'.items

build_loop_orders :
    (i : ℕ) (h : Heap) (n : ℕ)
    → h.cur_size ≡ n
    → IsHeapFrom i n h.items
    → Returns (Built n h.items) (build_loop i h)
unfolding build_loop
build_loop_orders zero h n e v =
    returns (record { size = e; heap = λ c p q r. v c p (omega arith) r; same = λ x. refl })
build_loop_orders (suc i) h n e v =
    Returns-bind
      (heapify_restores i h i (omega arith) (record {
        edges = λ c p q r s. v c p (omega arith) (omega arith);
        bridged = λ c p q r s t. absurd (omega arith);
      }))
      λ h' (size, (heap, same)).
        Returns-map (build_loop_orders i h' n (size ∙ e) (λ c p q r. heap c p (omega arith) r))
          λ h'' b. record { size = b.size; heap = b.heap; same = λ x. b.same x ∙ rw e at (same x) }

-- `heap_build` ends for any contents of the array, and leaves its first `size` entries, the
-- same as before, in heap order.
pub heap_build_lem : (h : Heap) (size : ℕ) → Returns (Built size h.items) (heap_build h size)
unfolding heap_build
heap_build_lem h size = elim (Bool-cases (ltb size 2)) [
  | inl small ↦
      rw small (
        returns (record { size = refl; heap = λ c p q r. absurd (ground arith); same = λ x. refl }))
  | inr large ↦ rw large (
      build_loop_orders (size / 2) (record h { cur_size = size }) size refl
        (λ c p q r. absurd (omega arith)))
]
