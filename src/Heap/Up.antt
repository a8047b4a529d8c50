-- ===== src/Heap/Up.antt =====
-- `heap_push`, `heap_peek` and `heap_pop`.
use marina.Prelude.{
  ℕ, zero, suc, ◌+◌, ◌-◌, ◌≤◌, ◌<◌, ◌≡◌, ◌≢◌, refl, arith, ltb, ◌==◌, ◌&&◌, Bool-cases, inl, inr,
  swap, swap_lem, count-swap, count, update, update_lem, update_self, Returns, returns, Returns-map,
  Returns-bind, if◌then◌else◌, ◌∙◌, ℕ_discrete, ltb_self, count-grow, count-shrink, count-update_ge,
  ap, ne→==_false, ==_iff, some,
}
use marina.Heap.{Heap, parent, rise_loop, heap_decrease, heap_push, heap_pop}
use marina.Heap.Order.{IsHeap, IsBridged, Sifted, copies, root_least}
use marina.Heap.Down.{DownInv, heapify_restores}

-- Only the edge above `i` may be out of order.
record UpInv (n : ℕ) (a : ℕ → ℕ) (i : ℕ) : Type 0 where
  inside : i < n
  edges : (c : ℕ) → 0 < c → c < n → c ≢ i → a (parent c) ≤ a c
  bridged : IsBridged 0 n a i

swap-UpInv :
    (n : ℕ) (a : ℕ → ℕ) (i : ℕ)
    → UpInv n a i
    → 0 < i
    → a i < a (parent i)
    → UpInv n (swap a i (parent i)) (parent i)
swap-UpInv n a i v pos below = record {
  inside = omega arith;
  edges = λ c p q ne. ground (
    arith,
    swap_lem a i (parent i) c,
    swap_lem a i (parent i) (parent c),
    v.edges c,
    v.bridged c,
  );
  bridged = λ c p q e s t. ground (
    arith,
    swap_lem a i (parent i) c,
    swap_lem a i (parent i) (parent (parent i)),
    v.edges c,
    v.edges (parent i),
  );
}

rise_loop_restores :
    (k n : ℕ) (a : ℕ → ℕ) (i : ℕ) → i < k → UpInv n a i → Returns (Sifted 0 n a) (rise_loop k a i)
unfolding rise_loop
rise_loop_restores zero n a i f v = absurd (omega arith)
rise_loop_restores (suc k) n a i f v = elim (Bool-cases (ltb 0 i && ltb (a i) (a (parent i)))) [
  | inl up ↦
      let pos : 0 < i = ground arith in
      rw up (
        Returns-map
          (rise_loop_restores k n (swap a i (parent i)) (parent i) (omega arith)
            (swap-UpInv n a i v pos (ground arith)))
          λ b (heap, same).
            (heap, λ x. same x ∙ count-swap a n i (parent i) x v.inside (omega (arith, v.inside))))
  | inr rest ↦ rw rest (returns (λ c p q r. ground (arith, v.edges c), λ x. refl))
]

-- The array after `heap_push` has put the item behind the heap, and then once more in place.
module _ (h : Heap) (item : ℕ) where
  abbrev grown : ℕ → ℕ
  grown = update (update h.items h.cur_size item) h.cur_size item

  grown-UpInv : IsHeap h → UpInv (h.cur_size + 1) grown h.cur_size
  grown-UpInv v =
      let at = update_lem (update h.items h.cur_size item) h.cur_size item in
      let before = update_lem h.items h.cur_size item in
      record {
        inside = omega arith;
        edges = λ c p q ne. ground (arith, at c, at (parent c), before c, before (parent c), v c);
        bridged = omega arith;
      }

  count-grown : (x : ℕ) → count grown (h.cur_size + 1) x ≡ copies h x + (if item == x then 1 else 0)
  count-grown x =
      count-grow (update h.items h.cur_size item) h.cur_size item x
      ∙ ap (λ k. k + (if item == x then 1 else 0))
          (count-update_ge h.items h.cur_size h.cur_size item x (omega arith))

-- `heap_push` on a heap ends in a heap with the item once more, and all else as often as
-- before.
pub heap_push_lem :
    (h : Heap) (item : ℕ)
    → IsHeap h
    → Returns
        (λ h'.
          IsHeap h'
          × (h'.cur_size ≡ h.cur_size + 1)
          × ((x : ℕ) → copies h' x ≡ copies h x + (if item == x then 1 else 0)))
        (heap_push h item)
unfolding heap_push heap_decrease
heap_push_lem h item v =
    let n = h.cur_size in
    rw (update_self h.items n item, ltb_self item)
      (Returns-bind
        (rise_loop_restores (n + 1) (n + 1) (grown h item) n (omega arith) (grown-UpInv h item v))
        λ b (heap, same). returns (heap, refl, λ x. same x ∙ count-grown h item x))

-- What is left after `heap_pop` has moved the last entry to the root.
module _ (h : Heap) (pos : 1 < h.cur_size) where
  abbrev cut : Heap
  cut = record h { cur_size = h.cur_size - 1; items = swap h.items 0 (h.cur_size - 1) }

  cut-DownInv : IsHeap h → DownInv 0 cut.cur_size cut.items 0
  cut-DownInv v = record {
    edges = λ c p q r s. ground (
      arith,
      swap_lem h.items 0 (h.cur_size - 1) c,
      swap_lem h.items 0 (h.cur_size - 1) (parent c),
      v c,
    );
    bridged = omega arith;
  }

  copies-cut : (x : ℕ) → copies cut x + (if h.items 0 == x then 1 else 0) ≡ copies h x
  copies-cut x = ground (
    arith,
    count-shrink cut.items h.cur_size x,
    count-swap h.items h.cur_size 0 (h.cur_size - 1) x,
    swap_lem h.items 0 (h.cur_size - 1) (h.cur_size - 1),
  )

-- What `heap_pop` promises of its result and of the heap that it leaves.
pub record Popped (h : Heap) (r : ℕ × Heap) : Type 0 where
  pub heap : IsHeap r.1
  pub size : r.1.cur_size + 1 ≡ h.cur_size
  pub others : (x : ℕ) → copies r.1 x + (if r.0 == x then 1 else 0) ≡ copies h x
  pub least : (i : ℕ) → i < h.cur_size → r.0 ≤ h.items i

-- `heap_pop` on a heap with entries ends. Its result is in the heap, no entry is smaller, and
-- what is left is a heap of all the others.
pub heap_pop_lem : (h : Heap) → IsHeap h → 0 < h.cur_size → Returns (Popped h) (heap_pop h)
unfolding heap_pop
heap_pop_lem h v pos = elim (ℕ_discrete h.cur_size 1) [
  | yes one ↦
      simp (ne→==_false h.cur_size 0 (omega arith), (==_iff (h.cur_size - 1) 0).1 (omega arith))
        (returns (record {
          heap = λ c p q r. absurd (omega arith);
          size = omega arith;
          others = λ x. ground (arith, count-shrink h.items h.cur_size x);
          least = λ i p. root_least h.cur_size h.items i v p;
        }))
  | no more ↦
      let rest : 1 < h.cur_size = omega arith in
      rw (ne→==_false h.cur_size 0 (omega arith), ne→==_false (h.cur_size - 1) 0 (omega arith))
        (Returns-bind (heapify_restores 0 (cut h rest) 0 (omega arith) (cut-DownInv h rest v))
          λ h' (size, (heap, same)). returns (record {
            heap = λ c p q r. heap c p (omega arith) r;
            size = omega arith;
            others =
                λ x. omega (arith, ap (λ k. count h'.items k x) size, same x, copies-cut h rest x);
            least = λ i p. root_least h.cur_size h.items i v p;
          }))
]

-- `heap_pop` on an empty heap gives 0, and changes nothing.
pub pop-empty : (h : Heap) → h.cur_size ≡ 0 → heap_pop h ≡ some (0, h)
unfolding heap_pop
pop-empty h e = simp ((==_iff h.cur_size 0).1 e)
