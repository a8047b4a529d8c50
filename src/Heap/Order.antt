-- ===== src/Heap/Order.antt =====
-- The heap order, and what a heap holds.
use marina.Prelude.{ℕ, zero, suc, ◌≤◌, ◌<◌, ◌≡◌, arith, count}
use marina.Heap.{Heap, parent}

-- Every edge whose parent is at `lo` or later is in order.
abbrev pub IsHeapFrom : ℕ → ℕ → (ℕ → ℕ) → Type 0
IsHeapFrom lo n a = (c : ℕ) → 0 < c → c < n → lo ≤ parent c → a (parent c) ≤ a c

abbrev pub IsHeap : Heap → Type 0
IsHeap h = IsHeapFrom 0 h.cur_size h.items

-- The edges past `i`, from its parent to its children, are in order.
abbrev pub IsBridged : ℕ → ℕ → (ℕ → ℕ) → ℕ → Type 0
IsBridged lo n a i =
    (c : ℕ) → 0 < c → c < n → parent c ≡ i → 0 < i → lo ≤ parent i → a (parent i) ≤ a c

-- `b` holds in its first `n` entries what `a` holds there, as often.
abbrev pub SameItems : ℕ → (ℕ → ℕ) → (ℕ → ℕ) → Type 0
SameItems n a b = (x : ℕ) → count b n x ≡ count a n x

abbrev pub Sifted : ℕ → ℕ → (ℕ → ℕ) → (ℕ → ℕ) → Type 0
Sifted lo n a b = IsHeapFrom lo n b × SameItems n a b

-- How often `x` is in the heap.
abbrev pub copies : Heap → ℕ → ℕ
copies h x = count h.items h.cur_size x

root_least_below : (k n : ℕ) (a : ℕ → ℕ) (i : ℕ) → IsHeapFrom 0 n a → i < k → i < n → a 0 ≤ a i
root_least_below zero n a i h f p = absurd (omega arith)
root_least_below (suc k) n a i h f p = ground (arith, h i, root_least_below k n a (parent i) h)

pub root_least : (n : ℕ) (a : ℕ → ℕ) (i : ℕ) → IsHeapFrom 0 n a → i < n → a 0 ≤ a i
root_least n a i h p = root_least_below (suc i) n a i h (omega arith) p
