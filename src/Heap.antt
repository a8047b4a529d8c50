-- ===== src/Heap.antt =====
-- controller/datastructures/heap.c: the queue of free ids, a binary min-heap in an array. The ids
-- are never negative, so `heap_item_t` is a number; no call tests that the array has room.
pub mod Order
pub mod Down
pub mod Up
pub mod Build
mod Tests
use marina.Prelude.{
  ℕ, zero, suc, ◌+◌, ◌-◌, ◌*◌, ◌/◌, Option, none, some, ◌>>=◌, ltb, ◌==◌, if◌then◌else◌, ◌&&◌,
  update, swap,
}

-- `heapqueue_t`. (`data` is a reserved word.)
pub record Heap : Type 0 where
  pub cur_size : ℕ
  pub items : ℕ → ℕ

abbrev pub left : ℕ → ℕ
left i = 2 * i + 1

abbrev pub right : ℕ → ℕ
right i = 2 * i + 2

abbrev pub parent : ℕ → ℕ
parent i = (i - 1) / 2

-- `min` of a round of `heapify`; `&&` reads a child only if it exists.
pub smallest : ℕ → (ℕ → ℕ) → ℕ → ℕ
smallest n items i =
    let m = if ltb (left i) n && ltb (items (left i)) (items i) then left i else i in
    if ltb (right i) n && ltb (items (right i)) (items m) then right i else m

-- The loop of `heapify`, on fuel.
pub heapify_loop : ℕ → ℕ → (ℕ → ℕ) → ℕ → Option (ℕ → ℕ)
heapify_loop zero n items i = none
heapify_loop (suc fuel) n items i =
    let m = smallest n items i in
    let rest = heapify_loop fuel n (swap items i m) m in if m == i then some items else rest

-- Every round but the last goes down a level, so `cur_size` rounds and one are enough.
unfoldable pub heapify : Heap → ℕ → Option Heap
heapify h a = heapify_loop (h.cur_size + 1) h.cur_size h.items a >>= λ items.
    some (record h { items = items })

-- The loop of `heap_build` before index `i`: past 0 the `size_t` wraps to a number over `curSize`,
-- and the test ends the loop.
pub build_loop : ℕ → Heap → Option Heap
build_loop zero h = some h
build_loop (suc i) h = heapify h i >>= build_loop i

pub heap_build : Heap → ℕ → Option Heap
heap_build h size =
    let h' = record h { cur_size = size } in
    let built = build_loop (size / 2) h' in if ltb size 2 then some h' else built

-- The loop of `heap_decrease`, on fuel.
pub rise_loop : ℕ → (ℕ → ℕ) → ℕ → Option (ℕ → ℕ)
rise_loop zero items i = none
rise_loop (suc fuel) items i =
    let rest = rise_loop fuel (swap items i (parent i)) (parent i) in
    if ltb 0 i && ltb (items i) (items (parent i)) then rest else some items

-- The index falls in every round, so `index` rounds and one are enough.
pub heap_decrease : Heap → ℕ → ℕ → Option Heap
heap_decrease h index key =
    let rise = rise_loop (index + 1) (update h.items index key) index >>= λ items.
    some (record h { items = items }) in
    if ltb (h.items index) key then some h else rise

pub heap_push : Heap → ℕ → Option Heap
heap_push h item =
    let i = h.cur_size in
    heap_decrease (record h { cur_size = i + 1; items = update h.items i item }) i item

pub heap_peek : Heap → ℕ
heap_peek h = h.items 0

-- An empty heap gives 0, which is no id.
pub heap_pop : Heap → Option (ℕ × Heap)
heap_pop h =
    let result = h.items 0 in
    let last = h.cur_size - 1 in
    let shorter = record h { cur_size = last } in
    let rest =
      heapify (record shorter { items = swap h.items 0 last }) 0 >>= λ h'. some (result, h') in
    if h.cur_size == 0 then some (0, h) else if last == 0 then some (result, shorter) else rest
