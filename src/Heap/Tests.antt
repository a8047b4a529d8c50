-- ===== src/Heap/Tests.antt =====
-- Heaps of a few ids.
use marina.Prelude.{ℕ, zero, suc, ◌+◌, ◌≡◌, refl, arith, result_or, ◌>>=◌, Returns, update, swap}
use marina.Heap.{Heap, heap_build, heap_pop, smallest, heapify, heapify_loop, build_loop}
use marina.Heap.Order.{IsHeap}
use marina.Heap.Up.{Popped, heap_pop_lem}

abbrev ids : ℕ → ℕ
ids zero = 7
ids (suc zero) = 3
ids (suc (suc zero)) = 9
ids (suc (suc (suc zero))) = 1
ids (suc (suc (suc (suc i)))) = 0

abbrev three_ids : Heap
three_ids = record { cur_size = 3; items = λ i. i + 4 }

three_ids-IsHeap : IsHeap three_ids
three_ids-IsHeap c p q r = omega arith

build_then_pop :
    (result_or (0, three_ids) (heap_build (record { cur_size = 0; items = ids }) 4 >>= heap_pop)).0
    ≡ 1
unfolding heap_build build_loop heapify heapify_loop smallest heap_pop swap update
build_then_pop = refl

heap_pop_example : Returns (Popped three_ids) (heap_pop three_ids)
heap_pop_example = heap_pop_lem three_ids three_ids-IsHeap (omega arith)
