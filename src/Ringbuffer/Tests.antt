-- ===== src/Ringbuffer/Tests.antt =====
-- A ring buffer of two cells.
use marina.Prelude.{
  ℕ, ◌<◌, ◌≡◌, refl, false, none, some, List, [], ◌∷◌, ◌++◌, arith, success, failure, update, map,
}
use marina.Ringbuffer.{
  Ringbuffer, Action, taken, stored, got, told, ThreadStep, consumes, tests, enters, Slot, theirs,
  ours,
}
use marina.Ringbuffer
use marina.Ringbuffer.Queue
use marina.Ringbuffer.Refine.{Holds, init-Holds}
use marina.Ringbuffer.Calls.{store_all-Holds, get_amid_lem}
use marina.Ringbuffer.Steps.{Serves, run_refines}
use marina.Ringbuffer.EnsurePut.{calls_of, NoPuts, turns, ensure_put_returns}

two : 0 < 2
two = omega arith

abbrev fresh : Ringbuffer ℕ
fresh = Ringbuffer.init (λ _. 0) 0

fresh-Holds : Holds 2 fresh []
fresh-Holds = init-Holds 2 two (λ _. 0) 0

-- The consumer looks while there is nothing; two items are put, and one is refused in the critical
-- section; the consumer looks, another item is refused at the test, and the consumer takes one.
abbrev steps : List (ThreadStep ℕ)
steps =
    consumes
    ∷ tests 5
    ∷ tests 6
    ∷ enters 6
    ∷ enters 5
    ∷ enters 7
    ∷ consumes
    ∷ tests 8
    ∷ consumes
    ∷ []

replies :
    (Ringbuffer.run 2 steps false fresh).0
    ≡ (taken, got none)
      ∷ (stored 6, told success)
      ∷ (stored 5, told success)
      ∷ (stored 7, told failure)
      ∷ (stored 8, told failure)
      ∷ (taken, got (some 6))
      ∷ []
unfolding Ringbuffer.run Ringbuffer.step Ringbuffer.note Ringbuffer.put_locked Ringbuffer.store
    Ringbuffer.take_item Ringbuffer.init Ringbuffer.inc_stat update
replies = refl

run_refines_example :
    let (calls, (inside', r')) = Ringbuffer.run 2 steps false fresh in
    let (promised, q') = Queue.run 2 (map (λ call. call.0) calls) [] in
    (map (λ call. call.1) calls ≡ promised) × Serves 2 inside' r' q'
run_refines_example =
    run_refines 2 two steps false fresh []
      (record { holds = fresh-Holds; waiting = λ e. absurd (cc e) })

-- The buffer after two calls of `put`.
abbrev filled : Ringbuffer ℕ
filled = Ringbuffer.store_all 2 (5 ∷ 6 ∷ []) fresh

filled-Holds : Holds 2 filled (5 ∷ 6 ∷ [])
unfolding Queue.push_all Queue.push
filled-Holds = store_all-Holds 2 two (5 ∷ 6 ∷ []) fresh-Holds

get_amid_example :
    let (out, r') = Ringbuffer.get_amid 2 (8 ∷ []) filled in
    (out ≡ some 5)
    × ((more : List ℕ) × (Queue.push_all 2 (8 ∷ []) (5 ∷ 6 ∷ []) ≡ 5 ∷ more) × Holds 2 r' more)
get_amid_example = get_amid_lem 2 two (8 ∷ []) filled-Holds

-- While another thread puts whenever the consumer has taken, `ensure_put` keeps waiting.
starves :
    Ringbuffer.ensure_put 2
      (ours
        ∷ theirs taken
        ∷ ours
        ∷ theirs (stored 7)
        ∷ ours
        ∷ theirs taken
        ∷ theirs (stored 8)
        ∷ ours
        ∷ [])
      filled
      9
    ≡ none
unfolding Ringbuffer.ensure_put Ringbuffer.wait_put Ringbuffer.store_all Ringbuffer.act
    Ringbuffer.put Ringbuffer.put_locked Ringbuffer.get Ringbuffer.store Ringbuffer.take_item
    Ringbuffer.init Ringbuffer.inc_stat update
starves = refl

ensure_put_returns_example :
    let slots : List (Slot ℕ) =
      ours ∷ theirs (stored 3) ∷ (theirs taken ∷ ((ours ∷ theirs taken ∷ ours ∷ []) ++ [])) in
    (r' : Ringbuffer ℕ) × (Ringbuffer.ensure_put 2 slots filled 9 ≡ some r')
    × (first : List (Slot ℕ)) × (rest : List (Slot ℕ)) × (slots ≡ first ++ rest)
    × Holds 2 r' ((Queue.run 2 (calls_of first) (5 ∷ 6 ∷ [])).1 ++ 9 ∷ [])
unfolding NoPuts turns
ensure_put_returns_example =
    ensure_put_returns 2 two (ours ∷ theirs (stored 3) ∷ []) (ours ∷ theirs taken ∷ ours ∷ []) [] 9
      filled-Holds tt (omega arith)
