-- ===== src/Ringbuffer.antt =====
-- controller/datastructures/mk_ringbuffer.h: the bounded ring buffer that the threads of the
-- controller pass their messages through, for any type of items and any size. Each call is cut
-- into what it does before it holds the spin lock and its critical section.
pub mod Queue
pub mod Refine
pub mod Calls
pub mod Steps
pub mod EnsurePut
mod Tests
use marina.Prelude.{
  Status, success, failure, ℕ, ◌+◌, ◌-◌, ◌%◌, ◌^◌, Bool, true, false, Option, none, some, update,
  ◌==◌, if◌then◌else◌, not, List, [], ◌∷◌,
}

-- `name_ringbuffer_t` without its lock, beside the counter `_stat_name` of its dropped items.
pub record Ringbuffer (A : Type 0) : Type 0 where
  pub head : ℕ
  pub tail : ℕ
  pub empty : Bool
  pub full : Bool
  pub items : ℕ → A
  pub dropped : ℕ
  pub stat : ℕ

-- A call of `get`, or of `put`.
pub data Action (A : Type 0) : Type 0 where
  taken : Action A
  stored : A → Action A

-- What the caller of it sees.
pub data Reply (A : Type 0) : Type 0 where
  got : Option A → Reply A
  told : Status → Reply A

-- A step of some thread on the way through a call: the next step of the one consumer, which tests
-- `empty` or is in the critical section of its `get`; the test of `full` that a `put` begins with,
-- outside the lock; and the critical section of a `put`. Any number of threads put.
pub data ThreadStep (A : Type 0) : Type 0 where
  consumes : ThreadStep A
  tests : A → ThreadStep A
  enters : A → ThreadStep A

-- The slots of a schedule while a call of `ensure_put` goes on: its own next test of `full` or try
-- of its critical section, or a call of another thread that takes effect.
pub data Slot (A : Type 0) : Type 0 where
  theirs : Action A → Slot A
  ours : Slot A

module _ {A : Type 0} where
  -- The array keeps the memory that it finds, and the counter what it counted.
  unfoldable pub init : (ℕ → A) → ℕ → Ringbuffer A
  init memory stat = record {
    head = 0;
    tail = 0;
    empty = true;
    full = false;
    items = memory;
    dropped = 0;
    stat = stat;
  }

  -- `INC_STAT`, on a `uint32_t`.
  pub inc_stat : Ringbuffer A → Ringbuffer A
  inc_stat r = record r { stat = (r.stat + 1) % 2 ^ 32 }

module _ {A : Type 0} (size : ℕ) where
  pub length : Ringbuffer A → ℕ
  length r = if r.full then size else (r.head + size - r.tail) % size

  -- The critical section of `get`.
  unfoldable pub take_item : Ringbuffer A → A × Ringbuffer A
  take_item r =
      let tail = (r.tail + 1) % size in
      (r.items r.tail, record r { tail = tail; empty = r.head == tail; full = false })

  -- `none` is the return value -1.
  unfoldable pub get : Ringbuffer A → Option A × Ringbuffer A
  get r = if r.empty then (none, r) else (let (item, r') = take_item r in (some item, r'))

  -- The critical section of `put` and `ensure_put`, past its test.
  unfoldable pub store : Ringbuffer A → A → Ringbuffer A
  store r item =
      let head = (r.head + 1) % size in
      record r {
        items = update r.items r.head item;
        head = head;
        full = head == r.tail;
        empty = false;
      }

  -- The critical section of `put`.
  unfoldable pub put_locked : Ringbuffer A → A → Status × Ringbuffer A
  put_locked r item = if r.full then (failure, inc_stat r) else (success, store r item)

  unfoldable pub put : Ringbuffer A → A → Status × Ringbuffer A
  put r item = if r.full then (failure, inc_stat r) else put_locked r item

  -- Calls of `put`, one after the other.
  pub store_all : List A → Ringbuffer A → Ringbuffer A
  store_all [] r = r
  store_all (x ∷ rest) r = store_all rest (put r x).1

  -- What a call does to the buffer at the step at which it takes effect: a `put` that finds the
  -- buffer full at its test or in its critical section, or a critical section.
  pub act : Action A → Ringbuffer A → Reply A × Ringbuffer A
  act taken r = let (out, r') = get r in (got out, r')
  act (stored item) r = let (status, r') = put r item in (told status, r')

  -- `inside` is whether the consumer has found the buffer not empty, and goes on to its critical
  -- section, where it does not test again. A step that ends a call gives the call and its reply.
  unfoldable pub step :
      ThreadStep A → Bool → Ringbuffer A → Option (Action A × Reply A) × (Bool × Ringbuffer A)
  step consumes false r =
      if r.empty then (some (taken, got none), (false, r)) else (none, (true, r))
  step consumes true r =
      let (item, r') = take_item r in (some (taken, got (some item)), (false, r'))
  step (tests item) inside r =
      if r.full
      then (some (stored item, told failure), (inside, inc_stat r))
      else (none, (inside, r))
  step (enters item) inside r =
      let (status, r') = put_locked r item in (some (stored item, told status), (inside, r'))

  unfoldable pub note :
      Option (Action A × Reply A) → List (Action A × Reply A) → List (Action A × Reply A)
  note none calls = calls
  note (some call) calls = call ∷ calls

  -- The steps of all threads, in any order, with the calls that end, in the order in which they do.
  unfoldable pub run :
      List (ThreadStep A) → Bool → Ringbuffer A → List (Action A × Reply A) × (Bool × Ringbuffer A)
  run [] inside r = ([], (inside, r))
  run (e ∷ rest) inside r =
      let (ended, (inside', r')) = step e inside r in
      let (calls, after) = run rest inside' r' in (note ended calls, after)

  -- `get` by one thread while others put items between its test of `empty` and its critical
  -- section.
  pub get_amid : List A → Ringbuffer A → Option A × Ringbuffer A
  get_amid others r =
      if r.empty
      then (none, store_all others r)
      else (let (item, r') = take_item (store_all others r) in (some item, r'))

  -- `ensure_put`, from its test of `full`, or, if `tested`, past it, by a schedule of its own steps
  -- and any calls of other threads between them. Past the end of the schedule the thread is alone.
  -- `none` is a call that is still waiting.
  unfoldable pub wait_put : List (Slot A) → Bool → Ringbuffer A → A → Option (Ringbuffer A)
  wait_put [] tested r item = if r.full then none else some (store r item)
  wait_put (theirs a ∷ rest) tested r item = wait_put rest tested (act a r).1 item
  wait_put (ours ∷ rest) false r item = wait_put rest (not r.full) r item
  wait_put (ours ∷ rest) true r item =
      let again = wait_put rest false r item in if r.full then again else some (store r item)

  unfoldable pub ensure_put : List (Slot A) → Ringbuffer A → A → Option (Ringbuffer A)
  ensure_put slots r item = wait_put slots false r item
