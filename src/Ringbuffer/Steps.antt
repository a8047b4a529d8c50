-- ===== src/Ringbuffer/Steps.antt =====
-- The steps of all threads, one consumer among them, against the bounded queue.
use marina.Prelude.{
  failure, ℕ, ◌≤◌, ◌<◌, ◌≡◌, refl, true, false, Bool, none, some, Option, List, [], ◌∷◌, arith, ap,
  ltb, length, length-append, Bool-cases, inl, inr, ap₂, map,
}
use marina.Ringbuffer.{
  Ringbuffer, Action, taken, stored, Reply, got, told, ThreadStep, consumes, tests, enters, note,
  step,
}
use marina.Ringbuffer
use marina.Ringbuffer.Queue
use marina.Ringbuffer.Refine.{Holds, take_item-Holds}
use marina.Ringbuffer.Calls.{put-Holds, put_locked-put, inc_stat-Holds}

-- The buffer holds the items of a queue, and a consumer that is past its test will find one.
pub record Serves {A : Type 0} (size : ℕ) (inside : Bool) (r : Ringbuffer A) (q : List A)
    : Type 0 where
  pub holds : Holds size r q
  pub waiting : inside ≡ true → 0 < length q

module _ {A : Type 0} (size : ℕ) where
  looks-empty :
      (r : Ringbuffer A)
      → r.empty ≡ true
      → step size consumes false r ≡ (some (taken, got none), (false, r))
  unfolding step
  looks-empty r e = simp e

  looks-more : (r : Ringbuffer A) → r.empty ≡ false → step size consumes false r ≡ (none, (true, r))
  unfolding step
  looks-more r e = simp e

  tests-full :
      (x : A) (inside : Bool) (r : Ringbuffer A)
      → r.full ≡ true
      → step size (tests x) inside r
        ≡ (some (stored x, told failure), (inside, Ringbuffer.inc_stat r))
  unfolding step
  tests-full x inside r e = simp e

  tests-room :
      (x : A) (inside : Bool) (r : Ringbuffer A)
      → r.full ≡ false
      → step size (tests x) inside r ≡ (none, (inside, r))
  unfolding step
  tests-room x inside r e = simp e

module _ {A : Type 0} (size : ℕ) (pos : 0 < size) where
  length-push : (x : A) (q : List A) → length q ≤ length (Queue.push size x q)
  unfolding Queue.push
  length-push x q = elim (Bool-cases (ltb (length q) size)) [
    | inl e ↦ rw e (omega (arith, length-append q (x ∷ [])))
    | inr e ↦ rw e (omega arith)
  ]

  push_full : (x : A) (q : List A) → ltb (length q) size ≡ false → Queue.push size x q ≡ q
  unfolding Queue.push
  push_full x q e = rw e refl

  -- What a step has done: no call has ended and the queue is what it was, or one has, with what the
  -- queue replies.
  unfoldable Agrees : List A → Option (Action A × Reply A) → Bool → Ringbuffer A → Type 0
  Agrees q none inside r = Serves size inside r q
  Agrees q (some (a, reply)) inside r =
      (reply ≡ (Queue.act size a q).0) × Serves size inside r (Queue.act size a q).1

  step-Agrees :
      (e : ThreadStep A) (inside : Bool) (r : Ringbuffer A) (q : List A)
      → Serves size inside r q
      → let (ended, (inside', r')) = step size e inside r in Agrees q ended inside' r'
  unfolding Agrees step Queue.act
  step-Agrees consumes false r [] v = rw (looks-empty size r v.holds.empty_at) (refl, v)
  step-Agrees consumes false r (x ∷ q) v =
      let more : r.empty ≡ false = ground (arith, v.holds.empty_at) in
      rw (looks-more size r more) (record { holds = v.holds; waiting = λ e. omega arith })
  step-Agrees consumes true r [] v = absurd (omega (arith, v.waiting refl))
  step-Agrees consumes true r (x ∷ q) v =
      let (same, h') = take_item-Holds size pos v.holds in
      (ap (λ y. got (some y)) same, record { holds = h'; waiting = λ e. cc e })
  step-Agrees (tests x) inside r q v = elim (Bool-cases r.full) [
    | inr free ↦ rw (tests-room size x inside r free) v
    | inl over ↦
        let no_room : ltb (length q) size ≡ false = ground (arith, v.holds.full_at, over) in
        rw (tests-full size x inside r over, no_room)
          (
            refl,
            record {
              holds = rw (push_full x q no_room) (inc_stat-Holds size pos v.holds);
              waiting = λ e. rw (push_full x q no_room) (v.waiting e);
            },
          )
  ]
  step-Agrees (enters x) inside r q v =
      let (same, h') = put-Holds size pos x v.holds in
      rw (put_locked-put size pos r x) (
        ap told same,
        record { holds = h'; waiting = λ e. omega (arith, v.waiting e, length-push x q) },
      )

  -- What the calls that end in `steps` are told.
  abbrev Refines : List (ThreadStep A) → Bool → Ringbuffer A → List A → Type 0
  Refines steps inside r q =
      let (calls, (inside', r')) = Ringbuffer.run size steps inside r in
      let (promised, q') = Queue.run size (map (λ call. call.0) calls) q in
      (map (λ call. call.1) calls ≡ promised) × Serves size inside' r' q'

  noted :
      (rest : List (ThreadStep A)) (ended : Option (Action A × Reply A)) (inside : Bool)
      (r : Ringbuffer A) (q : List A)
      → Agrees q ended inside r
      → ((q' : List A) → Serves size inside r q' → Refines rest inside r q')
      → let (more, (inside', r')) = Ringbuffer.run size rest inside r in
        let (promised, q') = Queue.run size (map (λ call. call.0) (note size ended more)) q in
        (map (λ call. call.1) (note size ended more) ≡ promised) × Serves size inside' r' q'
  unfolding note Agrees Queue.run
  noted rest none inside r q v next = next q v
  noted rest (some (a, reply)) inside r q (same, v) next =
      let (rest_same, v') = next (Queue.act size a q).1 v in (ap₂ ◌∷◌ same rest_same, v')

  -- However the steps of the threads follow each other, of which one thread takes and any number
  -- put, from a buffer that holds the items of a queue, and with the consumer before its test of
  -- `empty`, or past it while the queue has an item: each call that ends replies what the bounded
  -- queue replies to the calls that end, in that order, and the buffer holds the items that they
  -- leave. So nothing is lost, repeated or reordered, although `get` tests `empty` outside the lock,
  -- and not again inside.
  pub run_refines :
      (steps : List (ThreadStep A)) (inside : Bool) (r : Ringbuffer A) (q : List A)
      → Serves size inside r q
      → let (calls, (inside', r')) = Ringbuffer.run size steps inside r in
        let (promised, q') = Queue.run size (map (λ call. call.0) calls) q in
        (map (λ call. call.1) calls ≡ promised) × Serves size inside' r' q'
  unfolding Ringbuffer.run Queue.run
  run_refines [] inside r q v = (refl, v)
  run_refines (e ∷ rest) inside r q v =
      let (ended, (inside', r')) = step size e inside r in
      noted rest ended inside' r' q (step-Agrees e inside r q v)
        (λ q' v'. run_refines rest inside' r' q' v')
