-- ===== src/Ringbuffer/EnsurePut.antt =====
-- `ensure_put`, the call of the ring buffer that waits for room.
use marina.Prelude.{
  ℕ, ◌+◌, ◌≤◌, ◌<◌, ◌≡◌, refl, sym, true, false, Bool, not, none, some, List, [], ◌∷◌, ◌++◌, arith,
  length, Bool-cases, inl, inr, ap, ◌∙◌, Returns, returns, if◌then◌else◌,
}
use mathlib.Core.Path.{subst}
use marina.Ringbuffer.{Ringbuffer, Action, taken, stored, Slot, theirs, ours, wait_put}
use marina.Ringbuffer
use marina.Ringbuffer.Queue
use marina.Ringbuffer.Refine.{Holds, store-Holds}
use marina.Ringbuffer.Calls.{act-Holds, put-room, get-empty, get-item}

-- The wait of a call of `ensure_put` ends, whatever its item is.
abbrev pub WaitEnds : {A : Type 0} → ℕ → List (Slot A) → Ringbuffer A → Type 0
WaitEnds {A} size slots r = (x : A) → Returns (λ _. Unit {0}) (Ringbuffer.ensure_put size slots r x)

-- The calls of the other threads in a schedule.
unfoldable pub calls_of : {A : Type 0} → List (Slot A) → List (Action A)
calls_of [] = []
calls_of (theirs a ∷ slots) = a ∷ calls_of slots
calls_of (ours ∷ slots) = calls_of slots

-- How often the waiting thread has its turn.
unfoldable pub turns : {A : Type 0} → List (Slot A) → ℕ
turns [] = 0
turns (theirs a ∷ slots) = turns slots
turns (ours ∷ slots) = turns slots + 1

-- No other thread puts.
unfoldable pub NoPuts : {A : Type 0} → List (Slot A) → Type 0
NoPuts [] = Unit
NoPuts (theirs taken ∷ slots) = NoPuts slots
NoPuts (theirs (stored x) ∷ slots) = ⊥
NoPuts (ours ∷ slots) = NoPuts slots

module _ {A : Type 0} (size : ℕ) where
  abbrev after : Action A → Ringbuffer A → Ringbuffer A
  after a r = (Ringbuffer.act size a r).1

  tries_full :
      (slots : List (Slot A)) (r : Ringbuffer A) (x : A)
      → r.full ≡ true
      → wait_put size (ours ∷ slots) true r x ≡ wait_put size slots false r x
  unfolding wait_put
  tries_full slots r x e = simp e

  tries_room :
      (slots : List (Slot A)) (r : Ringbuffer A) (x : A)
      → r.full ≡ false
      → wait_put size (ours ∷ slots) true r x ≡ some (Ringbuffer.store size r x)
  unfolding wait_put
  tries_room slots r x e = simp e

  still_waits :
      (tested : Bool) (r : Ringbuffer A) (x : A)
      → r.full ≡ true
      → wait_put size [] tested r x ≡ none
  unfolding wait_put
  still_waits tested r x e = simp e

  stores_at_once :
      (tested : Bool) (r : Ringbuffer A) (x : A)
      → r.full ≡ false
      → wait_put size [] tested r x ≡ some (Ringbuffer.store size r x)
  unfolding wait_put
  stores_at_once tested r x e = simp e

module _ {A : Type 0} (size : ℕ) (pos : 0 < size) where
  full-get : (r : Ringbuffer A) → r.full ≡ false → (after size taken r).full ≡ false
  unfolding Ringbuffer.act Ringbuffer.take_item
  full-get r e = elim (Bool-cases r.empty) [
    | inl bare ↦ ap (λ p. p.1.full) (get-empty size pos r bare) ∙ e
    | inr more ↦ ap (λ p. p.1.full) (get-item size pos r more)
  ]

  -- With room, and no other thread that puts, two turns are enough, and one past the test.
  wait_put-room :
      (mid later : List (Slot A)) (tested : Bool) (r : Ringbuffer A) (x : A)
      → r.full ≡ false
      → NoPuts mid
      → (if tested then 1 else 2) ≤ turns mid
      → (r' : Ringbuffer A) × (wait_put size (mid ++ later) tested r x ≡ some r')
  unfolding wait_put NoPuts turns
  wait_put-room [] later true r x free quiet le = absurd (omega arith)
  wait_put-room [] later false r x free quiet le = absurd (omega arith)
  wait_put-room (theirs taken ∷ mid) later tested r x free quiet le =
      wait_put-room mid later tested (after size taken r) x (full-get r free) quiet le
  wait_put-room (theirs (stored y) ∷ mid) later tested r x free quiet le = elim quiet [ ]
  wait_put-room (ours ∷ mid) later true r x free quiet le =
      (Ringbuffer.store size r x, tries_room size (mid ++ later) r x free)
  wait_put-room (ours ∷ mid) later false r x free quiet le =
      let (r', e) = wait_put-room mid later true r x free quiet (omega arith) in
      (r', ap (λ b. wait_put size (mid ++ later) (not b) r x) free ∙ e)

  room : {r : Ringbuffer A} {q : List A} → Holds size r q → r.full ≡ false → length q < size
  room h e = ground (arith, h.full_at, h.fits)

  take_makes_room :
      {r : Ringbuffer A} {q : List A} → Holds size r q → (after size taken r).full ≡ false
  unfolding Queue.act
  take_makes_room {r} {q = []} h = ground (arith, (act-Holds size pos taken h).1.full_at)
  take_makes_room {r} {q = x ∷ q} h = ground (arith, (act-Holds size pos taken h).1.full_at, h.fits)

  stored_in :
      (x : A) {r r' : Ringbuffer A} {q : List A}
      → Holds size r q
      → r.full ≡ false
      → Ringbuffer.store size r x ≡ r'
      → Holds size r' (q ++ x ∷ [])
  stored_in x {r} {r'} {q} h free same =
      subst (λ s. Holds size s (q ++ x ∷ [])) same (store-Holds size pos x h (room h free))

  wait_put_lem :
      (slots : List (Slot A)) (tested : Bool) (x : A) {r r' : Ringbuffer A} {q : List A}
      → Holds size r q
      → wait_put size slots tested r x ≡ some r'
      → (before : List (Slot A)) × (later : List (Slot A)) × (slots ≡ before ++ later)
        × Holds size r' ((Queue.run size (calls_of before) q).1 ++ x ∷ [])
  unfolding Queue.run calls_of wait_put
  wait_put_lem [] tested x {r} {r'} {q} h e = elim (Bool-cases r.full) [
    | inl over ↦ cc (still_waits size tested r x over, e)
    | inr free ↦ ([], [], refl, stored_in x h free (cc (stores_at_once size tested r x free, e)))
  ]
  wait_put_lem (theirs a ∷ slots) tested x {r} {r'} {q} h e =
      let (before, later, split, held) = wait_put_lem slots tested x (act-Holds size pos a h).1 e in
      (theirs a ∷ before, later, ap (◌∷◌ (theirs a)) split, held)
  wait_put_lem (ours ∷ slots) false x {r} {r'} {q} h e =
      let (before, later, split, held) = wait_put_lem slots (not r.full) x h e in
      (ours ∷ before, later, ap (◌∷◌ ours) split, held)
  wait_put_lem (ours ∷ slots) true x {r} {r'} {q} h e = elim (Bool-cases r.full) [
    | inl over ↦
        let (before, later, split, held) =
          wait_put_lem slots false x h (cc (tries_full size slots r x over, e)) in
        (ours ∷ before, later, ap (◌∷◌ ours) split, held)
    | inr free ↦
        ([], ours ∷ slots, refl, stored_in x h free (cc (tries_room size slots r x free, e)))
  ]

  -- If `ensure_put` returns, some of the calls of the other threads have taken effect before
  -- it, and the buffer holds what these leave in the bounded queue, with the item behind it.
  pub ensure_put_lem :
      (slots : List (Slot A)) (x : A) {r r' : Ringbuffer A} {q : List A}
      → Holds size r q
      → Ringbuffer.ensure_put size slots r x ≡ some r'
      → (before : List (Slot A)) × (later : List (Slot A)) × (slots ≡ before ++ later)
        × Holds size r' ((Queue.run size (calls_of before) q).1 ++ x ∷ [])
  unfolding Ringbuffer.ensure_put
  ensure_put_lem slots x h e = wait_put_lem slots false x h e

  wait_put_ends :
      (before mid later : List (Slot A)) (tested : Bool) (x : A) {r : Ringbuffer A} {q : List A}
      → Holds size r q
      → NoPuts mid
      → 2 ≤ turns mid
      → (r' : Ringbuffer A) × (wait_put size (before ++ theirs taken ∷ (mid ++ later)) tested r x
          ≡ some r')
  unfolding wait_put
  wait_put_ends [] mid later tested x {r} h quiet le =
      let enough : (if tested then 1 else 2) ≤ turns mid = ground arith in
      wait_put-room mid later tested (after size taken r) x (take_makes_room h) quiet enough
  wait_put_ends (theirs a ∷ before) mid later tested x {r} h quiet le =
      wait_put_ends before mid later tested x (act-Holds size pos a h).1 quiet le
  wait_put_ends (ours ∷ before) mid later false x {r} h quiet le =
      wait_put_ends before mid later (not r.full) x h quiet le
  wait_put_ends (ours ∷ before) mid later true x {r} h quiet le = elim (Bool-cases r.full) [
    | inl over ↦
        let (r', e) = wait_put_ends before mid later false x h quiet le in
        (r', tries_full size (before ++ theirs taken ∷ (mid ++ later)) r x over ∙ e)
    | inr free ↦ (_, tries_room size (before ++ theirs taken ∷ (mid ++ later)) r x free)
  ]

  -- `ensure_put` returns if at some time the consumer takes an item, and the waiting thread then has
  -- its turn twice before another thread puts, however its steps and the calls of the other threads
  -- follow each other before and after that. Some of their calls have taken effect before it, and the
  -- buffer holds what these leave in the bounded queue, with the item behind it.
  pub ensure_put_returns :
      (before mid later : List (Slot A)) (x : A) {r : Ringbuffer A} {q : List A}
      → Holds size r q
      → NoPuts mid
      → 2 ≤ turns mid
      → let slots = before ++ theirs taken ∷ (mid ++ later) in
        (r' : Ringbuffer A) × (Ringbuffer.ensure_put size slots r x ≡ some r')
        × (first : List (Slot A)) × (rest : List (Slot A)) × (slots ≡ first ++ rest)
        × Holds size r' ((Queue.run size (calls_of first) q).1 ++ x ∷ [])
  unfolding Ringbuffer.ensure_put
  ensure_put_returns before mid later x h quiet le =
      let (r', e) = wait_put_ends before mid later false x h quiet le in
      let (first, rest, split, held) =
        wait_put_lem (before ++ theirs taken ∷ (mid ++ later)) false x h e in
      (r', e, first, rest, split, held)

  pub served-WaitEnds :
      (before mid later : List (Slot A)) {r : Ringbuffer A} {q : List A}
      → Holds size r q
      → NoPuts mid
      → 2 ≤ turns mid
      → WaitEnds size (before ++ theirs taken ∷ (mid ++ later)) r
  unfolding Ringbuffer.ensure_put
  served-WaitEnds before mid later h quiet le x =
      let (r', e) = wait_put_ends before mid later false x h quiet le in rw e (returns tt)

  -- With room, `ensure_put` does at once what `put` does.
  pub ensure_put-put :
      (x : A) {r : Ringbuffer A} {q : List A}
      → Holds size r q
      → length q + 1 ≤ size
      → Ringbuffer.ensure_put size [] r x ≡ some (Ringbuffer.put size r x).1
  unfolding Ringbuffer.ensure_put
  ensure_put-put x {r} h le =
      let free : r.full ≡ false = ground (arith, h.full_at) in
      stores_at_once size false r x free
      ∙ ap some (sym (ap (λ p. p.1) (put-room size pos r x free)))
