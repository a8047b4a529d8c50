-- ===== src/Ringbuffer/Calls.antt =====
-- Whole calls of the ring buffer, by one thread and by several, against the bounded queue.
use marina.Prelude.{
  success, failure, ℕ, suc, ◌+◌, ◌≤◌, ◌<◌, ◌≡◌, refl, true, false, none, some, List, [], ◌∷◌, ◌++◌,
  arith, ap, ltb, if◌then◌else◌, length, Bool-cases, inl, inr,
}
use mathlib.Core.Path.{subst}
use marina.Ringbuffer.{Ringbuffer, Action, taken, stored, Reply, got, told}
use marina.Ringbuffer
use marina.Ringbuffer.Queue
use marina.Ringbuffer.Refine.{Holds, store-Holds, take_item-Holds}

module _ {A : Type 0} (size : ℕ) (pos : 0 < size) where
  pub inc_stat-Holds :
      {r : Ringbuffer A} {q : List A} → Holds size r q → Holds size (Ringbuffer.inc_stat r) q
  unfolding Ringbuffer.inc_stat
  inc_stat-Holds h = record {
    fits = h.fits;
    tail_in = h.tail_in;
    head_at = h.head_at;
    empty_at = h.empty_at;
    full_at = h.full_at;
    item_at = h.item_at;
  }

  put-full :
      (r : Ringbuffer A) (x : A)
      → r.full ≡ true
      → Ringbuffer.put size r x ≡ (failure, Ringbuffer.inc_stat r)
  unfolding Ringbuffer.put
  put-full r x e = simp e

  pub put-room :
      (r : Ringbuffer A) (x : A)
      → r.full ≡ false
      → Ringbuffer.put size r x ≡ (success, Ringbuffer.store size r x)
  unfolding Ringbuffer.put Ringbuffer.put_locked
  put-room r x e = simp e

  pub get-empty : (r : Ringbuffer A) → r.empty ≡ true → Ringbuffer.get size r ≡ (none, r)
  unfolding Ringbuffer.get
  get-empty r e = simp e

  pub get-item :
      (r : Ringbuffer A)
      → r.empty ≡ false
      → Ringbuffer.get size r
        ≡ (some (Ringbuffer.take_item size r).0, (Ringbuffer.take_item size r).1)
  unfolding Ringbuffer.get
  get-item r e = simp e

  pub put-Holds :
      {r : Ringbuffer A} {q : List A} (x : A)
      → Holds size r q
      → let (s, r') = Ringbuffer.put size r x in
        (s ≡ (if ltb (length q) size then success else failure))
        × Holds size r' (Queue.push size x q)
  unfolding Queue.push
  put-Holds {r} {q} x h = elim (Bool-cases (ltb (length q) size)) [
    | inl room ↦
        rw (room, put-room r x (ground (arith, h.full_at)))
          (refl, store-Holds size pos x h (ground arith))
    | inr over ↦
        rw (over, put-full r x (ground (arith, h.full_at, h.fits))) (refl, inc_stat-Holds h)
  ]

  -- A `put` while there is room.
  pub put_fits :
      {r : Ringbuffer A} {q : List A} (x : A)
      → Holds size r q
      → length q + 1 ≤ size
      → ((Ringbuffer.put size r x).0 ≡ success)
        × Holds size (Ringbuffer.put size r x).1 (q ++ x ∷ [])
  unfolding Queue.push
  put_fits {r} {q} x h le =
      let (status, h') = put-Holds x h in
      let room : ltb (length q) size ≡ true = ground arith in (rw room at status, rw room at h')

  -- What `get` returns is the oldest item.
  pub get-first :
      {r : Ringbuffer A} (q : List A) (x : A)
      → Holds size r q
      → (Ringbuffer.get size r).0 ≡ some x
      → (rest : List A) × (q ≡ x ∷ rest) × Holds size (Ringbuffer.get size r).1 rest
  get-first {r} [] x h e = absurd (cc (ap (λ p. p.0) (get-empty r h.empty_at), e))
  get-first {r} (y ∷ q) x h e =
      let (same, h') = take_item-Holds size pos h in
      let got = get-item r (ground (arith, h.empty_at)) in
      (q, cc (ap (λ p. p.0) got, e, same), rw got h')

  pub act-Holds :
      {r : Ringbuffer A} {q : List A} (a : Action A)
      → Holds size r q
      → let (reply, r') = Ringbuffer.act size a r in
        let (promised, q') = Queue.act size a q in (reply ≡ promised) × Holds size r' q'
  unfolding Ringbuffer.act Queue.act
  act-Holds {r} {q = []} taken h = rw (get-empty r h.empty_at) (refl, h)
  act-Holds {r} {q = x ∷ q} taken h =
      let (same, h') = take_item-Holds size pos h in
      rw (get-item r (ground (arith, h.empty_at))) (rw same, h')
  act-Holds {r} {q} (stored x) h = let (same, h') = put-Holds x h in (rw same, h')

  pub put_locked-put :
      (r : Ringbuffer A) (x : A) → Ringbuffer.put_locked size r x ≡ Ringbuffer.put size r x
  unfolding Ringbuffer.put Ringbuffer.put_locked
  put_locked-put r x = elim (Bool-cases r.full) [ inl e ↦ rw e refl | inr e ↦ rw e refl ]

  pub store_all-Holds :
      (others : List A) {r : Ringbuffer A} {q : List A}
      → Holds size r q
      → Holds size (Ringbuffer.store_all size others r) (Queue.push_all size others q)
  unfolding Ringbuffer.store_all Queue.push_all
  store_all-Holds [] h = h
  store_all-Holds (x ∷ others) h = store_all-Holds others (put-Holds x h).1

  push_all-cons :
      (x : A) (others q : List A)
      → (more : List A) × (Queue.push_all size others (x ∷ q) ≡ x ∷ more)
  unfolding Queue.push_all Queue.push
  push_all-cons x [] q = (q, refl)
  push_all-cons x (y ∷ others) q = elim (Bool-cases (ltb (suc (length q)) size)) [
    | inl e ↦ rw e (push_all-cons x others (q ++ y ∷ []))
    | inr e ↦ rw e (push_all-cons x others q)
  ]

  get_amid-item :
      (others : List A) (r : Ringbuffer A)
      → r.empty ≡ false
      → let (item, r') = Ringbuffer.take_item size (Ringbuffer.store_all size others r) in
        Ringbuffer.get_amid size others r ≡ (some item, r')
  unfolding Ringbuffer.get_amid
  get_amid-item others r e = simp e

  -- The test of `empty` outside the lock is enough for a single consumer: whatever other
  -- threads put before its critical section, `get` on a buffer that holds an item returns the
  -- oldest one, and leaves the rest of it with what they put.
  pub get_amid_lem :
      (others : List A) {r : Ringbuffer A} {x : A} {q : List A}
      → Holds size r (x ∷ q)
      → let (out, r') = Ringbuffer.get_amid size others r in
        (out ≡ some x)
        × ((more : List A) × (Queue.push_all size others (x ∷ q) ≡ x ∷ more) × Holds size r' more)
  get_amid_lem others {r} {x} {q} h =
      let (more, split) = push_all-cons x others q in
      let (same, h') = take_item-Holds size pos (
        subst (Holds size (Ringbuffer.store_all size others r)) split (store_all-Holds others h)) in
      rw (get_amid-item others r (ground (arith, h.empty_at))) (rw same, (more, split, h'))
