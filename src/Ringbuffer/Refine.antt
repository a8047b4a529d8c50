-- ===== src/Ringbuffer/Refine.antt =====
-- The critical sections of the ring buffer and the bounded queue of its items.
use marina.Prelude.{
  Status, success, failure, ℕ, zero, suc, ◌+◌, ◌-◌, ◌%◌, ◌≤◌, ◌<◌, ◌≡◌, refl, Bool, true, false,
  Option, none, some, List, [], ◌∷◌, ◌++◌, arith, get_elem?, update, update_lem, ◌==◌,
  if◌then◌else◌, mod_wrap, length-append, ℕ_discrete,
}
use marina.Prelude
use marina.Ringbuffer.{Ringbuffer}
use marina.Ringbuffer

-- `r` is a buffer of `size` cells that holds the items of `q`, oldest first.
pub record Holds {A : Type 0} (size : ℕ) (r : Ringbuffer A) (q : List A) : Type 0 where
  pub fits : Prelude.length q ≤ size
  pub tail_in : r.tail < size
  pub head_at : r.head ≡ (r.tail + Prelude.length q) % size
  pub empty_at : r.empty ≡ (Prelude.length q == 0)
  pub full_at : r.full ≡ (Prelude.length q == size)
  pub item_at :
      (i : ℕ) → i < Prelude.length q → get_elem? q i ≡ some (r.items ((r.tail + i) % size))

get_elem?-append :
    {A : Type 0} (q : List A) (x : A) (i : ℕ)
    → get_elem? (q ++ x ∷ []) i ≡ (if i == Prelude.length q then some x else get_elem? q i)
get_elem?-append [] x zero = refl
get_elem?-append [] x (suc i) = ground arith
get_elem?-append (y ∷ q) x zero = ground arith
get_elem?-append (y ∷ q) x (suc i) = ground (arith, get_elem?-append q x i)

module _ {A : Type 0} (size : ℕ) (pos : 0 < size) where
  pub init-Holds : (memory : ℕ → A) (stat : ℕ) → Holds size (Ringbuffer.init memory stat) []
  unfolding Ringbuffer.init
  init-Holds memory stat = record {
    fits = omega arith;
    tail_in = pos;
    head_at = omega arith;
    empty_at = refl;
    full_at = ground arith;
    item_at = λ i h. elim h [ ];
  }

  -- If the buffer holds the items of a queue, `length` is the number of these items, also when
  -- the buffer is full.
  pub length-Holds :
      {r : Ringbuffer A} {q : List A} → Holds size r q → Ringbuffer.length size r ≡ Prelude.length q
  unfolding Ringbuffer.length
  length-Holds {r} {q} h = elim (ℕ_discrete (Prelude.length q) size) [
    | yes e ↦ ground (arith, h.full_at)
    | no ne ↦ ground (
      arith,
      h.full_at,
      h.head_at,
      mod_wrap size r.tail (Prelude.length q),
      mod_wrap size r.head (size - r.tail),
    )
  ]

  pub store-Holds :
      {r : Ringbuffer A} {q : List A} (x : A)
      → Holds size r q
      → Prelude.length q < size
      → Holds size (Ringbuffer.store size r x) (q ++ x ∷ [])
  unfolding Ringbuffer.store
  store-Holds {r} {q} x h room = record {
    fits = omega (arith, grown);
    tail_in = h.tail_in;
    head_at = ground (
      arith,
      grown,
      h.head_at,
      mod_wrap size r.tail (Prelude.length q),
      mod_wrap size r.tail (suc (Prelude.length q)),
      mod_wrap size r.head 1,
    );
    empty_at = ground (arith, grown);
    full_at =
        ground (
          arith,
          grown,
          h.head_at,
          mod_wrap size r.tail (Prelude.length q),
          mod_wrap size r.head 1,
        );
    item_at = λ i p. ground (
      arith,
      grown,
      get_elem?-append q x i,
      update_lem r.items r.head x ((r.tail + i) % size),
      h.item_at i,
      h.head_at,
      mod_wrap size r.tail (Prelude.length q),
      mod_wrap size r.tail i,
    );
  }
    where
      grown : Prelude.length (q ++ x ∷ []) ≡ suc (Prelude.length q)
      grown = omega (arith, length-append q (x ∷ []))

  pub take_item-Holds :
      {r : Ringbuffer A} {x : A} {q : List A}
      → Holds size r (x ∷ q)
      → let (y, r') = Ringbuffer.take_item size r in (y ≡ x) × Holds size r' q
  unfolding Ringbuffer.take_item
  take_item-Holds {r} {x} {q} h = (
    ground (arith, h.item_at 0, mod_wrap size r.tail 0),
    record {
      fits = omega (arith, h.fits);
      tail_in = ground (arith, mod_wrap size r.tail 1);
      head_at = ground (
        arith,
        h.head_at,
        mod_wrap size r.tail 1,
        mod_wrap size ((r.tail + 1) % size) (Prelude.length q),
        mod_wrap size r.tail (suc (Prelude.length q)),
      );
      empty_at =
          ground (
            arith,
            h.head_at,
            mod_wrap size r.tail 1,
            mod_wrap size r.tail (suc (Prelude.length q)),
          );
      full_at = ground (arith, h.fits);
      item_at = λ i p. ground (
        arith,
        h.item_at (suc i),
        mod_wrap size r.tail (suc i),
        mod_wrap size r.tail 1,
        mod_wrap size ((r.tail + 1) % size) i,
      );
    },
  )
