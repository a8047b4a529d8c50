-- ===== src/Ringbuffer/Queue.antt =====
-- What a ring buffer promises: a first-in first-out queue of at most `size` items, oldest first.
use marina.Prelude.{
  success, failure, ℕ, none, some, List, [], ◌∷◌, ◌++◌, length, ltb, if◌then◌else◌,
}
use marina.Ringbuffer.{Action, taken, stored, Reply, got, told}

module _ {A : Type 0} (size : ℕ) where
  unfoldable pub push : A → List A → List A
  push x q = if ltb (length q) size then q ++ x ∷ [] else q

  unfoldable pub push_all : List A → List A → List A
  push_all [] q = q
  push_all (x ∷ rest) q = push_all rest (push x q)

  unfoldable pub act : Action A → List A → Reply A × List A
  act taken [] = (got none, [])
  act taken (x ∷ q) = (got (some x), q)
  act (stored x) q = (told (if ltb (length q) size then success else failure), push x q)

  unfoldable pub run : List (Action A) → List A → List (Reply A) × List A
  run [] q = ([], q)
  run (a ∷ rest) q =
      let (reply, q') = act a q in let (replies, q'') = run rest q' in (reply ∷ replies, q'')
