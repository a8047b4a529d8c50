-- ===== src/FlowHashtable/Uses.antt =====
-- Which flow ids the flow hash table uses.
use marina.Prelude.{ℕ, ◌+◌, ◌<◌, ◌≡◌, Option, none, some, if◌then◌else◌, ◌==◌}
use marina.Structs.{FiveTuple, FiveTupleForHash}
use marina.Hashtable.Represents.{bind, unbind}
use marina.Hashtable.Uses.{uses_of, Holds, uses-add, uses-remove}
use marina.FlowHashtable.{FlowHashtable}
use marina.FlowHashtable.Laws.{flows, lawful, Models}

-- How many flows have the id.
abbrev pub in_use : FlowHashtable → ℕ → ℕ
in_use t x = uses_of (t.feature_index_to_entry_map x)

module _ (murmur : FiveTupleForHash → ℕ) (size : ℕ) (pos : 0 < size) where
  pub Models-Holds :
      {t : FlowHashtable} {m : FiveTuple → Option ℕ}
      → Models murmur size pos t m
      → Holds
          (flows murmur size pos)
          (lawful murmur size pos)
          m
          t.entries
          t.feature_index_to_entry_map
  Models-Holds holds = record { represents = holds.represents; indexed = holds.indexed }

  -- Adding a flow takes one id into use.
  pub in_use-add :
      (t t' : FlowHashtable) (m : FiveTuple → Option ℕ) (key : FiveTuple) (v : ℕ)
      → Models murmur size pos t m
      → m key ≡ none
      → t.feature_index_to_entry_map v ≡ none
      → Models murmur size pos t' (bind (flows murmur size pos) key v m)
      → (x : ℕ) → in_use t' x ≡ in_use t x + (if v == x then 1 else 0)
  in_use-add t t' m key v holds missing unused holds' x =
      uses-add (flows murmur size pos) (lawful murmur size pos) m (Models-Holds holds) key v missing
        unused (Models-Holds holds') x

  -- Removing a flow frees its id.
  pub in_use-remove :
      (t t' : FlowHashtable) (m : FiveTuple → Option ℕ) (key : FiveTuple) (v : ℕ)
      → Models murmur size pos t m
      → m key ≡ some v
      → Models murmur size pos t' (unbind (flows murmur size pos) key m)
      → (x : ℕ) → in_use t' x + (if v == x then 1 else 0) ≡ in_use t x
  in_use-remove t t' m key v holds had holds' x =
      uses-remove (flows murmur size pos) (lawful murmur size pos) m (Models-Holds holds) key v had
        (Models-Holds holds') x
