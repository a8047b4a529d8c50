-- ===== src/Hashtable.antt =====
-- The open addressing that controller/datastructures/flow_hashtable.c, session_hashtable.c and
-- dns_hashtable.c share: linear probing, and removal that moves later entries back. The three
-- files repeat the same loops over their own tables; each table has a module of its own.
pub mod Circle
pub mod Chain
pub mod Probe
pub mod Move
pub mod Hole
pub mod Shift
pub mod Insert
pub mod Contents
pub mod Represents
pub mod Evict
pub mod Indexed
pub mod Keys
pub mod Uses
pub mod Capacity
pub mod Overwrite
use marina.Prelude.{
  ℕ, zero, suc, ◌+◌, ◌-◌, ◌%◌, Bool, true, false, Option, none, some, ltb, ◌==◌, if◌then◌else◌,
  ◌&&◌, not, update,
}

-- What a table is used with: its number of cells, the hash of a key, and the test that `memcmp`
-- makes of two keys. The sizes are powers of two, so that `x & (SIZE - 1)` is `x % SIZE`.
pub record Scheme (K : Type 0) : Type 0 where
  pub size : ℕ
  pub hash_of : K → ℕ
  pub same : K → K → Bool

pub record Entry (K V : Type 0) : Type 0 where
  pub key : K
  pub value : V
  pub hash : ℕ
  pub occupied : Bool

-- `POSITIVE_MODULO(b - a)` for two cells: how far `b` is behind `a`, going round.
unfoldable pub dist : ℕ → ℕ → ℕ → ℕ
dist size a b = (b + size - a) % size

-- The cell after `i`.
unfoldable pub next : ℕ → ℕ → ℕ
next size i = (i + 1) % size

-- How a search ends: at the key, or at the first cell that is not occupied.
pub data Slot : Type 0 where
  found free : ℕ → Slot

module _ {K V : Type 0} (scheme : Scheme K) where
  open scheme use {size, hash_of, same}

  -- `HASH2INDEX` of the hash of an entry.
  unfoldable pub home : Entry K V → ℕ
  home e = e.hash % size

  -- The loop of `get_hashtable_index`, on fuel.
  unfoldable pub probe_loop : ℕ → (ℕ → Entry K V) → K → ℕ → ℕ → Option Slot
  probe_loop zero entries key hash index = none
  probe_loop (suc fuel) entries key hash index =
      let rest = probe_loop fuel entries key hash (next size index) in
      if not (entries index).occupied
      then some (free index)
      else if (entries index).hash == hash && same (entries index).key key
      then some (found index)
      else rest

  -- `get_hashtable_index`: `size` rounds meet every cell, so a search that has not ended by then
  -- never ends.
  unfoldable pub get_hashtable_index : (ℕ → Entry K V) → K → ℕ → Option Slot
  get_hashtable_index entries key hash = probe_loop size entries key hash (hash % size)

  -- `CAN_MOVE_ITEM_TO_CURRENT_EMPTY`, of an entry that is not at home.
  unfoldable pub can_move : (ℕ → Entry K V) → ℕ → ℕ → Bool
  can_move entries index empty =
      let e = entries index in
      not (index == home e) && ltb (dist size (home e) empty) (dist size (home e) index)

  -- Moves the entry at `index` to the cell `empty`.
  unfoldable pub move : (ℕ → Entry K V) → ℕ → ℕ → ℕ → Entry K V
  move entries index empty =
      let e = entries index in
      update (update entries index (record e { occupied = false })) empty
        (record e { occupied = true })

  -- The loop at the end of a removal, on fuel. `moved` is what a table notes of an entry that is
  -- moved to a cell.
  unfoldable pub shift_loop {ℓ} :
      {S : Type ℓ}
      → (Entry K V → ℕ → S → S)
      → ℕ
      → (ℕ → Entry K V)
      → S
      → ℕ
      → ℕ
      → Option ((ℕ → Entry K V) × S)
  shift_loop moved zero entries notes index empty = none
  shift_loop moved (suc fuel) entries notes index empty =
      let i = next size index in
      let go_on = shift_loop moved fuel entries notes i empty in
      let go_back =
        shift_loop moved fuel (move entries i empty) (moved (entries i) empty notes) i i in
      if not (entries i).occupied
      then some (entries, notes)
      else if can_move entries i empty
      then go_back
      else go_on
