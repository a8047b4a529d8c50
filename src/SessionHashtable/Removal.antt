-- ===== src/SessionHashtable/Removal.antt =====
-- Removing sessions from the session hash table, by key and by id.
use marina.Prelude.{
  ℕ, ◌+◌, ◌<◌, ◌≡◌, ◌≢◌, ◌⊎◌, inl, inr, refl, sym, Bool, true, false, Option, none, some, Returns,
  returns, Returns-bind, Returns-map, ap, Status, success, failure, Option-cases, ◌>>=◌,
}
use mathlib.Core.Path.{subst}
use marina.Structs.{FiveTuple, FiveTupleForHash, FiveTupleForSessionHash}
use marina.Hashtable.{Scheme}
use marina.Hashtable.Chain.{IsLawful, IsOccupied}
use marina.Hashtable.Represents.{unbind, unbind_same, search-some}
use marina.SessionHashtable.{
  SessionHashtable, count_down, still_counted, session_hashtable_remove_by_index, remove_at,
  session_hashtable_remove_or_decrease_flow_count, remove_cell,
  session_hashtable_remove_or_decrease_flow_count_by_value,
}
use marina.SessionHashtable.Laws.{sessions, lawful, Models, remove_by_index_lem}

module _ (use_sessions : Bool) (murmur_h : FiveTupleForHash → ℕ)
    (murmur_sh : FiveTupleForSessionHash → ℕ) (size : ℕ) (pos_size : 0 < size)
    (t : SessionHashtable) (m : FiveTuple → Option ℕ)
    (holds : Models use_sessions murmur_h murmur_sh size pos_size t m) where
  abbrev pub table : Scheme FiveTuple
  table = sessions use_sessions murmur_h murmur_sh size pos_size

  abbrev kept_lawful : IsLawful table
  kept_lawful = lawful use_sessions murmur_h murmur_sh size pos_size

  abbrev pub Left : SessionHashtable → FiveTuple → SessionHashtable → Type 0
  Left before key t' =
      Models use_sessions murmur_h murmur_sh size pos_size t' (unbind table key m)
      × (t'.num_entries + 1 ≡ t.num_entries)
      × (t'.flow_count ≡ before.flow_count)

  -- `t` with the count of `value` taken down.
  abbrev pub down : ℕ → SessionHashtable
  down value = count_down use_sessions murmur_h murmur_sh size t value

  pub down-Models :
      (value : ℕ) → Models use_sessions murmur_h murmur_sh size pos_size (down value) m
  unfolding count_down
  down-Models value = record {
    chained = holds.chained;
    counted = holds.counted;
    represents = holds.represents;
    indexed = holds.indexed;
  }

  -- Removing the entry of a cell from the table whose count was taken down.
  remove_cell_lem :
      (value i : ℕ) (key : FiveTuple)
      → i < size
      → IsOccupied table t.entries i
      → table.same (t.entries i).key key ≡ true
      → t.num_entries < size
      → Returns
          (Left (down value) key)
          (session_hashtable_remove_by_index use_sessions murmur_h murmur_sh size (down value) i)
  unfolding count_down
  remove_cell_lem value i key hi on hit room =
      Returns-map
        (remove_by_index_lem use_sessions murmur_h murmur_sh size pos_size (down value) m
          (down-Models value) i hi on room)
        λ t' r. (
          subst (Models use_sessions murmur_h murmur_sh size pos_size t')
              (unbind_same table (t.entries i).key key m kept_lawful hit) r.now,
          r.one_less,
          r.counts_kept,
        )

  -- If the count of the id that is passed comes down to 0, or sessions are not in use,
  -- removing a session that the map of a table that is not full has ends with success and its
  -- id. The table then represents the map without the session, and counts one entry less.
  pub session_hashtable_remove_lem :
      (key : FiveTuple) (value v : ℕ)
      → m key ≡ some v
      → still_counted use_sessions murmur_h murmur_sh size (down value) value ≡ false
      → t.num_entries < size
      → Returns
          (λ r. (r.0 ≡ success) × (r.1 ≡ v) × Left (down value) key r.2)
          (session_hashtable_remove_or_decrease_flow_count use_sessions murmur_h murmur_sh size t
            key value)
  unfolding session_hashtable_remove_or_decrease_flow_count remove_at count_down
  session_hashtable_remove_lem key value v known last room =
      let (j, e, hj, on, hit, val) =
        search-some table kept_lawful t.entries holds.chained m holds.represents key v known in
      rw last (
        subst
          (λ slot.
            Returns
              (λ (r : Status × ℕ × SessionHashtable).
                (r.0 ≡ success) × (r.1 ≡ v) × Left (down value) key r.2)
              (slot >>= remove_at use_sessions murmur_h murmur_sh size (down value) value))
          (sym e)
          (Returns-bind (remove_cell_lem value j key hj on hit room)
            λ t' r. returns (refl, val, r)))

  -- If sessions are in use and the count of the id that is passed does not come down to 0, the
  -- removal fails, and the count taken down is the only change.
  pub session_hashtable_remove-counted :
      (key : FiveTuple) (value : ℕ)
      → still_counted use_sessions murmur_h murmur_sh size (down value) value ≡ true
      → session_hashtable_remove_or_decrease_flow_count use_sessions murmur_h murmur_sh size t key
          value
        ≡ some (failure, value, down value)
  unfolding session_hashtable_remove_or_decrease_flow_count
  session_hashtable_remove-counted key value more = rw more

  -- If the count of an id comes down to 0, or sessions are not in use, its removal from a
  -- table that is not full ends. Either a session has the id: its key is returned, and the
  -- table represents the map without it; or no session has it, and the removal fails with the
  -- count taken down alone.
  pub session_hashtable_remove_by_value_lem :
      (v : ℕ)
      → still_counted use_sessions murmur_h murmur_sh size (down v) v ≡ false
      → t.num_entries < size
      → Returns
          (λ r.
            ((key : FiveTuple) × (r ≡ (success, some key, r.2))
              × (m key ≡ some v)
              × Left (down v) key r.2)
            ⊎ ((r ≡ (failure, none, down v)) × ((key : FiveTuple) → m key ≢ some v)))
          (session_hashtable_remove_or_decrease_flow_count_by_value use_sessions murmur_h murmur_sh
            size t v)
  unfolding session_hashtable_remove_or_decrease_flow_count_by_value remove_cell count_down
  session_hashtable_remove_by_value_lem v last room =
      rw last (elim (Option-cases (t.feature_index_to_entry_map v)) [
        | inl unused ↦ rw unused (
            returns (
              inr (
                refl,
                λ key known.
                    let (c, hc, oc, _, val) = (holds.represents key v).1 known in
                    cc (holds.indexed.noted c hc oc, ap t.feature_index_to_entry_map val, unused),
              )))
        | inr (i, used) ↦
            let (hi, on, val) = holds.indexed.points v i used in
            let key = (t.entries i).key in
            let same_self = kept_lawful.same_refl key in
            let known : m key ≡ some v = (holds.represents key v).0 (i, hi, on, same_self, val) in
            rw used (
              Returns-bind (remove_cell_lem v i key hi on same_self room)
                λ t' r. returns (inl (key, refl, known, r)))
      ])
