-- ===== src/SessionHashtable.antt =====
-- controller/datastructures/session_hashtable.c: the table from sessions to session ids, with the
-- maps back from session ids to cells and from egress registers to session ids, and the number of
-- flows of each session. `use_sessions` is the option of runtime_config.c; MurmurHash3 and the
-- number of cells are parameters.
pub mod Laws
pub mod Removal
pub mod Counts
pub mod Uses
mod Tests
use marina.Prelude.{
  ℕ, ◌+◌, ◌-◌, ◌==◌, ◌&&◌, not, Bool, true, false, Option, none, some, ◌>>=◌, if◌then◌else◌, update,
  Status, success, failure,
}
use marina.Prelude.Int.{ℤ, pos, negsuc, pos_part, neg_part, ◌+ℤ◌, ◌-ℤ◌}
use marina.Structs.{FiveTuple, FiveTupleForHash, FiveTupleForSessionHash, same_h, same_sh}
use marina.Hashtable.{Scheme, Entry, Slot, found, free, get_hashtable_index, shift_loop}
use marina.Hashtable.Indexed.{note}
use marina.FlowHashtable.{zero_entry}

-- `none` in the maps is -1.
pub record SessionHashtable : Type 0 where
  pub num_entries : ℕ
  pub entries : ℕ → Entry FiveTuple ℕ
  pub feature_index_to_entry_map : ℕ → Option ℕ
  pub egress_feature_to_session_id : ℕ → Option ℕ
  pub flow_count : ℕ → ℤ

-- The counts are those of zeroed static memory: `session_hashtable_init` does not write them.
unfoldable pub session_hashtable_init : SessionHashtable
session_hashtable_init = record {
  num_entries = 0;
  entries = λ _. zero_entry;
  feature_index_to_entry_map = λ _. none;
  egress_feature_to_session_id = λ _. none;
  flow_count = λ _. pos 0;
}

-- `value + key.session_id_egress_offset`.
unfoldable pub egress_index : ℕ → FiveTuple → ℕ
unfolding ◌+ℤ◌
egress_index value key = pos_part (pos value +ℤ key.session_id_egress_offset)

abbrev pub is_zero : ℤ → Bool
is_zero n = pos_part n == neg_part n

-- The two maps, as the loop of a removal updates them.
abbrev pub Notes : Type 0
Notes = (ℕ → Option ℕ) × (ℕ → Option ℕ)

abbrev pub note_session : Entry FiveTuple ℕ → ℕ → Notes → Notes
note_session e cell notes =
    (note e cell notes.0, update notes.1 (egress_index e.value e.key) (some e.value))

module _ (use_sessions : Bool) (murmur_h : FiveTupleForHash → ℕ)
    (murmur_sh : FiveTupleForSessionHash → ℕ) (size : ℕ) where
  -- `session_hashtable_hash_key` and `compare_five_tuples`.
  abbrev pub scheme : Scheme FiveTuple
  scheme = record {
    size = size;
    hash_of = λ k. if use_sessions then murmur_sh k.sh else murmur_h k.h;
    same = λ a b. if use_sessions then same_sh a.sh b.sh else same_h a.h b.h;
  }

  -- The end of `session_hashtable_add_or_increase_flow_count`, where its loop has stopped.
  pub add_at : SessionHashtable → FiveTuple → ℕ → Slot → Status × SessionHashtable
  add_at t key value (found i) = (
    failure,
    if use_sessions
        then record t { flow_count = update t.flow_count value (t.flow_count value +ℤ pos 1) }
        else t,
  )
  add_at t key value (free i) = (
    success,
    record t {
      num_entries = t.num_entries + 1;
      entries =
          update t.entries i
            (record { key = key; value = value; hash = scheme.hash_of key; occupied = true });
      feature_index_to_entry_map = update t.feature_index_to_entry_map value (some i);
      egress_feature_to_session_id =
          update t.egress_feature_to_session_id (egress_index value key) (some value);
    },
  )

  pub session_hashtable_add_or_increase_flow_count :
      SessionHashtable → FiveTuple → ℕ → Option (Status × SessionHashtable)
  session_hashtable_add_or_increase_flow_count t key value =
      let search = get_hashtable_index scheme t.entries key (scheme.hash_of key) >>= λ slot.
      some (add_at t key value slot) in
      if t.num_entries == size then some (failure, t) else search

  read_at : SessionHashtable → Slot → Option ℕ
  read_at t (found i) = some (t.entries i).value
  read_at t (free i) = none

  -- The inner `none` is the return value 1.
  pub session_hashtable_get : SessionHashtable → FiveTuple → Option (Option ℕ)
  session_hashtable_get t key =
      get_hashtable_index scheme t.entries key (scheme.hash_of key) >>= λ slot.
      some (read_at t slot)

  -- An occupied cell has been counted, so that `num_entries` does not wrap.
  pub session_hashtable_remove_by_index : SessionHashtable → ℕ → Option SessionHashtable
  session_hashtable_remove_by_index t index =
      let e = t.entries index in
      shift_loop scheme note_session size
        (update t.entries index (record e { hash = 0; occupied = false }))
        (
          update t.feature_index_to_entry_map e.value none,
          update t.egress_feature_to_session_id (egress_index e.value e.key) none,
        )
        index index
      >>= λ (entries, notes). some (record t {
        num_entries = t.num_entries - 1;
        entries = entries;
        feature_index_to_entry_map = notes.0;
        egress_feature_to_session_id = notes.1;
      })

  remove_at : SessionHashtable → ℕ → Slot → Option (Status × ℕ × SessionHashtable)
  remove_at t value (free i) = some (failure, value, t)
  remove_at t value (found i) =
      session_hashtable_remove_by_index t i >>= λ t'. some (success, (t.entries i).value, t')

  -- If sessions are in use, the flow count of `value` is one less.
  unfoldable pub count_down : SessionHashtable → ℕ → SessionHashtable
  count_down t value = record t {
    flow_count =
        if use_sessions
        then update t.flow_count value (t.flow_count value -ℤ pos 1)
        else t.flow_count;
  }

  -- The session still has flows.
  unfoldable pub still_counted : SessionHashtable → ℕ → Bool
  still_counted t value = use_sessions && not (is_zero (t.flow_count value))

  -- `*value` is read before it is written; the second component is what it holds afterwards.
  pub session_hashtable_remove_or_decrease_flow_count :
      SessionHashtable → FiveTuple → ℕ → Option (Status × ℕ × SessionHashtable)
  session_hashtable_remove_or_decrease_flow_count t key value =
      let t' = count_down t value in
      let removal =
        get_hashtable_index scheme t'.entries key (scheme.hash_of key) >>= remove_at t' value in
      if still_counted t' value then some (failure, value, t') else removal

  remove_cell : SessionHashtable → Option ℕ → Option (Status × Option FiveTuple × SessionHashtable)
  remove_cell t none = some (failure, none, t)
  remove_cell t (some i) =
      session_hashtable_remove_by_index t i >>= λ t'. some (success, some (t.entries i).key, t')

  pub session_hashtable_remove_or_decrease_flow_count_by_value :
      SessionHashtable → ℕ → Option (Status × Option FiveTuple × SessionHashtable)
  session_hashtable_remove_or_decrease_flow_count_by_value t value =
      let t' = count_down t value in
      let removal = remove_cell t' (t'.feature_index_to_entry_map value) in
      if still_counted t' value then some (failure, none, t') else removal
