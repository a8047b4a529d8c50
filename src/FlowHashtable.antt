-- ===== src/FlowHashtable.antt =====
-- controller/datastructures/flow_hashtable.c: the table from the five tuples of flows to flow ids,
-- with the map back from flow ids to cells. MurmurHash3 is a parameter, and so is the number of cells.
pub mod Laws
pub mod Updates
pub mod Uses
mod Tests
use marina.Prelude.{
  ℕ, ◌+◌, ◌-◌, ◌==◌, Bool, true, false, Option, none, some, ◌>>=◌, if◌then◌else◌, update, Status,
  success, failure,
}
use marina.Prelude.Int.{pos}
use marina.Structs.{FiveTuple, FiveTupleForHash, same_h, unspec, udp}
use marina.Hashtable.Indexed.{note}
use marina.Hashtable.{Scheme, Entry, Slot, found, free, get_hashtable_index, shift_loop}

-- `flow_hashtable_t`; `none` in the map is -1.
pub record FlowHashtable : Type 0 where
  pub num_entries : ℕ
  pub entries : ℕ → Entry FiveTuple ℕ
  pub feature_index_to_entry_map : ℕ → Option ℕ

-- What `memset` leaves.
abbrev pub zero_five_tuple : FiveTuple
zero_five_tuple = record {
  h = record {
    src_addr = 0;
    dst_addr = 0;
    src_port = 0;
    dst_port = 0;
    l3_proto = unspec;
    l4_proto = udp;
  };
  sh = record { client_addr = 0; to_server = false };
  ingress_ts = 0;
  dev_port = 0;
  session_id_egress_offset = pos 0;
}

abbrev pub zero_entry : Entry FiveTuple ℕ
zero_entry = record { key = zero_five_tuple; value = 0; hash = 0; occupied = false }

unfoldable pub flow_hashtable_init : FlowHashtable
flow_hashtable_init = record {
  num_entries = 0;
  entries = λ _. zero_entry;
  feature_index_to_entry_map = λ _. none;
}

module _ (murmur : FiveTupleForHash → ℕ) (size : ℕ) where
  -- Flows are told apart by the part `h` of their five tuple.
  abbrev pub scheme : Scheme FiveTuple
  scheme = record { size = size; hash_of = λ k. murmur k.h; same = λ a b. same_h a.h b.h }

  -- The end of `flow_hashtable_add`, where its loop has stopped.
  pub add_at : FlowHashtable → FiveTuple → ℕ → Slot → Status × FlowHashtable
  add_at t key value (found i) = (failure, t)
  add_at t key value (free i) = (
    success,
    record {
      num_entries = t.num_entries + 1;
      entries =
          update t.entries i
            (record { key = key; value = value; hash = murmur key.h; occupied = true });
      feature_index_to_entry_map = update t.feature_index_to_entry_map value (some i);
    },
  )

  pub flow_hashtable_add : FlowHashtable → FiveTuple → ℕ → Option (Status × FlowHashtable)
  flow_hashtable_add t key value =
      let search = get_hashtable_index scheme t.entries key (murmur key.h) >>= λ slot.
      some (add_at t key value slot) in
      if t.num_entries == size then some (failure, t) else search

  read_at : FlowHashtable → Slot → Option ℕ
  read_at t (found i) = some (t.entries i).value
  read_at t (free i) = none

  -- The inner `none` is the return value 1.
  pub flow_hashtable_get : FlowHashtable → FiveTuple → Option (Option ℕ)
  flow_hashtable_get t key =
      get_hashtable_index scheme t.entries key (murmur key.h) >>= λ slot. some (read_at t slot)

  -- An occupied cell has been counted, so that `num_entries` does not wrap.
  pub remove_by_index : FlowHashtable → ℕ → Option FlowHashtable
  remove_by_index t index =
      let e = t.entries index in
      shift_loop scheme note size (update t.entries index (record e { hash = 0; occupied = false }))
        (update t.feature_index_to_entry_map e.value none) index index
      >>= λ (entries, notes). some (record {
        num_entries = t.num_entries - 1;
        entries = entries;
        feature_index_to_entry_map = notes;
      })

  remove_at : FlowHashtable → Slot → Option (Option ℕ × FlowHashtable)
  remove_at t (free i) = some (none, t)
  remove_at t (found i) = remove_by_index t i >>= λ t'. some (some (t.entries i).value, t')

  -- `none` beside the table is the return value 1.
  pub flow_hashtable_remove : FlowHashtable → FiveTuple → Option (Option ℕ × FlowHashtable)
  flow_hashtable_remove t key =
      get_hashtable_index scheme t.entries key (murmur key.h) >>= remove_at t

  remove_cell : FlowHashtable → Option ℕ → Option (Option FiveTuple × FlowHashtable)
  remove_cell t none = some (none, t)
  remove_cell t (some i) = remove_by_index t i >>= λ t'. some (some (t.entries i).key, t')

  pub flow_hashtable_remove_by_value : FlowHashtable → ℕ → Option (Option FiveTuple × FlowHashtable)
  flow_hashtable_remove_by_value t value = remove_cell t (t.feature_index_to_entry_map value)
