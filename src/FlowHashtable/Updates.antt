-- ===== src/FlowHashtable/Updates.antt =====
-- Adding flows to the flow hash table and removing them.
use marina.Prelude.{
  ℕ, ◌+◌, ◌<◌, ◌≡◌, ◌≢◌, ◌⊎◌, inl, inr, refl, Bool, true, false, arith, Option, none, some,
  if◌then◌else◌, ne→==_false, ==_iff, update, Returns, returns, Returns-bind, ap, Status, success,
  failure, Option-cases,
}
use marina.Structs.{FiveTuple, FiveTupleForHash, same_h}
use marina.Structs.Equality.{same_h_iff}
use marina.Hashtable.{Scheme, Entry}
use marina.Hashtable.Chain.{IsOccupied}
use marina.Hashtable.Contents.{occupied_count-update}
use marina.Hashtable.Represents.{
  bind, unbind, search-some, search-none, write-IsChained, write-Represents,
}
use marina.Hashtable.Keys.{AllKeys, move-AllKeys, written-AllKeys, freed-AllKeys}
use marina.Hashtable.Evict.{evict_lem}
use marina.FlowHashtable.{
  FlowHashtable, add_at, flow_hashtable_add, remove_by_index, remove_at, flow_hashtable_remove,
  remove_cell, flow_hashtable_remove_by_value,
}
use marina.FlowHashtable.Laws.{flows, lawful, Models}
use mathlib.Core.Path.{subst, fun_ext}
use marina.Hashtable.Indexed.{note, IsIndexed, move-IsIndexed, written-IsIndexed, freed-IsIndexed}

module _ (murmur : FiveTupleForHash → ℕ) (size : ℕ) (pos : 0 < size) (t : FlowHashtable)
    (m : FiveTuple → Option ℕ) (holds : Models murmur size pos t m) where
  abbrev table : Scheme FiveTuple
  table = flows murmur size pos

  -- What `flow_hashtable_add` promises for a new flow and an id that is not in use.
  pub record Added (key : FiveTuple) (value : ℕ) (r : Status × FlowHashtable) : Type 0 where
    pub status : r.0 ≡ success
    pub models : Models murmur size pos r.1 (bind table key value m)
    pub one_more : r.1.num_entries ≡ t.num_entries + 1
    pub keys :
        (good : FiveTuple → Bool)
        → good key ≡ true
        → AllKeys table good t.entries
        → AllKeys table good r.1.entries

  -- `flow_hashtable_add` on a table that represents a map and is not full ends. A flow that
  -- the map does not have is added with its id, if no flow uses the id: the table then
  -- represents the map with the flow taken to the id, and counts one entry more.
  pub flow_hashtable_add_lem :
      (key : FiveTuple) (value : ℕ)
      → m key ≡ none
      → t.feature_index_to_entry_map value ≡ none
      → t.num_entries < size
      → Returns (Added key value) (flow_hashtable_add murmur size t key value)
  unfolding flow_hashtable_add add_at
  flow_hashtable_add_lem key value missing unused room =
      let (i, found_free, off, passed) =
        search-none table (lawful murmur size pos) t.entries holds.chained m holds.represents key
          missing (omega (arith, holds.counted)) in
      let e : Entry FiveTuple ℕ = record {
        key = key;
        value = value;
        hash = murmur key.h;
        occupied = true;
      } in
      rw (found_free, ne→==_false t.num_entries size (omega arith))
        (returns (record {
          status = refl;
          models = record {
            chained =
                write-IsChained table (lawful murmur size pos) t.entries holds.chained m
                  holds.represents e i missing refl refl off passed;
            counted = ground (arith, holds.counted, occupied_count-update t.entries size i e off.0);
            represents =
                write-Represents table (lawful murmur size pos) t.entries holds.chained m
                  holds.represents e i missing refl refl off passed;
            indexed =
                written-IsIndexed table t.entries t.feature_index_to_entry_map i e off refl unused
                  holds.indexed;
          };
          one_more = refl;
          keys = λ good fine all. written-AllKeys table good t.entries i e fine all;
        }))

  -- `flow_hashtable_add` fails, and changes nothing, if the table is full or holds the flow.
  pub flow_hashtable_add-fails :
      (key : FiveTuple) (value : ℕ)
      → (t.num_entries ≡ size) ⊎ ((v : ℕ) × (m key ≡ some v))
      → flow_hashtable_add murmur size t key value ≡ some (failure, t)
  unfolding flow_hashtable_add add_at
  flow_hashtable_add-fails key value (inl full) = rw ((==_iff t.num_entries size).1 full)
  flow_hashtable_add-fails key value (inr (v, known)) =
      let (j, found_it, _, _, _, _) =
        search-some table (lawful murmur size pos) t.entries holds.chained m holds.represents key v
          known in
      rw found_it (ground arith)

  -- What all keys have in common, they still have.
  abbrev KeepsKeys : (ℕ → Entry FiveTuple ℕ) → Type 0
  KeepsKeys cells =
      (good : FiveTuple → Bool) → AllKeys table good t.entries → AllKeys table good cells

  -- What a removal of the flow leaves.
  pub record Removed (key : FiveTuple) (t' : FlowHashtable) : Type 0 where
    pub now : Models murmur size pos t' (unbind table key m)
    pub one_less : t'.num_entries + 1 ≡ t.num_entries
    pub keys : KeepsKeys t'.entries

  -- The key stands in the table.
  abbrev pub IsStored : FiveTuple → Type 0
  IsStored key = (i : ℕ) × (i < size) × IsOccupied table t.entries i × ((t.entries i).key ≡ key)

  remove_by_index_lem :
      (i : ℕ)
      → i < size
      → IsOccupied table t.entries i
      → t.num_entries < size
      → Returns (Removed (t.entries i).key) (remove_by_index murmur size t i)
  unfolding remove_by_index
  remove_by_index_lem i hi on room =
      let e : Entry FiveTuple ℕ = record (t.entries i) { hash = 0; occupied = false } in
      Returns-bind
        (evict_lem table (lawful murmur size pos) t.entries holds.chained i hi on e refl note
          (λ cells notes. IsIndexed table cells notes × KeepsKeys cells)
          (λ cells notes j h hj hh ne oj oh (indexed, keys). (
            move-IsIndexed table cells notes j h hj hh ne oj oh indexed,
            λ good all. move-AllKeys table good cells j h hj ne oj (keys good all),
          ))
          m (update t.feature_index_to_entry_map (t.entries i).value none) holds.represents
          (omega (arith, holds.counted))
          (
            freed-IsIndexed table t.entries t.feature_index_to_entry_map i e hi on refl
                holds.indexed,
            λ good all. freed-AllKeys table good t.entries i e refl all,
          ))
        λ r v. returns (record {
          now = record {
            chained = v.in_order;
            counted = omega (arith, v.counted, holds.counted);
            represents = v.represents;
            indexed = v.noted.0;
          };
          one_less = omega (arith, v.counted, holds.counted);
          keys = v.noted.1;
        })

  -- Flows are told apart by the part `h` alone.
  Removed-congr :
      (key key' : FiveTuple) {t' : FlowHashtable}
      → same_h key.h key'.h ≡ true
      → Removed key t'
      → Removed key' t'
  Removed-congr key key' {t'} same r = record {
    now =
        subst (Models murmur size pos t')
          (fun_ext
            λ k. ap (λ h. if same_h h k.h then none else m k) ((same_h_iff key.h key'.h).0 same))
          r.now;
    one_less = r.one_less;
    keys = r.keys;
  }

  -- `flow_hashtable_remove` of a flow that is in the map of a table that is not full ends and
  -- returns its id. The table then represents the map without that flow, keeps its invariant,
  -- and counts one entry less.
  pub flow_hashtable_remove_lem :
      (key : FiveTuple) (v : ℕ)
      → m key ≡ some v
      → t.num_entries < size
      → Returns (λ r. (r.0 ≡ some v) × Removed key r.1) (flow_hashtable_remove murmur size t key)
  unfolding flow_hashtable_remove remove_at
  flow_hashtable_remove_lem key v known room =
      let (j, found_it, hj, on, hit, val) =
        search-some table (lawful murmur size pos) t.entries holds.chained m holds.represents key v
          known in
      rw found_it (
        Returns-bind (remove_by_index_lem j hj on room)
          λ t' r. returns (ap some val, Removed-congr (t.entries j).key key hit r))

  -- `flow_hashtable_remove` of any other flow ends, and changes nothing.
  pub flow_hashtable_remove-missing :
      (key : FiveTuple)
      → m key ≡ none
      → t.num_entries < size
      → flow_hashtable_remove murmur size t key ≡ some (none, t)
  unfolding flow_hashtable_remove remove_at
  flow_hashtable_remove-missing key missing room =
      let (i, found_free, _, _) =
        search-none table (lawful murmur size pos) t.entries holds.chained m holds.represents key
          missing (omega (arith, holds.counted)) in
      rw found_free

  -- `flow_hashtable_remove_by_value` on a table that is not full ends. Either a flow has the
  -- id: it is returned as it stands in the table, which then represents the map without it; or
  -- no flow has the id, and nothing changes.
  pub flow_hashtable_remove_by_value_lem :
      (v : ℕ)
      → t.num_entries < size
      → Returns
          (λ r.
            ((key : FiveTuple) × (r.0 ≡ some key)
              × IsStored key
              × (m key ≡ some v)
              × Removed key r.1)
            ⊎ ((r ≡ (none, t)) × ((key : FiveTuple) → m key ≢ some v)))
          (flow_hashtable_remove_by_value murmur size t v)
  unfolding flow_hashtable_remove_by_value remove_cell
  flow_hashtable_remove_by_value_lem v room = elim (Option-cases (t.feature_index_to_entry_map v)) [
    | inl unused ↦ rw unused (
        returns (
          inr (
            refl,
            λ key known.
                let (c, hc, oc, _, val) = (holds.represents key v).1 known in
                cc (holds.indexed.noted c hc oc, ap t.feature_index_to_entry_map val, unused),
          )))
    | inr (i, used) ↦
        let (hi, on, val) = holds.indexed.points v i used in
        let key = (t.entries i).key in
        let known : m key ≡ some v =
          (holds.represents key v).0 (i, hi, on, (lawful murmur size pos).same_refl key, val) in
        rw used (
          Returns-bind (remove_by_index_lem i hi on room)
            λ t' r. returns (inl (key, refl, (i, hi, on, refl), known, r)))
  ]
