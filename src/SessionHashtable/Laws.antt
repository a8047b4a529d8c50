-- ===== src/SessionHashtable/Laws.antt =====
-- The session hash table as a finite map from sessions to session ids.
use marina.Prelude.{
  ℕ, ◌+◌, ◌<◌, ◌≡◌, inl, inr, refl, sym, ◌∙◌, Bool, true, false, arith, Option, none, some,
  if◌then◌else◌, ne→==_false, update, Returns, returns, Returns-bind, ap, Status, success, failure,
  Option-cases, Bool-cases, update_self,
}
use marina.Prelude.Int.{pos, ◌+ℤ◌}
use marina.Structs.{FiveTuple, FiveTupleForHash, FiveTupleForSessionHash}
use marina.Structs.Equality.{same_h_iff, same_sh_iff}
use marina.Hashtable.{Scheme, Entry}
use marina.Hashtable.Chain.{IsLawful, IsOccupied, IsChained}
use marina.Hashtable.Contents.{occupied_count, occupied_count-update, occupied_count-free}
use marina.Hashtable.Represents.{
  Represents, bind, unbind, search-some, search-none, write-IsChained, write-Represents,
}
use marina.Hashtable.Evict.{evict_lem}
use marina.Hashtable.Indexed.{IsIndexed, move-IsIndexed, written-IsIndexed, freed-IsIndexed}
use marina.FlowHashtable.{zero_entry}
use marina.SessionHashtable.{
  SessionHashtable, session_hashtable_init, note_session, egress_index, scheme, add_at,
  session_hashtable_add_or_increase_flow_count, read_at, session_hashtable_get,
  session_hashtable_remove_by_index,
}

module _ (use_sessions : Bool) (murmur_h : FiveTupleForHash → ℕ)
    (murmur_sh : FiveTupleForSessionHash → ℕ) (size : ℕ) (pos_size : 0 < size) where
  abbrev pub sessions : Scheme FiveTuple
  sessions = scheme use_sessions murmur_h murmur_sh size

  pub lawful : IsLawful sessions
  lawful = elim (Bool-cases use_sessions) [
    | inl on ↦ simp on (record {
      positive = pos_size;
      same_refl = λ a. (same_sh_iff a.sh a.sh).1 refl;
      same_symm = λ a b e. (same_sh_iff b.sh a.sh).1 (sym ((same_sh_iff a.sh b.sh).0 e));
      same_trans = λ a b c e f.
          (same_sh_iff a.sh c.sh).1 ((same_sh_iff a.sh b.sh).0 e ∙ (same_sh_iff b.sh c.sh).0 f);
      same_hash = λ a b e. ap murmur_sh ((same_sh_iff a.sh b.sh).0 e);
    })
    | inr off ↦ simp off (record {
      positive = pos_size;
      same_refl = λ a. (same_h_iff a.h a.h).1 refl;
      same_symm = λ a b e. (same_h_iff b.h a.h).1 (sym ((same_h_iff a.h b.h).0 e));
      same_trans =
          λ a b c e f. (same_h_iff a.h c.h).1 ((same_h_iff a.h b.h).0 e ∙ (same_h_iff b.h c.h).0 f);
      same_hash = λ a b e. ap murmur_h ((same_h_iff a.h b.h).0 e);
    })
  ]

  -- The table holds the sessions of `m`.
  pub record Models (t : SessionHashtable) (m : FiveTuple → Option ℕ) : Type 0 where
    pub chained : IsChained sessions t.entries
    pub counted : t.num_entries ≡ occupied_count t.entries size
    pub represents : Represents sessions t.entries m
    pub indexed : IsIndexed sessions t.entries t.feature_index_to_entry_map

  pub session_hashtable_init-Models : Models session_hashtable_init (λ _. none)
  unfolding session_hashtable_init
  session_hashtable_init-Models = record {
    chained = record {
      hashed = λ c hc oc. cc;
      unique = λ c d hc hd oc od e. cc;
      reach = λ c d hc hd oc near. cc;
    };
    counted = sym (occupied_count-free (λ _. zero_entry) size (λ c. refl));
    represents = λ key v. ((λ s. let (c, hc, oc, _, _) = s in cc), (λ e. cc));
    indexed = record { noted = λ c hc oc. cc; points = λ v c e. cc };
  }

  module _ (t : SessionHashtable) (m : FiveTuple → Option ℕ) (holds : Models t m) where
    -- `session_hashtable_get` on a table that represents a map and is not full ends, with the
    -- id that the map has for the session, or with none if it has none.
    pub session_hashtable_get_lem :
        (key : FiveTuple)
        → t.num_entries < size
        → session_hashtable_get use_sessions murmur_h murmur_sh size t key ≡ some (m key)
    unfolding session_hashtable_get read_at
    session_hashtable_get_lem key room = elim (Option-cases (m key)) [
      | inl missing ↦
          let (i, e, _, _) =
            search-none sessions lawful t.entries holds.chained m holds.represents key missing
              (omega (arith, holds.counted)) in
          rw (e, missing)
      | inr (v, known) ↦
          let (j, e, _, _, _, val) =
            search-some sessions lawful t.entries holds.chained m holds.represents key v known in
          rw (e, known, val)
    ]

    -- What an addition promises for a new session and an id that is not in use.
    pub record Added (key : FiveTuple) (value : ℕ) (r : Status × SessionHashtable) : Type 0 where
      pub status : r.0 ≡ success
      pub now : Models r.1 (bind sessions key value m)
      pub one_more : r.1.num_entries ≡ t.num_entries + 1
      pub counts_kept : r.1.flow_count ≡ t.flow_count
      pub egress : r.1.egress_feature_to_session_id (egress_index value key) ≡ some value

    -- Adding to a table that is not full a session that the map does not have, with an id that
    -- no session uses, ends with success. The table then represents the map with the session
    -- taken to the id, the egress register leads to the id, and no flow count has changed.
    pub session_hashtable_add_lem :
        (key : FiveTuple) (value : ℕ)
        → m key ≡ none
        → t.feature_index_to_entry_map value ≡ none
        → t.num_entries < size
        → Returns (Added key value) (
            session_hashtable_add_or_increase_flow_count use_sessions murmur_h murmur_sh size t key
              value)
    unfolding session_hashtable_add_or_increase_flow_count add_at
    session_hashtable_add_lem key value missing unused room =
        let (i, e, off, passed) =
          search-none sessions lawful t.entries holds.chained m holds.represents key missing
            (omega (arith, holds.counted)) in
        let entry : Entry FiveTuple ℕ = record {
          key = key;
          value = value;
          hash = sessions.hash_of key;
          occupied = true;
        } in
        rw (e, ne→==_false t.num_entries size (omega arith))
          (returns (record {
            status = refl;
            now = record {
              chained =
                  write-IsChained sessions lawful t.entries holds.chained m holds.represents entry i
                    missing refl refl off passed;
              counted =
                  ground (arith, holds.counted, occupied_count-update t.entries size i entry off.0);
              represents =
                  write-Represents sessions lawful t.entries holds.chained m holds.represents entry
                    i missing refl refl off passed;
              indexed =
                  written-IsIndexed sessions t.entries t.feature_index_to_entry_map i entry off refl
                    unused holds.indexed;
            };
            one_more = refl;
            counts_kept = refl;
            egress =
                update_self t.egress_feature_to_session_id (egress_index value key) (some value);
          }))

    -- Adding a session that the map of a table that is not full has ends with failure. If
    -- sessions are in use, the count of the id that is passed is one more; nothing else
    -- changes.
    pub session_hashtable_add-known :
        (key : FiveTuple) (value v : ℕ)
        → m key ≡ some v
        → t.num_entries < size
        → session_hashtable_add_or_increase_flow_count use_sessions murmur_h murmur_sh size t key
            value
          ≡ some (
            failure,
            if use_sessions
                then record t {
                  flow_count = update t.flow_count value (t.flow_count value +ℤ pos 1);
                }
                else t,
          )
    unfolding session_hashtable_add_or_increase_flow_count add_at
    session_hashtable_add-known key value v known room =
        let (j, e, _, _, _, _) =
          search-some sessions lawful t.entries holds.chained m holds.represents key v known in
        rw (e, ne→==_false t.num_entries size (omega arith))

    -- What the removal of a session leaves.
    pub record Removed (key : FiveTuple) (t' : SessionHashtable) : Type 0 where
      pub now : Models t' (unbind sessions key m)
      pub one_less : t'.num_entries + 1 ≡ t.num_entries
      pub counts_kept : t'.flow_count ≡ t.flow_count

    pub remove_by_index_lem :
        (i : ℕ)
        → i < size
        → IsOccupied sessions t.entries i
        → t.num_entries < size
        → Returns
            (Removed (t.entries i).key)
            (session_hashtable_remove_by_index use_sessions murmur_h murmur_sh size t i)
    unfolding session_hashtable_remove_by_index
    remove_by_index_lem i hi on room =
        let e : Entry FiveTuple ℕ = record (t.entries i) { hash = 0; occupied = false } in
        Returns-bind
          (evict_lem sessions lawful t.entries holds.chained i hi on e refl note_session
            (λ cells notes. IsIndexed sessions cells notes.0)
            (λ cells notes. move-IsIndexed sessions cells notes.0) m
            (
              update t.feature_index_to_entry_map (t.entries i).value none,
              update t.egress_feature_to_session_id
                  (egress_index (t.entries i).value (t.entries i).key) none,
            )
            holds.represents (omega (arith, holds.counted))
            (freed-IsIndexed sessions t.entries t.feature_index_to_entry_map i e hi on refl
              holds.indexed))
          λ r v. returns (record {
            now = record {
              chained = v.in_order;
              counted = omega (arith, v.counted, holds.counted);
              represents = v.represents;
              indexed = v.noted;
            };
            one_less = omega (arith, v.counted, holds.counted);
            counts_kept = refl;
          })
