-- ===== src/FlowHashtable/Laws.antt =====
-- controller/datastructures/flow_hashtable.c: the table as a finite map of five tuples to flow ids,
-- with its map from flow ids back to the cells.
use marina.Prelude.{
  ℕ, ◌<◌, ◌≡◌, inl, inr, refl, sym, ◌∙◌, arith, Option, none, some, ap, Option-cases,
}
use marina.Structs.{FiveTuple, FiveTupleForHash}
use marina.Structs.Equality.{same_h_iff}
use marina.Hashtable.{Scheme}
use marina.Hashtable.Chain.{IsLawful, IsChained}
use marina.Hashtable.Contents.{occupied_count, occupied_count-free}
use marina.Hashtable.Represents.{Represents, search-some, search-none}
use marina.Hashtable.Indexed.{IsIndexed}
use marina.FlowHashtable.{
  FlowHashtable, zero_entry, scheme, flow_hashtable_init, flow_hashtable_get, read_at,
}

module _ (murmur : FiveTupleForHash → ℕ) (size : ℕ) (pos : 0 < size) where
  abbrev pub flows : Scheme FiveTuple
  flows = scheme murmur size

  pub lawful : IsLawful flows
  lawful = record {
    positive = pos;
    same_refl = λ a. (same_h_iff a.h a.h).1 refl;
    same_symm = λ a b e. (same_h_iff b.h a.h).1 (sym ((same_h_iff a.h b.h).0 e));
    same_trans =
        λ a b c e f. (same_h_iff a.h c.h).1 ((same_h_iff a.h b.h).0 e ∙ (same_h_iff b.h c.h).0 f);
    same_hash = λ a b e. ap murmur ((same_h_iff a.h b.h).0 e);
  }

  -- The table holds the flows of `m`.
  pub record Models (t : FlowHashtable) (m : FiveTuple → Option ℕ) : Type 0 where
    pub chained : IsChained flows t.entries
    pub counted : t.num_entries ≡ occupied_count t.entries size
    pub represents : Represents flows t.entries m
    pub indexed : IsIndexed flows t.entries t.feature_index_to_entry_map

  -- The empty table.
  pub flow_hashtable_init-Models : Models flow_hashtable_init (λ _. none)
  unfolding flow_hashtable_init
  flow_hashtable_init-Models = record {
    chained = record {
      hashed = λ c hc oc. cc;
      unique = λ c d hc hd oc od e. cc;
      reach = λ c d hc hd oc near. cc;
    };
    counted = sym (occupied_count-free (λ _. zero_entry) size (λ c. refl));
    represents = λ key v. ((λ s. let (c, hc, oc, _, _) = s in cc), (λ e. cc));
    indexed = record { noted = λ c hc oc. cc; points = λ v c e. cc };
  }

  module _ (t : FlowHashtable) (m : FiveTuple → Option ℕ) (models : Models t m) where
    -- `flow_hashtable_get` on a table that represents a map and is not full ends, with the id
    -- that the map has for the flow, or with none if it has none.
    pub flow_hashtable_get_lem :
        (key : FiveTuple)
        → t.num_entries < size
        → flow_hashtable_get murmur size t key ≡ some (m key)
    unfolding flow_hashtable_get read_at
    flow_hashtable_get_lem key room = elim (Option-cases (m key)) [
      | inl missing ↦
          let (i, e, _, _) =
            search-none flows lawful t.entries models.chained m models.represents key missing
              (omega (arith, models.counted)) in
          rw (e, missing)
      | inr (v, known) ↦
          let (j, e, _, _, _, val) =
            search-some flows lawful t.entries models.chained m models.represents key v known in
          rw (e, known, val)
    ]
