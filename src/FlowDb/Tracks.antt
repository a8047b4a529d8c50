-- ===== src/FlowDb/Tracks.antt =====
-- That the commands in the ring buffer lead from the flows that the data plane thread knows to
-- those of the flow database.
use marina.Prelude.{
  ℕ, ◌<◌, Option-cases, ◌≡◌, ◌≢◌, refl, sym, ap, ◌∙◌, update, update_self, update_ne, Bool-cases,
  inl, inr, Option, none, some, List,
}
use marina.Structs.{FiveTuple, FiveTupleForHash, same_h}
use marina.Structs.Equality.{same_h_iff}
use marina.Commands.{DataplaneCommand}
use marina.Hashtable.{Scheme}
use marina.Hashtable.Represents.{bind, unbind}
use marina.FlowHashtable.{FlowHashtable}
use marina.FlowHashtable.Laws as FlowLaws
use marina.Ringbuffer.Refine.{Holds}
use marina.Dataplane.Mirror.{Live, update-bound, update-none-bound}
use marina.Dataplane.Follows.{follow_all}
use marina.FlowDb.{FlowDb, Setting}

-- The live flows are those of the map, by their ids.
pub record Agrees (live : ℕ → Option Live) (m : FiveTuple → Option ℕ) : Type 0 where
  pub to :
      (t : FiveTuple) (f : ℕ)
      → m t ≡ some f
      → (l : Live) × (live f ≡ some l) × (l.five_tuple.h ≡ t.h)
  pub from : (f : ℕ) (l : Live) → live f ≡ some l → m l.five_tuple ≡ some f

module _ (murmur : FiveTupleForHash → ℕ) (size : ℕ) (pos : 0 < size) where
  abbrev table : Scheme FiveTuple
  table = FlowLaws.flows murmur size pos

  -- A map that a table represents tells flows apart by the part `h` alone.
  Models-congr :
      (t : FlowHashtable) (m : FiveTuple → Option ℕ) (a b : FiveTuple) (v : ℕ)
      → FlowLaws.Models murmur size pos t m
      → a.h ≡ b.h
      → m a ≡ some v
      → m b ≡ some v
  Models-congr t m a b v models same e =
      let (c, hc, oc, hit, val) = (models.represents a v).1 e in
      (models.represents b v).0 (
        c,
        hc,
        oc,
        (FlowLaws.lawful murmur size pos).same_trans (t.entries c).key a b hit
            ((same_h_iff a.h b.h).1 same),
        val,
      )

  -- No live flow has an id that the table does not use.
  pub unused-absent :
      (t : FlowHashtable) (m : FiveTuple → Option ℕ) (live : ℕ → Option Live) (id : ℕ)
      → FlowLaws.Models murmur size pos t m
      → Agrees live m
      → t.feature_index_to_entry_map id ≡ none
      → live id ≡ none
  unused-absent t m live id models a unused = elim (Option-cases (live id)) [
    | inl absent ↦ absent
    | inr (l, present) ↦
        let (c, hc, oc, _, val) = (models.represents l.five_tuple id).1 (a.from id l present) in
        absurd (cc (models.indexed.noted c hc oc, ap t.feature_index_to_entry_map val, unused))
  ]

  module _ (t : FlowHashtable) (m : FiveTuple → Option ℕ)
      (models : FlowLaws.Models murmur size pos t m) (live : ℕ → Option Live)
      (a : Agrees live m) where
    pub Agrees-bind :
        (f : ℕ) (l : Live)
        → live f ≡ none
        → m l.five_tuple ≡ none
        → Agrees (update live f (some l)) (bind table l.five_tuple f m)
    Agrees-bind f l absent missing = record {
      to = λ t g e. elim (Bool-cases (same_h l.five_tuple.h t.h)) [
        | inl same ↦
            let it : f ≡ g = cc (rw same at e) in
            (l, rw (sym it) (update_self live f (some l)), (same_h_iff l.five_tuple.h t.h).0 same)
        | inr other ↦
            let (l', present, same) = a.to t g (rw other at e) in
            let apart : f ≢ g = λ it. cc (it, absent, present) in
            (l', update_ne live f (some l) g apart ∙ present, same)
      ];
      from = λ g l' e. elim (update-bound live f g l l' e) [
        | inl (same, it) ↦
            rw (sym it, sym same, (FlowLaws.lawful murmur size pos).same_refl l.five_tuple) refl
        | inr (other, present) ↦ elim (Bool-cases (same_h l.five_tuple.h l'.five_tuple.h)) [
          | inl same ↦
              let known =
                Models-congr t m l'.five_tuple l.five_tuple g models
                  (sym ((same_h_iff l.five_tuple.h l'.five_tuple.h).0 same))
                  (a.from g l' present) in
              absurd (cc (known, missing))
          | inr apart ↦ rw apart (a.from g l' present)
        ]
      ];
    }

    pub Agrees-unbind :
        (f : ℕ) (key : FiveTuple)
        → m key ≡ some f
        → Agrees (update live f none) (unbind table key m)
    Agrees-unbind f key known = record {
      to = λ t g e. elim (Bool-cases (same_h key.h t.h)) [
        | inl same ↦ absurd (cc (rw same at e))
        | inr other ↦
            let (l', present, same) = a.to t g (rw other at e) in
            let (l, there, alike) = a.to key f known in
            let apart : f ≢ g = λ it.
              let one : l ≡ l' = cc (it, there, present) in
              let equal : key.h ≡ t.h = sym alike ∙ rw one same in
              cc ((same_h_iff key.h t.h).1 equal, other) in
            (l', update_ne live f none g apart ∙ present, same)
      ];
      from = λ g l' e.
          let (other, present) = update-none-bound live f g l' e in
          elim (Bool-cases (same_h key.h l'.five_tuple.h)) [
            | inl same ↦
                let known' =
                  Models-congr t m key l'.five_tuple f models
                    ((same_h_iff key.h l'.five_tuple.h).0 same) known in
                absurd (other (cc (known', a.from g l' present)))
            | inr apart ↦ rw apart (a.from g l' present)
          ];
    }

module _ {U : Type 0} (g : Setting) (pos : 0 < g.table_size) where
  open g use {murmur_h, table_size, ring_size}

  -- `executed` are the flows that the data plane thread knows.
  pub record Tracks (executed : ℕ → Option Live) (db : FlowDb U) : Type 0 where
    pub flow_map : FiveTuple → Option ℕ
    pub models : FlowLaws.Models murmur_h table_size pos db.flows flow_map
    pub queue : List DataplaneCommand
    pub holds : Holds ring_size db.ring queue
    pub live : ℕ → Option Live
    pub stream : follow_all queue executed ≡ some live
    pub agrees : Agrees live flow_map

  -- The heaps, the sessions and the uuids have no part in it.
  pub Tracks-same :
      (executed : ℕ → Option Live) (db db' : FlowDb U)
      → Tracks executed db
      → db'.flows ≡ db.flows
      → db'.ring ≡ db.ring
      → Tracks executed db'
  Tracks-same executed db db' t flows ring = record {
    flow_map = t.flow_map;
    models = rw flows t.models;
    queue = t.queue;
    holds = rw ring t.holds;
    live = t.live;
    stream = t.stream;
    agrees = t.agrees;
  }
