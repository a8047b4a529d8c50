-- ===== src/Export/Rows.antt =====
-- controller/export/export_features.c: which sessions are exported, with which lines, and when.
use marina.Prelude.{
  ℕ, zero, suc, ◌+◌, ◌-◌, ◌<◌, ◌≤◌, ◌≡◌, refl, ap, arith, Bool, true, false, some, List, [], ◌∷◌,
  length, Option-cases, inl, inr, ℕ_discrete, ◌∙◌,
}
use mathlib.Core.List.{Memᴰ}
use mathlib.Core.List.Memᴰ.{head, tail, cases_cons}
use marina.Structs.{FiveTuple}
use marina.Hashtable.{Entry}
use marina.Hashtable.Uses.{uses_of}
use marina.SessionHashtable.{SessionHashtable}
use marina.Hashtable.Chain.{IsLawful}
use marina.SessionHashtable.Laws.{sessions, lawful}
use marina.Features.{min_session_id}
use marina.Dataplane.{Feature}
use marina.FlowDb.{FlowDb, Setting}
use marina.FlowDb.Ids.{end_of_ids}
use marina.FlowDb.Invariant.{InOrder}
use marina.Export.{
  Field, feature_columns, print_header, print_session_five_tuple, feature_fields, flow_line,
  with_line, flow_lines, print_flow_data,
}

module _ (debug : Bool) (features : List Feature) (table : SessionHashtable) where
  -- A line is that of a cell that one of the ids leads to.
  pub line_of_cell :
      (k i : ℕ) (line : List Field)
      → Memᴰ line (flow_lines debug features table k i)
      → (x c : ℕ) × (table.feature_index_to_entry_map x ≡ some c)
        × (line ≡ flow_line debug features table (table.entries c))
  unfolding flow_lines with_line
  line_of_cell zero i line m = elim m [ ]
  line_of_cell (suc k) i line m = elim (Option-cases (table.feature_index_to_entry_map i)) [
    | inl missing ↦ line_of_cell k (i + 1) line (rw missing at m)
    | inr (c, known) ↦
        let m' : Memᴰ line (
            flow_line debug features table (table.entries c)
            ∷ flow_lines debug features table k (i + 1)) =
          rw known at m in
        elim (cases_cons m') [
          | inl e ↦ (i, c, known, e)
          | inr later ↦ line_of_cell k (i + 1) line later
        ]
  ]

  -- Each id of the loop that leads to a cell has a line.
  cell_has_line :
      (k i x c : ℕ)
      → i ≤ x
      → x < i + k
      → table.feature_index_to_entry_map x ≡ some c
      → Memᴰ
          (flow_line debug features table (table.entries c))
          (flow_lines debug features table k i)
  unfolding flow_lines with_line
  cell_has_line zero i x c low high known = absurd (omega arith)
  cell_has_line (suc k) i x c low high known = elim (ℕ_discrete i x) [
    | yes e ↦
        let here : table.feature_index_to_entry_map i ≡ some c =
          ap table.feature_index_to_entry_map e ∙ known in
        rw here (head refl)
    | no ne ↦
        let later = cell_has_line k (i + 1) x c (omega arith) (omega arith) known in
        elim (Option-cases (table.feature_index_to_entry_map i)) [
          | inl missing ↦ rw missing later
          | inr (c', known') ↦ rw known' (tail later)
        ]
  ]

length-features :
    (t : FiveTuple) (id i : ℕ) (fs : List Feature)
    → length (feature_fields t id fs) ≡ length (feature_columns i fs)
unfolding feature_fields feature_columns
length-features t id i [] = refl
length-features t id i (f ∷ fs) = ap suc (length-features t id (i + 1) fs)

-- Every line of a flow has one field less than the header has columns: there is none for the
-- uuid. This holds with and without DEBUG.
pub flow_line-shorter :
    (debug : Bool) (features : List Feature) (table : SessionHashtable) (e : Entry FiveTuple ℕ)
    → length (flow_line debug features table e) + 1 ≡ length (print_header debug features)
unfolding flow_line print_session_five_tuple print_header
flow_line-shorter true features table e = omega (arith, length-features e.key e.value 0 features)
flow_line-shorter false features table e = omega (arith, length-features e.key e.value 0 features)

module _ {U : Type 0} (g : Setting) (pos : 0 < g.table_size) (heapsize : ℕ) (debug : Bool)
    (features : List Feature) (db : FlowDb U) (v : InOrder g pos heapsize db) where
  open g use {use_sessions, murmur_h, murmur_sh, table_size}

  abbrev laws : IsLawful (sessions use_sessions murmur_h murmur_sh table_size pos)
  laws = lawful use_sessions murmur_h murmur_sh table_size pos

  -- The export of a flow database in order has a line for every session of its map: that of an
  -- occupied cell of the table whose key compares the same as the session's, by what the table
  -- compares, and whose value is the id of the session.
  pub sessions_exported :
      (key : FiveTuple) (x : ℕ)
      → v.session_map key ≡ some x
      → (c : ℕ) × (c < table_size)
        × ((db.sessions.entries c).occupied ≡ true)
        × ((sessions use_sessions murmur_h murmur_sh table_size pos).same
              (db.sessions.entries c).key
              key
            ≡ true)
        × ((db.sessions.entries c).value ≡ x)
        × Memᴰ
            (flow_line debug features db.sessions (db.sessions.entries c))
            (print_flow_data debug features db.sessions (end_of_ids heapsize))
  unfolding print_flow_data
  sessions_exported key x known =
      let k = v.keeps in
      let (c, hc, on, hit, val) = (k.sessions.represents key x).1 known in
      let noted : db.sessions.feature_index_to_entry_map x ≡ some c =
        rw val at (k.sessions.indexed.noted c hc on) in
      let used : uses_of (db.sessions.feature_index_to_entry_map x) ≡ 1 = ap uses_of noted in
      (
        c,
        hc,
        on,
        hit,
        val,
        cell_has_line debug features db.sessions (end_of_ids heapsize - min_session_id)
            min_session_id x c (ground (arith, used, k.session_ids x))
            (ground (arith, used, k.session_ids x)) noted,
      )

  -- Every line of the export of a flow database in order is that of a session of its map.
  pub lines_are_sessions :
      (line : List Field)
      → Memᴰ line (print_flow_data debug features db.sessions (end_of_ids heapsize))
      → (stored : Entry FiveTuple ℕ) × (v.session_map stored.key ≡ some stored.value)
        × (line ≡ flow_line debug features db.sessions stored)
  unfolding print_flow_data
  lines_are_sessions line m =
      let k = v.keeps in
      let (x, c, known, e) =
        line_of_cell debug features db.sessions (end_of_ids heapsize - min_session_id)
          min_session_id line m in
      let (hc, on, val) = k.sessions.indexed.points x c known in
      let stored = db.sessions.entries c in
      (
        stored,
        (k.sessions.represents stored.key stored.value).0
            (c, hc, on, laws.same_refl stored.key, refl),
        e,
      )
