-- ===== src/FlowDb/Invariant.antt =====
-- The invariant of the flow database: where the ids of flows and of sessions are, and that both
-- tables have room. A call that is under way may hold ids that are in neither place.
use marina.Prelude.{
  ℕ, zero, suc, ◌+◌, ◌-◌, ◌<◌, ◌≤◌, ◌≡◌, ap, arith, Bool, ltb, Option, List, total, total_mono,
}
use marina.Structs.{FiveTuple, dev_port_to_pipe}
use marina.Commands.{DataplaneCommand}
use marina.Hashtable.{Scheme, Entry}
use marina.Hashtable.Contents.{occupied_count}
use marina.Hashtable.Keys.{AllKeys}
use marina.Hashtable.Indexed.{IsIndexed}
use marina.Hashtable.Uses.{uses_of}
use marina.Hashtable.Capacity.{occupied_count-le_uses}
use marina.FlowHashtable.Laws as FlowLaws
use marina.FlowHashtable.Uses.{in_use}
use marina.SessionHashtable.Laws as SessionLaws
use marina.SessionHashtable.Uses.{sessions_in_use}
use marina.Ringbuffer.Refine.{Holds}
use marina.FlowDb.{FlowDb, Setting}
use marina.FlowDb.Ids.{num_pipes, end_of_ids, is_id, AllHeaps, free_copies}

-- No id at all.
abbrev pub nothing : ℕ → ℕ
nothing x = 0

-- The port of the flow belongs to one of the pipes.
abbrev pub on_pipe : FiveTuple → Bool
on_pipe five_tuple = ltb (dev_port_to_pipe five_tuple.dev_port) num_pipes

-- No id is in two places, and there are two numbers fewer than `n + 2`.
total-le : (f : ℕ → ℕ) (n : ℕ) → ((v : ℕ) → f v ≤ 1) → f 0 ≡ 0 → f 1 ≡ 0 → total f (suc (suc n)) ≤ n
unfolding total
total-le f zero single a b = omega (arith, a, b)
total-le f (suc n) single a b = omega (arith, single (suc (suc n)), total-le f n single a b)

-- A table whose values are ids, none of them in two places, has two free cells.
pub two_free :
    {K : Type 0} (scheme : Scheme K) (entries : ℕ → Entry K ℕ) (notes : ℕ → Option ℕ) (heapsize : ℕ)
    → end_of_ids heapsize ≤ scheme.size
    → IsIndexed scheme entries notes
    → ((x : ℕ) → uses_of (notes x) ≤ is_id heapsize x)
    → occupied_count entries scheme.size + 1 < scheme.size
two_free scheme entries notes heapsize fits indexed ids =
    let bound = end_of_ids heapsize in
    let e : bound ≡ suc (suc (bound - 2)) = omega arith in
    omega (
      arith,
      ap (total (is_id heapsize)) e,
      occupied_count-le_uses scheme entries notes indexed bound
          (λ v c e. ground (arith, ids v, ap uses_of e)),
      total_mono (λ v. uses_of (notes v)) (is_id heapsize) bound (λ v h. ids v),
      total-le (is_id heapsize) (bound - 2) (λ v. ground arith) (ground arith) (ground arith),
    )

module _ {U : Type 0} (g : Setting) (pos : 0 < g.table_size) (heapsize : ℕ) where
  open g use {use_sessions, murmur_h, murmur_sh, table_size, ring_size}

  -- `out` and `out_s` are the ids of flows and of sessions that a call holds.
  pub record Keeps (out out_s : ℕ → ℕ) (m ms : FiveTuple → Option ℕ) (db : FlowDb U) : Type 0 where
    pub flow_heaps : AllHeaps db.flow_id_heap
    pub session_heaps : AllHeaps db.session_id_heap
    pub flows : FlowLaws.Models murmur_h table_size pos db.flows m
    pub sessions : SessionLaws.Models use_sessions murmur_h murmur_sh table_size pos db.sessions ms
    -- Each id is in a heap, in use, or with the call, and in one of these places only.
    pub flow_ids :
        (x : ℕ) → free_copies db.flow_id_heap x + in_use db.flows x + out x ≡ is_id heapsize x
    pub session_ids :
        (x : ℕ)
        → free_copies db.session_id_heap x + sessions_in_use db.sessions x + out_s x
          ≡ is_id heapsize x
    pub ports : AllKeys (FlowLaws.flows murmur_h table_size pos) on_pipe db.flows.entries
    pub queue : List DataplaneCommand
    pub commands : Holds ring_size db.ring queue

  -- No call is under way.
  pub record InOrder (db : FlowDb U) : Type 0 where
    pub flow_map : FiveTuple → Option ℕ
    pub session_map : FiveTuple → Option ℕ
    pub keeps : Keeps nothing nothing flow_map session_map db

  module _ (fits : end_of_ids heapsize ≤ table_size) {out out_s : ℕ → ℕ}
      {m ms : FiveTuple → Option ℕ} {db : FlowDb U} (k : Keeps out out_s m ms db) where
    pub flow_room : db.flows.num_entries + 1 < table_size
    flow_room = omega (
      arith,
      k.flows.counted,
      two_free (FlowLaws.flows murmur_h table_size pos) db.flows.entries
          db.flows.feature_index_to_entry_map heapsize fits k.flows.indexed
          (λ x. omega (arith, k.flow_ids x)),
    )

    pub session_room : db.sessions.num_entries + 1 < table_size
    session_room = omega (
      arith,
      k.sessions.counted,
      two_free (SessionLaws.sessions use_sessions murmur_h murmur_sh table_size pos)
          db.sessions.entries db.sessions.feature_index_to_entry_map heapsize fits
          k.sessions.indexed (λ x. omega (arith, k.session_ids x)),
    )
