-- ===== src/FlowDb/Start.antt =====
-- The heaps of free ids as the thread sets them up.
use marina.Prelude.{
  sym, update_ne, ℕ_discrete, Returns-at, Ends, Ends-some, Ends-bind, ap, ℕ, zero, suc, ◌≤◌, refl,
  none, List, total, update_self, returns, Returns-bind, ◌<◌, ◌≡◌, ◌∙◌, arith, ◌==◌, ◌&&◌, ltb, leb,
  if◌then◌else◌, count, Returns, Returns-map,
}
use marina.Heap.Order.{IsHeap, copies}
use marina.Heap.Build.{heap_build_lem}
use marina.Structs.{flow_id_to_pipe, flow_id_to_register_index}
use marina.Heap.{Heap}
use marina.Commands.{DataplaneCommand}
use marina.Hashtable.Keys.{free-AllKeys}
use marina.FlowHashtable.{flow_hashtable_init, zero_entry}
use marina.FlowHashtable.Laws as FlowLaws
use marina.SessionHashtable.{session_hashtable_init}
use marina.SessionHashtable.Laws as SessionLaws
use marina.Ringbuffer.{Ringbuffer}
use marina.Ringbuffer.Refine.{Holds}
use marina.FlowDb.{FlowDb, Setting, id_of, filled_heap, fill_heaps, flowdb_start}
use marina.FlowDb.Ids.{num_pipes, is_id, AllHeaps, all_heaps, total-update_ge}
use marina.FlowDb.Invariant.{InOrder, on_pipe}

-- Whether `x` is an id of the pipe, when its heap has `n` ids.
abbrev pub owned : ℕ → ℕ → ℕ → ℕ
owned n pipe x =
    if flow_id_to_pipe x == pipe
      && ltb 0 (flow_id_to_register_index x)
      && leb (flow_id_to_register_index x) n
    then 1
    else 0

pub count-ids : (pipe n x : ℕ) → pipe < 4 → count (id_of pipe) n x ≡ owned n pipe x
unfolding count flow_id_to_pipe flow_id_to_register_index
count-ids pipe zero x lt = ground arith
count-ids pipe (suc n) x lt = ground (arith, count-ids pipe n x lt)

-- The heap of each of the four pipes starts as a heap, for any number of ids. It has each id
-- once whose pipe it is, with register indices from 1 to that number, and nothing else.
pub filled_heap_lem :
    (heapsize pipe : ℕ)
    → pipe < 4
    → Returns
        (λ h. IsHeap h × ((x : ℕ) → copies h x ≡ owned heapsize pipe x))
        (filled_heap heapsize pipe)
unfolding filled_heap
filled_heap_lem heapsize pipe lt =
    Returns-map (heap_build_lem (record { cur_size = 0; items = id_of pipe }) heapsize) λ h b.
      (b.heap, λ x. ap (λ n. count h.items n x) b.size ∙ b.same x ∙ count-ids pipe heapsize x lt)

fill_heaps_lem :
    (heapsize n : ℕ) (heaps : ℕ → Heap)
    → n ≤ num_pipes
    → AllHeaps heaps
    → Returns
        (λ heaps'.
          AllHeaps heaps'
          × ((x : ℕ) → total (λ q. copies (heaps' q) x) n ≡ total (λ q. owned heapsize q x) n))
        (fill_heaps heapsize n heaps)
unfolding fill_heaps total
fill_heaps_lem heapsize zero heaps le all = returns (all, λ x. refl)
fill_heaps_lem heapsize (suc n) heaps le all =
    Returns-bind (fill_heaps_lem heapsize n heaps (omega arith) all) λ heaps' (all', same).
      Returns-bind (filled_heap_lem heapsize n (omega arith)) λ h (good, own). returns (
        all_heaps heaps' n (omega arith) all' h good,
        λ x. omega (
          arith,
          same x,
          own x,
          ap (λ k. copies k x) (update_self heaps' n h),
          total-update_ge (λ k. copies k x) heaps' n h n (omega arith),
        ),
      )

owned-is_id : (heapsize x : ℕ) → total (λ q. owned heapsize q x) num_pipes ≡ is_id heapsize x
unfolding total flow_id_to_pipe flow_id_to_register_index
owned-is_id heapsize x = ground arith

-- Each heap then has as many ids.
fill_heaps-sizes :
    (heapsize n q : ℕ) (heaps : ℕ → Heap)
    → q < n
    → Ends (λ heaps'. (heaps' q).cur_size ≡ heapsize) (fill_heaps heapsize n heaps)
unfolding fill_heaps filled_heap
fill_heaps-sizes heapsize zero q heaps lt = absurd (omega arith)
fill_heaps-sizes heapsize (suc n) q heaps lt = Ends-bind (fill_heaps heapsize n heaps) λ heaps' e.
    Ends-bind (filled_heap heapsize n) λ h e'. Ends-some (elim (ℕ_discrete n q) [
      | yes same ↦
          rw (sym same, update_self heaps' n h)
            (Returns-at (heap_build_lem (record { cur_size = 0; items = id_of n }) heapsize)
              e').size
      | no other ↦
          rw (update_ne heaps' n h q other)
            ((fill_heaps-sizes heapsize n q heaps (omega arith)).ends heaps' e)
    ])

-- What the program has before the thread starts: tables without entries, and heaps of no
-- memory that matters.
abbrev pub before_start : {U : Type 0} → (ℕ → Heap) → U → Ringbuffer DataplaneCommand → FlowDb U
before_start heaps zeros ring = record {
  flow_id_heap = heaps;
  session_id_heap = heaps;
  flows = flow_hashtable_init;
  sessions = session_hashtable_init;
  uuid_mapping = λ _. zeros;
  ring = ring;
}

module _ {U : Type 0} (g : Setting) (pos : 0 < g.table_size) (heapsize : ℕ) where
  -- From empty tables, empty heaps and a ring buffer that holds a queue, what the thread does before its loop ends in a state in order.
  pub flowdb_start-InOrder :
      (zeros : U) (heaps : ℕ → Heap) (ring : Ringbuffer DataplaneCommand)
      (queue : List DataplaneCommand)
      → AllHeaps heaps
      → Holds g.ring_size ring queue
      → Returns
          (InOrder g pos heapsize)
          (flowdb_start heapsize zeros (before_start heaps zeros ring))
  unfolding flowdb_start flow_hashtable_init session_hashtable_init
  flowdb_start-InOrder zeros heaps ring queue all holds =
      Returns-bind (fill_heaps_lem heapsize num_pipes heaps (omega arith) all)
        λ flow_heaps (good, own).
          Returns-bind (fill_heaps_lem heapsize num_pipes heaps (omega arith) all)
            λ session_heaps (good_s, own_s). returns (record {
              flow_map = λ _. none;
              session_map = λ _. none;
              keeps = record {
                flow_heaps = good;
                session_heaps = good_s;
                flows = FlowLaws.flow_hashtable_init-Models g.murmur_h g.table_size pos;
                sessions =
                    SessionLaws.session_hashtable_init-Models g.use_sessions g.murmur_h g.murmur_sh
                      g.table_size pos;
                flow_ids = λ x. omega (arith, own x, owned-is_id heapsize x);
                session_ids = λ x. omega (arith, own_s x, owned-is_id heapsize x);
                ports =
                    free-AllKeys (FlowLaws.flows g.murmur_h g.table_size pos) on_pipe
                      (λ _. zero_entry) (λ c. refl);
                queue = queue;
                commands = holds;
              };
            })

-- The set-up leaves the tables and the ring buffer, and as many ids for the sessions of each pipe.
pub flowdb_start_lem :
    {U : Type 0} (heapsize pipe : ℕ) (zeros : U) (db : FlowDb U)
    → pipe < num_pipes
    → Ends
        (λ db'.
          (db'.flows ≡ db.flows)
          × (db'.ring ≡ db.ring)
          × ((db'.session_id_heap pipe).cur_size ≡ heapsize))
        (flowdb_start heapsize zeros db)
unfolding flowdb_start
flowdb_start_lem heapsize pipe zeros db lt =
    Ends-bind (fill_heaps heapsize 4 db.flow_id_heap) λ _ _.
      Ends-bind (fill_heaps heapsize 4 db.session_id_heap) λ heaps e.
        Ends-some
          (refl, refl, (fill_heaps-sizes heapsize 4 pipe db.session_id_heap lt).ends heaps e)
