-- ===== src/Export/Tests.antt =====
-- The export of a flow database with one session.
use marina.Prelude.{
  ℕ, ◌+◌, ◌<◌, ◌≡◌, refl, true, false, arith, Option, none, some, List, [], ◌∷◌, ◌==◌,
  if◌then◌else◌, result_or, Returns-result, failure, Status, total, count,
}
use mathlib.Core.List.{Memᴰ}
use marina.Structs.{FiveTuple}
use marina.Heap.{Heap}
use marina.Hashtable.{Entry}
use marina.Hashtable.Keys.{free-AllKeys}
use marina.Hashtable.Uses.{uses-add}
use marina.Hashtable.Represents.{bind}
use marina.FlowHashtable.{zero_five_tuple, zero_entry, flow_hashtable_init}
use marina.FlowHashtable.Laws as FlowLaws
use marina.SessionHashtable.{
  SessionHashtable, session_hashtable_init, session_hashtable_add_or_increase_flow_count,
}
use marina.SessionHashtable.Laws.{
  sessions, lawful, Models, Added, session_hashtable_add_lem, session_hashtable_init-Models,
}
use marina.SessionHashtable.Uses.{Models-Holds}
use marina.Commands.{dp_clear_registers, DataplaneCommand}
use marina.Ringbuffer
use marina.Ringbuffer.Refine.{init-Holds}
use marina.FlowDb.{FlowDb, Setting, id_of}
use marina.FlowDb.Ids.{AllHeaps, is_id, free_copies}
use marina.FlowDb.Invariant.{Keeps, InOrder, nothing, on_pipe}
use marina.Dataplane.{Feature}
use marina.Export.{flow_line, print_flow_data}
use marina.Export.Rows.{sessions_exported, lines_are_sessions}

abbrev setting : Setting
setting = record {
  use_sessions = false;
  murmur_h = λ h. h.src_port;
  murmur_sh = λ sh. sh.client_addr;
  table_size = 12;
  ring_size = 2;
  devport_mapping = λ port. some (port + 2);
}

abbrev flow_heaps : ℕ → Heap
flow_heaps pipe = record { cur_size = 2; items = id_of pipe }

-- The id 4 is in use.
abbrev session_heaps : ℕ → Heap
session_heaps pipe = if pipe == 0 then record { cur_size = 1; items = λ _. 8 } else flow_heaps pipe

pos_size : 0 < 12
pos_size = omega arith

ring_pos : 0 < 2
ring_pos = omega arith

abbrev empty_sessions :
    Models false setting.murmur_h setting.murmur_sh 12 pos_size session_hashtable_init (λ _. none)
empty_sessions = session_hashtable_init-Models false setting.murmur_h setting.murmur_sh 12 pos_size

abbrev adding : Status × SessionHashtable
adding =
    result_or (failure, session_hashtable_init)
      (session_hashtable_add_or_increase_flow_count false setting.murmur_h setting.murmur_sh 12
        session_hashtable_init zero_five_tuple 4)

adding-Added :
    Added false setting.murmur_h setting.murmur_sh 12 pos_size session_hashtable_init
      (λ _. none)
      empty_sessions
      zero_five_tuple
      4
      adding
unfolding session_hashtable_init
adding-Added =
    Returns-result (failure, session_hashtable_init)
      (session_hashtable_add_lem false setting.murmur_h setting.murmur_sh 12 pos_size
        session_hashtable_init (λ _. none) empty_sessions zero_five_tuple 4 refl refl (omega arith))

abbrev zero_command : DataplaneCommand
zero_command =
    dp_clear_registers (record { five_tuple = zero_five_tuple; flow_id = 0; session_id = 0 })

abbrev one_session : FlowDb ℕ
one_session = record {
  flow_id_heap = flow_heaps;
  session_id_heap = session_heaps;
  flows = flow_hashtable_init;
  sessions = adding.1;
  uuid_mapping = λ _. 7;
  ring = Ringbuffer.init (λ _. zero_command) 0;
}

free_flow_ids : (x : ℕ) → free_copies flow_heaps x ≡ is_id 2 x
unfolding total count
free_flow_ids x = ground arith

free_session_ids : (x : ℕ) → free_copies session_heaps x + (if 4 == x then 1 else 0) ≡ is_id 2 x
unfolding total count
free_session_ids x = ground arith

flow_heaps-AllHeaps : AllHeaps flow_heaps
flow_heaps-AllHeaps q c p r s = omega arith

session_heaps-AllHeaps : AllHeaps session_heaps
session_heaps-AllHeaps q c p r s = ground arith

abbrev one_known : FiveTuple → Option ℕ
one_known =
    bind (sessions false setting.murmur_h setting.murmur_sh 12 pos_size) zero_five_tuple 4
      (λ _. none)

one_session-Keeps : Keeps setting pos_size 2 nothing nothing (λ _. none) one_known one_session
unfolding flow_hashtable_init session_hashtable_init
one_session-Keeps = record {
  flow_heaps = flow_heaps-AllHeaps;
  session_heaps = session_heaps-AllHeaps;
  flows = FlowLaws.flow_hashtable_init-Models setting.murmur_h 12 pos_size;
  sessions = adding-Added.now;
  flow_ids = λ x. omega (arith, free_flow_ids x);
  session_ids = λ x. omega (
    arith,
    free_session_ids x,
    uses-add (sessions false setting.murmur_h setting.murmur_sh 12 pos_size)
        (lawful false setting.murmur_h setting.murmur_sh 12 pos_size) (λ _. none)
        (Models-Holds false setting.murmur_h setting.murmur_sh 12 pos_size empty_sessions)
        zero_five_tuple 4 refl refl
        (Models-Holds false setting.murmur_h setting.murmur_sh 12 pos_size adding-Added.now) x,
  );
  ports =
      free-AllKeys (FlowLaws.flows setting.murmur_h 12 pos_size) on_pipe (λ _. zero_entry)
        (λ c. refl);
  queue = [];
  commands = init-Holds 2 ring_pos (λ _. zero_command) 0;
}

abbrev in_order : InOrder setting pos_size 2 one_session
in_order = record { flow_map = λ _. none; session_map = one_known; keeps = one_session-Keeps }

session_known : one_known zero_five_tuple ≡ some 4
session_known =
    rw ((lawful false setting.murmur_h setting.murmur_sh 12 pos_size).same_refl zero_five_tuple)
      refl

abbrev features : List Feature
features =
    record { values = λ i. i + 100; on_egress = false }
    ∷ record { values = λ i. i + 200; on_egress = true }
    ∷ []

sessions_exported_example :
    (c : ℕ) × (c < 12)
    × ((one_session.sessions.entries c).occupied ≡ true)
    × ((sessions false setting.murmur_h setting.murmur_sh 12 pos_size).same
          (one_session.sessions.entries c).key
          zero_five_tuple
        ≡ true)
    × ((one_session.sessions.entries c).value ≡ 4)
    × Memᴰ
        (flow_line true features one_session.sessions (one_session.sessions.entries c))
        (print_flow_data true features one_session.sessions 12)
sessions_exported_example =
    sessions_exported setting pos_size 2 true features one_session in_order zero_five_tuple 4
      session_known

-- A line of that export.
exported :
    (c : ℕ) × (c < 12)
    × ((one_session.sessions.entries c).occupied ≡ true)
    × ((sessions false setting.murmur_h setting.murmur_sh 12 pos_size).same
          (one_session.sessions.entries c).key
          zero_five_tuple
        ≡ true)
    × ((one_session.sessions.entries c).value ≡ 4)
    × Memᴰ
        (flow_line true features one_session.sessions (one_session.sessions.entries c))
        (print_flow_data true features one_session.sessions 12)
exported =
    sessions_exported setting pos_size 2 true features one_session in_order zero_five_tuple 4
      session_known

lines_are_sessions_example :
    (stored : Entry FiveTuple ℕ) × (one_known stored.key ≡ some stored.value)
    × (flow_line true features one_session.sessions (one_session.sessions.entries exported.0)
        ≡ flow_line true features one_session.sessions stored)
lines_are_sessions_example =
    lines_are_sessions setting pos_size 2 true features one_session in_order
      (flow_line true features one_session.sessions (one_session.sessions.entries exported.0))
      exported.5
