-- ===== src/FlowHashtable/Tests.antt =====
-- A table of four cells with three flows, of which two have the same home.
use marina.Prelude.{
  ◌<◌, ◌≢◌, ℕ, ◌≡◌, refl, Option, none, some, arith, result_or, Returns, Returns-result, failure,
  inr, ◌⊎◌, update,
}
use marina.Structs.{FiveTuple, FiveTupleForHash, same_h, ipv4, tcp}
use marina.Hashtable.{home, dist, next, can_move, move, shift_loop, probe_loop, get_hashtable_index}
use marina.Hashtable.Represents.{bind}
use marina.FlowHashtable.{
  FlowHashtable, zero_five_tuple, flow_hashtable_init, scheme, add_at, flow_hashtable_add,
  flow_hashtable_remove, flow_hashtable_remove_by_value, remove_by_index, remove_at,
}
use marina.FlowHashtable.Laws.{Models, flow_hashtable_init-Models}
use marina.FlowHashtable.Updates.{
  Added, IsStored, flow_hashtable_add_lem, flow_hashtable_add-fails, Removed,
  flow_hashtable_remove_lem, flow_hashtable_remove_by_value_lem,
}

abbrev hash : FiveTupleForHash → ℕ
hash h = h.src_port

abbrev flow : ℕ → FiveTuple
flow port = record zero_five_tuple {
  h = record {
    src_addr = 10;
    dst_addr = 20;
    src_port = port;
    dst_port = 443;
    l3_proto = ipv4;
    l4_proto = tcp;
  };
}

abbrev one_flow : FlowHashtable
one_flow =
    (result_or (failure, flow_hashtable_init)
      (flow_hashtable_add hash 4 flow_hashtable_init (flow 1) 8)).1

abbrev two_flows : FlowHashtable
two_flows = (result_or (failure, one_flow) (flow_hashtable_add hash 4 one_flow (flow 5) 12)).1

-- Without the first flow the second one is back at its home.
removal_moves_back :
    (result_or
        (none, two_flows)
        (flow_hashtable_remove hash 4 two_flows (flow 1))).1.feature_index_to_entry_map
      12
    ≡ some 1
unfolding flow_hashtable_remove remove_at remove_by_index flow_hashtable_add add_at
    flow_hashtable_init get_hashtable_index probe_loop shift_loop move can_move dist home next
    update same_h
removal_moves_back = refl

abbrev no_flows : FiveTuple → Option ℕ
no_flows _ = none

abbrev one_known : FiveTuple → Option ℕ
one_known = bind (scheme hash 4) (flow 1) 8 no_flows

pos_size : 0 < 4
pos_size = omega arith

empty_Models : Models hash 4 pos_size flow_hashtable_init no_flows
empty_Models = flow_hashtable_init-Models hash 4 pos_size

flow_hashtable_add_example :
    Returns
      (Added hash 4 pos_size flow_hashtable_init no_flows empty_Models (flow 1) 8)
      (flow_hashtable_add hash 4 flow_hashtable_init (flow 1) 8)
unfolding flow_hashtable_init
flow_hashtable_add_example =
    flow_hashtable_add_lem hash 4 pos_size flow_hashtable_init no_flows empty_Models (flow 1) 8 refl
      refl (omega arith)

one_Models : Models hash 4 pos_size one_flow one_known
one_Models = (Returns-result (failure, flow_hashtable_init) flow_hashtable_add_example).models

one_room : one_flow.num_entries < 4
unfolding flow_hashtable_init
one_room =
    rw (Returns-result (failure, flow_hashtable_init) flow_hashtable_add_example).one_more
      (omega arith)

known_flow : one_known (flow 1) ≡ some 8
unfolding same_h
known_flow = refl

flow_hashtable_add-fails_example :
    flow_hashtable_add hash 4 one_flow (flow 1) 9 ≡ some (failure, one_flow)
flow_hashtable_add-fails_example =
    flow_hashtable_add-fails hash 4 pos_size one_flow one_known one_Models (flow 1) 9
      (inr (8, known_flow))

flow_hashtable_remove_example :
    Returns
      (λ r. (r.0 ≡ some 8) × Removed hash 4 pos_size one_flow one_known one_Models (flow 1) r.1)
      (flow_hashtable_remove hash 4 one_flow (flow 1))
flow_hashtable_remove_example =
    flow_hashtable_remove_lem hash 4 pos_size one_flow one_known one_Models (flow 1) 8 known_flow
      one_room

flow_hashtable_remove_by_value_example :
    Returns
      (λ r.
        ((key : FiveTuple) × (r.0 ≡ some key)
          × IsStored hash 4 pos_size one_flow one_known one_Models key
          × (one_known key ≡ some 8)
          × Removed hash 4 pos_size one_flow one_known one_Models key r.1)
        ⊎ ((r ≡ (none, one_flow)) × ((key : FiveTuple) → one_known key ≢ some 8)))
      (flow_hashtable_remove_by_value hash 4 one_flow 8)
flow_hashtable_remove_by_value_example =
    flow_hashtable_remove_by_value_lem hash 4 pos_size one_flow one_known one_Models 8 one_room
