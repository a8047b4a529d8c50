-- ===== src/SessionHashtable/Tests.antt =====
-- A table of four cells with sessions in use, and one session whose flows leave by the next register.
use marina.Prelude.{
  ℕ, ◌<◌, ◌≡◌, ◌>>=◌, refl, true, false, Option, none, some, arith, result_or, Returns,
  Returns-result, success, failure, update,
}
use marina.Prelude.Int.{pos, ◌-ℤ◌}
use marina.Structs.{FiveTuple, FiveTupleForHash, FiveTupleForSessionHash, same_sh}
use marina.FlowHashtable.{zero_five_tuple}
use marina.Hashtable.Represents.{bind}
use marina.SessionHashtable.{
  SessionHashtable, session_hashtable_init, scheme, count_down, still_counted,
  session_hashtable_add_or_increase_flow_count, session_hashtable_remove_or_decrease_flow_count,
}
use marina.SessionHashtable.Laws.{
  Models, Added, session_hashtable_init-Models, session_hashtable_add_lem,
}
use marina.SessionHashtable.Removal.{Left, session_hashtable_remove_lem}
use marina.SessionHashtable.Counts.{add_flows, removal_off_by_one}

abbrev hash_h : FiveTupleForHash → ℕ
hash_h h = h.src_port

abbrev hash_sh : FiveTupleForSessionHash → ℕ
hash_sh sh = sh.client_addr

abbrev client : ℕ → FiveTuple
client address = record zero_five_tuple {
  sh = record { client_addr = address; to_server = true };
  session_id_egress_offset = pos 1;
}

abbrev no_sessions : FiveTuple → Option ℕ
no_sessions _ = none

abbrev one_known : FiveTuple → Option ℕ
one_known = bind (scheme true hash_h hash_sh 4) (client 5) 8 no_sessions

four : 0 < 4
four = omega arith

abbrev Keeps : SessionHashtable → (FiveTuple → Option ℕ) → Type 0
Keeps = Models true hash_h hash_sh 4 four

empty_Models : Keeps session_hashtable_init no_sessions
empty_Models = session_hashtable_init-Models true hash_h hash_sh 4 four

session_hashtable_add_example :
    Returns
      (Added true hash_h hash_sh 4 four session_hashtable_init no_sessions empty_Models
        (client 5)
        8)
      (session_hashtable_add_or_increase_flow_count true hash_h hash_sh 4 session_hashtable_init
        (client 5)
        8)
unfolding session_hashtable_init
session_hashtable_add_example =
    session_hashtable_add_lem true hash_h hash_sh 4 four session_hashtable_init no_sessions
      empty_Models (client 5) 8 refl refl (omega arith)

-- The session with one flow, and with two.
abbrev one_session : SessionHashtable
one_session =
    (result_or (failure, session_hashtable_init)
      (session_hashtable_add_or_increase_flow_count true hash_h hash_sh 4 session_hashtable_init
        (client 5) 8)).1

one_Added :
    Added true hash_h hash_sh 4 four session_hashtable_init no_sessions empty_Models (client 5) 8 (
      result_or
        (failure, session_hashtable_init)
        (session_hashtable_add_or_increase_flow_count true hash_h hash_sh 4 session_hashtable_init
          (client 5)
          8))
one_Added = Returns-result (failure, session_hashtable_init) session_hashtable_add_example

one_Models : Keeps one_session one_known
one_Models = one_Added.now

one_room : one_session.num_entries < 4
unfolding session_hashtable_init
one_room = rw one_Added.one_more (omega arith)

known_session : one_known (client 5) ≡ some 8
unfolding same_sh
known_session = refl

-- Its count is 0, so that the end of its only flow takes it to -1.
one_counted :
    still_counted true hash_h hash_sh 4 (count_down true hash_h hash_sh 4 one_session 8) 8 ≡ true
unfolding still_counted count_down session_hashtable_init update ◌-ℤ◌
one_counted = rw one_Added.counts_kept refl

-- The same session with a count of 1.
abbrev last_flow : SessionHashtable
last_flow = record one_session { flow_count = λ _. pos 1 }

last_Models : Keeps last_flow one_known
last_Models = record {
  chained = one_Models.chained;
  counted = one_Models.counted;
  represents = one_Models.represents;
  indexed = one_Models.indexed;
}

last_counted :
    still_counted true hash_h hash_sh 4 (count_down true hash_h hash_sh 4 last_flow 8) 8 ≡ false
unfolding still_counted count_down session_hashtable_init update ◌-ℤ◌
last_counted = refl

session_hashtable_remove_example :
    Returns
      (λ r.
        (r.0 ≡ success)
        × (r.1 ≡ 8)
        × Left true hash_h hash_sh 4 four last_flow one_known last_Models
            (count_down true hash_h hash_sh 4 last_flow 8)
            (client 5)
            r.2)
      (session_hashtable_remove_or_decrease_flow_count true hash_h hash_sh 4 last_flow (client 5) 8)
session_hashtable_remove_example =
    session_hashtable_remove_lem true hash_h hash_sh 4 four last_flow one_known last_Models
      (client 5) 8 8 known_session last_counted one_room

removal_off_by_one_example :
    Returns
      (λ r. r.0 ≡ failure)
      (add_flows hash_h hash_sh 4 four (client 5) 8 3 session_hashtable_init >>= λ t'.
        session_hashtable_remove_or_decrease_flow_count true hash_h hash_sh 4 t' (client 5) 8)
unfolding session_hashtable_init
removal_off_by_one_example =
    removal_off_by_one hash_h hash_sh 4 four (client 5) 8 session_hashtable_init no_sessions
      empty_Models refl refl (omega arith) refl 2
