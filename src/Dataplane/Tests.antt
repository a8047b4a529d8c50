-- ===== src/Dataplane/Tests.antt =====
-- Two flows that are added, and one that is removed, on a switch with tables of rows.
use marina.Prelude.{ℕ, ◌≡◌, refl, update, Option, none, some, List, [], ◌∷◌}
use marina.Structs.{FiveTuple, ipv4, ipv6, l3_code, flow_id_to_register_index}
use marina.FlowHashtable.{zero_five_tuple}
use marina.Commands.{DataplaneCommand, dp_add_flow, dp_remove_flow}
use marina.DpApi.{
  ok, code_of, switch_add_ipv4_entry, switch_add_ipv6_entry, add_by,
  switch_add_classification_entry,
}
use marina.DpApi.RowSwitch.{Switch, rows, driver, works}
use marina.Dataplane.{Dataplane, execute}
use marina.Dataplane.Mirror.{Live, follow, put_live, drop_live, Mirrors}
use marina.Dataplane.Follows.{execute_all, AllAdded, follow_all, execute_all-Mirrors}

abbrev no_stamp : ℕ → ℕ → ℕ → Switch → Switch
no_stamp pipe index value s = s

abbrev start : Dataplane Switch ℕ
start = record {
  switch = record { tables = λ p k. none; next = 0 };
  entry_hdls = λ f. 0;
  features = [];
  status = ok;
}

abbrev web_flow : FiveTuple
web_flow = record zero_five_tuple { h = record zero_five_tuple.h { src_addr = 5; l3_proto = ipv4 } }

abbrev mail_flow : FiveTuple
mail_flow = record zero_five_tuple {
  h = record zero_five_tuple.h { src_addr = 6; l3_proto = ipv6 };
}

abbrev no_flows : ℕ → Option Live
no_flows f = none

abbrev commands : List DataplaneCommand
commands =
    dp_add_flow (record { five_tuple = web_flow; flow_id = 4; session_id = 8 })
    ∷ dp_add_flow (record { five_tuple = mail_flow; flow_id = 8; session_id = 12 })
    ∷ dp_remove_flow (record { five_tuple = web_flow; flow_id = 4; session_id = 0 })
    ∷ []

start-Mirrors : Mirrors driver rows no_flows start
start-Mirrors = record {
  typed = λ f l e. absurd (cc e);
  has = λ f l e. absurd (cc e);
  only = λ p k row e. absurd (cc e);
  apart = λ f f' l l' e e' code at. absurd (cc e);
}

abbrev left_over : ℕ → Option Live
left_over =
    update
      (update
        (update no_flows 4
          (some (record { five_tuple = web_flow; register_index = flow_id_to_register_index 8 })))
        8 (some (record { five_tuple = mail_flow; register_index = flow_id_to_register_index 12 })))
      4 none

in_order : follow_all commands no_flows ≡ some left_over
unfolding follow_all follow put_live drop_live update l3_code
in_order = refl

all_added : AllAdded driver no_stamp commands start
unfolding AllAdded execute update code_of switch_add_ipv4_entry switch_add_ipv6_entry add_by
    switch_add_classification_entry l3_code
all_added = (refl, (refl, tt))

execute_all-Mirrors_example :
    Mirrors driver rows left_over (execute_all driver no_stamp commands start)
execute_all-Mirrors_example =
    execute_all-Mirrors driver no_stamp rows works (λ pipe index value s. refl) commands no_flows
      left_over start start-Mirrors in_order all_added
