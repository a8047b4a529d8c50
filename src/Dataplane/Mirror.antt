-- ===== src/Dataplane/Mirror.antt =====
-- What the classification tables of the switch hold, beside the flows that commands have added and
-- not removed.
use marina.Prelude.{
  ℕ, ◌≡◌, ◌≢◌, ◌⊎◌, inl, inr, ℕ_discrete, update_self, update_ne, refl, ◌==◌, if◌then◌else◌, update,
  Option, none, some,
}
use marina.Structs.{FiveTuple, L3Proto, unspec, ipv4, ipv6, l3_code, flow_id_to_register_index}
use marina.Commands.{
  DataplaneCommand, MatchTableCmd, dp_add_flow, dp_remove_flow, dp_clear_registers,
  dp_add_bloom_filter, dp_remove_bloom_filter,
}
use marina.DpApi.Rows.{Row, row_by}
use marina.DpApi.{Driver}
use marina.Dataplane.{Dataplane}

-- A flow that has been added, and the index of its register.
pub record Live : Type 0 where
  pub five_tuple : FiveTuple
  pub register_index : ℕ

abbrev pub proto_of : FiveTuple → ℕ
proto_of t = l3_code t.h.l3_proto

pub row-by :
    (proto : L3Proto) (t : FiveTuple) (r : ℕ)
    → l3_code proto ≢ 0
    → (row : Row) × (row_by proto t r ≡ some row)
unfolding row_by l3_code
row-by unspec t r typed = absurd (typed refl)
row-by ipv4 t r typed = (_, refl)
row-by ipv6 t r typed = (_, refl)

pub update-bound :
    (live : ℕ → Option Live) (f g : ℕ) (l l' : Live)
    → update live f (some l) g ≡ some l'
    → ((f ≡ g) × (l ≡ l')) ⊎ ((f ≢ g) × (live g ≡ some l'))
update-bound live f g l l' e = elim (ℕ_discrete f g) [
  | yes same ↦ inl (same, cc (update_self live f (some l), same, e))
  | no other ↦ inr (other, cc (update_ne live f (some l) g other, e))
]

pub update-none-bound :
    (live : ℕ → Option Live) (f g : ℕ) (l' : Live)
    → update live f none g ≡ some l'
    → (f ≢ g) × (live g ≡ some l')
update-none-bound live f g l' e = elim (ℕ_discrete f g) [
  | yes same ↦ absurd (cc (update_self live f none, same, e))
  | no other ↦ (other, cc (update_ne live f none g other, e))
]

-- The row that stands for a flow.
unfoldable pub row_of : Live → Option Row
row_of l = row_by l.five_tuple.h.l3_proto l.five_tuple l.register_index

-- An id is taken, if it is not in use.
unfoldable pub put_live : MatchTableCmd → (ℕ → Option Live) → Option Live → Option (ℕ → Option Live)
put_live c live (some l) = none
put_live c live none = some (
    update live c.flow_id (
      some (record {
        five_tuple = c.five_tuple;
        register_index = flow_id_to_register_index c.session_id;
      })))

-- An id is given up, if it is in use for a flow of the same protocol.
unfoldable pub drop_live :
    MatchTableCmd → (ℕ → Option Live) → Option Live → Option (ℕ → Option Live)
drop_live c live none = none
drop_live c live (some l) =
    if proto_of l.five_tuple == proto_of c.five_tuple
    then some (update live c.flow_id none)
    else none

-- The flows by their ids, after a command. A command that adds an id twice, or removes a flow that
-- has not been added or that has another protocol, is out of order.
unfoldable pub follow : DataplaneCommand → (ℕ → Option Live) → Option (ℕ → Option Live)
follow (dp_add_flow c) live = put_live c live (live c.flow_id)
follow (dp_remove_flow c) live = drop_live c live (live c.flow_id)
follow (dp_clear_registers c) live = some live
follow (dp_add_bloom_filter c) live = some live
follow (dp_remove_bloom_filter c) live = some live

module _ {S : Type 0} (driver : Driver S ℕ) (rows : S → ℕ → ℕ → Option Row) where
  -- The tables hold a row for each live flow, at the handle that is kept for its id, and no other.
  pub record Mirrors (live : ℕ → Option Live) (d : Dataplane S ℕ) : Type 0 where
    pub typed : (f : ℕ) (l : Live) → live f ≡ some l → proto_of l.five_tuple ≢ 0
    pub has :
        (f : ℕ) (l : Live)
        → live f ≡ some l
        → rows d.switch (proto_of l.five_tuple) (d.entry_hdls f) ≡ row_of l
    pub only :
        (p k : ℕ) (row : Row)
        → rows d.switch p k ≡ some row
        → (f : ℕ) × (l : Live) × (live f ≡ some l)
          × (proto_of l.five_tuple ≡ p)
          × (d.entry_hdls f ≡ k)
    pub apart :
        (f f' : ℕ) (l l' : Live)
        → live f ≡ some l
        → live f' ≡ some l'
        → proto_of l.five_tuple ≡ proto_of l'.five_tuple
        → d.entry_hdls f ≡ d.entry_hdls f'
        → f ≡ f'
