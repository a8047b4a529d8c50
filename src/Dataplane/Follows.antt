-- ===== src/Dataplane/Follows.antt =====
-- The data plane thread on a sequence of commands, beside the flows that these add and remove.
use marina.Prelude.{
  ℕ, ◌≡◌, sym, ap, ◌∙◌, refl, arith, ◌==◌, update, update_lem, Option, none, some, ◌>>=◌,
  Option-cases, inl, inr, Bool-cases, List, [], ◌++◌, ◌∷◌,
}
use mathlib.Core.Path.{subst}
use marina.Structs.{flow_id_to_register_index}
use marina.Commands.{
  DataplaneCommand, MatchTableCmd, dp_add_flow, dp_remove_flow, dp_clear_registers,
  dp_add_bloom_filter, dp_remove_bloom_filter,
}
use marina.DpApi.{Driver, ok}
use marina.DpApi.Rows.{Row, Works, add-rows, remove-rows, write-rows}
use marina.Dataplane.{Dataplane, execute, clear_registers}
use marina.Dataplane.Mirror.{Live, proto_of, row_of, follow, put_live, drop_live, Mirrors}
use marina.Dataplane.MirrorSteps.{Mirrors-added, Mirrors-removed, held}

pub bind-some :
    {A B : Type 0} (x : Option A) (f : A → Option B) (y : B)
    → (x >>= f) ≡ some y
    → (a : A) × (x ≡ some a) × (f a ≡ some y)
bind-some none f y e = cc e
bind-some (some a) f y e = (a, refl, e)

bind-none : {A : Type 0} (x : Option A) → (x >>= some) ≡ x
bind-none none = refl
bind-none (some a) = refl

-- The flows after a sequence of commands, if it is in order.
unfoldable pub follow_all : List DataplaneCommand → (ℕ → Option Live) → Option (ℕ → Option Live)
follow_all [] live = some live
follow_all (command ∷ rest) live = follow command live >>= follow_all rest

pub follow_all-append :
    (q : List DataplaneCommand) (command : DataplaneCommand) (live mid : ℕ → Option Live)
    → follow_all q live ≡ some mid
    → follow_all (q ++ command ∷ []) live ≡ follow command mid
unfolding follow_all
follow_all-append [] command live mid e =
    bind-none (follow command live) ∙ ap (follow command) (cc e)
follow_all-append (c ∷ q) command live mid e =
    let (l, e₁, e₂) = bind-some (follow c live) (follow_all q) mid e in
    rw e₁ (follow_all-append q command l mid e₂)

module _ {S : Type 0} (driver : Driver S ℕ) (write_last_timestamp : ℕ → ℕ → ℕ → S → S) where
  -- The loop of `dataplane_thread`, until the ring buffer is empty.
  unfoldable pub execute_all : List DataplaneCommand → Dataplane S ℕ → Dataplane S ℕ
  execute_all [] d = d
  execute_all (command ∷ rest) d = execute_all rest (execute driver write_last_timestamp d command)

  -- The driver refuses none of the additions.
  unfoldable pub AllAdded : List DataplaneCommand → Dataplane S ℕ → Type 0
  AllAdded [] d = Unit
  AllAdded (dp_add_flow c ∷ rest) d =
      let d' = execute driver write_last_timestamp d (dp_add_flow c) in
      (d'.status ≡ ok) × AllAdded rest d'
  AllAdded (command ∷ rest) d = AllAdded rest (execute driver write_last_timestamp d command)

  module _ (rows : S → ℕ → ℕ → Option Row) (works : Works driver rows)
      (stamp : (pipe index value : ℕ) (s : S)
        → rows (write_last_timestamp pipe index value s) ≡ rows s) where
    -- The tables and the handles are as they were.
    unchanged :
        (live : ℕ → Option Live) (d d' : Dataplane S ℕ)
        → Mirrors driver rows live d
        → ((p k : ℕ) → rows d'.switch p k ≡ rows d.switch p k)
        → ((f : ℕ) → d'.entry_hdls f ≡ d.entry_hdls f)
        → Mirrors driver rows live d'
    unchanged live d d' m same hdl = record {
      typed = m.typed;
      has = λ f l e.
          ground (arith, hdl f, same (proto_of l.five_tuple) (d.entry_hdls f), m.has f l e);
      only = λ p k row there.
          let (f, l, e, code, at) = m.only p k row (ground (arith, same p k, there)) in
          (f, l, e, code, hdl f ∙ at);
      apart = λ f f' l l' e e' code at. m.apart f f' l l' e e' code (cc (hdl f, hdl f', at));
    }

    add-Mirrors :
        (c : MatchTableCmd) (live live' : ℕ → Option Live) (d : Dataplane S ℕ)
        → Mirrors driver rows live d
        → follow (dp_add_flow c) live ≡ some live'
        → (execute driver write_last_timestamp d (dp_add_flow c)).status ≡ ok
        → Mirrors driver rows live' (execute driver write_last_timestamp d (dp_add_flow c))
    unfolding follow execute put_live drop_live row_of
    add-Mirrors c live live' d m e good = elim (Option-cases (live c.flow_id)) [
      | inr (l, known) ↦ absurd (cc (rw (known, follow) at e))
      | inl absent ↦
          let l : Live = record {
            five_tuple = c.five_tuple;
            register_index = flow_id_to_register_index c.session_id;
          } in
          let new : update live c.flow_id (some l) ≡ live' = cc (rw (absent, follow) at e) in
          let (typed, free, at) =
            add-rows driver rows works c.five_tuple (flow_id_to_register_index c.session_id)
              (d.entry_hdls c.flow_id) d.switch good in
          subst (λ x. Mirrors driver rows x (execute driver write_last_timestamp d (dp_add_flow c)))
            new
            (Mirrors-added driver rows live d
              (execute driver write_last_timestamp d (dp_add_flow c)) c.flow_id _ l m absent typed
              free at (λ k. update_lem d.entry_hdls c.flow_id _ k))
    ]

    remove-Mirrors :
        (c : MatchTableCmd) (live live' : ℕ → Option Live) (d : Dataplane S ℕ)
        → Mirrors driver rows live d
        → follow (dp_remove_flow c) live ≡ some live'
        → Mirrors driver rows live' (execute driver write_last_timestamp d (dp_remove_flow c))
    unfolding follow execute put_live drop_live row_of
    remove-Mirrors c live live' d m e = elim (Option-cases (live c.flow_id)) [
      | inl absent ↦ absurd (cc (rw (absent, follow) at e))
      | inr (l, known) ↦ elim (Bool-cases (proto_of l.five_tuple == proto_of c.five_tuple)) [
        | inr other ↦ absurd (cc (rw (known, follow, other) at e))
        | inl same ↦
            let new : update live c.flow_id none ≡ live' = cc (rw (known, follow, same) at e) in
            let code : proto_of l.five_tuple ≡ proto_of c.five_tuple = ground (arith, same) in
            let (row, there) = held driver rows live d c.flow_id l m known in
            let (good, at) =
              remove-rows driver rows works c.five_tuple (d.entry_hdls c.flow_id) row d.switch
                (rw (sym code) (m.typed c.flow_id l known)) (rw (sym code) there) in
            subst
              (λ x.
                Mirrors driver rows x (execute driver write_last_timestamp d (dp_remove_flow c)))
              new
              (Mirrors-removed driver rows live d
                (execute driver write_last_timestamp d (dp_remove_flow c)) c.flow_id l m known
                (rw code at) (λ k. refl))
      ]
    ]

    -- If commands are in order, in that none adds an id that is in use, or removes an id that is
    -- not or under another protocol, and the driver does what is documented and refuses no
    -- addition, then the tables of the switch, which held a row for each flow that was live
    -- before, at the handle that is kept for its id, and no other, hold after the commands the
    -- rows of the flows that are live then, in the same way: every removal deletes the row of its
    -- flow.
    pub execute_all-Mirrors :
        (commands : List DataplaneCommand) (live live' : ℕ → Option Live) (d : Dataplane S ℕ)
        → Mirrors driver rows live d
        → follow_all commands live ≡ some live'
        → AllAdded commands d
        → Mirrors driver rows live' (execute_all commands d)
    unfolding follow_all execute_all AllAdded follow execute clear_registers
    execute_all-Mirrors [] live live' d m e added = subst (λ x. Mirrors driver rows x d) (cc e) m
    execute_all-Mirrors (dp_add_flow c ∷ rest) live live' d m e (good, added) =
        let (mid, e₁, e₂) = bind-some (follow (dp_add_flow c) live) (follow_all rest) live' e in
        execute_all-Mirrors rest mid live' _ (add-Mirrors c live mid d m e₁ good) e₂ added
    execute_all-Mirrors (dp_remove_flow c ∷ rest) live live' d m e added =
        let (mid, e₁, e₂) = bind-some (follow (dp_remove_flow c) live) (follow_all rest) live' e in
        execute_all-Mirrors rest mid live' _ (remove-Mirrors c live mid d m e₁) e₂ added
    execute_all-Mirrors (dp_clear_registers c ∷ rest) live live' d m e added =
        execute_all-Mirrors rest live live' _
          (unchanged live d _ m (λ p k. ap (λ r. r p k) (stamp _ _ _ _)) (λ f. refl)) e added
    execute_all-Mirrors (dp_add_bloom_filter c ∷ rest) live live' d m e added =
        execute_all-Mirrors rest live live' _
          (unchanged live d _ m (λ p k. ap (λ r. r p k) (write-rows driver rows works _ _ _ _))
            (λ f. refl))
          e added
    execute_all-Mirrors (dp_remove_bloom_filter c ∷ rest) live live' d m e added =
        execute_all-Mirrors rest live live' d m e added

    -- The same for one command.
    pub execute-Mirrors :
        (c : DataplaneCommand) (live live' : ℕ → Option Live) (d : Dataplane S ℕ)
        → Mirrors driver rows live d
        → follow c live ≡ some live'
        → AllAdded (c ∷ []) d
        → Mirrors driver rows live' (execute driver write_last_timestamp d c)
    unfolding follow_all execute_all
    execute-Mirrors c live live' d m e added =
        execute_all-Mirrors (c ∷ []) live live' d m (bind-none (follow c live) ∙ e) added
