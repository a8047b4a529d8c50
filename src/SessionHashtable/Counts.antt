-- ===== src/SessionHashtable/Counts.antt =====
-- The flow counts of the session hash table, with sessions in use.
use marina.Prelude.{
  ℕ, zero, suc, ◌+◌, ◌<◌, ◌≡◌, refl, ◌∙◌, true, arith, Option, none, some, if◌then◌else◌, update,
  update_self, Returns, returns, Returns-bind, Returns-map, ap, success, failure, ◌==◌, not, ◌>>=◌,
  Bool-cases, inl, inr,
}
use marina.Prelude.Int.{ℤ, pos, ◌+ℤ◌, ◌-ℤ◌}
use marina.Structs.{FiveTuple, FiveTupleForHash, FiveTupleForSessionHash}
use marina.Hashtable.{Scheme}
use marina.Hashtable.Represents.{bind}
use marina.SessionHashtable.{
  SessionHashtable, is_zero, count_down, still_counted,
  session_hashtable_add_or_increase_flow_count, session_hashtable_remove_or_decrease_flow_count,
}
use marina.SessionHashtable.Laws.{
  sessions, lawful, Models, session_hashtable_add_lem, session_hashtable_add-known,
}
use marina.SessionHashtable.Removal.{session_hashtable_remove_lem, session_hashtable_remove-counted}

plus_one : (k : ℕ) → pos k +ℤ pos 1 ≡ pos (k + 1)
unfolding ◌+ℤ◌
plus_one k = ground arith

minus_one_zero : (k : ℕ) → is_zero (pos k -ℤ pos 1) ≡ (k == 1)
unfolding ◌-ℤ◌
minus_one_zero k = ground arith

module _ (murmur_h : FiveTupleForHash → ℕ) (murmur_sh : FiveTupleForSessionHash → ℕ) (size : ℕ)
    (pos_size : 0 < size) (key : FiveTuple) (value : ℕ) where
  abbrev pub Holds : SessionHashtable → (FiveTuple → Option ℕ) → Type 0
  Holds = Models true murmur_h murmur_sh size pos_size

  abbrev pub table : Scheme FiveTuple
  table = sessions true murmur_h murmur_sh size pos_size

  table_refl : (k : FiveTuple) → table.same k k ≡ true
  table_refl k = (lawful true murmur_h murmur_sh size pos_size).same_refl k

  -- Whether a session with the count is kept once the count is taken down.
  still_test :
      (t : SessionHashtable) (n : ℕ)
      → t.flow_count value ≡ pos n
      → still_counted true murmur_h murmur_sh size
          (count_down true murmur_h murmur_sh size t value)
          value
        ≡ not (n == 1)
  unfolding still_counted count_down
  still_test t n e =
      rw (update_self t.flow_count value (t.flow_count value -ℤ pos 1), e, minus_one_zero n)

  -- `n` flows of the session of `key`, one after the other.
  pub add_flows : ℕ → SessionHashtable → Option SessionHashtable
  add_flows zero t = some t
  add_flows (suc n) t =
      session_hashtable_add_or_increase_flow_count true murmur_h murmur_sh size t key value
      >>= λ (_, t'). add_flows n t'

  -- The session is in the table, and its count is `k`.
  pub record Counts (m : FiveTuple → Option ℕ) (k : ℕ) (t : SessionHashtable) : Type 0 where
    pub holds : Holds t m
    pub known : m key ≡ some value
    pub room : t.num_entries < size
    pub count : t.flow_count value ≡ pos k

  more_flows :
      (n k : ℕ) (t : SessionHashtable) (m : FiveTuple → Option ℕ)
      → Counts m k t
      → Returns (Counts m (n + k)) (add_flows n t)
  unfolding add_flows
  more_flows zero k t m c = returns (record {
    holds = c.holds;
    known = c.known;
    room = c.room;
    count = c.count ∙ ap pos (omega arith);
  })
  more_flows (suc n) k t m c =
      let t' = record t { flow_count = update t.flow_count value (t.flow_count value +ℤ pos 1) } in
      rw
        (session_hashtable_add-known true murmur_h murmur_sh size pos_size t m c.holds key value
          value c.known c.room)
        (Returns-map
          (more_flows n (k + 1) t' m (record {
            holds = record {
              chained = c.holds.chained;
              counted = c.holds.counted;
              represents = c.holds.represents;
              indexed = c.holds.indexed;
            };
            known = c.known;
            room = c.room;
            count =
                update_self t.flow_count value (t.flow_count value +ℤ pos 1)
                ∙ one_more k (t.flow_count value) c.count;
          }))
          λ u d. record {
            holds = d.holds;
            known = d.known;
            room = d.room;
            count = d.count ∙ ap pos (omega arith);
          })
    where
      one_more : (k : ℕ) (x : ℤ) → x ≡ pos k → x +ℤ pos 1 ≡ pos (k + 1)
      one_more k x e = rw e (plus_one k)

  module _ (t : SessionHashtable) (m : FiveTuple → Option ℕ) (holds : Holds t m)
      (missing : m key ≡ none) (unused : t.feature_index_to_entry_map value ≡ none)
      (room : t.num_entries + 1 < size) (fresh : t.flow_count value ≡ pos 0) where
    -- The first flow of a session is not counted: after `n + 1` flows the count of the session is `n`.
    pub count_lags : (n : ℕ) → Returns (Counts (bind table key value m) n) (add_flows (suc n) t)
    unfolding add_flows
    count_lags n =
        Returns-bind
          (session_hashtable_add_lem true murmur_h murmur_sh size pos_size t m holds key value
            missing unused (omega arith))
          λ r a.
            Returns-map
              (more_flows n 0 r.1 (bind table key value m) (record {
                holds = a.now;
                known = rw (table_refl key);
                room = omega (arith, a.one_more);
                count = ap (λ c. c value) a.counts_kept ∙ fresh;
              }))
              λ u d. record {
                holds = d.holds;
                known = d.known;
                room = d.room;
                count = d.count ∙ ap pos (omega arith);
              }

    -- With sessions in use, if `n + 1` flows of a new session whose id has a count of 0 are
    -- added to a table with two free cells, and the end of one flow is reported after that,
    -- the removal ends, and it removes the session exactly if `n` is 1.
    pub removal_off_by_one :
        (n : ℕ)
        → Returns
            (λ r. r.0 ≡ (if n == 1 then success else failure))
            (add_flows (suc n) t >>= λ t'.
              session_hashtable_remove_or_decrease_flow_count true murmur_h murmur_sh size t' key
                value)
    removal_off_by_one n = Returns-bind (count_lags n) λ t' c.
        let m' = bind table key value m in
        let test = still_test t' n c.count in
        elim (Bool-cases (n == 1)) [
          | inl two ↦ rw two (
              Returns-map
                (session_hashtable_remove_lem true murmur_h murmur_sh size pos_size t' m' c.holds
                  key value value c.known (test ∙ ap not two) c.room)
                λ r p. p.0)
          | inr other ↦
              rw
                (
                  other,
                  session_hashtable_remove-counted true murmur_h murmur_sh size pos_size t' m'
                      c.holds key value (test ∙ ap not other),
                )
                (returns refl)
        ]
