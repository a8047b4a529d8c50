-- ===== src/SessionHashtable/Uses.antt =====
-- Which session ids the session hash table uses, across an addition and a removal of any kind.
use marina.Prelude.{
  ℕ, ◌+◌, ◌<◌, ◌≡◌, ◌⊎◌, inl, inr, refl, Bool, true, false, arith, Option, none, some,
  if◌then◌else◌, ◌==◌, Returns, returns, Returns-map, Status, success, failure, Option-cases,
  Bool-cases, ◌>>=◌, ap,
}
use marina.Prelude.Int.{ℤ}
use marina.Structs.{FiveTuple, FiveTupleForHash, FiveTupleForSessionHash}
use marina.Hashtable.Represents.{search-none}
use marina.Hashtable.Uses.{uses_of, Holds, uses-add, uses-remove}
use marina.SessionHashtable.{
  SessionHashtable, session_hashtable_add_or_increase_flow_count, remove_at, count_down,
  still_counted, session_hashtable_remove_or_decrease_flow_count,
}
use marina.SessionHashtable.Laws.{
  sessions, lawful, Models, session_hashtable_add_lem, session_hashtable_add-known,
}
use marina.SessionHashtable.Removal.{
  down, down-Models, session_hashtable_remove_lem, session_hashtable_remove-counted,
}

-- How many sessions have the id.
abbrev pub sessions_in_use : SessionHashtable → ℕ → ℕ
sessions_in_use t x = uses_of (t.feature_index_to_entry_map x)

abbrev id_at : ℕ → ℕ → ℕ
id_at id x = if id == x then 1 else 0

module _ (use_sessions : Bool) (murmur_h : FiveTupleForHash → ℕ)
    (murmur_sh : FiveTupleForSessionHash → ℕ) (size : ℕ) (pos_size : 0 < size) where
  pub Models-Holds :
      {t : SessionHashtable} {m : FiveTuple → Option ℕ}
      → Models use_sessions murmur_h murmur_sh size pos_size t m
      → Holds
          (sessions use_sessions murmur_h murmur_sh size pos_size)
          (lawful use_sessions murmur_h murmur_sh size pos_size)
          m
          t.entries
          t.feature_index_to_entry_map
  Models-Holds holds = record { represents = holds.represents; indexed = holds.indexed }

  module _ (t : SessionHashtable) (m : FiveTuple → Option ℕ)
      (holds : Models use_sessions murmur_h murmur_sh size pos_size t m)
      (room : t.num_entries < size) where
    -- A table that still represents a map, where `taken` says which ids it uses now.
    abbrev pub Uses : (ℕ → ℕ) → SessionHashtable → Type 0
    Uses taken t' =
        (m' : FiveTuple → Option ℕ) × Models use_sessions murmur_h murmur_sh size pos_size t' m'
        × ((x : ℕ) → sessions_in_use t' x ≡ taken x)

    -- The id is that of the session, or it is not in use and the session is new.
    abbrev pub Joins : FiveTuple → ℕ → (ℕ → ℕ) → Type 0
    Joins key value out =
        ((m key ≡ some value) × ((x : ℕ) → out x ≡ 0))
        ⊎ ((m key ≡ none)
            × (t.feature_index_to_entry_map value ≡ none)
            × ((x : ℕ) → out x ≡ id_at value x))

    pub join_lem :
        (key : FiveTuple) (value : ℕ) (out : ℕ → ℕ)
        → Joins key value out
        → Returns
            (λ r. Uses (λ x. sessions_in_use t x + out x) r.1)
            (session_hashtable_add_or_increase_flow_count use_sessions murmur_h murmur_sh size t key
              value)
    join_lem key value out (inl (known, nothing)) =
        rw
          (session_hashtable_add-known use_sessions murmur_h murmur_sh size pos_size t m holds key
            value value known room)
          (returns (counted use_sessions _))
      where
        counted :
            (b : Bool) (count : ℕ → ℤ)
            → Uses
                (λ x. sessions_in_use t x + out x)
                (if b then record t { flow_count = count } else t)
        counted true count = (
          m,
          record {
            chained = holds.chained;
            counted = holds.counted;
            represents = holds.represents;
            indexed = holds.indexed;
          },
          λ x. omega (arith, nothing x),
        )
        counted false count = (m, holds, λ x. omega (arith, nothing x))
    join_lem key value out (inr (missing, unused, one)) =
        Returns-map
          (session_hashtable_add_lem use_sessions murmur_h murmur_sh size pos_size t m holds key
            value missing unused room)
          λ r a. (
            _,
            a.now,
            λ x. omega (
              arith,
              one x,
              uses-add (sessions use_sessions murmur_h murmur_sh size pos_size)
                  (lawful use_sessions murmur_h murmur_sh size pos_size) m (Models-Holds holds) key
                  value missing unused (Models-Holds a.now) x,
            ),
          )

    -- What a removal leaves: the session is gone with its id, or nothing is.
    abbrev pub Leaves : Status × ℕ × SessionHashtable → Type 0
    Leaves (status, id, t') =
        (m' : FiveTuple → Option ℕ) × Models use_sessions murmur_h murmur_sh size pos_size t' m'
        × (((status ≡ failure) × ((x : ℕ) → sessions_in_use t' x ≡ sessions_in_use t x))
            ⊎ ((status ≡ success)
                × ((x : ℕ) → sessions_in_use t' x + id_at id x ≡ sessions_in_use t x)))

    missing_lem :
        (key : FiveTuple) (value : ℕ)
        → m key ≡ none
        → still_counted use_sessions murmur_h murmur_sh size
            (count_down use_sessions murmur_h murmur_sh size t value)
            value
          ≡ false
        → session_hashtable_remove_or_decrease_flow_count use_sessions murmur_h murmur_sh size t key
            value
          ≡ some (failure, value, count_down use_sessions murmur_h murmur_sh size t value)
    unfolding session_hashtable_remove_or_decrease_flow_count remove_at count_down
    missing_lem key value missing last =
        let (i, e, _, _) =
          search-none (sessions use_sessions murmur_h murmur_sh size pos_size)
            (lawful use_sessions murmur_h murmur_sh size pos_size) t.entries holds.chained m
            holds.represents key missing (omega (arith, holds.counted)) in
        let counted = count_down use_sessions murmur_h murmur_sh size t value in
        rw last
          (ap (λ slot. slot >>= remove_at use_sessions murmur_h murmur_sh size counted value) e)

    counted_same :
        (value x : ℕ)
        → sessions_in_use (count_down use_sessions murmur_h murmur_sh size t value) x
          ≡ sessions_in_use t x
    unfolding count_down
    counted_same value x = refl

    pub leave_lem :
        (key : FiveTuple) (value : ℕ)
        → Returns Leaves (
            session_hashtable_remove_or_decrease_flow_count use_sessions murmur_h murmur_sh size t
              key value)
    leave_lem key value =
        let counted = down use_sessions murmur_h murmur_sh size pos_size t m holds value in
        let models = down-Models use_sessions murmur_h murmur_sh size pos_size t m holds value in
        elim (Bool-cases (still_counted use_sessions murmur_h murmur_sh size counted value)) [
          | inl more ↦
              rw
                (session_hashtable_remove-counted use_sessions murmur_h murmur_sh size pos_size t m
                  holds key value more)
                (returns (m, models, inl (refl, λ x. counted_same value x)))
          | inr last ↦ elim (Option-cases (m key)) [
            | inl missing ↦
                rw (missing_lem key value missing last)
                  (returns (m, models, inl (refl, λ x. counted_same value x)))
            | inr (v, known) ↦
                Returns-map
                  (session_hashtable_remove_lem use_sessions murmur_h murmur_sh size pos_size t m
                    holds key value v known last room)
                  λ (status, id, t') (ok, is_v, left). (
                    _,
                    left.0,
                    inr (
                      ok,
                      λ x. omega (
                        arith,
                        ap (λ i. id_at i x) is_v,
                        uses-remove (sessions use_sessions murmur_h murmur_sh size pos_size)
                            (lawful use_sessions murmur_h murmur_sh size pos_size) m
                            (Models-Holds holds) key v known (Models-Holds left.0) x,
                      ),
                    ),
                  )
          ]
        ]
