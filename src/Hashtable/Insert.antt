-- ===== src/Hashtable/Insert.antt =====
-- Writing an entry into the free cell at which the search for its key has ended.
use marina.Prelude.{
  ℕ, ◌<◌, ◌≡◌, ◌≢◌, sym, true, arith, update, update_self, update_ne, ℕ_discrete, ◌%◌, ◌⊎◌, inl,
  inr,
}
use marina.Hashtable.{Scheme, Entry, home, dist}
use marina.Hashtable.Chain.{IsLawful, IsOccupied, IsAt, IsChained}
use marina.Hashtable.Probe.{Passed}

module _ {K V : Type 0} (scheme : Scheme K) (lawful : IsLawful scheme) (entries : ℕ → Entry K V)
    (e : Entry K V) (i : ℕ) where
  open scheme use {size, hash_of, same}

  written : ℕ → Entry K V
  written = update entries i e

  cases : (c : ℕ) → ((c ≡ i) × (written c ≡ e)) ⊎ ((c ≢ i) × (written c ≡ entries c))
  unfolding written
  cases c = elim (ℕ_discrete c i) [
    | yes p ↦ inl (p, rw p (update_self entries i e))
    | no ne ↦ inr (ne, update_ne entries i e c (λ q. ne (sym q)))
  ]

  module _ (chained : IsChained scheme entries) (on : e.occupied ≡ true)
      (hash_right : e.hash ≡ hash_of e.key) (hi : i < size)
      (passed : Passed scheme entries e.key e.hash i)
      (absent : (j : ℕ) → ¬ IsAt scheme entries e.key j) where
    written_unique :
        (c d : ℕ)
        → c < size
        → d < size
        → IsOccupied scheme written c
        → IsOccupied scheme written d
        → same (written c).key (written d).key ≡ true
        → c ≡ d
    written_unique c d hc hd oc od eq = elim (cases c) [
      | inl (pc, wc) ↦ elim (cases d) [
        | inl (pd, wd) ↦ omega arith
        | inr (nd, wd) ↦
            absurd (
              absent d
                (hd, rw wd at od, lawful.same_symm e.key (entries d).key (rw (wc, wd) at eq)))
      ]
      | inr (nc, wc) ↦ elim (cases d) [
        | inl (pd, wd) ↦ absurd (absent c (hc, rw wc at oc, rw (wc, wd) at eq))
        | inr (nd, wd) ↦ chained.unique c d hc hd (rw wc at oc) (rw wd at od) (rw (wc, wd) at eq)
      ]
    ]

    written-reach :
        (c d : ℕ)
        → c < size
        → d < size
        → IsOccupied scheme written c
        → dist size (home scheme (written c)) d < dist size (home scheme (written c)) c
        → IsOccupied scheme written d
    unfolding home
    written-reach c d hc hd oc near = elim (cases d) [
      | inl (pd, wd) ↦ rw wd on
      | inr (nd, wd) ↦ rw wd (elim (cases c) [
        | inl (pc, wc) ↦
            let before : dist size (e.hash % size) d < dist size (e.hash % size) i =
              before_i d pc (rw wc at near) in
            ground (arith, passed d hd before)
        | inr (nc, wc) ↦ chained.reach c d hc hd (rw wc at oc) (rw wc at near)
      ])
    ]
      where
        before_i :
            (d : ℕ)
            → c ≡ i
            → dist size (home scheme e) d < dist size (home scheme e) c
            → dist size (e.hash % size) d < dist size (e.hash % size) i
        before_i d p h = rw p at h

    -- The table stays in order if the key is not in it.
    pub insert-IsChained : IsChained scheme (update entries i e)
    unfolding written
    insert-IsChained = record {
      hashed = λ c hc occ. elim (cases c) [
        | inl (_, w) ↦ rw w hash_right
        | inr (_, w) ↦ rw w (chained.hashed c hc (rw w at occ))
      ];
      unique = written_unique;
      reach = written-reach;
    }
