-- ===== src/Hashtable/Represents.antt =====
-- A hash table as a finite map from keys to values: what the search finds in it, and what writing
-- an entry into it changes.
use marina.Prelude.{
  ℕ, ◌<◌, ◌≡◌, ◌≢◌, ◌↔◌, inl, inr, refl, true, Option, none, some, update, update_self, update_ne,
  if◌then◌else◌, ℕ_discrete, Bool-cases, ap,
}
use mathlib.Core.Path.{fun_ext}
use marina.Hashtable.{Scheme, Entry, found, free, get_hashtable_index}
use marina.Hashtable.Chain.{IsLawful, IsOccupied, IsFree, IsAt, IsChained}
use marina.Hashtable.Probe.{Passed, get_hashtable_index-at, get_hashtable_index-absent}
use marina.Hashtable.Insert.{insert-IsChained}
use marina.Hashtable.Contents.{Stores, free_cell, occupied_count}

module _ {K V : Type 0} (scheme : Scheme K) where
  open scheme use {size, hash_of, same}

  -- The cells hold the entries of the map `m`, and no others.
  abbrev pub Represents : (ℕ → Entry K V) → (K → Option V) → Type 0
  Represents entries m = (key : K) (v : V) → Stores scheme entries key v ↔ (m key ≡ some v)

  -- The map with the key taken to the value.
  abbrev pub bind : K → V → (K → Option V) → K → Option V
  bind key v m k = if same key k then some v else m k

  -- The map without the key.
  abbrev pub unbind : K → (K → Option V) → K → Option V
  unbind key m k = if same key k then none else m k

  -- Keys that are the same to the table have the same map without them.
  pub unbind_same :
      (key key' : K) (m : K → Option V)
      → IsLawful scheme
      → same key key' ≡ true
      → unbind key m ≡ unbind key' m
  unbind_same key key' m lawful e = fun_ext λ k.
      let one_way = lawful.same_trans key' key k (lawful.same_symm key key' e) in
      let back = lawful.same_trans key key' k e in
      elim (Bool-cases (same key k)) [
        | inl hit ↦ rw (hit, one_way hit)
        | inr miss ↦ elim (Bool-cases (same key' k)) [
          | inl hit ↦ cc (back hit)
          | inr miss' ↦ rw (miss, miss')
        ]
      ]

  module _ (lawful : IsLawful scheme) (entries : ℕ → Entry K V) (chained : IsChained scheme entries)
      (m : K → Option V) (rep : Represents entries m) where
    pub absent_of_none : (key : K) → m key ≡ none → (j : ℕ) → ¬ IsAt scheme entries key j
    absent_of_none key e j (hj, on, hit) =
        cc ((rep key (entries j).value).0 (j, hj, on, hit, refl), e)

    pub search-some :
        (key : K) (v : V)
        → m key ≡ some v
        → (j : ℕ) × (get_hashtable_index scheme entries key (hash_of key) ≡ some (found j))
          × (j < size)
          × IsOccupied scheme entries j
          × (same (entries j).key key ≡ true)
          × ((entries j).value ≡ v)
    search-some key v e =
        let (j, hj, on, hit, val) = (rep key v).1 e in
        (
          j,
          get_hashtable_index-at scheme entries key lawful chained j (hj, on, hit),
          hj,
          on,
          hit,
          val,
        )

    pub search-none :
        (key : K)
        → m key ≡ none
        → occupied_count entries size < size
        → (i : ℕ) × (get_hashtable_index scheme entries key (hash_of key) ≡ some (free i))
          × IsFree scheme entries i
          × Passed scheme entries key (hash_of key) i
    search-none key e room =
        let (f, hf, off) = free_cell entries size room in
        get_hashtable_index-absent scheme entries key lawful chained f (hf, off)
          (absent_of_none key e)

    module _ (e : Entry K V) (i : ℕ) (missing : m e.key ≡ none) (on : e.occupied ≡ true)
        (hash_right : e.hash ≡ hash_of e.key) (off : IsFree scheme entries i)
        (passed : Passed scheme entries e.key (hash_of e.key) i) where
      pub write-IsChained : IsChained scheme (update entries i e)
      write-IsChained =
          insert-IsChained scheme lawful entries e i chained on hash_right off.0
            (rw hash_right passed) (absent_of_none e.key missing)

      write-Stores :
          (key : K) (v : V)
          → Stores scheme (update entries i e) key v
          → bind e.key e.value m key ≡ some v
      write-Stores key v (c, hc, oc, hit, val) = elim (ℕ_discrete i c) [
        | yes p ↦
            let w : update entries i e c ≡ e = rw (← p) (update_self entries i e) in
            let hit' : same e.key key ≡ true = rw w at hit in
            let val' : e.value ≡ v = rw w at val in rw hit' (ap some val')
        | no ne ↦
            let w = update_ne entries i e c ne in
            let stored : m key ≡ some v =
              (rep key v).0 (c, hc, rw w at oc, rw w at hit, rw w at val) in
            elim (Bool-cases (same e.key key)) [
              | inl eq ↦ absurd (
                  absent_of_none e.key missing c (
                    hc,
                    rw w at oc,
                    lawful.same_trans (entries c).key key e.key (rw w at hit)
                        (lawful.same_symm e.key key eq),
                  ))
              | inr other ↦ rw other stored
            ]
      ]

      written_stored :
          (key : K) (v : V)
          → bind e.key e.value m key ≡ some v
          → Stores scheme (update entries i e) key v
      written_stored key v b = elim (Bool-cases (same e.key key)) [
        | inl eq ↦
            let b' : some e.value ≡ some v = rw eq at b in
            let w = update_self entries i e in (i, off.0, rw w on, rw w eq, rw w (cc))
        | inr other ↦
            let (c, hc, oc, hit, val) = (rep key v).1 (rw other at b) in
            let ne : i ≢ c = λ p. cc (ap (λ k. (entries k).occupied) p, off.1, oc) in
            let w = update_ne entries i e c ne in (c, hc, rw w oc, rw w hit, rw w val)
      ]

      pub write-Represents : Represents (update entries i e) (bind e.key e.value m)
      write-Represents key v = (write-Stores key v, written_stored key v)
