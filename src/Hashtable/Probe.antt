-- ===== src/Hashtable/Probe.antt =====
-- The search for a key.
use marina.Prelude.{
  ℕ, zero, suc, ◌+◌, ◌%◌, ◌≤◌, ◌<◌, ◌≡◌, ◌≢◌, refl, ◌∙◌, Bool, true, false, none, some, not, ◌&&◌,
  ◌||◌, ◌==◌, arith, Returns, returns, Returns-inv, Bool-cases, inl, inr, ==_iff, ℕ_discrete,
  dec_lt, ap,
}
use native.Mathlib.Nat.{mod-lt}
use marina.Hashtable.{
  Scheme, Entry, home, dist, next, Slot, found, free, probe_loop, get_hashtable_index,
}
use marina.Hashtable.Circle.{next-lt, dist-lt, dist_last, dist-next, dist-injective, dist_self}
use marina.Hashtable.Chain.{IsLawful, IsOccupied, IsFree, IsAt, IsChained}

module _ {K V : Type 0} (scheme : Scheme K) (entries : ℕ → Entry K V) (key : K) (hash : ℕ) where
  open scheme use {size, hash_of, same}

  abbrev pub matches : ℕ → Bool
  matches c = (entries c).hash == hash && same (entries c).key key

  -- A search ends at this cell.
  abbrev pub stops : ℕ → Bool
  stops c = not (entries c).occupied || matches c

  abbrev pub start : ℕ
  start = hash % size

  -- The search has passed all the cells before `i`.
  abbrev pub Passed : ℕ → Type 0
  Passed i = (c : ℕ) → c < size → dist size start c < dist size start i → stops c ≡ false

  abbrev pub Outcome : Slot → Type 0
  Outcome (found i) = (i < size) × IsOccupied scheme entries i × (matches i ≡ true)
  Outcome (free i) = IsFree scheme entries i × Passed i

  start-lt : 0 < size → start < size
  start-lt pos = mod-lt hash pos

  module _ (pos : 0 < size) (f : ℕ) (inside : f < size) (stop : stops f ≡ true) where
    stop-behind : (i : ℕ) → Passed i → dist size start i ≤ dist size start f
    stop-behind i passed = ground (arith, passed f inside)

    not_last : (i : ℕ) → i < size → Passed i → stops i ≡ false → next size i ≢ start
    not_last i hi passed go e =
        let last = dist_last start i (start-lt pos) hi e in
        let far = dist-lt start f (start-lt pos) inside in
        let same_way : dist size start i ≡ dist size start f =
          omega (arith, stop-behind i passed) in
        let here = dist-injective start i f (start-lt pos) hi inside same_way in cc (ap stops here)

    pass : (i : ℕ) → i < size → Passed i → stops i ≡ false → Passed (next size i)
    pass i hi passed go c hc near = elim (ℕ_discrete (dist size start c) (dist size start i)) [
      | yes e ↦ rw (dist-injective start c i (start-lt pos) hc hi e) go
      | no ne ↦
          passed c hc (omega (arith, dist-next start i (start-lt pos) hi (not_last i hi passed go)))
    ]

    probe_loop_ends :
        (fuel i : ℕ)
        → i < size
        → Passed i
        → dist size start f < dist size start i + fuel
        → Returns Outcome (probe_loop scheme fuel entries key hash i)
    unfolding probe_loop
    probe_loop_ends zero i hi passed enough = absurd (omega (arith, stop-behind i passed))
    probe_loop_ends (suc fuel) i hi passed enough = elim (Bool-cases (entries i).occupied) [
      | inr off ↦ simp off (returns ((hi, off), passed))
      | inl on ↦ elim (Bool-cases (matches i)) [
        | inl hit ↦ simp (on, hit) (returns (hi, on, hit))
        | inr other ↦
            let go : stops i ≡ false = simp (on, other) in
            simp (on, other)
              (probe_loop_ends fuel (next size i) (next-lt i hi) (pass i hi passed go)
                (omega (arith, dist-next start i (start-lt pos) hi (not_last i hi passed go))))
      ]
    ]

    get_hashtable_index_ends : Returns Outcome (get_hashtable_index scheme entries key hash)
    unfolding get_hashtable_index
    get_hashtable_index_ends =
        let at_home = dist_self start (start-lt pos) in
        probe_loop_ends size start (start-lt pos) (λ c hc near. absurd (omega arith))
          (omega (arith, dist-lt start f (start-lt pos) inside))

-- A search through a table with no free cell, for a key that it does not hold, never ends: no
-- number of rounds is enough.
pub probe_loop_diverges :
    {K V : Type 0} (scheme : Scheme K) (entries : ℕ → Entry K V) (key : K) (hash fuel i : ℕ)
    → i < scheme.size
    → ((c : ℕ)
        → c < scheme.size
        → IsOccupied scheme entries c × (scheme.same (entries c).key key ≡ false))
    → probe_loop scheme fuel entries key hash i ≡ none
unfolding probe_loop
probe_loop_diverges scheme entries key hash zero i hi full = refl
probe_loop_diverges scheme entries key hash (suc fuel) i hi full = ground (
  arith,
  full i hi,
  probe_loop_diverges scheme entries key hash fuel (next scheme.size i) (next-lt i hi) full,
)

module _ {K V : Type 0} (scheme : Scheme K) (entries : ℕ → Entry K V) (key : K)
    (lawful : IsLawful scheme) (chained : IsChained scheme entries) where
  open scheme use {size, hash_of, same}

  abbrev hash : ℕ
  hash = hash_of key

  home_at :
      (j : ℕ) → IsAt scheme entries key j → home scheme (entries j) ≡ start scheme entries key hash
  unfolding home
  home_at j (hj, on, hit) =
      ap (λ h. h % size) (chained.hashed j hj on ∙ lawful.same_hash (entries j).key key hit)

  matches_at : (j : ℕ) → IsAt scheme entries key j → matches scheme entries key hash j ≡ true
  matches_at j (hj, on, hit) =
      let e : (entries j).hash ≡ hash =
        chained.hashed j hj on ∙ lawful.same_hash (entries j).key key hit in
      simp ((==_iff (entries j).hash hash).1 e, hit)

  at_unique : (i j : ℕ) → IsAt scheme entries key i → IsAt scheme entries key j → i ≡ j
  at_unique i j (hi, on, hit) (hj, on', hit') = chained.unique i j hi hj on on' (
      lawful.same_trans (entries i).key key (entries j).key hit
        (lawful.same_symm (entries j).key key hit'))

  -- A search that passes all the cells before the free cell `i` does not miss the key.
  not_behind :
      (i j : ℕ)
      → IsFree scheme entries i
      → Passed scheme entries key hash i
      → IsAt scheme entries key j
      → ⊥
  not_behind i j (hi, off) passed at_j =
      let (hj, on, _) = at_j in
      let st = start scheme entries key hash in
      let hs = start-lt scheme entries key hash lawful.positive in
      let same_home = home_at j at_j in
      elim (dec_lt (dist size st j) (dist size st i)) [
        | yes near ↦ ground (arith, passed j hj near, matches_at j at_j)
        | no far ↦ elim (ℕ_discrete (dist size st i) (dist size st j)) [
          | yes e ↦
              let here = dist-injective st i j hs hi hj e in
              cc (ap (λ c. (entries c).occupied) here)
          | no ne ↦
              let between : dist size (home scheme (entries j)) i
                  < dist size (home scheme (entries j)) j =
                rw same_home (omega arith) in
              cc (chained.reach j i hj hi on between)
        ]
      ]

  -- The search for a key that a cell holds ends at that cell.
  pub get_hashtable_index-at :
      (j : ℕ)
      → IsAt scheme entries key j
      → get_hashtable_index scheme entries key hash ≡ some (found j)
  get_hashtable_index-at j at_j =
      let (hj, on, hit) = at_j in
      ended (
        Returns-inv (
          get_hashtable_index_ends scheme entries key hash lawful.positive j hj
            (simp (on, matches_at j at_j))))
    where
      ended :
          (slot : Slot) × (get_hashtable_index scheme entries key hash ≡ some slot)
            × Outcome scheme entries key hash slot
          → get_hashtable_index scheme entries key hash ≡ some (found j)
      ended (found i, e, (hi, on, hit)) =
          e ∙ ap (λ c. some (found c)) (at_unique i j (hi, on, ground arith) at_j)
      ended (free i, e, (off, passed)) = absurd (not_behind i j off passed at_j)

  -- The search for a key that no cell holds ends at a free cell, if there is one, and passes all the cells
  -- between the home of the key and that one.
  pub get_hashtable_index-absent :
      (f : ℕ)
      → IsFree scheme entries f
      → ((j : ℕ) → ¬ IsAt scheme entries key j)
      → (i : ℕ) × (get_hashtable_index scheme entries key hash ≡ some (free i))
        × IsFree scheme entries i
        × Passed scheme entries key hash i
  get_hashtable_index-absent f (hf, off) absent = ended (
      Returns-inv
        (get_hashtable_index_ends scheme entries key hash lawful.positive f hf (simp off)))
    where
      ended :
          (slot : Slot) × (get_hashtable_index scheme entries key hash ≡ some slot)
            × Outcome scheme entries key hash slot
          → (i : ℕ) × (get_hashtable_index scheme entries key hash ≡ some (free i))
            × IsFree scheme entries i
            × Passed scheme entries key hash i
      ended (found i, e, (hi, on, hit)) = absurd (absent i (hi, on, ground arith))
      ended (free i, e, (off, passed)) = (i, e, off, passed)
