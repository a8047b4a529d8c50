-- ===== src/Hashtable/Contents.antt =====
-- What a table holds, apart from the cells in which it holds it.
use marina.Prelude.{
  ℕ, zero, suc, ◌+◌, ◌≤◌, ◌<◌, ◌≡◌, ◌≢◌, ◌↔◌, inl, inr, refl, sym, true, false, arith, update,
  update_self, update_ne, if◌then◌else◌, ℕ_discrete, Bool-cases, ap,
}
use mathlib.Core.Path.{subst}
use marina.Hashtable.{Scheme, Entry, move}
use marina.Hashtable.Move.{move-hole, move-other, move-cases}
use marina.Hashtable.Chain.{IsOccupied}

abbrev pub weight : {K V : Type 0} → Entry K V → ℕ
weight e = if e.occupied then 1 else 0

-- How many of the first `n` cells are occupied.
unfoldable pub occupied_count : {K V : Type 0} → (ℕ → Entry K V) → ℕ → ℕ
occupied_count entries zero = 0
occupied_count entries (suc n) = weight (entries n) + occupied_count entries n

module _ {K V : Type 0} where
  occupied_count-update_ge :
      (entries : ℕ → Entry K V) (n i : ℕ) (e : Entry K V)
      → n ≤ i
      → occupied_count (update entries i e) n ≡ occupied_count entries n
  unfolding occupied_count
  occupied_count-update_ge entries zero i e h = refl
  occupied_count-update_ge entries (suc n) i e h =
      rw
        (
          update_ne entries i e n (omega arith),
          occupied_count-update_ge entries n i e (omega arith),
        )
        refl

  occupied_count-update_last :
      (entries : ℕ → Entry K V) (n : ℕ) (e : Entry K V)
      → occupied_count (update entries n e) (suc n) + weight (entries n)
        ≡ occupied_count entries (suc n) + weight e
  unfolding occupied_count
  occupied_count-update_last entries n e = omega (
    arith,
    ap (λ (c : Entry K V). weight c) (update_self entries n e),
    occupied_count-update_ge entries n n e,
  )

  pub occupied_count-update :
      (entries : ℕ → Entry K V) (n i : ℕ) (e : Entry K V)
      → i < n
      → occupied_count (update entries i e) n + weight (entries i)
        ≡ occupied_count entries n + weight e
  unfolding occupied_count
  occupied_count-update entries zero i e h = elim h [ ]
  occupied_count-update entries (suc n) i e h = elim (ℕ_discrete i n) [
    | yes p ↦
        subst
          (λ k.
            occupied_count (update entries k e) (suc n) + weight (entries k)
            ≡ occupied_count entries (suc n) + weight e)
          (sym p) (occupied_count-update_last entries n e)
    | no ne ↦
        rw (update_ne entries i e n ne)
          (omega (arith, occupied_count-update entries n i e (omega arith)))
  ]

  pub occupied_count-free :
      (entries : ℕ → Entry K V) (n : ℕ)
      → ((c : ℕ) → (entries c).occupied ≡ false)
      → occupied_count entries n ≡ 0
  unfolding occupied_count
  occupied_count-free entries zero off = refl
  occupied_count-free entries (suc n) off =
      rw (off n) (omega (arith, occupied_count-free entries n off))

  pub occupied_count-move :
      (scheme : Scheme K) (entries : ℕ → Entry K V) (n i h : ℕ)
      → i < n
      → h < n
      → i ≢ h
      → (entries i).occupied ≡ true
      → (entries h).occupied ≡ false
      → occupied_count (move scheme entries i h) n ≡ occupied_count entries n
  unfolding move
  occupied_count-move scheme entries n i h hi hh ne on off =
      let e = record (entries i) { occupied = false } in
      let first = occupied_count-update entries n i e hi in
      let second =
        occupied_count-update (update entries i e) n h (record (entries i) { occupied = true })
          hh in
      ground (arith, ap (λ (c : Entry K V). c.occupied) (update_ne entries i e h ne))

  pub occupied_count-congr :
      (a b : ℕ → Entry K V) (n : ℕ)
      → ((c : ℕ) → (a c).occupied ≡ (b c).occupied)
      → occupied_count a n ≡ occupied_count b n
  unfolding occupied_count
  occupied_count-congr a b zero same = refl
  occupied_count-congr a b (suc n) same =
      rw (same n) (omega (arith, occupied_count-congr a b n same))

  occupied_count-le : (entries : ℕ → Entry K V) (n : ℕ) → occupied_count entries n ≤ n
  unfolding occupied_count
  occupied_count-le entries zero = omega arith
  occupied_count-le entries (suc n) = ground (arith, occupied_count-le entries n)

  -- Every cell of a table with as many entries as cells is occupied.
  pub all_occupied :
      (entries : ℕ → Entry K V) (n : ℕ)
      → occupied_count entries n ≡ n
      → (c : ℕ) → c < n
      → (entries c).occupied ≡ true
  unfolding occupied_count
  all_occupied entries zero h c p = elim p [ ]
  all_occupied entries (suc n) h c p =
      let last : (entries n).occupied ≡ true = ground (arith, occupied_count-le entries n) in
      elim (ℕ_discrete c n) [
        | yes e ↦ rw e last
        | no ne ↦ all_occupied entries n (ground arith) c (omega arith)
      ]

  -- A table with fewer entries than cells has a free cell.
  pub free_cell :
      (entries : ℕ → Entry K V) (n : ℕ)
      → occupied_count entries n < n
      → (f : ℕ) × (f < n) × ((entries f).occupied ≡ false)
  unfolding occupied_count
  free_cell entries zero h = elim h [ ]
  free_cell entries (suc n) h = elim (Bool-cases (entries n).occupied) [
    | inr off ↦ (n, omega arith, off)
    | inl on ↦ let (f, hf, off) = free_cell entries n (ground arith) in (f, omega arith, off)
  ]

module _ {K V : Type 0} (scheme : Scheme K) where
  open scheme use {size, hash_of, same}

  -- The table maps the key to the value.
  abbrev pub Stores : (ℕ → Entry K V) → K → V → Type 0
  Stores entries key v =
      (c : ℕ) × (c < size)
      × IsOccupied scheme entries c
      × (same (entries c).key key ≡ true)
      × ((entries c).value ≡ v)

  -- The two tables map the same keys to the same values.
  abbrev pub SameStores : (ℕ → Entry K V) → (ℕ → Entry K V) → Type 0
  SameStores a b = (key : K) (v : V) → Stores a key v ↔ Stores b key v

  module _ (entries : ℕ → Entry K V) (i h : ℕ) (hi : i < size) (hh : h < size) (ne : i ≢ h)
      (on : IsOccupied scheme entries i) (off : (entries h).occupied ≡ false) where
    pub Stores-move : SameStores (move scheme entries i h) entries
    Stores-move key v = (down, up)
      where
        down : Stores (move scheme entries i h) key v → Stores entries key v
        down (c, hc, oc, k, val) = elim (move-cases scheme entries i h ne c oc) [
          | inl (pc, wc) ↦ (i, hi, on, rw wc at k, rw wc at val)
          | inr (nc, ac, wc) ↦ (c, hc, rw wc at oc, rw wc at k, rw wc at val)
        ]

        up : Stores entries key v → Stores (move scheme entries i h) key v
        up (c, hc, oc, k, val) = elim (ℕ_discrete c i) [
          | yes e ↦ (
            h,
            hh,
            rw (move-hole scheme entries i h) refl,
            rw (move-hole scheme entries i h) (rw e at k),
            rw (move-hole scheme entries i h) (rw e at val),
          )
          | no other ↦
              let nh : c ≢ h = λ e. cc (ap (λ k. (entries k).occupied) e, oc, off) in
              let w = move-other scheme entries i h c other nh in (c, hc, rw w oc, rw w k, rw w val)
        ]
