-- ===== src/Hashtable/Evict.antt =====
-- Freeing the cell of a key, and closing the hole that this leaves.
use marina.Prelude.{
  ℕ, ◌+◌, ◌<◌, ◌≡◌, ◌≢◌, refl, sym, ◌∙◌, true, false, arith, Option, none, some, update,
  update_self, update_ne, ℕ_discrete, Bool-cases, ap, inl, inr, Returns, Returns-map,
}
use marina.Hashtable.{Scheme, Entry, dist, shift_loop, move}
use marina.Hashtable.Circle.{dist-injective, dist_self, dist-lt}
use marina.Hashtable.Chain.{IsLawful, IsOccupied, IsChained}
use marina.Hashtable.Contents.{
  Stores, SameStores, Stores-move, free_cell, occupied_count, occupied_count-move,
  occupied_count-update,
}
use marina.Hashtable.Represents.{Represents, unbind}
use marina.Hashtable.Hole.{HasHole}
use marina.Hashtable.Shift.{shift_loop_settles}

module _ {K V : Type 0} (scheme : Scheme K) (lawful : IsLawful scheme) (entries : ℕ → Entry K V)
    (chained : IsChained scheme entries) (i : ℕ) (hi : i < scheme.size)
    (on : IsOccupied scheme entries i) (e : Entry K V) (off : e.occupied ≡ false) where
  open scheme use {size, hash_of, same}

  abbrev freed : ℕ → Entry K V
  freed = update entries i e

  kept : (c : ℕ) → IsOccupied scheme freed c → (c ≢ i) × (freed c ≡ entries c)
  kept c oc = elim (ℕ_discrete i c) [
    | yes p ↦ absurd (freed_off c p oc)
    | no ne ↦ (λ q. ne (sym q), update_ne entries i e c ne)
  ]
    where
      freed_off : (c : ℕ) → i ≡ c → IsOccupied scheme freed c → ⊥
      freed_off c p oc = cc (
        ap (λ k. (freed k).occupied) p,
        ap (λ (x : Entry K V). x.occupied) (update_self entries i e),
      )

  freed-HasHole : HasHole scheme lawful.positive freed i i
  freed-HasHole = record {
    hole_in = hi;
    index_in = hi;
    off = rw (update_self entries i e) off;
    hashed = λ c hc oc. let w = (kept c oc).1 in rw w (chained.hashed c hc (rw w at oc));
    unique = λ c d hc hd oc od eq.
        let w = (kept c oc).1 in
        let w' = (kept d od).1 in
        chained.unique c d hc hd (rw w at oc) (rw w' at od) (rw (w, w') at eq);
    reach = λ c d hc hd oc near away.
        let w = (kept c oc).1 in
        rw (update_ne entries i e d (λ q. away (sym q)))
          (chained.reach c d hc hd (rw w at oc) (rw w at near));
    behind = λ c hc away near.
        absurd (away (dist-injective i c i hi hc hi (omega (arith, dist_self i hi))));
  }

  freed-Represents :
      (m : K → Option V)
      → Represents scheme entries m
      → Represents scheme freed (unbind scheme (entries i).key m)
  freed-Represents m rep key v = (down, up)
    where
      down : Stores scheme freed key v → unbind scheme (entries i).key m key ≡ some v
      down (c, hc, oc, hit, val) =
          let (away, w) = kept c oc in
          let oc' : IsOccupied scheme entries c = rw w at oc in
          let hit' : same (entries c).key key ≡ true = rw w at hit in
          let stored : m key ≡ some v = (rep key v).0 (c, hc, oc', hit', rw w at val) in
          elim (Bool-cases (same (entries i).key key)) [
            | inl eq ↦ absurd (
                away (
                  chained.unique c i hc hi oc' on (
                    lawful.same_trans (entries c).key key (entries i).key hit'
                      (lawful.same_symm (entries i).key key eq))))
            | inr other ↦ rw other stored
          ]

      up : unbind scheme (entries i).key m key ≡ some v → Stores scheme freed key v
      up b = elim (Bool-cases (same (entries i).key key)) [
        | inl eq ↦ let b' : none ≡ some v = rw eq at b in cc
        | inr other ↦
            let (c, hc, oc, hit, val) = (rep key v).1 (rw other at b) in
            let ne : i ≢ c = λ p. cc (ap (λ k. same (entries k).key key) p, other, hit) in
            let w = update_ne entries i e c ne in (c, hc, rw w oc, rw w hit, rw w val)
      ]

  freed_count : occupied_count freed size + 1 ≡ occupied_count entries size
  freed_count = ground (arith, occupied_count-update entries size i e hi)

  -- Freeing a cell and running the loop ends, if the table had a free cell. The table is in order again and has
  -- lost that entry alone. A property of the cells and of the notes of the table holds at the end if each move keeps it.
  module _ {S : Type 0} (moved : Entry K V → ℕ → S → S) (P : (ℕ → Entry K V) → S → Type 0)
      (keep : (cells : ℕ → Entry K V) (notes : S) (j h : ℕ)
        → j < size
        → h < size
        → j ≢ h
        → IsOccupied scheme cells j
        → (cells h).occupied ≡ false
        → P cells notes
        → P (move scheme cells j h) (moved (cells j) h notes)) where
    pub record Evicted (m : K → Option V) (r : (ℕ → Entry K V) × S) : Type 0 where
      pub in_order : IsChained scheme r.0
      pub counted : occupied_count r.0 size + 1 ≡ occupied_count entries size
      pub represents : Represents scheme r.0 (unbind scheme (entries i).key m)
      pub noted : P r.0 r.1

    abbrev Carried : (ℕ → Entry K V) → S → Type 0
    Carried cells notes =
        P cells notes
        × SameStores scheme cells freed
        × (occupied_count cells size ≡ occupied_count freed size)

    carry :
        (cells : ℕ → Entry K V) (notes : S) (j h : ℕ)
        → j < size
        → h < size
        → j ≢ h
        → IsOccupied scheme cells j
        → (cells h).occupied ≡ false
        → Carried cells notes
        → Carried (move scheme cells j h) (moved (cells j) h notes)
    carry cells notes j h hj hh ne oj oh (p, stores, count) = (
      keep cells notes j h hj hh ne oj oh p,
      (λ key v.
          let (d, u) = Stores-move scheme cells j h hj hh ne oj oh key v in
          let (d', u') = stores key v in ((λ s. d' (d s)), (λ s. u (u' s)))),
      occupied_count-move scheme cells size j h hj hh ne oj oh ∙ count,
    )

    pub evict_lem :
        (m : K → Option V) (notes : S)
        → Represents scheme entries m
        → occupied_count entries size < size
        → P freed notes
        → Returns (Evicted m) (shift_loop scheme moved size freed notes i i)
    evict_lem m notes rep room p =
        let (f, hf, free) = free_cell entries size room in
        let apart : i ≢ f = λ q. cc (ap (λ k. (entries k).occupied) q, on, free) in
        let far : dist size i f ≢ 0 =
          λ q. apart (sym (dist-injective i f i hi hf hi (q ∙ sym (dist_self i hi)))) in
        Returns-map
          (shift_loop_settles scheme lawful.positive moved Carried carry f hf size freed notes i i
            freed-HasHole (rw (update_ne entries i e f apart) free) (omega (arith, dist_self i hi))
            (omega (arith, dist-lt i f hi hf)) (p, (λ key v. ((λ s. s), (λ s. s))), refl))
          λ r (ordered, (p', stores, count)). record {
            in_order = ordered;
            counted = omega (arith, freed_count);
            represents = λ key v.
                let (d, u) = freed-Represents m rep key v in
                let (d', u') = stores key v in ((λ s. d (d' s)), (λ b. u' (u b)));
            noted = p';
          }
