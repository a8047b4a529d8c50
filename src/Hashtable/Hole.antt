-- ===== src/Hashtable/Hole.antt =====
-- A table with a cell that a removal has freed, and what a move of an entry into it makes of that.
use marina.Prelude.{
  ℕ, ◌+◌, ◌≤◌, ◌<◌, ◌≡◌, ◌≢◌, true, false, arith, sym, ap, inl, inr, ℕ_discrete, dec_lt,
}
use mathlib.Core.Path.{subst}
use native.Mathlib.Nat.{mod-lt}
use marina.Hashtable.{Scheme, Entry, home, dist, next, can_move, move}
use marina.Hashtable.Circle.{
  next-lt, dist-lt, dist-next, dist-injective, dist_self, dist-split, dist-add,
}
use marina.Hashtable.Move.{move-origin, move-hole, move-other, move-cases}
use marina.Hashtable.Chain.{IsOccupied, IsChained}

module _ {K V : Type 0} (scheme : Scheme K) (pos : 0 < scheme.size) where
  open scheme use {size, hash_of, same}

  -- The table is in order but for the free cell `h`, and the entries from behind it up to the cell `i` may not move
  -- to it.
  pub record HasHole (entries : ℕ → Entry K V) (h i : ℕ) : Type 0 where
    pub hole_in : h < size
    pub index_in : i < size
    pub off : (entries h).occupied ≡ false
    pub hashed :
        (c : ℕ)
        → c < size
        → IsOccupied scheme entries c
        → (entries c).hash ≡ hash_of (entries c).key
    pub unique :
        (c d : ℕ)
        → c < size
        → d < size
        → IsOccupied scheme entries c
        → IsOccupied scheme entries d
        → same (entries c).key (entries d).key ≡ true
        → c ≡ d
    pub reach :
        (c d : ℕ)
        → c < size
        → d < size
        → IsOccupied scheme entries c
        → dist size (home scheme (entries c)) d < dist size (home scheme (entries c)) c
        → d ≢ h
        → IsOccupied scheme entries d
    pub behind :
        (c : ℕ)
        → c < size
        → c ≢ h
        → dist size h c ≤ dist size h i
        → IsOccupied scheme entries c
          × (dist size (home scheme (entries c)) c ≤ dist size (home scheme (entries c)) h)

  home-lt : (e : Entry K V) → home scheme e < size
  unfolding home
  home-lt e = mod-lt e.hash pos

  module _ (entries : ℕ → Entry K V) (h i : ℕ) (inv : HasHole entries h i)
      (ne : next size i ≢ h) where
    abbrev i' : ℕ
    i' = next size i

    pub one_on : dist size h i' ≡ dist size h i + 1
    one_on = dist-next h i inv.hole_in inv.index_in ne

    pub i'-lt : i' < size
    i'-lt = next-lt i inv.index_in

    -- The loop ends at a free cell: then nothing behind the hole needs it.
    pub closed : (entries i').occupied ≡ false → IsChained scheme entries
    closed off = record {
      hashed = inv.hashed;
      unique = inv.unique;
      reach = λ c d hc hd oc near. elim (ℕ_discrete d h) [
        | no other ↦ inv.reach c d hc hd oc near other
        | yes at ↦ absurd (
            no_gap c hc oc (
              subst
                (λ k. dist size (home scheme (entries c)) k < dist size (home scheme (entries c)) c)
                at near))
      ];
    }
      where
        other : (c : ℕ) → IsOccupied scheme entries c → c ≢ h
        other c oc e = cc (ap (λ k. (entries k).occupied) e, inv.off)

        no_gap :
            (c : ℕ)
            → c < size
            → IsOccupied scheme entries c
            → dist size (home scheme (entries c)) h < dist size (home scheme (entries c)) c
            → ⊥
        no_gap c hc oc near =
            let m = home scheme (entries c) in
            let hm = home-lt (entries c) in
            let whole = dist-split m h c hm inv.hole_in hc (omega arith) in
            elim (dec_lt (dist size h i) (dist size h c)) [
              | no close ↦ ground (arith, inv.behind c hc (other c oc) (omega arith))
              | yes far ↦
                  let part =
                    dist-add m h i' hm inv.hole_in i'-lt
                      (omega (arith, one_on, dist-lt m c hm hc)) in
                  let apart : dist size h i' ≢ dist size h c =
                    λ e. cc (dist-injective h i' c inv.hole_in i'-lt hc e) in
                  cc (inv.reach c i' hc i'-lt oc (omega (arith, one_on)) ne)
            ]

    at_most_home :
        can_move scheme entries i' h ≡ false
        → dist size (home scheme (entries i')) i' ≤ dist size (home scheme (entries i')) h
    unfolding can_move
    at_most_home fixed = elim (ℕ_discrete i' (home scheme (entries i'))) [
      | yes e ↦ omega (arith, ap (λ k. dist size k i') e, dist_self i' i'-lt)
      | no other ↦ ground arith
    ]

    pub stay :
        IsOccupied scheme entries i' → can_move scheme entries i' h ≡ false → HasHole entries h i'
    stay on fixed = record {
      hole_in = inv.hole_in;
      index_in = i'-lt;
      off = inv.off;
      hashed = inv.hashed;
      unique = inv.unique;
      reach = inv.reach;
      behind = λ c hc nh near. elim (ℕ_discrete c i') [
        | yes e ↦ rw e (on, at_most_home fixed)
        | no other ↦
            let apart : dist size h c ≢ dist size h i' =
              λ p. other (dist-injective h c i' inv.hole_in hc i'-lt p) in
            inv.behind c hc nh (omega (arith, one_on))
      ];
    }

    moves :
        can_move scheme entries i' h ≡ true
        → dist size (home scheme (entries i')) h < dist size (home scheme (entries i')) i'
    unfolding can_move
    moves can = ground arith

    module _ (on : IsOccupied scheme entries i') (can : can_move scheme entries i' h ≡ true) where
      abbrev moved_on : ℕ → Entry K V
      moved_on = move scheme entries i' h

      back_unique :
          (c d : ℕ)
          → c < size
          → d < size
          → IsOccupied scheme moved_on c
          → IsOccupied scheme moved_on d
          → same (moved_on c).key (moved_on d).key ≡ true
          → c ≡ d
      back_unique c d hc hd oc od eq = elim (move-cases scheme entries i' h ne c oc) [
        | inl (pc, wc) ↦ elim (move-cases scheme entries i' h ne d od) [
          | inl (pd, wd) ↦ omega arith
          | inr (nd, ad, wd) ↦
              absurd (ad (sym (inv.unique i' d i'-lt hd on (rw wd at od) (rw (wc, wd) at eq))))
        ]
        | inr (nc, ac, wc) ↦ elim (move-cases scheme entries i' h ne d od) [
          | inl (pd, wd) ↦
              absurd (ac (inv.unique c i' hc i'-lt (rw wc at oc) on (rw (wc, wd) at eq)))
          | inr (nd, ad, wd) ↦ inv.unique c d hc hd (rw wc at oc) (rw wd at od) (rw (wc, wd) at eq)
        ]
      ]

      back-reach :
          (c d : ℕ)
          → c < size
          → d < size
          → IsOccupied scheme moved_on c
          → dist size (home scheme (moved_on c)) d < dist size (home scheme (moved_on c)) c
          → d ≢ i'
          → IsOccupied scheme moved_on d
      unfolding home
      back-reach c d hc hd oc near away = elim (ℕ_discrete d h) [
        | yes e ↦ rw (e, move-hole scheme entries i' h)
        | no other ↦
            rw (move-other scheme entries i' h d away other)
              (elim (move-cases scheme entries i' h ne c oc) [
                | inl (pc, wc) ↦
                    let near' : dist size (home scheme (entries i')) d
                        < dist size (home scheme (entries i')) c =
                      rw wc at near in
                    let near'' : dist size (home scheme (entries i')) d
                        < dist size (home scheme (entries i')) h =
                      rw pc at near' in
                    inv.reach i' d i'-lt hd on (omega (arith, moves can)) other
                | inr (nc, ac, wc) ↦ inv.reach c d hc hd (rw wc at oc) (rw wc at near) other
              ])
      ]

      pub back : HasHole moved_on i' i'
      back = record {
        hole_in = i'-lt;
        index_in = i'-lt;
        off = rw (move-origin scheme entries i' h ne);
        hashed = λ c hc oc. elim (move-cases scheme entries i' h ne c oc) [
          | inl (pc, wc) ↦ rw wc (inv.hashed i' i'-lt on)
          | inr (nc, ac, wc) ↦ rw wc (inv.hashed c hc (rw wc at oc))
        ];
        unique = back_unique;
        reach = back-reach;
        behind = λ c hc away near.
            absurd
              (away (dist-injective i' c i' i'-lt hc i'-lt (omega (arith, dist_self i' i'-lt))));
      }
