-- ===== src/Hashtable/Shift.antt =====
-- The loop that moves entries back into the cell that a removal has freed.
use marina.Prelude.{
  ℕ, zero, suc, ◌+◌, ◌≤◌, ◌<◌, ◌≡◌, ◌≢◌, false, arith, ap, Returns, returns, Bool-cases, inl, inr,
}
use marina.Hashtable.{Scheme, Entry, dist, next, can_move, move, shift_loop}
use marina.Hashtable.Circle.{dist-lt, dist_last, dist-injective, dist_self, dist-split}
use marina.Hashtable.Move.{move-other}
use marina.Hashtable.Hole.{HasHole, one_on, i'-lt, closed, stay, back}
use marina.Hashtable.Chain.{IsOccupied, IsChained}

module _ {K V : Type 0} (scheme : Scheme K) (pos : 0 < scheme.size) where
  open scheme use {size, hash_of, same}

  -- The loop ends if there is a free cell besides the hole, and leaves the table in order. A property of the
  -- cells and of the notes of the table holds at the end if each move keeps it.
  module _ {S : Type 0} (moved : Entry K V → ℕ → S → S) (P : (ℕ → Entry K V) → S → Type 0)
      (keep : (entries : ℕ → Entry K V) (notes : S) (i h : ℕ)
        → i < size
        → h < size
        → i ≢ h
        → IsOccupied scheme entries i
        → (entries h).occupied ≡ false
        → P entries notes
        → P (move scheme entries i h) (moved (entries i) h notes))
      (f : ℕ) (hf : f < size) where
    abbrev Settled : (ℕ → Entry K V) × S → Type 0
    Settled r = IsChained scheme r.0 × P r.0 r.1

    pub shift_loop_settles :
        (fuel : ℕ) (entries : ℕ → Entry K V) (notes : S) (i h : ℕ)
        → HasHole scheme pos entries h i
        → (entries f).occupied ≡ false
        → dist size h i < dist size h f
        → dist size h f ≤ dist size h i + fuel
        → P entries notes
        → Returns Settled (shift_loop scheme moved fuel entries notes i h)
    unfolding shift_loop
    shift_loop_settles zero entries notes i h inv off room enough p = absurd (omega arith)
    shift_loop_settles (suc fuel) entries notes i h inv off room enough p =
        let i' = next size i in
        let ne : i' ≢ h = λ e.
          absurd
            (omega (arith, dist_last h i inv.hole_in inv.index_in e, dist-lt h f inv.hole_in hf)) in
        let step = one_on scheme pos entries h i inv ne in
        let hi' = i'-lt scheme pos entries h i inv ne in
        elim (Bool-cases (entries i').occupied) [
          | inr off' ↦ simp off' (returns (closed scheme pos entries h i inv ne off', p))
          | inl on ↦
              let apart : dist size h i' ≢ dist size h f = λ e. cc (
                ap (λ k. (entries k).occupied) (dist-injective h i' f inv.hole_in hi' hf e),
                on,
                off,
              ) in
              elim (Bool-cases (can_move scheme entries i' h)) [
                | inr fixed ↦
                    simp (on, fixed)
                      (shift_loop_settles fuel entries notes i' h
                        (stay scheme pos entries h i inv ne on fixed) off (omega arith)
                        (omega arith) p)
                | inl can ↦
                    let not_hole : f ≢ h =
                      λ e. absurd (omega (arith, ap (dist size h) e, dist_self h inv.hole_in)) in
                    let not_moved : f ≢ i' = λ e. cc (ap (λ k. (entries k).occupied) e, on, off) in
                    let way = dist-split h i' f inv.hole_in hi' hf (omega arith) in
                    let zero_way = dist_self i' hi' in
                    simp (on, can)
                      (shift_loop_settles fuel (move scheme entries i' h)
                        (moved (entries i') h notes) i' i'
                        (back scheme pos entries h i inv ne on can)
                        (rw (move-other scheme entries i' h f not_moved not_hole) off) (omega arith)
                        (omega arith) (keep entries notes i' h hi' inv.hole_in ne on inv.off p))
              ]
        ]
