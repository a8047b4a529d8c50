-- ===== src/Hashtable/Indexed.antt =====
-- The map that a table keeps from the values of its entries back to their cells.
use marina.Prelude.{
  ℕ, ◌<◌, ◌≡◌, ◌≢◌, inl, inr, sym, ◌∙◌, true, false, Option, none, some, update, update_self,
  update_ne, ℕ_discrete, ap,
}
use marina.Hashtable.{Scheme, Entry, move}
use marina.Hashtable.Chain.{IsOccupied, IsFree}
use marina.Hashtable.Move.{move-hole, move-other, move-cases}

-- What a moved entry changes in the map.
abbrev pub note : {K : Type 0} → Entry K ℕ → ℕ → (ℕ → Option ℕ) → ℕ → Option ℕ
note e cell notes = update notes e.value (some cell)

module _ {K : Type 0} (scheme : Scheme K) where
  open scheme use {size}

  -- The map leads to the occupied cells, and to nothing else.
  pub record IsIndexed (cells : ℕ → Entry K ℕ) (notes : ℕ → Option ℕ) : Type 0 where
    pub noted : (c : ℕ) → c < size → IsOccupied scheme cells c → notes (cells c).value ≡ some c
    pub points :
        (v c : ℕ)
        → notes v ≡ some c
        → (c < size) × IsOccupied scheme cells c × ((cells c).value ≡ v)

  pub move-IsIndexed :
      (cells : ℕ → Entry K ℕ) (notes : ℕ → Option ℕ) (i h : ℕ)
      → i < size
      → h < size
      → i ≢ h
      → IsOccupied scheme cells i
      → (cells h).occupied ≡ false
      → IsIndexed cells notes
      → IsIndexed (move scheme cells i h) (note (cells i) h notes)
  move-IsIndexed cells notes i h hi hh ne on off v = record {
    noted = λ c hc oc. elim (move-cases scheme cells i h ne c oc) [
      | inl (pc, wc) ↦ rw (wc, pc) (update_self notes (cells i).value (some h))
      | inr (nc, ac, wc) ↦
          let old = v.noted c hc (rw wc at oc) in
          let apart : (cells i).value ≢ (cells c).value =
            λ e. ac (cc (ap notes e, old, v.noted i hi on)) in
          rw wc (update_ne notes (cells i).value (some h) (cells c).value apart ∙ old)
    ];
    points = λ w c e. elim (ℕ_discrete (cells i).value w) [
      | yes p ↦
          let here : c ≡ h =
            cc (
              update_self notes (cells i).value (some h),
              ap (λ k. note (cells i) h notes k) p,
              e,
            ) in
          let filled = move-hole scheme cells i h in rw here (hh, rw filled, rw filled p)
      | no other ↦
          let old : notes w ≡ some c = sym (update_ne notes (cells i).value (some h) w other) ∙ e in
          let (hc, oc, val) = v.points w c old in
          let nh : c ≢ h = λ q. cc (ap (λ k. (cells k).occupied) q, oc, off) in
          let ni : c ≢ i = λ q. other (cc (ap (λ k. (cells k).value) q, val)) in
          let w' = move-other scheme cells i h c ni nh in (hc, rw w' oc, rw w' val)
    ];
  }

  pub written-IsIndexed :
      (cells : ℕ → Entry K ℕ) (notes : ℕ → Option ℕ) (i : ℕ) (e : Entry K ℕ)
      → IsFree scheme cells i
      → e.occupied ≡ true
      → notes e.value ≡ none
      → IsIndexed cells notes
      → IsIndexed (update cells i e) (update notes e.value (some i))
  written-IsIndexed cells notes i e (hi, off) on unused v = record {
    noted = λ c hc oc. elim (ℕ_discrete i c) [
      | yes p ↦
          let w : update cells i e c ≡ e = rw (← p) (update_self cells i e) in
          rw (w, ← p) (update_self notes e.value (some i))
      | no ne ↦
          let w = update_ne cells i e c ne in
          let old = v.noted c hc (rw w at oc) in
          let apart : e.value ≢ (cells c).value = λ q. cc (ap notes q, unused, old) in
          rw w (update_ne notes e.value (some i) (cells c).value apart ∙ old)
    ];
    points = λ w c q. elim (ℕ_discrete e.value w) [
      | yes p ↦
          let here : c ≡ i =
            cc (update_self notes e.value (some i), ap (update notes e.value (some i)) p, q) in
          let at = update_self cells i e in rw here (hi, rw at on, rw at p)
      | no other ↦
          let (hc, oc, val) = v.points w c (sym (update_ne notes e.value (some i) w other) ∙ q) in
          let ne : i ≢ c = λ p. cc (ap (λ k. (cells k).occupied) p, off, oc) in
          let at = update_ne cells i e c ne in (hc, rw at oc, rw at val)
    ];
  }

  pub freed-IsIndexed :
      (cells : ℕ → Entry K ℕ) (notes : ℕ → Option ℕ) (i : ℕ) (e : Entry K ℕ)
      → i < size
      → IsOccupied scheme cells i
      → e.occupied ≡ false
      → IsIndexed cells notes
      → IsIndexed (update cells i e) (update notes (cells i).value none)
  freed-IsIndexed cells notes i e hi on off v = record {
    noted = λ c hc oc. elim (ℕ_discrete i c) [
      | yes p ↦ absurd (not_freed c p oc)
      | no ne ↦
          let w = update_ne cells i e c ne in
          let old = v.noted c hc (rw w at oc) in
          let apart : (cells i).value ≢ (cells c).value =
            λ q. ne (cc (ap notes q, v.noted i hi on, old)) in
          rw w (update_ne notes (cells i).value none (cells c).value apart ∙ old)
    ];
    points = λ w c q. elim (ℕ_discrete (cells i).value w) [
      | yes p ↦
          cc (update_self notes (cells i).value none, ap (update notes (cells i).value none) p, q)
      | no other ↦
          let (hc, oc, val) =
            v.points w c (sym (update_ne notes (cells i).value none w other) ∙ q) in
          let ne : i ≢ c = λ p. other (cc (ap (λ k. (cells k).value) p, val)) in
          let at = update_ne cells i e c ne in (hc, rw at oc, rw at val)
    ];
  }
    where
      not_freed : (c : ℕ) → i ≡ c → (update cells i e c).occupied ≡ true → ⊥
      not_freed c p oc = cc (
        ap (λ k. (update cells i e k).occupied) p,
        ap (λ (x : Entry K ℕ). x.occupied) (update_self cells i e),
        off,
      )
