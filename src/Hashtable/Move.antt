-- ===== src/Hashtable/Move.antt =====
-- What the cells hold after an entry has been moved.
use marina.Prelude.{
  ℕ, ◌≡◌, ◌≢◌, ◌⊎◌, inl, inr, sym, true, false, update, update_self, update_ne, ℕ_discrete, ◌∙◌,
}
use marina.Hashtable.{Scheme, Entry, move}
use marina.Hashtable.Chain.{IsOccupied}

module _ {K V : Type 0} (scheme : Scheme K) (entries : ℕ → Entry K V) (i h : ℕ) where
  abbrev emptied : Entry K V
  emptied = record (entries i) { occupied = false }

  abbrev filled : Entry K V
  filled = record (entries i) { occupied = true }

  pub move-hole : move scheme entries i h h ≡ filled
  unfolding move
  move-hole = update_self (update entries i emptied) h filled

  pub move-origin : i ≢ h → move scheme entries i h i ≡ emptied
  unfolding move
  move-origin ne =
      update_ne (update entries i emptied) h filled i (λ e. ne (sym e))
      ∙ update_self entries i emptied

  pub move-other : (c : ℕ) → c ≢ i → c ≢ h → move scheme entries i h c ≡ entries c
  unfolding move
  move-other c ni nh =
      update_ne (update entries i emptied) h filled c (λ e. nh (sym e))
      ∙ update_ne entries i emptied c (λ e. ni (sym e))

  -- An occupied cell is the one that was filled, or one that was not touched.
  pub move-cases :
      i ≢ h
      → (c : ℕ) → IsOccupied scheme (move scheme entries i h) c
      → ((c ≡ h) × (move scheme entries i h c ≡ filled))
        ⊎ ((c ≢ h) × (c ≢ i) × (move scheme entries i h c ≡ entries c))
  move-cases ne c oc = elim (ℕ_discrete c h) [
    | yes e ↦ inl (e, rw e move-hole)
    | no nh ↦ elim (ℕ_discrete c i) [
      | yes e ↦ absurd (emptied_off c e oc)
      | no ni ↦ inr (nh, ni, move-other c ni nh)
    ]
  ]
    where
      emptied_off : (c : ℕ) → c ≡ i → IsOccupied scheme (move scheme entries i h) c → ⊥
      emptied_off c e oc = cc (rw (e, move-origin ne) at oc)
