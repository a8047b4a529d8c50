-- ===== src/Hashtable/Keys.antt =====
-- What all keys of a table have in common.
use marina.Prelude.{
  ℕ, ◌<◌, ◌≡◌, ◌≢◌, inl, inr, Bool, true, false, update, update_self, update_ne, ℕ_discrete, ap,
}
use marina.Hashtable.{Scheme, Entry, move}
use marina.Hashtable.Chain.{IsOccupied}
use marina.Hashtable.Move.{move-cases}

module _ {K V : Type 0} (scheme : Scheme K) (good : K → Bool) where
  open scheme use {size}

  pub AllKeys : (ℕ → Entry K V) → Type 0
  AllKeys cells = (c : ℕ) → c < size → IsOccupied scheme cells c → good (cells c).key ≡ true

  pub move-AllKeys :
      (cells : ℕ → Entry K V) (i h : ℕ)
      → i < size
      → i ≢ h
      → IsOccupied scheme cells i
      → AllKeys cells
      → AllKeys (move scheme cells i h)
  unfolding AllKeys
  move-AllKeys cells i h hi ne on all c hc oc = elim (move-cases scheme cells i h ne c oc) [
    | inl (here, w) ↦ rw w (all i hi on)
    | inr (_, _, w) ↦ rw w (all c hc (rw w at oc))
  ]

  pub written-AllKeys :
      (cells : ℕ → Entry K V) (i : ℕ) (e : Entry K V)
      → good e.key ≡ true
      → AllKeys cells
      → AllKeys (update cells i e)
  unfolding AllKeys
  written-AllKeys cells i e fine all c hc oc = elim (ℕ_discrete i c) [
    | yes p ↦ rw (← p, update_self cells i e) fine
    | no ne ↦ let w = update_ne cells i e c ne in rw w (all c hc (rw w at oc))
  ]

  pub freed-AllKeys :
      (cells : ℕ → Entry K V) (i : ℕ) (e : Entry K V)
      → e.occupied ≡ false
      → AllKeys cells
      → AllKeys (update cells i e)
  unfolding AllKeys
  freed-AllKeys cells i e off all c hc oc = elim (ℕ_discrete i c) [
    | yes p ↦ absurd (not_freed p)
    | no ne ↦ let w = update_ne cells i e c ne in rw w (all c hc (rw w at oc))
  ]
    where
      not_freed : i ≡ c → ⊥
      not_freed p = cc (
        ap (λ k. (update cells i e k).occupied) p,
        ap (λ (x : Entry K V). x.occupied) (update_self cells i e),
        off,
        oc,
      )

  pub AllKeys-at :
      (cells : ℕ → Entry K V) (i : ℕ)
      → AllKeys cells
      → i < size
      → IsOccupied scheme cells i
      → good (cells i).key ≡ true
  unfolding AllKeys
  AllKeys-at cells i all hi on = all i hi on

  -- In a table without entries.
  pub free-AllKeys :
      (cells : ℕ → Entry K V) → ((c : ℕ) → (cells c).occupied ≡ false) → AllKeys cells
  unfolding AllKeys
  free-AllKeys cells off c hc oc = cc (off c, oc)
