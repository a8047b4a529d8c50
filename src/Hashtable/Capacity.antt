-- ===== src/Hashtable/Capacity.antt =====
-- How many entries a hash table has, if the values that it uses are bounded.
use marina.Prelude.{
  ℕ, zero, suc, ◌<◌, ◌≤◌, ◌≡◌, arith, Option, none, some, if◌then◌else◌, ltb, Bool-cases, inl, inr,
  total, total_mono, total-bump,
}
use marina.Hashtable.{Scheme, Entry}
use marina.Hashtable.Contents.{occupied_count}
use marina.Hashtable.Indexed.{IsIndexed}
use marina.Hashtable.Uses.{uses_of}

-- Whether a value is used by one of the first `n` cells.
abbrev used_below : ℕ → Option ℕ → ℕ
used_below n none = 0
used_below n (some c) = if ltb c n then 1 else 0

used_below-suc : (n : ℕ) (o : Option ℕ) → used_below n o ≤ used_below (suc n) o
used_below-suc n none = omega arith
used_below-suc n (some c) = ground arith

used_below-uses_of : (n : ℕ) (o : Option ℕ) → used_below n o ≤ uses_of o
used_below-uses_of n none = omega arith
used_below-uses_of n (some c) = ground arith

module _ {K : Type 0} (scheme : Scheme K) (entries : ℕ → Entry K ℕ) (notes : ℕ → Option ℕ)
    (indexed : IsIndexed scheme entries notes) (bound : ℕ)
    (bounded : (v c : ℕ) → notes v ≡ some c → v < bound) where
  open scheme use {size}

  cells_used :
      (n : ℕ) → n ≤ size → occupied_count entries n ≤ total (λ v. used_below n (notes v)) bound
  unfolding occupied_count
  cells_used zero le = omega arith
  cells_used (suc n) le =
      let before = cells_used n (omega arith) in
      let f = λ (v : ℕ). used_below n (notes v) in
      let g = λ (v : ℕ). used_below (suc n) (notes v) in
      elim (Bool-cases (entries n).occupied) [
        | inr off ↦
            rw off (omega (arith, before, total_mono f g bound (λ v h. used_below-suc n (notes v))))
        | inl on ↦
            let noted = indexed.noted n (omega arith) on in
            let v = (entries n).value in
            rw on (
              omega (
                arith,
                before,
                total-bump f g bound v (λ w. used_below-suc n (notes w)) (bounded v n noted)
                    (rw noted (ground arith)),
              ))
      ]

  -- A table has no more entries than there are values in use.
  pub occupied_count-le_uses : occupied_count entries size ≤ total (λ v. uses_of (notes v)) bound
  occupied_count-le_uses = omega (
    arith,
    cells_used size (omega arith),
    total_mono (λ v. used_below size (notes v)) (λ v. uses_of (notes v)) bound
        (λ v h. used_below-uses_of size (notes v)),
  )
