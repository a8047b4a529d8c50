-- ===== src/Features/Over.antt =====
-- The loops over the array of features.
use marina.Prelude.{
  ℕ, zero, suc, ◌+◌, ◌<◌, ◌≡◌, ◌≢◌, refl, sym, ◌∙◌, arith, some, List, [], ◌∷◌, get_elem?,
}
use marina.Features.{FeatureRegister}
use marina.Features.Registers.{Descriptor, FeatureStore, over}

-- A loop over the features, whose round for a place changes the register of that place alone.
module _ {S : Type 0} (step : ℕ → Descriptor → FeatureStore S → FeatureStore S)
    (Inv : FeatureStore S → Type 0) (R : Descriptor → FeatureRegister → FeatureRegister → Type 0)
    (keep : (i : ℕ) (d : Descriptor) (s : FeatureStore S)
      → Inv s
      → Inv (step i d s)
        × R d (s.registers i) ((step i d s).registers i)
        × ((f : ℕ) → i ≢ f → (step i d s).registers f ≡ s.registers f)) where
  pub over_Inv :
      (ds : List Descriptor) (i : ℕ) (s : FeatureStore S) → Inv s → Inv (over step i ds s)
  unfolding over
  over_Inv [] i s v = v
  over_Inv (d ∷ ds) i s v = over_Inv ds (i + 1) (step i d s) (keep i d s v).0

  over_before :
      (ds : List Descriptor) (i f : ℕ) (s : FeatureStore S)
      → Inv s
      → f < i
      → (over step i ds s).registers f ≡ s.registers f
  unfolding over
  over_before [] i f s v lt = refl
  over_before (d ∷ ds) i f s v lt =
      let (v', _, others) = keep i d s v in
      over_before ds (i + 1) f (step i d s) v' (omega arith) ∙ others f (λ e. omega (arith, e))

  pub over_at :
      (ds : List Descriptor) (i k f : ℕ) (d : Descriptor) (s : FeatureStore S)
      → Inv s
      → f ≡ i + k
      → get_elem? ds k ≡ some d
      → R d (s.registers f) ((over step i ds s).registers f)
  unfolding over
  over_at [] i k f d s v e there = cc there
  over_at (d' ∷ ds) i zero f d s v e there =
      let (v', r, _) = keep i d' s v in
      let at : f ≡ i = omega (arith, e) in
      let same : d' ≡ d = cc there in
      rw (at, over_before ds (i + 1) i (step i d' s) v' (omega arith), sym same) r
  over_at (d' ∷ ds) i (suc k) f d s v e there =
      let (v', _, others) = keep i d' s v in
      rw (← others f (λ q. omega (arith, q, e)))
        (over_at ds (i + 1) k f d (step i d' s) v' (omega (arith, e)) there)
