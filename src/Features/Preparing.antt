-- ===== src/Features/Preparing.antt =====
-- controller/dataplane/features.c: what `prepare_features` clears.
use marina.Prelude.{
  ℕ, zero, suc, ◌+◌, ◌<◌, ◌≡◌, refl, ◌∙◌, arith, Bool, false, ◌==◌, ◌&&◌, ◌||◌, ltb, leb,
  if◌then◌else◌, not, ◌≢◌, some, get_elem?, update, update_self, update_ne, List, [], ◌∷◌,
}
use marina.Features.{FeatureRegister, each}
use marina.Features.Registers.{
  Register, pkt_count_reg, size_log_reg, size_log_square_reg, size_log_cube_reg, iat_log_reg,
  iat_log_square_reg, iat_log_cube_reg, iat_last_timestamp_reg, Descriptor, features,
  RegisterDriver, FeatureStore, over, prepare_feature, reset_and_prepare, prepare_features,
}
use marina.Features.Over.{over_at}

-- A number for each register, to compare them by.
abbrev pub number_of : Register → ℕ
number_of pkt_count_reg = 0
number_of size_log_reg = 1
number_of size_log_square_reg = 2
number_of size_log_cube_reg = 3
number_of iat_log_reg = 4
number_of iat_log_square_reg = 5
number_of iat_log_cube_reg = 6
number_of iat_last_timestamp_reg = 7

-- What the driver promises: resetting a register on a pipe clears it there, and changes no other.
pub record IsResetter {S : Type 0} (driver : RegisterDriver S) (cell : S → Register → ℕ → ℕ → ℕ)
    : Type 0 where
  pub resets :
      (r r' : Register) (p p' : ℕ) (s : S) (j : ℕ)
      → cell (driver.reset r p s) r' p' j
        ≡ (if number_of r == number_of r' && p == p' then 0 else cell s r' p' j)

-- Whether one of the features resets the register.
abbrev resets_any : List Descriptor → ℕ → Bool
resets_any [] r = false
resets_any (d ∷ ds) r = number_of d.reset_of == r || resets_any ds r

-- The registers that no feature of the array resets: those of `iat_log` and of the last timestamp.
unfoldable pub kept_registers : Register → Bool
kept_registers r = number_of r == 4 || number_of r == 7

resets_any_features : (r : Register) → resets_any features (number_of r) ≡ not (kept_registers r)
unfolding kept_registers
resets_any_features pkt_count_reg = refl
resets_any_features size_log_reg = refl
resets_any_features size_log_square_reg = refl
resets_any_features size_log_cube_reg = refl
resets_any_features iat_log_reg = refl
resets_any_features iat_log_square_reg = refl
resets_any_features iat_log_cube_reg = refl
resets_any_features iat_last_timestamp_reg = refl

abbrev pub zeros : FeatureRegister
zeros = record { values = λ _. 0; data_plane_values = λ _. 0; last_data_plane_value = λ _. 0 }

module _ {S : Type 0} (driver : RegisterDriver S) (cell : S → Register → ℕ → ℕ → ℕ)
    (good : IsResetter driver cell) (r : Register) (j : ℕ) where
  -- The pipes from `q` on.
  pipes_reset :
      (i : ℕ) (d : Descriptor) (k q p : ℕ) (s : FeatureStore S)
      → cell (each (reset_and_prepare driver i d) k q s).switch r p j ≡ (
          if number_of d.reset_of == number_of r && leb q p && ltb p (q + k)
          then 0
          else cell s.switch r p j)
  unfolding each reset_and_prepare prepare_feature
  pipes_reset i d zero q p s = ground arith
  pipes_reset i d (suc k) q p s =
      pipes_reset i d k (q + 1) p (reset_and_prepare driver i d q s)
      ∙ ground (arith, good.resets d.reset_of r q p s.switch j)

  features_reset :
      (ds : List Descriptor) (i p : ℕ) (s : FeatureStore S)
      → p < 4
      → cell (over (λ i d. each (reset_and_prepare driver i d) 4 0) i ds s).switch r p j
        ≡ (if resets_any ds (number_of r) then 0 else cell s.switch r p j)
  unfolding over
  features_reset [] i p s lt = refl
  features_reset (d ∷ ds) i p s lt =
      features_reset ds (i + 1) p (each (reset_and_prepare driver i d) 4 0 s) lt
      ∙ ground (arith, pipes_reset i d 4 0 p s)

  pipes_clear :
      (i : ℕ) (d : Descriptor) (s : FeatureStore S)
      → ((each (reset_and_prepare driver i d) 4 0 s).registers i ≡ zeros)
        × ((f : ℕ)
            → i ≢ f
            → (each (reset_and_prepare driver i d) 4 0 s).registers f ≡ s.registers f)
  unfolding each reset_and_prepare prepare_feature
  pipes_clear i d s =
      let a = update s.registers i zeros in
      let b = update a i zeros in
      let c = update b i zeros in
      (
        update_self c i zeros,
        λ f ne.
            update_ne c i zeros f ne
            ∙ update_ne b i zeros f ne
            ∙ update_ne a i zeros f ne
            ∙ update_ne s.registers i zeros f ne,
      )

  -- `prepare_features` sets the arrays of every feature to 0, and clears on every pipe the
  -- registers of the switch, but not those of `iat_log` and of the last timestamp, which keep
  -- what they hold.
  pub prepare_features_clears :
      (s : FeatureStore S) (f p : ℕ) (d : Descriptor)
      → get_elem? features f ≡ some d
      → p < 4
      → ((prepare_features driver s).registers f ≡ zeros)
        × (cell (prepare_features driver s).switch r p j
            ≡ (if kept_registers r then cell s.switch r p j else 0))
  unfolding prepare_features
  prepare_features_clears s f p d there lt = (
    over_at (λ i d. each (reset_and_prepare driver i d) 4 0) (λ _. Unit {0})
        (λ d old new. new ≡ zeros)
        (λ i d s _. let (here, others) = pipes_clear i d s in (tt, here, others)) features 0 f f d s
        tt (omega arith) there,
    features_reset features 0 p s lt ∙ ground (arith, resets_any_features r),
  )
