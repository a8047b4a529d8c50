-- ===== src/Features/Values.antt =====
-- The values of features, across wrap-around of the registers of the switch.
use marina.Prelude.{
  ℕ, zero, suc, ◌+◌, ◌-◌, ◌%◌, ◌^◌, ◌<◌, ◌≤◌, ◌≡◌, arith, leb, ltb, ◌&&◌, if◌then◌else◌, update,
}
use marina.Features.{FeatureRegister, accumulate, each, process_feature}

-- What a round makes of the value at `j`.
abbrev pub added_to : FeatureRegister → ℕ → ℕ
added_to r j =
    (r.values j + (r.data_plane_values j + 2 ^ 32 - r.last_data_plane_value j) % 2 ^ 32) % 2 ^ 64

each-values :
    (k i : ℕ) (r : FeatureRegister) (j : ℕ)
    → (each (λ i s. accumulate s i) k i r).values j
      ≡ (if leb i j && ltb j (i + k) then added_to r j else r.values j)
unfolding each accumulate update
each-values zero i r j = ground arith
each-values (suc k) i r j = ground (arith, each-values k (i + 1) (accumulate r i) j)

-- The difference of two readings of a counter, of which only the last 32 bits can be read.
difference :
    (a b : ℕ) → a ≤ b → b < a + 2 ^ 32 → (b % 2 ^ 32 + 2 ^ 32 - a % 2 ^ 32) % 2 ^ 32 ≡ b - a
difference a b le near = omega arith

-- If a counter of the switch has gone from `a` to `b`, by less than 2 ^ 32, and its last 32 bits were read before and after, `process_feature` adds `b - a` to the value of its index, in 64 bits, also if the register has wrapped.
pub process_feature_adds :
    (feature_size : ℕ) (r : FeatureRegister) (j a b : ℕ)
    → 4 ≤ j
    → j < feature_size
    → r.data_plane_values j ≡ b % 2 ^ 32
    → r.last_data_plane_value j ≡ a % 2 ^ 32
    → a ≤ b
    → b < a + 2 ^ 32
    → (process_feature feature_size r).values j ≡ (r.values j + (b - a)) % 2 ^ 64
unfolding process_feature
process_feature_adds feature_size r j a b low high after before le near =
    ground (arith, each-values (feature_size - 4) 4 r j, difference a b le near)
