-- ===== src/Features/Totals.antt =====
-- controller/dataplane/features.c: the values of the features after any number of readings.
use marina.Prelude.{
  ℕ, ◌+◌, ◌-◌, ◌%◌, ◌^◌, ◌<◌, ◌≤◌, ◌≡◌, ◌∙◌, ap, arith, Option, some, Bool, true, List, [], ◌∷◌,
  get_elem?,
}
use marina.Features.{min_session_id}
use marina.Features.Registers.{
  Register, Descriptor, features, RegisterDriver, FeatureStore, read_features,
}
use marina.Features.Readings.{IsReader, read_features_adds}

-- A moment at which the features are read: the switch, which has counted on since, the clock, and
-- the sessions of the egress registers.
pub record Moment (S : Type 0) : Type 0 where
  pub switch : S
  pub now : ℕ
  pub egress_feature_to_session_id : ℕ → Option ℕ

module _ {S : Type 0} (driver : RegisterDriver S) (ring_size feature_size : ℕ) where
  -- The features are read at each of the moments.
  pub readings : List (Moment S) → FeatureStore S → FeatureStore S
  readings [] s = s
  readings (t ∷ rest) s = readings rest (
      read_features driver ring_size t.now t.egress_feature_to_session_id feature_size
        (record s { switch = t.switch }))

-- A register has counted `a` before the moments and `b` at the last of them, and less than 2 ^ 32
-- from each to the next; the driver answers at each.
pub data Goes {S : Type 0} (answers : S → Bool) (count : S → ℕ)
    : ℕ → List (Moment S) → ℕ → Type 0 where
  stays : {a : ℕ} → Goes answers count a [] a
  goes :
      {a b : ℕ} {t : Moment S} {rest : List (Moment S)}
      → answers t.switch ≡ true
      → a ≤ count t.switch
      → count t.switch < a + 2 ^ 32
      → Goes answers count (count t.switch) rest b
      → Goes answers count a (t ∷ rest) b

Goes-le :
    {S : Type 0} {answers : S → Bool} {count : S → ℕ} {a b : ℕ} {moments : List (Moment S)}
    → Goes answers count a moments b
    → a ≤ b
Goes-le stays = omega arith
Goes-le (goes up le near g) = omega (arith, le, Goes-le g)

add_twice :
    (v a b c : ℕ)
    → a ≤ b
    → b ≤ c
    → ((v + (b - a)) % 2 ^ 64 + (c - b)) % 2 ^ 64 ≡ (v + (c - a)) % 2 ^ 64
add_twice v a b c p q = omega arith

module _ {S : Type 0} (driver : RegisterDriver S) (counted copied : S → Register → ℕ → ℕ)
    (answers : S → Bool) (good : IsReader driver counted copied answers)
    (ring_size feature_size : ℕ) where
  -- After any number of calls of `read_features`, the value of a feature has grown, in 64 bits,
  -- by what its register on the switch has counted since the state that the values start
  -- from, also if the register has wrapped any number of times, provided that it counts less
  -- than 2 ^ 32 from each reading to the next, and that the driver answers at each reading, so
  -- that none of its calls fails. This holds for every feature of the array, those that time
  -- flows out included, and for every index from MIN_SESSION_ID on.
  pub readings_add_up :
      (moments : List (Moment S)) (s : FeatureStore S) (f : ℕ) (d : Descriptor) (j a b : ℕ)
      → get_elem? features f ≡ some d
      → min_session_id ≤ j
      → j < feature_size
      → (s.registers f).data_plane_values j ≡ a % 2 ^ 32
      → (s.registers f).values j < 2 ^ 64
      → Goes answers (λ w. counted w d.read_of j) a moments b
      → ((readings driver ring_size feature_size moments s).registers f).values j
        ≡ ((s.registers f).values j + (b - a)) % 2 ^ 64
  unfolding readings
  readings_add_up [] s f d j a b there low high last fits stays = omega arith
  readings_add_up (t ∷ rest) s f d j a b there low high last fits (goes up le near g) =
      let s' = record s { switch = t.switch } in
      let (added, read) =
        read_features_adds driver counted copied answers good ring_size feature_size t.now
          t.egress_feature_to_session_id s' f d j a up there low high last le near in
      let after =
        read_features driver ring_size t.now t.egress_feature_to_session_id feature_size s' in
      readings_add_up rest after f d j (counted t.switch d.read_of j) b there low high read
        (rw added (omega arith)) g
      ∙ ap (λ v. (v + (b - counted t.switch d.read_of j)) % 2 ^ 64) added
      ∙ add_twice ((s.registers f).values j) a (counted t.switch d.read_of j) b le (Goes-le g)
