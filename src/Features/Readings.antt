-- ===== src/Features/Readings.antt =====
-- controller/dataplane/features.c: what reading the switch makes of the values of every feature.
use marina.Prelude.{
  ℕ, zero, suc, ◌+◌, ◌-◌, ◌%◌, ◌^◌, ◌<◌, ◌≤◌, ◌≡◌, ◌≢◌, refl, sym, ◌∙◌, ap, arith, Bool, true,
  success, Option, some, List, [], ◌∷◌, get_elem?, update_self, update_ne,
}
use marina.Features.{
  FeatureRegister, accumulate, each, process_feature, swap_dp_buffer, min_session_id,
}
use marina.Features.Registers.{
  Register, Descriptor, features, Process, ageing, plain, RegisterDriver, FeatureStore, over,
  sync_feature, read_feature, process_by, read_features,
}
use marina.Features.Over.{over_at}
use marina.Features.SameValues.{process_and_age-process}
use marina.Features.Values.{process_feature_adds}

data_plane_values-each :
    (k i : ℕ) (r : FeatureRegister)
    → (each (λ i s. accumulate s i) k i r).data_plane_values ≡ r.data_plane_values
unfolding each accumulate
data_plane_values-each zero i r = refl
data_plane_values-each (suc k) i r = data_plane_values-each k (i + 1) (accumulate r i)

data_plane_values-process :
    (feature_size : ℕ) (r : FeatureRegister)
    → (process_feature feature_size r).data_plane_values ≡ r.data_plane_values
unfolding process_feature
data_plane_values-process feature_size r =
    data_plane_values-each (feature_size - min_session_id) min_session_id r

-- What is documented of the driver, whose state has what the registers of the switch have counted
-- and the copy of it in software. A call does not change what is counted. While the driver answers,
-- its calls succeed. If it succeeds, synchronising a register makes the copy of it what is counted,
-- and leaves any copy so that was so, and reading gives the last 32 bits of the copy.
pub record IsReader {S : Type 0} (driver : RegisterDriver S) (counted copied : S → Register → ℕ → ℕ)
    (answers : S → Bool) : Type 0 where
  pub sync_answers :
      (r : Register) (s : S)
      → answers s ≡ true
      → ((driver.sync r s).0 ≡ success) × (answers (driver.sync r s).1 ≡ true)
  pub read_answers :
      (r : Register) (b : ℕ → ℕ) (s : S)
      → answers s ≡ true
      → ((driver.read r b s).0 ≡ success) × (answers (driver.read r b s).2 ≡ true)
  pub sync_keeps :
      (r r' : Register) (s : S) (j : ℕ) → counted (driver.sync r s).1 r' j ≡ counted s r' j
  pub syncs :
      (r : Register) (s : S) (j : ℕ)
      → (driver.sync r s).0 ≡ success
      → copied (driver.sync r s).1 r j ≡ counted s r j
  pub sync_keeps_copy :
      (r r' : Register) (s : S) (j : ℕ)
      → copied s r' j ≡ counted s r' j
      → copied (driver.sync r s).1 r' j ≡ counted s r' j
  pub read_keeps :
      (r r' : Register) (b : ℕ → ℕ) (s : S) (j : ℕ)
      → copied (driver.read r b s).2 r' j ≡ copied s r' j
  pub reads :
      (r : Register) (b : ℕ → ℕ) (s : S) (j : ℕ)
      → (driver.read r b s).0 ≡ success
      → (driver.read r b s).1 j ≡ copied s r j % 2 ^ 32

-- `table_hdl` and `read_fn` name the same register.
unfoldable AllNamed : List Descriptor → Type 0
AllNamed [] = Unit
AllNamed (d ∷ ds) = (d.table_of ≡ d.read_of) × AllNamed ds

AllNamed-at :
    (ds : List Descriptor) (k : ℕ) (d : Descriptor)
    → AllNamed ds
    → get_elem? ds k ≡ some d
    → d.table_of ≡ d.read_of
unfolding AllNamed
AllNamed-at [] k d named there = cc there
AllNamed-at (d' ∷ ds) zero d (here, named) there =
    let same : d' ≡ d = cc there in
    ap (λ (x : Descriptor). x.table_of) (sym same) ∙ here ∙ ap (λ (x : Descriptor). x.read_of) same
AllNamed-at (d' ∷ ds) (suc k) d (here, named) there = AllNamed-at ds k d named there

features-AllNamed : AllNamed features
unfolding AllNamed
features-AllNamed = (refl, (refl, (refl, (refl, (refl, (refl, (refl, tt)))))))

module _ {S : Type 0} (driver : RegisterDriver S) (counted copied : S → Register → ℕ → ℕ)
    (answers : S → Bool) (good : IsReader driver counted copied answers)
    (ring_size feature_size : ℕ) where
  -- The copies are `c`, and the driver answers.
  abbrev Counts : (Register → ℕ → ℕ) → FeatureStore S → Type 0
  Counts c s = ((r : Register) (j : ℕ) → copied s.switch r j ≡ c r j) × (answers s.switch ≡ true)

  -- A feature whose buffers were swapped and filled.
  abbrev Filled : (Register → ℕ → ℕ) → Descriptor → FeatureRegister → FeatureRegister → Type 0
  Filled c d old new =
      (new.values ≡ old.values)
      × (new.last_data_plane_value ≡ old.data_plane_values)
      × ((j : ℕ) → new.data_plane_values j ≡ c d.read_of j % 2 ^ 32)

  read_feature_fills :
      (c : Register → ℕ → ℕ) (i : ℕ) (d : Descriptor) (s : FeatureStore S)
      → Counts c s
      → Counts c (read_feature driver i d s).1
        × Filled c d (s.registers i) ((read_feature driver i d s).1.registers i)
        × ((f : ℕ) → i ≢ f → (read_feature driver i d s).1.registers f ≡ s.registers f)
  unfolding read_feature swap_dp_buffer
  read_feature_fills c i d s v =
      let b = (s.registers i).last_data_plane_value in
      let r = record (s.registers i) {
        data_plane_values = (driver.read d.read_of b s.switch).1;
        last_data_plane_value = (s.registers i).data_plane_values;
      } in
      (
        (
          λ r j. good.read_keeps d.read_of r b s.switch j ∙ v.0 r j,
          (good.read_answers d.read_of b s.switch v.1).1,
        ),
        rw (update_self s.registers i r) (
          refl,
          refl,
          λ j.
              good.reads d.read_of b s.switch j (good.read_answers d.read_of b s.switch v.1).0
              ∙ ap (λ n. n % 2 ^ 32) (v.0 d.read_of j),
        ),
        λ f ne. update_ne s.registers i r f ne,
      )

  process_by_processes :
      (now : ℕ) (sessions : ℕ → Option ℕ) (i : ℕ) (p : Process) (s : FeatureStore S)
      → ((process_by driver ring_size now sessions feature_size i p s).registers i
          ≡ process_feature feature_size (s.registers i))
        × ((f : ℕ)
            → i ≢ f
            → (process_by driver ring_size now sessions feature_size i p s).registers f
              ≡ s.registers f)
  unfolding process_by
  process_by_processes now sessions i plain s =
      (update_self s.registers i _, λ f ne. update_ne s.registers i _ f ne)
  process_by_processes now sessions i ageing s = (
    update_self s.registers i _
        ∙ process_and_age-process ring_size now sessions feature_size (record {
          register = s.registers i;
          last_flow_update = s.last_flow_update;
          packet_ring = s.packet_ring;
        }),
    λ f ne. update_ne s.registers i _ f ne,
  )

  abbrev sync_round : ℕ → Descriptor → FeatureStore S → FeatureStore S
  sync_round i d s = record s { switch = (sync_feature driver d s.switch).1 }

  -- The loop that synchronises leaves what is counted, and any copy that is right.
  sync_keeps_all :
      (ds : List Descriptor) (i : ℕ) (s : FeatureStore S)
      → answers s.switch ≡ true
      → (answers (over sync_round i ds s).switch ≡ true)
        × ((r : Register) (j : ℕ)
            → counted (over sync_round i ds s).switch r j ≡ counted s.switch r j)
        × ((r : Register) (j : ℕ)
            → copied s.switch r j ≡ counted s.switch r j
            → copied (over sync_round i ds s).switch r j ≡ counted s.switch r j)
  unfolding over sync_feature
  sync_keeps_all [] i s up = (up, (λ r j. refl), λ r j e. e)
  sync_keeps_all (d ∷ ds) i s up =
      let (up', same, right) =
        sync_keeps_all ds (i + 1) (sync_round i d s) (good.sync_answers d.table_of s.switch up).1 in
      let here : (r : Register) (j : ℕ)
          → counted (driver.sync d.table_of s.switch).1 r j ≡ counted s.switch r j =
        λ r j. good.sync_keeps d.table_of r s.switch j in
      (
        up',
        (λ r j. same r j ∙ here r j),
        λ r j e.
            right r j (good.sync_keeps_copy d.table_of r s.switch j e ∙ sym (here r j)) ∙ here r j,
      )

  -- After it the copy of each register of the features is what is counted.
  synced_at :
      (ds : List Descriptor) (i k : ℕ) (d : Descriptor) (s : FeatureStore S) (j : ℕ)
      → answers s.switch ≡ true
      → get_elem? ds k ≡ some d
      → copied (over sync_round i ds s).switch d.table_of j ≡ counted s.switch d.table_of j
  unfolding over sync_feature
  synced_at [] i k d s j up there = cc there
  synced_at (d' ∷ ds) i zero d s j up there =
      let same : d' ≡ d = cc there in
      let (ok, up') = good.sync_answers d'.table_of s.switch up in
      let (_, _, right) = sync_keeps_all ds (i + 1) (sync_round i d' s) up' in
      let here = good.sync_keeps d'.table_of d'.table_of s.switch j in
      rw (sym same) (right d'.table_of j (good.syncs d'.table_of s.switch j ok ∙ sym here) ∙ here)
  synced_at (d' ∷ ds) i (suc k) d s j up there =
      synced_at ds (i + 1) k d (sync_round i d' s) j (good.sync_answers d'.table_of s.switch up).1
        there
      ∙ good.sync_keeps d'.table_of d.table_of s.switch j

  registers-sync :
      (ds : List Descriptor) (i : ℕ) (s : FeatureStore S)
      → (over sync_round i ds s).registers ≡ s.registers
  unfolding over
  registers-sync [] i s = refl
  registers-sync (d ∷ ds) i s = registers-sync ds (i + 1) _

  -- A round of reading, for a feature that was last read when its register had counted `a`.
  pub read_features_adds :
      (now : ℕ) (sessions : ℕ → Option ℕ) (s : FeatureStore S) (f : ℕ) (d : Descriptor) (j a : ℕ)
      → answers s.switch ≡ true
      → get_elem? features f ≡ some d
      → min_session_id ≤ j
      → j < feature_size
      → (s.registers f).data_plane_values j ≡ a % 2 ^ 32
      → a ≤ counted s.switch d.read_of j
      → counted s.switch d.read_of j < a + 2 ^ 32
      → let new = (read_features driver ring_size now sessions feature_size s).registers f in
        (new.values j ≡ ((s.registers f).values j + (counted s.switch d.read_of j - a)) % 2 ^ 64)
        × (new.data_plane_values j ≡ counted s.switch d.read_of j % 2 ^ 32)
  unfolding read_features
  read_features_adds now sessions s f d j a up there low high last le near =
      let synced = over sync_round 0 features s in
      let c = copied synced.switch in
      let named = AllNamed-at features f d features-AllNamed there in
      let count : c d.read_of j ≡ counted s.switch d.read_of j =
        rw named at (synced_at features 0 f d s j up there) in
      let v : Counts c synced = ((λ r j. refl), (sync_keeps_all features 0 s up).0) in
      let fill = λ (i : ℕ) (d : Descriptor) (s : FeatureStore S). (read_feature driver i d s).1 in
      let (same_values, same_last, read) =
        over_at fill (Counts c) (Filled c) (read_feature_fills c) features 0 f f d synced v
          (omega arith) there in
      let filled = (over fill 0 features synced).registers f in
      let kept : synced.registers f ≡ s.registers f =
        ap (λ (g : ℕ → FeatureRegister). g f) (registers-sync features 0 s) in
      let processed =
        over_at (λ i d. process_by driver ring_size now sessions feature_size i d.process_register)
          (λ _. Unit {0}) (λ d old new. new ≡ process_feature feature_size old)
          (λ i d s _.
            let (here, others) = process_by_processes now sessions i d.process_register s in
            (tt, here, others))
          features 0 f f d (over fill 0 features synced) tt (omega arith) there in
      rw processed (
        process_feature_adds feature_size filled j a (counted s.switch d.read_of j) low high
              (read j ∙ ap (λ n. n % 2 ^ 32) count)
              (ap (λ (g : ℕ → ℕ). g j) same_last
                ∙ ap (λ (r : FeatureRegister). r.data_plane_values j) kept
                ∙ last)
              le near
            ∙ ap (λ n. (n + (counted s.switch d.read_of j - a)) % 2 ^ 64)
                (ap (λ (g : ℕ → ℕ). g j) same_values
                  ∙ ap (λ (r : FeatureRegister). r.values j) kept),
        ap (λ (g : ℕ → ℕ). g j) (data_plane_values-process feature_size filled)
            ∙ read j
            ∙ ap (λ n. n % 2 ^ 32) count,
      )
