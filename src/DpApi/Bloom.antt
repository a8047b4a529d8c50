-- ===== src/DpApi/Bloom.antt =====
-- The writes of `switch_write_bloom_filter`.
use marina.Prelude.{
  ℕ, zero, suc, ◌+◌, ◌≡◌, refl, arith, success, ◌==◌, if◌then◌else◌, ltb, leb, ◌&&◌, update, Bool,
  false, ◌∙◌, ℕ_discrete,
}
use marina.Prelude.Int.{ℤ, pos, negsuc}
use marina.DpApi.{Driver, ok, go_on, write_index, write_loop, switch_write_bloom_filter}

-- A driver that never fails, on registers by filter, pipe and index, and has no other function.
abbrev pub Registers : Type 0
Registers = ℕ → ℕ → ℕ → ℕ

-- Whether a register is the one that an index names; an index below 0 names none.
unfoldable pub names : ℤ → ℕ → Bool
names (pos index) x = x == index
names (negsuc n) x = false

module _ {H : Type 0} (driver : Driver Registers H)
    (writes : (i pipe index value : ℕ) (s : Registers)
      → driver.write_bloom_filter i pipe index value s
        ≡ (success, update s i (update (s i) pipe (update (s i pipe) index value)))) where
  -- What a round leaves: it succeeds, and writes one register at most.
  index_lem :
      (i pipe : ℕ) (index : ℤ) (value : ℕ) (s : Registers)
      → (s' : Registers) × (write_index driver i pipe index value s ≡ (success, s'))
        × ((j q x : ℕ)
            → s' j q x ≡ (if j == i && q == pipe && names index x then value else s j q x))
  unfolding write_index names update
  index_lem i pipe (pos index) value s = (_, writes i pipe index value s, λ j q x. ground arith)
  index_lem i pipe (negsuc n) value s = (s, refl, λ j q x. ground arith)

  loop_lem :
      (pipe : ℕ) (indices : ℕ → ℤ) (value k i : ℕ) (s : Registers) (j q x : ℕ)
      → ((write_loop driver pipe indices value k i s).0 ≡ ok)
        × ((write_loop driver pipe indices value k i s).1 j q x ≡ (
            if leb i j && ltb j (i + k) && q == pipe && names (indices j) x
            then value
            else s j q x))
  unfolding write_loop go_on
  loop_lem pipe indices value zero i s j q x = (refl, ground arith)
  loop_lem pipe indices value (suc k) i s j q x =
      let (s', e, at) = index_lem i pipe (indices i) value s in
      let (good, cell) = loop_lem pipe indices value k (i + 1) s' j q x in
      rw e (
        good,
        cell ∙ elim (ℕ_discrete j i) [
          | yes same ↦ rw (at j q x, same) (ground arith)
          | no other ↦ rw (at j q x) (ground arith)
        ],
      )

  -- If the driver writes the registers that it is told to, and does not fail,
  -- `switch_write_bloom_filter` succeeds, and writes the value, in each of the four filters of the
  -- pipe, at the index of that filter if it is not below 0, and nowhere else; an index 0 is written
  -- like any other.
  pub write_bloom_filter_lem :
      (pipe : ℕ) (indices : ℕ → ℤ) (value : ℕ) (s : Registers) (j q x : ℕ)
      → ((switch_write_bloom_filter driver pipe indices value s).0 ≡ ok)
        × ((switch_write_bloom_filter driver pipe indices value s).1 j q x
            ≡ (if ltb j 4 && q == pipe && names (indices j) x then value else s j q x))
  unfolding switch_write_bloom_filter
  write_bloom_filter_lem pipe indices value s j q x =
      let (good, cell) = loop_lem pipe indices value 4 0 s j q x in (good, cell ∙ ground arith)
