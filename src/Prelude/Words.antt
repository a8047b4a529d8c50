-- ===== src/Prelude/Words.antt =====
-- Indices that go round an array, and machine words.
use Prim.Native.Nat.{ℕ, ◌+◌, ◌-◌, ◌%◌, ◌≤◌, ◌<◌}
use mathlib.Core.Path.{◌≡◌}
use native.Mathlib.Nat.{mod-eq_of_lt, mod-eq-sub-mod}
use native.Mathlib.Decide.{dec_lt}
use native.Mathlib.Omega.{arith}
use marina.Prelude.Decisions.{ltb, if◌then◌else◌}

-- At most one turn round an array of `s` cells, from a cell of it.
pub mod_wrap :
    (s t i : ℕ) → t < s → i ≤ s → (t + i) % s ≡ (if ltb (t + i) s then t + i else t + i - s)
mod_wrap s t i h k = elim (dec_lt (t + i) s) [
  | yes p ↦ ground (arith, mod-eq_of_lt {n = t + i} {m = s} p)
  | no p ↦ ground (
    arith,
    mod-eq-sub-mod {n = t + i} {m = s} (omega arith),
    mod-eq_of_lt {n = t + i - s} {m = s} (omega arith),
  )
]
