-- ===== src/Crc.antt =====
-- controller/datastructures/hashes/crc.c: the four checksums, by tables. The bytes of the data are a
-- list, which stands for `data` and `len`.
pub mod Xor
pub mod Tables
pub mod Bits
pub mod Table
pub mod BitsQ
pub mod TableQ
pub mod Checksums
mod Tests
use Prim.Native.Nat.{bit_xor}
use marina.Prelude.{ℕ, zero, suc, ◌+◌, ◌*◌, ◌/◌, ◌%◌, ◌^◌, List, [], ◌∷◌}
use Tables.{crc32_normal_table, crc32c_table, crc32d_table, crc32q_table}

-- `table[i]`.
unfoldable pub at : List ℕ → ℕ → ℕ
at [] i = 0
at (x ∷ table) zero = x
at (x ∷ table) (suc i) = at table i

-- The round of the loop in the functions whose polynomial is written lowest degree first.
unfoldable pub round_reversed : List ℕ → ℕ → ℕ → ℕ
round_reversed table crc byte = bit_xor (at table (bit_xor byte (crc % 2 ^ 8))) (crc / 2 ^ 8)

unfoldable pub loop_reversed : List ℕ → List ℕ → ℕ → ℕ
loop_reversed table [] crc = crc
loop_reversed table (byte ∷ rest) crc = loop_reversed table rest (round_reversed table crc byte)

unfoldable pub reversed : List ℕ → List ℕ → ℕ → ℕ
reversed table bytes crc = bit_xor (loop_reversed table bytes (bit_xor crc 0xFFFFFFFF)) 0xFFFFFFFF

unfoldable pub crc32_normal : List ℕ → ℕ → ℕ
crc32_normal bytes crc = reversed crc32_normal_table bytes crc

unfoldable pub crc32c : List ℕ → ℕ → ℕ
crc32c bytes crc = reversed crc32c_table bytes crc

unfoldable pub crc32d : List ℕ → ℕ → ℕ
crc32d bytes crc = reversed crc32d_table bytes crc

-- The round of `crc32q`, whose polynomial is written highest degree first.
unfoldable pub round_q : List ℕ → ℕ → ℕ → ℕ
round_q table crc byte =
    bit_xor (at table (bit_xor byte (crc / 2 ^ 24 % 2 ^ 8))) (crc * 2 ^ 8 % 2 ^ 32)

unfoldable pub loop_q : List ℕ → List ℕ → ℕ → ℕ
loop_q table [] crc = crc
loop_q table (byte ∷ rest) crc = loop_q table rest (round_q table crc byte)

unfoldable pub crc32q : List ℕ → ℕ → ℕ
crc32q bytes crc = loop_q crc32q_table bytes crc

-- `crc_fn[i]`; there are four.
unfoldable pub crc_fn : ℕ → List ℕ → ℕ → ℕ
crc_fn zero = crc32_normal
crc_fn (suc zero) = crc32c
crc_fn (suc (suc zero)) = crc32d
crc_fn (suc (suc (suc i))) = crc32q
