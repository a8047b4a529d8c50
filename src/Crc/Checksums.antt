-- ===== src/Crc/Checksums.antt =====
-- What the four checksums are.
use Prim.Native.Nat.{bit_xor}
use marina.Prelude.{ℕ, zero, suc, ◌<◌, ◌^◌, ◌≡◌, List}
use marina.Crc.{crc32_normal, crc32c, crc32d, crc32q, crc_fn}
use marina.Crc.Bits.{bytes_reversed}
use marina.Crc.BitsQ.{bytes_q}
use marina.Crc.Table.{AllBytes, reversed_lem, normal-IsTable, c-IsTable, d-IsTable}
use marina.Crc.TableQ.{loop_q_lem}

-- The checksums bit by bit, with the polynomials that the comments of the source name, reversed for
-- the first three, without their highest bit.
unfoldable pub by_bits : ℕ → List ℕ → ℕ → ℕ
by_bits zero bytes crc =
    bit_xor (bytes_reversed 0xEDB88320 bytes (bit_xor crc 0xFFFFFFFF)) 0xFFFFFFFF
by_bits (suc zero) bytes crc =
    bit_xor (bytes_reversed 0x82F63B78 bytes (bit_xor crc 0xFFFFFFFF)) 0xFFFFFFFF
by_bits (suc (suc zero)) bytes crc =
    bit_xor (bytes_reversed 0xD419CC15 bytes (bit_xor crc 0xFFFFFFFF)) 0xFFFFFFFF
by_bits (suc (suc (suc i))) bytes crc = bytes_q 0x814141AB bytes crc

-- Each of the four checksums, which take a byte at once by a table, is on all bytes and from every
-- number of 32 bits the division bit by bit by the polynomial that the source names: each of the
-- 256 entries of each of the four tables is right.
pub crc_fn-by_bits :
    (i : ℕ) (bytes : List ℕ) (crc : ℕ)
    → AllBytes bytes
    → crc < 2 ^ 32
    → crc_fn i bytes crc ≡ by_bits i bytes crc
unfolding crc_fn by_bits crc32_normal crc32c crc32d crc32q
crc_fn-by_bits zero bytes crc all lt = reversed_lem 0xEDB88320 _ normal-IsTable bytes crc all
crc_fn-by_bits (suc zero) bytes crc all lt = reversed_lem 0x82F63B78 _ c-IsTable bytes crc all
crc_fn-by_bits (suc (suc zero)) bytes crc all lt = reversed_lem 0xD419CC15 _ d-IsTable bytes crc all
crc_fn-by_bits (suc (suc (suc i))) bytes crc all lt = loop_q_lem bytes crc all lt
