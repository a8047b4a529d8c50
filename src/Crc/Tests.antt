-- ===== src/Crc/Tests.antt =====
-- The checksums of "abcd", as in controller/tests/test_crc.c.
use marina.Prelude.{ℕ, ◌≡◌, refl, arith, List, [], ◌∷◌}
use marina.Crc.{
  at, round_reversed, loop_reversed, reversed, round_q, loop_q, crc32_normal, crc32c, crc32d,
  crc32q, crc_fn,
}
use marina.Crc.Tables.{crc32_normal_table, crc32c_table, crc32d_table, crc32q_table}
use marina.Crc.Table.{AllBytes}
use marina.Crc.Checksums.{by_bits, crc_fn-by_bits}

abbrev text : List ℕ
text = 97 ∷ 98 ∷ 99 ∷ 100 ∷ []

normal_text : crc_fn 0 text 0 ≡ 3984772369
unfolding crc_fn crc32_normal reversed loop_reversed round_reversed at crc32_normal_table
normal_text = refl

c_text : crc_fn 1 text 0 ≡ 2462583345
unfolding crc_fn crc32c reversed loop_reversed round_reversed at crc32c_table
c_text = refl

d_text : crc_fn 2 text 0 ≡ 2599230614
unfolding crc_fn crc32d reversed loop_reversed round_reversed at crc32d_table
d_text = refl

q_text : crc_fn 3 text 0 ≡ 2575044939
unfolding crc_fn crc32q loop_q round_q at crc32q_table
q_text = refl

text-AllBytes : AllBytes text
unfolding AllBytes
text-AllBytes = omega arith

crc_fn-by_bits_example : crc_fn 3 text 0 ≡ by_bits 3 text 0
crc_fn-by_bits_example = crc_fn-by_bits 3 text 0 text-AllBytes (omega arith)
