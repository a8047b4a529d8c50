-- ===== src/Crc/TableQ.antt =====
-- That the table of `crc32q` does eight bits at once.
use Prim.Native.Nat.{bit_xor}
use marina.Prelude.{
  ℕ, ◌+◌, ◌*◌, ◌/◌, ◌%◌, ◌^◌, ◌<◌, ◌≡◌, refl, sym, ap, ap₂, ◌∙◌, arith, true, ◌==◌, ==_iff, ltb,
  ltb→lt, List, [], ◌∷◌,
}
use marina.Crc.{at, round_q, loop_q}
use marina.Crc.Tables.{crc32q_table}
use marina.Crc.BitsQ.{bit_q, bits_q, bytes_q, bits_q-xor, bits_q-small}
use marina.Crc.Table.{AllBytes, entries_hold, entries_hold-at}
use marina.Crc.Xor.{poly_in, dbl, xor_comm, xor_zero, xor_split, xor_fields, xor-lt}

abbrev poly : ℕ
poly = 0x814141AB

-- The entry of a byte is what eight bits make of it, as the upper byte of 32 bits.
table_q : entries_hold (λ i x. x == bits_q poly 8 (i * 2 ^ 24)) 256 0 crc32q_table ≡ true
unfolding entries_hold bits_q bit_q poly_in crc32q_table
table_q = refl

at_lem : (i : ℕ) → i < 256 → at crc32q_table i ≡ bits_q poly 8 (i * 2 ^ 24)
at_lem i lt = (==_iff (at crc32q_table i) (bits_q poly 8 (i * 2 ^ 24))).0 (
    entries_hold-at (λ i x. x == bits_q poly 8 (i * 2 ^ 24)) 256 0 i i crc32q_table table_q lt
      (omega arith))

-- The upper byte meets the byte of the data, the others stay.
upper_byte :
    (r byte : ℕ)
    → r < 2 ^ 32
    → byte < 2 ^ 8
    → bit_xor r (byte * 2 ^ 24) ≡ bit_xor (bit_xor byte (r / 2 ^ 24 % 2 ^ 8) * 2 ^ 24) (r % 2 ^ 24)
unfolding dbl
upper_byte r byte lt lt' =
    let hi = r / 2 ^ 24 in
    let lo = r % 2 ^ 24 in
    let whole : dbl 24 hi + lo ≡ r = omega arith in
    let shifted : dbl 24 byte + 0 ≡ byte * 2 ^ 24 = omega arith in
    let same : bit_xor byte (hi % 2 ^ 8) ≡ bit_xor hi byte =
      ap (bit_xor byte) (omega arith) ∙ xor_comm byte hi in
    let upper : bit_xor byte (hi % 2 ^ 8) * 2 ^ 24 ≡ dbl 24 (bit_xor hi byte) =
      omega (arith, same) in
    sym (ap₂ bit_xor whole shifted)
    ∙ xor_split 24 hi lo byte 0 (omega arith) (omega arith)
    ∙ ap (λ l. dbl 24 (bit_xor hi byte) + l) (xor_zero lo)
    ∙ sym (xor_fields 24 (bit_xor hi byte) lo (omega arith))
    ∙ ap (λ u. bit_xor u lo) (sym upper)

table_small : entries_hold (λ i x. ltb x (2 ^ 32)) 256 0 crc32q_table ≡ true
unfolding entries_hold crc32q_table
table_small = refl

round_lem :
    (r byte : ℕ)
    → r < 2 ^ 32
    → byte < 2 ^ 8
    → round_q crc32q_table r byte ≡ bits_q poly 8 (bit_xor r (byte * 2 ^ 24))
unfolding round_q dbl
round_lem r byte lt lt' =
    let i = bit_xor byte (r / 2 ^ 24 % 2 ^ 8) in
    let small : i < 256 = xor-lt 8 byte (r / 2 ^ 24 % 2 ^ 8) (omega arith) (omega arith) in
    let rest : dbl 8 (r % 2 ^ 24) ≡ r * 2 ^ 8 % 2 ^ 32 = omega arith in
    ap₂ bit_xor (at_lem i small) (sym rest ∙ sym (bits_q-small poly 8 (r % 2 ^ 24) (omega arith)))
    ∙ sym (bits_q-xor poly 8 (i * 2 ^ 24) (r % 2 ^ 24))
    ∙ ap (bits_q poly 8) (sym (upper_byte r byte lt lt'))

round-lt : (r byte : ℕ) → r < 2 ^ 32 → byte < 2 ^ 8 → round_q crc32q_table r byte < 2 ^ 32
unfolding round_q dbl
round-lt r byte lt lt' =
    let i = bit_xor byte (r / 2 ^ 24 % 2 ^ 8) in
    let small : i < 256 = xor-lt 8 byte (r / 2 ^ 24 % 2 ^ 8) (omega arith) (omega arith) in
    let entry : at crc32q_table i < 2 ^ 32 = ltb→lt (at crc32q_table i) (2 ^ 32) (
      entries_hold-at (λ i x. ltb x (2 ^ 32)) 256 0 i i crc32q_table table_small small
        (omega arith)) in
    xor-lt 32 (at crc32q_table i) (r * 2 ^ 8 % 2 ^ 32) (omega arith) (omega arith)

-- `crc32q` on bytes, from a number of 32 bits, is the division bit by bit.
pub loop_q_lem :
    (bytes : List ℕ) (r : ℕ)
    → AllBytes bytes
    → r < 2 ^ 32
    → loop_q crc32q_table bytes r ≡ bytes_q 0x814141AB bytes r
unfolding loop_q bytes_q AllBytes
loop_q_lem [] r all lt = refl
loop_q_lem (byte ∷ rest) r (lt', all) lt =
    loop_q_lem rest (round_q crc32q_table r byte) all (round-lt r byte lt lt')
    ∙ ap (bytes_q 0x814141AB rest) (round_lem r byte lt lt')
