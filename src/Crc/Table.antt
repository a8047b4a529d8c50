-- ===== src/Crc/Table.antt =====
-- That the tables do eight bits at once.
use Prim.Native.Nat.{bit_xor}
use marina.Prelude.{
  ℕ, zero, suc, ◌/◌, ◌%◌, ◌^◌, ◌<◌, ◌≡◌, refl, sym, ap, ◌∙◌, arith, true, false, ◌==◌, ◌&&◌, ==_iff,
  Bool, List, [], ◌∷◌, ◌+◌,
}
use marina.Crc.{at, round_reversed, loop_reversed, reversed}
use marina.Crc.Tables.{crc32_normal_table, crc32c_table, crc32d_table}
use marina.Crc.Bits.{
  bit_reversed, bits_reversed, bytes_reversed, bits_reversed-xor, bits_reversed-dbl,
}
use marina.Crc.Xor.{poly_in, dbl, xor_comm, xor_assoc, xor_fields, xor-lt}

-- The bytes are bytes.
unfoldable pub AllBytes : List ℕ → Type 0
AllBytes [] = Unit
AllBytes (byte ∷ rest) = (byte < 2 ^ 8) × AllBytes rest

-- A test of the first `n` entries, which are numbered from `i`.
unfoldable pub entries_hold : (ℕ → ℕ → Bool) → ℕ → ℕ → List ℕ → Bool
entries_hold test zero i table = true
entries_hold test (suc n) i [] = false
entries_hold test (suc n) i (x ∷ table) = test i x && entries_hold test n (suc i) table

pub entries_hold-at :
    (test : ℕ → ℕ → Bool) (n i k j : ℕ) (table : List ℕ)
    → entries_hold test n i table ≡ true
    → k < n
    → i + k ≡ j
    → test j (at table k) ≡ true
unfolding entries_hold at
entries_hold-at test zero i k j table held lt e = absurd (omega arith)
entries_hold-at test (suc n) i k j [] held lt e = ground arith
entries_hold-at test (suc n) i zero j (x ∷ table) held lt e =
    let here : j ≡ i = omega arith in ap (λ j. test j x) here ∙ ground arith
entries_hold-at test (suc n) i (suc k) j (x ∷ table) held lt e =
    entries_hold-at test n (suc i) k j table (ground arith) (omega arith) (omega arith)

-- The entry of a byte is what eight bits make of it.
abbrev pub IsTable : ℕ → List ℕ → Type 0
IsTable poly table = entries_hold (λ i x. x == bits_reversed poly 8 i) 256 0 table ≡ true

-- A number below 2 ^ 8 and the rest of it.
bytes_apart : (r : ℕ) → bit_xor (dbl 8 (r / 2 ^ 8)) (r % 2 ^ 8) ≡ r
unfolding dbl
bytes_apart r = omega (arith, xor_fields 8 (r / 2 ^ 8) (r % 2 ^ 8) (omega arith))

module _ (poly : ℕ) (table : List ℕ) (is_table : IsTable poly table) where
  at_lem : (i : ℕ) → i < 256 → at table i ≡ bits_reversed poly 8 i
  at_lem i lt = (==_iff (at table i) (bits_reversed poly 8 i)).0 (
      entries_hold-at (λ i x. x == bits_reversed poly 8 i) 256 0 i i table is_table lt
        (omega arith))

  round_lem :
      (r byte : ℕ)
      → byte < 2 ^ 8
      → round_reversed table r byte ≡ bits_reversed poly 8 (bit_xor r byte)
  unfolding round_reversed dbl
  round_lem r byte lt =
      let hi = r / 2 ^ 8 in
      let lo = r % 2 ^ 8 in
      let small : bit_xor byte lo < 256 = xor-lt 8 byte lo (omega arith) (omega arith) in
      ap (λ x. bit_xor x hi) (at_lem (bit_xor byte lo) small)
      ∙ xor_comm (bits_reversed poly 8 (bit_xor byte lo)) hi
      ∙ ap (λ x. bit_xor x (bits_reversed poly 8 (bit_xor byte lo)))
          (sym (bits_reversed-dbl poly 8 hi))
      ∙ sym (bits_reversed-xor poly 8 (dbl 8 hi) (bit_xor byte lo))
      ∙ ap (bits_reversed poly 8) (
          ap (bit_xor (dbl 8 hi)) (xor_comm byte lo)
          ∙ sym (xor_assoc (dbl 8 hi) lo byte)
          ∙ ap (λ x. bit_xor x byte) (bytes_apart r))

  loop_lem :
      (bytes : List ℕ) (r : ℕ)
      → AllBytes bytes
      → loop_reversed table bytes r ≡ bytes_reversed poly bytes r
  unfolding loop_reversed bytes_reversed AllBytes
  loop_lem [] r all = refl
  loop_lem (byte ∷ rest) r (lt, all) =
      ap (loop_reversed table rest) (round_lem r byte lt)
      ∙ loop_lem rest (bits_reversed poly 8 (bit_xor r byte)) all

  pub reversed_lem :
      (bytes : List ℕ) (crc : ℕ)
      → AllBytes bytes
      → reversed table bytes crc
        ≡ bit_xor (bytes_reversed poly bytes (bit_xor crc 0xFFFFFFFF)) 0xFFFFFFFF
  unfolding reversed
  reversed_lem bytes crc all =
      ap (λ r. bit_xor r 0xFFFFFFFF) (loop_lem bytes (bit_xor crc 0xFFFFFFFF) all)

pub normal-IsTable : IsTable 0xEDB88320 crc32_normal_table
unfolding entries_hold bits_reversed bit_reversed poly_in crc32_normal_table
normal-IsTable = refl

pub c-IsTable : IsTable 0x82F63B78 crc32c_table
unfolding entries_hold bits_reversed bit_reversed poly_in crc32c_table
c-IsTable = refl

pub d-IsTable : IsTable 0xD419CC15 crc32d_table
unfolding entries_hold bits_reversed bit_reversed poly_in crc32d_table
d-IsTable = refl
