-- ===== src/Crc/BitsQ.antt =====
-- The checksum `crc32q` bit by bit, with the highest degree first.
use Prim.Native.Nat.{bit_xor}
use marina.Prelude.{
  ℕ, zero, suc, ◌+◌, ◌*◌, ◌/◌, ◌%◌, ◌^◌, ◌<◌, ◌≡◌, refl, sym, ap, ap₂, ◌∙◌, arith, false, ◌==◌,
  List, [], ◌∷◌,
}
use marina.Crc.Xor.{
  poly_in, poly_in-xor, dbl-twice, le-dbl, dbl, xor_step, xor_parity, xor_split, xor-lt,
}

-- A bit of the data: the highest of 32 bits comes out.
unfoldable pub bit_q : ℕ → ℕ → ℕ
bit_q poly r = poly_in poly (r / 2 ^ 31 % 2) (r % 2 ^ 31 * 2)

unfoldable pub bits_q : ℕ → ℕ → ℕ → ℕ
bits_q poly zero r = r
bits_q poly (suc n) r = bits_q poly n (bit_q poly r)

-- The bytes one after the other, eight bits each.
unfoldable pub bytes_q : ℕ → List ℕ → ℕ → ℕ
bytes_q poly [] r = r
bytes_q poly (byte ∷ rest) r = bytes_q poly rest (bits_q poly 8 (bit_xor r (byte * 2 ^ 24)))

-- The bits from 2 ^ 31 on, and those below.
xor_at_31 :
    (a b : ℕ)
    → (bit_xor a b / 2 ^ 31 ≡ bit_xor (a / 2 ^ 31) (b / 2 ^ 31))
      × (bit_xor a b % 2 ^ 31 ≡ bit_xor (a % 2 ^ 31) (b % 2 ^ 31))
unfolding dbl
xor_at_31 a b =
    let split =
      xor_split 31 (a / 2 ^ 31) (a % 2 ^ 31) (b / 2 ^ 31) (b % 2 ^ 31) (omega arith)
        (omega arith) in
    let low = xor-lt 31 (a % 2 ^ 31) (b % 2 ^ 31) (omega arith) (omega arith) in
    let whole : dbl 31 (a / 2 ^ 31) + a % 2 ^ 31 ≡ a = omega arith in
    let whole' : dbl 31 (b / 2 ^ 31) + b % 2 ^ 31 ≡ b = omega arith in
    let both = ap₂ bit_xor whole whole' in
    (omega (arith, split, low, both), omega (arith, split, low, both))

xor_twice : (a b : ℕ) → bit_xor (a * 2) (b * 2) ≡ bit_xor a b * 2
xor_twice a b =
    let half : a * 2 / 2 ≡ a = omega arith in
    let half' : b * 2 / 2 ≡ b = omega arith in
    omega (arith, xor_step (a * 2) (b * 2), ap₂ bit_xor half half')

bit_q-xor : (poly a b : ℕ) → bit_q poly (bit_xor a b) ≡ bit_xor (bit_q poly a) (bit_q poly b)
unfolding bit_q
bit_q-xor poly a b =
    let (upper, lower) = xor_at_31 a b in
    let out : bit_xor a b / 2 ^ 31 % 2 ≡ (a / 2 ^ 31 % 2 + b / 2 ^ 31 % 2) % 2 =
      ap (λ x. x % 2) upper ∙ xor_parity (a / 2 ^ 31) (b / 2 ^ 31) in
    let shifted : bit_xor a b % 2 ^ 31 * 2 ≡ bit_xor (a % 2 ^ 31 * 2) (b % 2 ^ 31 * 2) =
      ap (λ x. x * 2) lower ∙ sym (xor_twice (a % 2 ^ 31) (b % 2 ^ 31)) in
    poly_in-xor poly (bit_xor a b / 2 ^ 31 % 2) (bit_xor a b % 2 ^ 31 * 2) (a / 2 ^ 31 % 2)
      (a % 2 ^ 31 * 2) (b / 2 ^ 31 % 2) (b % 2 ^ 31 * 2) out (omega arith) (omega arith) shifted

pub bits_q-xor :
    (poly n a b : ℕ) → bits_q poly n (bit_xor a b) ≡ bit_xor (bits_q poly n a) (bits_q poly n b)
unfolding bits_q
bits_q-xor poly zero a b = refl
bits_q-xor poly (suc n) a b =
    ap (bits_q poly n) (bit_q-xor poly a b) ∙ bits_q-xor poly n (bit_q poly a) (bit_q poly b)

-- What stays below 2 ^ 32 is shifted.
pub bits_q-small : (poly n r : ℕ) → dbl n r < 2 ^ 32 → bits_q poly n r ≡ dbl n r
unfolding bits_q bit_q poly_in dbl
bits_q-small poly zero r lt = refl
bits_q-small poly (suc n) r lt =
    let shifted : dbl n (r * 2) ≡ dbl n r * 2 = dbl-twice n r in
    let small : r < 2 ^ 31 = omega (arith, le-dbl n r) in
    let off : (r / 2 ^ 31 % 2 == 1) ≡ false = ground arith in
    let same : r % 2 ^ 31 * 2 ≡ r * 2 = omega arith in
    rw (off, same) (bits_q-small poly n (r * 2) (omega (arith, shifted)) ∙ shifted)
