-- ===== src/Crc/Bits.antt =====
-- The checksums bit by bit, as divisions by a polynomial.
use Prim.Native.Nat.{bit_xor}
use marina.Prelude.{
  ℕ, zero, suc, ◌*◌, ◌/◌, ◌%◌, ◌≡◌, refl, ap, ◌∙◌, arith, false, ◌==◌, List, [], ◌∷◌,
}
use marina.Crc.Xor.{poly_in, poly_in-xor, dbl, xor_half, xor_parity}

-- A bit of the data, in the order of the reversed polynomials.
unfoldable pub bit_reversed : ℕ → ℕ → ℕ
bit_reversed poly r = poly_in poly (r % 2) (r / 2)

unfoldable pub bits_reversed : ℕ → ℕ → ℕ → ℕ
bits_reversed poly zero r = r
bits_reversed poly (suc n) r = bits_reversed poly n (bit_reversed poly r)

-- The bytes one after the other, eight bits each.
unfoldable pub bytes_reversed : ℕ → List ℕ → ℕ → ℕ
bytes_reversed poly [] r = r
bytes_reversed poly (byte ∷ rest) r =
    bytes_reversed poly rest (bits_reversed poly 8 (bit_xor r byte))

bit_reversed-xor :
    (poly a b : ℕ)
    → bit_reversed poly (bit_xor a b) ≡ bit_xor (bit_reversed poly a) (bit_reversed poly b)
unfolding bit_reversed
bit_reversed-xor poly a b =
    poly_in-xor poly (bit_xor a b % 2) (bit_xor a b / 2) (a % 2) (a / 2) (b % 2) (b / 2)
      (xor_parity a b) (omega arith) (omega arith) (xor_half a b)

pub bits_reversed-xor :
    (poly n a b : ℕ)
    → bits_reversed poly n (bit_xor a b) ≡ bit_xor (bits_reversed poly n a) (bits_reversed poly n b)
unfolding bits_reversed
bits_reversed-xor poly zero a b = refl
bits_reversed-xor poly (suc n) a b =
    ap (bits_reversed poly n) (bit_reversed-xor poly a b)
    ∙ bits_reversed-xor poly n (bit_reversed poly a) (bit_reversed poly b)

-- Zeros come out unchanged.
pub bits_reversed-dbl : (poly n h : ℕ) → bits_reversed poly n (dbl n h) ≡ h
unfolding bits_reversed bit_reversed poly_in dbl
bits_reversed-dbl poly zero h = refl
bits_reversed-dbl poly (suc n) h =
    let even : (dbl n h * 2 % 2 == 1) ≡ false = ground arith in
    let half : dbl n h * 2 / 2 ≡ dbl n h = omega arith in
    rw (even, half) (bits_reversed-dbl poly n h)
