-- ===== src/Structs/Equality.antt =====
-- The comparisons of keys, and the swap of bytes.
use marina.Prelude.{ℕ, ◌<◌, ◌≡◌, ◌↔◌, true, arith, ◌^◌}
use marina.Structs.{
  L3Proto, unspec, FiveTupleForHash, FiveTupleForSessionHash, same_h, same_sh, l3_code,
  swap_endian_16,
}

pub l3_code-injective : (a b : L3Proto) → l3_code a ≡ l3_code b → a ≡ b
unfolding l3_code
l3_code-injective unspec b h = ground arith
l3_code-injective a b h = ground arith

pub same_h_iff : (a b : FiveTupleForHash) → (same_h a b ≡ true) ↔ (a ≡ b)
unfolding same_h
same_h_iff a b = ground arith

pub same_sh_iff : (a b : FiveTupleForSessionHash) → (same_sh a b ≡ true) ↔ (a ≡ b)
unfolding same_sh
same_sh_iff a b = ground arith

pub swap_endian_16_involutive : (x : ℕ) → x < 2 ^ 16 → swap_endian_16 (swap_endian_16 x) ≡ x
unfolding swap_endian_16
swap_endian_16_involutive x h = omega arith
