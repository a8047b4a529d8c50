-- ===== src/DpApi/Tests.antt =====
-- A switch that consists of the registers of the bloom filters.
use marina.Prelude.{ℕ, ◌≡◌, refl, success, failure, ltb, ◌==◌, ◌&&◌, if◌then◌else◌, update}
use marina.Prelude.Int.{ℤ, pos, negsuc}
use marina.DpApi.{Driver, ok, switch_write_bloom_filter}
use marina.DpApi.Bloom.{Registers, names, write_bloom_filter_lem}

abbrev driver : Driver Registers ℕ
driver = record {
  ipv4_table_add = λ pipe m index s. (failure, 0, s);
  ipv6_table_add = λ pipe m index s. (failure, 0, s);
  ipv4_table_delete = λ handle s. (failure, s);
  ipv6_table_delete = λ handle s. (failure, s);
  write_bloom_filter = λ i pipe index value s.
      (success, update s i (update (s i) pipe (update (s i pipe) index value)));
}

abbrev clear : Registers
clear i pipe index = 0

-- The filter 1 is left alone.
abbrev indices : ℕ → ℤ
indices i = if i == 2 then pos 7 else if i == 1 then negsuc 0 else pos 0

write_bloom_filter_example :
    ((switch_write_bloom_filter driver 1 indices 1 clear).0 ≡ ok)
    × ((switch_write_bloom_filter driver 1 indices 1 clear).1 2 1 7
        ≡ (if ltb 2 4 && 1 == 1 && names (indices 2) 7 then 1 else clear 2 1 7))
write_bloom_filter_example =
    write_bloom_filter_lem driver (λ i pipe index value s. refl) 1 indices 1 clear 2 1 7
