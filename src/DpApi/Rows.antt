-- ===== src/DpApi/Rows.antt =====
-- The classification tables of the switch as rows by their handles.
use marina.Prelude.{
  ℕ, zero, suc, ◌+◌, ◌≡◌, ◌≢◌, refl, ◌∙◌, arith, ◌==◌, ◌&&◌, if◌then◌else◌, Option, none, some,
  Status, success, failure,
}
use marina.Prelude.Int.{ℤ, pos, negsuc}
use marina.Structs.{FiveTuple, L3Proto, unspec, ipv4, ipv6, l3_code, l4_code, dev_port_to_pipe}
use marina.DpApi.{
  Driver, ErrorCode, ok, Ipv4Match, Ipv6Match, code_of, swap_endian_32, bytes_down,
  switch_add_ipv4_entry, switch_add_ipv6_entry, switch_remove_ipv4_entry, switch_remove_ipv6_entry,
  add_by, remove_by, switch_add_classification_entry, switch_remove_classification_entry, go_on,
  write_index, write_loop, switch_write_bloom_filter,
}

-- A row of a table: the pipe, what it matches, and the index of the register.
pub data Row : Type 0 where
  row4 : ℕ → Ipv4Match → ℕ → Row
  row6 : ℕ → Ipv6Match → ℕ → Row

unfoldable pub row_by : L3Proto → FiveTuple → ℕ → Option Row
row_by unspec t r = none
row_by ipv4 t r = some (
    row4 (dev_port_to_pipe t.dev_port)
      (record {
        ipv4_src_addr = swap_endian_32 t.h.src_addr;
        ipv4_dst_addr = swap_endian_32 t.h.dst_addr;
        l4_lookup_src = t.h.src_port;
        l4_lookup_dst = t.h.dst_port;
        tcp_valid = l4_code t.h.l4_proto;
      })
      r)
row_by ipv6 t r = some (
    row6 (dev_port_to_pipe t.dev_port)
      (record {
        ipv6_src_addr = bytes_down 16 t.h.src_addr;
        ipv6_dst_addr = bytes_down 16 t.h.dst_addr;
        l4_lookup_src = t.h.src_port;
        l4_lookup_dst = t.h.dst_port;
        tcp_valid = l4_code t.h.l4_proto;
      })
      r)

code_of-ok : (status : Status) → code_of status ≡ ok → status ≡ success
unfolding code_of
code_of-ok success e = refl
code_of-ok failure e = cc e

module _ {S : Type 0} (driver : Driver S ℕ) (rows : S → ℕ → ℕ → Option Row) where
  -- What is documented of the driver: `rows` has the rows of a table by their handles. An addition
  -- that succeeds gives a handle that is not in use; the deletion of a row that is there succeeds;
  -- the registers of the bloom filters are apart from the tables.
  pub record Works : Type 0 where
    pub add4 :
        (pipe : ℕ) (m : Ipv4Match) (r : ℕ) (s : S)
        → let (status, handle, s') = driver.ipv4_table_add pipe m r s in
          status ≡ success
          → (rows s 2 handle ≡ none)
            × ((p k : ℕ)
                → rows s' p k
                  ≡ (if p == 2 && k == handle then some (row4 pipe m r) else rows s p k))
    pub add6 :
        (pipe : ℕ) (m : Ipv6Match) (r : ℕ) (s : S)
        → let (status, handle, s') = driver.ipv6_table_add pipe m r s in
          status ≡ success
          → (rows s 10 handle ≡ none)
            × ((p k : ℕ)
                → rows s' p k
                  ≡ (if p == 10 && k == handle then some (row6 pipe m r) else rows s p k))
    pub delete4 :
        (handle : ℕ) (row : Row) (s : S)
        → rows s 2 handle ≡ some row
        → let (status, s') = driver.ipv4_table_delete handle s in
          (status ≡ success)
          × ((p k : ℕ) → rows s' p k ≡ (if p == 2 && k == handle then none else rows s p k))
    pub delete6 :
        (handle : ℕ) (row : Row) (s : S)
        → rows s 10 handle ≡ some row
        → let (status, s') = driver.ipv6_table_delete handle s in
          (status ≡ success)
          × ((p k : ℕ) → rows s' p k ≡ (if p == 10 && k == handle then none else rows s p k))
    pub bloom :
        (i pipe index value : ℕ) (s : S)
        → rows (driver.write_bloom_filter i pipe index value s).1 ≡ rows s

  module _ (works : Works) where
    add_by-rows :
        (proto : L3Proto) (t : FiveTuple) (r before : ℕ) (s : S)
        → t.h.l3_proto ≡ proto
        → let (status, handle, s') = add_by driver proto t r before s in
          status ≡ ok
          → (l3_code proto ≢ 0)
            × (rows s (l3_code proto) handle ≡ none)
            × ((p k : ℕ)
                → rows s' p k
                  ≡ (if p == l3_code proto && k == handle then row_by proto t r else rows s p k))
    unfolding row_by switch_add_ipv4_entry switch_add_ipv6_entry l3_code code_of add_by
    add_by-rows unspec t r before s e good = absurd (cc good)
    add_by-rows ipv4 t r before s e good = rw e (
        let (free, at) = works.add4 _ _ _ _ (code_of-ok _ (rw e at good)) in
        (ground arith, free, at))
    add_by-rows ipv6 t r before s e good = rw e (
        let (free, at) = works.add6 _ _ _ _ (code_of-ok _ (rw e at good)) in
        (ground arith, free, at))

    remove_by-rows :
        (proto : L3Proto) (handle : ℕ) (row : Row) (s : S)
        → l3_code proto ≢ 0
        → rows s (l3_code proto) handle ≡ some row
        → let (status, s') = remove_by driver proto handle s in
          (status ≡ ok)
          × ((p k : ℕ)
              → rows s' p k ≡ (if p == l3_code proto && k == handle then none else rows s p k))
    unfolding switch_remove_ipv4_entry switch_remove_ipv6_entry l3_code code_of remove_by
    remove_by-rows unspec handle row s typed there = absurd (typed refl)
    remove_by-rows ipv4 handle row s typed there =
        let (good, at) = works.delete4 handle row s there in (rw good refl, at)
    remove_by-rows ipv6 handle row s typed there =
        let (good, at) = works.delete6 handle row s there in (rw good refl, at)

    rows-go_on :
        (rest : S → ErrorCode × S)
        → ((s : S) → rows (rest s).1 ≡ rows s)
        → (x : Status × S) → rows (go_on driver rest x).1 ≡ rows x.1
    unfolding go_on
    rows-go_on rest same (success, s) = same s
    rows-go_on rest same (failure, s) = refl

    rows-write_index :
        (i pipe : ℕ) (index : ℤ) (value : ℕ) (s : S)
        → rows (write_index driver i pipe index value s).1 ≡ rows s
    unfolding write_index
    rows-write_index i pipe (pos index) value s = works.bloom i pipe index value s
    rows-write_index i pipe (negsuc n) value s = refl

    loop_rows :
        (pipe : ℕ) (indices : ℕ → ℤ) (value k i : ℕ) (s : S)
        → rows (write_loop driver pipe indices value k i s).1 ≡ rows s
    unfolding write_loop
    loop_rows pipe indices value zero i s = refl
    loop_rows pipe indices value (suc k) i s =
        rows-go_on (write_loop driver pipe indices value k (i + 1))
          (loop_rows pipe indices value k (i + 1)) (write_index driver i pipe (indices i) value s)
        ∙ rows-write_index i pipe (indices i) value s

    pub add-rows :
        (t : FiveTuple) (r before : ℕ) (s : S)
        → let (status, handle, s') = switch_add_classification_entry driver t r before s in
          status ≡ ok
          → (l3_code t.h.l3_proto ≢ 0)
            × (rows s (l3_code t.h.l3_proto) handle ≡ none)
            × ((p k : ℕ)
                → rows s' p k ≡ (
                    if p == l3_code t.h.l3_proto && k == handle
                    then row_by t.h.l3_proto t r
                    else rows s p k))
    unfolding switch_add_classification_entry
    add-rows t r before s = add_by-rows t.h.l3_proto t r before s refl

    pub remove-rows :
        (t : FiveTuple) (handle : ℕ) (row : Row) (s : S)
        → l3_code t.h.l3_proto ≢ 0
        → rows s (l3_code t.h.l3_proto) handle ≡ some row
        → let (status, s') = switch_remove_classification_entry driver t handle s in
          (status ≡ ok)
          × ((p k : ℕ)
              → rows s' p k
                ≡ (if p == l3_code t.h.l3_proto && k == handle then none else rows s p k))
    unfolding switch_remove_classification_entry
    remove-rows t handle row s = remove_by-rows t.h.l3_proto handle row s

    pub write-rows :
        (pipe : ℕ) (indices : ℕ → ℤ) (value : ℕ) (s : S)
        → rows (switch_write_bloom_filter driver pipe indices value s).1 ≡ rows s
    unfolding switch_write_bloom_filter
    write-rows pipe indices value s = loop_rows pipe indices value 4 0 s
