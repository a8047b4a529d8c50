-- ===== src/DpApi.antt =====
-- controller/dataplane/dp_api.c: the entries of the classification tables and the bloom filters of
-- the switch. The driver of the switch is a parameter: what each of its functions makes of the
-- state of the switch, and whether it fails.
mod Bloom
pub mod Rows
pub mod RowSwitch
mod Sessions
mod Tests
use marina.Prelude.{
  ◌==◌, if◌then◌else◌, ℕ, zero, suc, ◌+◌, ◌*◌, ◌/◌, ◌%◌, ◌^◌, Status, success, failure, List, [],
  ◌∷◌,
}
use marina.Prelude.Int.{ℤ, pos, negsuc}
use marina.Structs.{FiveTuple, L3Proto, unspec, ipv4, ipv6, l3_code, l4_code, dev_port_to_pipe}

-- `SUCCESS`, `ERR_CONNECT`, `ERR_SWITCH` and `ERR_PROTO`.
pub data ErrorCode : Type 0 where
  ok err_connect err_switch err_proto : ErrorCode

-- The match specifications of the tables.
pub record Ipv4Match : Type 0 where
  pub ipv4_src_addr : ℕ
  pub ipv4_dst_addr : ℕ
  pub l4_lookup_src : ℕ
  pub l4_lookup_dst : ℕ
  pub tcp_valid : ℕ

pub record Ipv6Match : Type 0 where
  pub ipv6_src_addr : List ℕ
  pub ipv6_dst_addr : List ℕ
  pub l4_lookup_src : ℕ
  pub l4_lookup_dst : ℕ
  pub tcp_valid : ℕ

-- The functions of the driver, on its state `S`, with handles `H`.
pub record Driver (S H : Type 0) : Type 0 where
  pub ipv4_table_add : ℕ → Ipv4Match → ℕ → S → Status × H × S
  pub ipv6_table_add : ℕ → Ipv6Match → ℕ → S → Status × H × S
  pub ipv4_table_delete : H → S → Status × S
  pub ipv6_table_delete : H → S → Status × S
  pub write_bloom_filter : ℕ → ℕ → ℕ → ℕ → S → Status × S

unfoldable pub code_of : Status → ErrorCode
code_of success = ok
code_of failure = err_switch

-- `SWAP_ENDIAN_32`.
unfoldable pub swap_endian_32 : ℕ → ℕ
swap_endian_32 x =
    x % 256 * 2 ^ 24 + x / 2 ^ 8 % 256 * 2 ^ 16 + x / 2 ^ 16 % 256 * 2 ^ 8 + x / 2 ^ 24 % 256

-- The bytes of an address, last first.
unfoldable pub bytes_down : ℕ → ℕ → List ℕ
bytes_down zero address = []
bytes_down (suc n) address = address / 256 ^ n % 256 ∷ bytes_down n address

module _ {S H : Type 0} (driver : Driver S H) where
  open driver use {
    ipv4_table_add, ipv6_table_add, ipv4_table_delete, ipv6_table_delete, write_bloom_filter,
  }

  -- The handle is what the driver wrote.
  unfoldable pub switch_add_ipv4_entry : FiveTuple → ℕ → ℕ → H → S → ErrorCode × H × S
  switch_add_ipv4_entry t pipe register_index before s =
      let (status, handle, s') =
        ipv4_table_add pipe
          (record {
            ipv4_src_addr = swap_endian_32 t.h.src_addr;
            ipv4_dst_addr = swap_endian_32 t.h.dst_addr;
            l4_lookup_src = t.h.src_port;
            l4_lookup_dst = t.h.dst_port;
            tcp_valid = l4_code t.h.l4_proto;
          })
          register_index s in
      if l3_code t.h.l3_proto == l3_code ipv4
      then (code_of status, handle, s')
      else (err_proto, before, s)

  unfoldable pub switch_add_ipv6_entry : FiveTuple → ℕ → ℕ → H → S → ErrorCode × H × S
  switch_add_ipv6_entry t pipe register_index before s =
      let (status, handle, s') =
        ipv6_table_add pipe
          (record {
            ipv6_src_addr = bytes_down 16 t.h.src_addr;
            ipv6_dst_addr = bytes_down 16 t.h.dst_addr;
            l4_lookup_src = t.h.src_port;
            l4_lookup_dst = t.h.dst_port;
            tcp_valid = l4_code t.h.l4_proto;
          })
          register_index s in
      if l3_code t.h.l3_proto == l3_code ipv6
      then (code_of status, handle, s')
      else (err_proto, before, s)

  unfoldable pub add_by : L3Proto → FiveTuple → ℕ → H → S → ErrorCode × H × S
  add_by unspec t register_index before s = (err_proto, before, s)
  add_by ipv4 t register_index before s =
      switch_add_ipv4_entry t (dev_port_to_pipe t.dev_port) register_index before s
  add_by ipv6 t register_index before s =
      switch_add_ipv6_entry t (dev_port_to_pipe t.dev_port) register_index before s

  -- `before` is the handle that the caller's memory holds.
  unfoldable pub switch_add_classification_entry : FiveTuple → ℕ → H → S → ErrorCode × H × S
  switch_add_classification_entry t register_index before s =
      add_by t.h.l3_proto t register_index before s

  unfoldable pub switch_remove_ipv4_entry : H → S → ErrorCode × S
  switch_remove_ipv4_entry handle s =
      let (status, s') = ipv4_table_delete handle s in (code_of status, s')

  pub switch_remove_ipv6_entry : H → S → ErrorCode × S
  switch_remove_ipv6_entry handle s =
      let (status, s') = ipv6_table_delete handle s in (code_of status, s')

  unfoldable pub remove_by : L3Proto → H → S → ErrorCode × S
  remove_by unspec handle s = (err_proto, s)
  remove_by ipv4 handle s = switch_remove_ipv4_entry handle s
  remove_by ipv6 handle s = switch_remove_ipv6_entry handle s

  unfoldable pub switch_remove_classification_entry : FiveTuple → H → S → ErrorCode × S
  switch_remove_classification_entry t handle s = remove_by t.h.l3_proto handle s

  -- A round of the loop of `switch_write_bloom_filter` has ended.
  unfoldable pub go_on : (S → ErrorCode × S) → Status × S → ErrorCode × S
  go_on rest (success, s) = rest s
  go_on rest (failure, s) = (err_switch, s)

  -- An index below 0 is passed over.
  unfoldable pub write_index : ℕ → ℕ → ℤ → ℕ → S → Status × S
  write_index i pipe (pos index) value s = write_bloom_filter i pipe index value s
  write_index i pipe (negsuc n) value s = (success, s)

  -- The loop, for `k` filters from `i` on.
  unfoldable pub write_loop : ℕ → (ℕ → ℤ) → ℕ → ℕ → ℕ → S → ErrorCode × S
  write_loop pipe indices value zero i s = (ok, s)
  write_loop pipe indices value (suc k) i s =
      go_on (write_loop pipe indices value k (i + 1)) (write_index i pipe (indices i) value s)

  pub switch_write_bloom_filter : ℕ → (ℕ → ℤ) → ℕ → S → ErrorCode × S
  switch_write_bloom_filter pipe_id indices value s = write_loop pipe_id indices value 4 0 s
