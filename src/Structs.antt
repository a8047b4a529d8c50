-- ===== src/Structs.antt =====
-- controller/datastructures/structs.h: the keys of flows and of sessions. An `address_t` is the
-- number that its sixteen bytes stand for, least first, so that an IPv4 address is a number below
-- 2 ^ 32 and the rest of the union is zero, as the packet handler leaves it.
pub mod Equality
use marina.Prelude.{ℕ, ◌+◌, ◌*◌, ◌/◌, ◌%◌, ◌^◌, Bool, true, false, ◌&&◌, ◌==◌}
use marina.Prelude.Int.{ℤ, pos}

-- `unspec` is the value that zeroed memory has.
pub data L3Proto : Type 0 where
  unspec ipv4 ipv6 : L3Proto

pub data L4Proto : Type 0 where
  udp tcp : L4Proto

pub record FiveTupleForHash : Type 0 where
  pub src_addr : ℕ
  pub dst_addr : ℕ
  pub src_port : ℕ
  pub dst_port : ℕ
  pub l3_proto : L3Proto
  pub l4_proto : L4Proto

pub record FiveTupleForSessionHash : Type 0 where
  pub client_addr : ℕ
  pub to_server : Bool

pub record FiveTuple : Type 0 where
  pub h : FiveTupleForHash
  pub sh : FiveTupleForSessionHash
  pub ingress_ts : ℕ
  pub dev_port : ℕ
  pub session_id_egress_offset : ℤ

-- The numbers of the enumerators: AF_UNSPEC, AF_INET and AF_INET6.
unfoldable pub l3_code : L3Proto → ℕ
l3_code unspec = 0
l3_code ipv4 = 2
l3_code ipv6 = 10

unfoldable pub l4_code : L4Proto → ℕ
l4_code udp = 0
l4_code tcp = 1

-- `memcmp` of two zeroed and filled `five_tuple_for_hash_t`.
unfoldable pub same_h : FiveTupleForHash → FiveTupleForHash → Bool
unfolding l3_code l4_code
same_h a b =
    a.src_addr == b.src_addr
    && a.dst_addr == b.dst_addr
    && a.src_port == b.src_port
    && a.dst_port == b.dst_port
    && l3_code a.l3_proto == l3_code b.l3_proto
    && l4_code a.l4_proto == l4_code b.l4_proto

abbrev pub bool_code : Bool → ℕ
bool_code false = 0
bool_code true = 1

-- `memcmp` of two zeroed and filled `five_tuple_for_session_hash_t`.
unfoldable pub same_sh : FiveTupleForSessionHash → FiveTupleForSessionHash → Bool
same_sh a b = a.client_addr == b.client_addr && bool_code a.to_server == bool_code b.to_server

unfoldable pub dev_port_to_pipe : ℕ → ℕ
dev_port_to_pipe dev_port = dev_port / 2 ^ 7

unfoldable pub flow_id_to_pipe : ℕ → ℕ
flow_id_to_pipe flow_id = flow_id % 4

unfoldable pub flow_id_to_register_index : ℕ → ℕ
flow_id_to_register_index flow_id = flow_id / 4

-- `bswap_16`.
unfoldable pub swap_endian_16 : ℕ → ℕ
swap_endian_16 x = x % 256 * 256 + x / 256 % 256
