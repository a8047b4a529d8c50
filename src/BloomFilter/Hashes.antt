-- ===== src/BloomFilter/Hashes.antt =====
-- controller/datastructures/bloom_filter.c with hashes/crc.c: the hashes of a flow, from the bytes
-- that `dp_five_tuple_t` has in memory, lowest first as the machine stores them.
use marina.Prelude.{ℕ, zero, suc, ◌/◌, ◌%◌, ◌^◌, ◌≡◌, ap, ap₂, ◌∙◌, arith, List, [], ◌∷◌, ◌++◌}
use marina.Structs.{FiveTuple, FiveTupleForHash, L3Proto, unspec, ipv4, ipv6, swap_endian_16}
use marina.DpApi.{bytes_down}
use marina.BloomFilter.{DpFiveTuple, get_hashes, hashes_of, mk_ipv4_hash, mk_ipv6_hash}
use marina.Crc.{crc_fn}
use marina.Crc.Table.{AllBytes}
use marina.Crc.Checksums.{by_bits, crc_fn-by_bits}

-- `n` bytes of a number, lowest first.
unfoldable pub bytes_up : ℕ → ℕ → List ℕ
bytes_up zero x = []
bytes_up (suc n) x = x % 2 ^ 8 ∷ bytes_up n (x / 2 ^ 8)

-- `(uint8_t *) &ft`, of `sizeof(dp_five_tuple_t)` bytes.
unfoldable pub packed : DpFiveTuple → List ℕ
packed ft =
    bytes_up 4 ft.src_addr
    ++ (bytes_up 4 ft.dst_addr ++ (bytes_up 2 ft.src_port ++ bytes_up 2 ft.dst_port))

-- `crc_fn[i]((uint8_t *) &ft, sizeof(dp_five_tuple_t), 0)`.
unfoldable pub crc_of_tuple : ℕ → DpFiveTuple → ℕ
crc_of_tuple i ft = crc_fn i (packed ft) 0

-- `crc_fn[0]((uint8_t *) &addr, 16, 0)`.
unfoldable pub crc_of_address : ℕ → ℕ
crc_of_address address = crc_fn 0 (bytes_up 16 address) 0

bytes_up-AllBytes : (n x : ℕ) → AllBytes (bytes_up n x)
unfolding bytes_up AllBytes
bytes_up-AllBytes zero x = tt
bytes_up-AllBytes (suc n) x = (omega arith, bytes_up-AllBytes n (x / 2 ^ 8))

append-AllBytes : (xs ys : List ℕ) → AllBytes xs → AllBytes ys → AllBytes (xs ++ ys)
unfolding AllBytes
append-AllBytes [] ys all all' = all'
append-AllBytes (x ∷ xs) ys (lt, all) all' = (lt, append-AllBytes xs ys all all')

packed-AllBytes : (ft : DpFiveTuple) → AllBytes (packed ft)
unfolding packed
packed-AllBytes ft = append-AllBytes (bytes_up 4 ft.src_addr) _ (bytes_up-AllBytes 4 ft.src_addr) (
    append-AllBytes (bytes_up 4 ft.dst_addr) _ (bytes_up-AllBytes 4 ft.dst_addr) (
      append-AllBytes (bytes_up 2 ft.src_port) _ (bytes_up-AllBytes 2 ft.src_port)
        (bytes_up-AllBytes 2 ft.dst_port)))

-- A port that was swapped has its upper byte first in memory.
port_bytes : (port : ℕ) → bytes_up 2 (swap_endian_16 port) ≡ bytes_down 2 port
unfolding bytes_up bytes_down swap_endian_16
port_bytes port =
    let upper : swap_endian_16 port % 2 ^ 8 ≡ port / 256 ^ 1 % 256 = omega arith in
    let lower : swap_endian_16 port / 2 ^ 8 % 2 ^ 8 ≡ port / 256 ^ 0 % 256 = omega arith in
    ap₂ (λ x y. x ∷ y ∷ []) upper lower

-- What the checksums are taken of: the addresses in four bytes each, those of IPv6 by their
-- checksum, and the ports, upper byte first.
unfoldable pub address_word : L3Proto → ℕ → ℕ
address_word unspec address = address
address_word ipv4 address = address
address_word ipv6 address = by_bits 0 (bytes_up 16 address) 0

unfoldable pub hashed_bytes : FiveTupleForHash → List ℕ
hashed_bytes h =
    bytes_up 4 (address_word h.l3_proto h.src_addr)
    ++ (bytes_up 4 (address_word h.l3_proto h.dst_addr)
        ++ (bytes_down 2 h.src_port ++ bytes_down 2 h.dst_port))

pub data IsIp : L3Proto → Type 0 where
  is_ipv4 : IsIp ipv4
  is_ipv6 : IsIp ipv6

module _ (width : ℕ) (before : ℕ → ℕ) where
  tuple_hash :
      (i src dst : ℕ) (h : FiveTupleForHash)
      → crc_of_tuple i (record {
        src_addr = src;
        dst_addr = dst;
        src_port = swap_endian_16 h.src_port;
        dst_port = swap_endian_16 h.dst_port;
      })
        ≡ by_bits i
            (bytes_up 4 src
              ++ (bytes_up 4 dst ++ (bytes_down 2 h.src_port ++ bytes_down 2 h.dst_port)))
            0
  unfolding crc_of_tuple packed
  tuple_hash i src dst h =
      let ft : DpFiveTuple = record {
        src_addr = src;
        dst_addr = dst;
        src_port = swap_endian_16 h.src_port;
        dst_port = swap_endian_16 h.dst_port;
      } in
      crc_fn-by_bits i (packed ft) 0 (packed-AllBytes ft) (omega arith)
      ∙ ap (λ ports. by_bits i (bytes_up 4 src ++ (bytes_up 4 dst ++ ports)) 0)
          (ap₂ (λ a b. a ++ b) (port_bytes h.src_port) (port_bytes h.dst_port))

  address_hash : (address : ℕ) → crc_of_address address ≡ address_word ipv6 address
  unfolding crc_of_address address_word
  address_hash address =
      crc_fn-by_bits 0 (bytes_up 16 address) 0 (bytes_up-AllBytes 16 address) (omega arith)

  hashes_lem :
      (proto : L3Proto) (h : FiveTupleForHash) (i : ℕ)
      → IsIp proto
      → hashes_of crc_of_tuple crc_of_address width proto before h i
        ≡ by_bits i
            (bytes_up 4 (address_word proto h.src_addr)
              ++ (bytes_up 4 (address_word proto h.dst_addr)
                  ++ (bytes_down 2 h.src_port ++ bytes_down 2 h.dst_port)))
            0
          % width
  unfolding hashes_of mk_ipv4_hash mk_ipv6_hash address_word
  hashes_lem unspec h i ip = elim ip [ ]
  hashes_lem ipv4 h i is_ipv4 = ap (λ x. x % width) (tuple_hash i h.src_addr h.dst_addr h)
  hashes_lem ipv6 h i is_ipv6 =
      ap (λ x. x % width)
        (tuple_hash i (crc_of_address h.src_addr) (crc_of_address h.dst_addr) h
          ∙ ap₂
              (λ a b.
                by_bits i
                  (bytes_up 4 a
                    ++ (bytes_up 4 b ++ (bytes_down 2 h.src_port ++ bytes_down 2 h.dst_port)))
                  0)
              (address_hash h.src_addr) (address_hash h.dst_addr))

  -- The index of a flow of IPv4 or IPv6 in the filter `i` is the checksum `i`, computed bit by bit, of
  -- the addresses, lowest byte first, and the ports, upper byte first, cut to the width of the
  -- filter; an address of IPv6 stands as the first checksum of its 16 bytes.
  pub get_hashes_lem :
      (t : FiveTuple) (i : ℕ)
      → IsIp t.h.l3_proto
      → get_hashes crc_of_tuple crc_of_address width before t i
        ≡ by_bits i (hashed_bytes t.h) 0 % width
  unfolding get_hashes hashed_bytes
  get_hashes_lem t i ip = hashes_lem t.h.l3_proto t.h i ip
