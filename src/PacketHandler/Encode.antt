-- ===== src/PacketHandler/Encode.antt =====
-- Packets as the switch sends them to the controller: the bytes of the headers, in the order of the
-- wire. The numbers of addresses are those that a little-endian machine loads.
use marina.Prelude.{ℕ, zero, suc, ◌+◌, ◌*◌, ◌/◌, ◌%◌, List, [], ◌∷◌, ◌++◌}
use marina.Prelude.Int.{ℤ}
use marina.Structs.{L3Proto, unspec, ipv4, ipv6, L4Proto, udp, tcp, FiveTupleForHash}

-- The last byte first.
unfoldable pub le_bytes : ℕ → ℕ → List ℕ
le_bytes zero x = []
le_bytes (suc n) x = x % 256 ∷ le_bytes n (x / 256)

-- The first byte first.
unfoldable pub be_bytes : ℕ → ℕ → List ℕ
be_bytes zero x = []
be_bytes (suc n) x = be_bytes n (x / 256) ++ x % 256 ∷ []

-- What the headers say. `others` are the bytes that the controller does not look at;
-- `garbage` is not in the packet, but what the variable of the parser holds before.
pub record Headers : Type 0 where
  pub h : FiveTupleForHash
  pub ingress_ts : ℕ
  pub dev_port : ℕ
  pub flags : ℕ
  pub others : ℕ → ℕ
  pub garbage : ℤ

-- `n` bytes that do not matter, from the offset `i` on.
unfoldable pub skipped : (ℕ → ℕ) → ℕ → ℕ → List ℕ
skipped others zero i = []
skipped others (suc n) i = others i ∷ skipped others n (i + 1)

unfoldable pub transport : Headers → L4Proto → List ℕ
transport p tcp =
    be_bytes 2 p.h.src_port
    ++ be_bytes 2 p.h.dst_port
    ++ skipped p.others 9 58
    ++ p.flags ∷ skipped p.others 6 68
transport p udp = be_bytes 2 p.h.src_port ++ be_bytes 2 p.h.dst_port ++ skipped p.others 4 58

unfoldable pub protocol : L4Proto → ℕ
protocol tcp = 6
protocol udp = 17

-- Behind the addresses of Ethernet: its type, and the header of IP.
unfoldable pub network : Headers → L3Proto → List ℕ
network p unspec = 0 ∷ 0 ∷ []
network p ipv4 =
    be_bytes 2 2048
    ++ skipped p.others 9 14
    ++ protocol p.h.l4_proto ∷ skipped p.others 2 24
    ++ le_bytes 4 p.h.src_addr
    ++ le_bytes 4 p.h.dst_addr
network p ipv6 =
    be_bytes 2 34525
    ++ skipped p.others 6 14
    ++ protocol p.h.l4_proto ∷ skipped p.others 1 21
    ++ le_bytes 16 p.h.src_addr
    ++ le_bytes 16 p.h.dst_addr

-- The time stands in the destination address, and the port at the end of the source address.
unfoldable pub ethernet : Headers → List ℕ
ethernet p = be_bytes 6 p.ingress_ts ++ skipped p.others 4 6 ++ be_bytes 2 p.dev_port

unfoldable pub encode : Headers → List ℕ → List ℕ
encode p payload = ethernet p ++ (network p p.h.l3_proto ++ (transport p p.h.l4_proto ++ payload))

abbrev pub byte_at : List ℕ → ℕ → ℕ
byte_at [] i = 0
byte_at (b ∷ bs) zero = b
byte_at (b ∷ bs) (suc i) = byte_at bs i

abbrev pub drop : ℕ → List ℕ → List ℕ
drop zero bs = bs
drop (suc n) [] = []
drop (suc n) (b ∷ bs) = drop n bs

-- The little-endian number of the first `n` bytes.
abbrev pub number_of : List ℕ → ℕ → ℕ
number_of bs zero = 0
number_of [] (suc n) = 0
number_of (b ∷ bs) (suc n) = b + 256 * number_of bs n
