-- ===== src/PacketHandler/RoundTrip.antt =====
-- What the parser makes of the packets of PacketHandler.Encode.
use marina.Prelude.{
  ℕ, ◌+◌, ◌^◌, ◌<◌, ◌≤◌, ◌≡◌, ◌≢◌, refl, sym, ◌∙◌, ap, arith, ltb, List, ◌++◌, some, false,
}
use marina.Structs.{L3Proto, unspec, ipv4, ipv6, L4Proto, FiveTuple, swap_endian_16}
use marina.PacketHandler.{load, eth_to_ts, parse_l4, parse}
use marina.PacketHandler.Encode.{
  le_bytes, be_bytes, Headers, skipped, transport, protocol, network, ethernet, encode, byte_at,
}
use marina.PacketHandler.Bytes.{
  load-drop, number_of-le_bytes, ts_lem, dev_port_lem, IsEncodable, width_of, transport_at, size_of,
  parsed_l4, parse_l4_lem, decoded,
}

-- The five tuple before the transport header, for a network protocol.
abbrev begun : Headers → L3Proto → FiveTuple
begun p l3 = record {
  h = record {
    src_addr = p.h.src_addr;
    dst_addr = p.h.dst_addr;
    src_port = 0;
    dst_port = 0;
    l3_proto = l3;
    l4_proto = L4Proto.udp;
  };
  sh = record { client_addr = 0; to_server = false };
  ingress_ts = p.ingress_ts;
  dev_port = p.dev_port;
  session_id_egress_offset = p.garbage;
}

module _ (p : Headers) (ok : IsEncodable p) (payload : List ℕ) (caplen : ℕ) where
  abbrev rest : List ℕ
  rest = transport p p.h.l4_proto ++ payload

  abbrev packet : L3Proto → ℕ → ℕ
  packet l3 = byte_at (ethernet p ++ (network p l3 ++ rest))

  v4_addresses :
      p.h.src_addr < 2 ^ 32
      → p.h.dst_addr < 2 ^ 32
      → (load (packet ipv4) 26 4 ≡ p.h.src_addr) × (load (packet ipv4) 30 4 ≡ p.h.dst_addr)
  unfolding ethernet network be_bytes skipped le_bytes
  v4_addresses src dst = (
    load-drop (ethernet p ++ (network p ipv4 ++ rest)) 26 4
        ∙ number_of-le_bytes 4 p.h.src_addr (le_bytes 4 p.h.dst_addr ++ rest) (omega arith),
    load-drop (ethernet p ++ (network p ipv4 ++ rest)) 30 4
        ∙ number_of-le_bytes 4 p.h.dst_addr rest (omega arith),
  )

  v6_addresses :
      p.h.src_addr < 256 ^ 16
      → p.h.dst_addr < 256 ^ 16
      → (load (packet ipv6) 22 16 ≡ p.h.src_addr) × (load (packet ipv6) 38 16 ≡ p.h.dst_addr)
  unfolding ethernet network be_bytes skipped le_bytes
  v6_addresses src dst = (
    load-drop (ethernet p ++ (network p ipv6 ++ rest)) 22 16
        ∙ number_of-le_bytes 16 p.h.src_addr (le_bytes 16 p.h.dst_addr ++ rest) src,
    load-drop (ethernet p ++ (network p ipv6 ++ rest)) 38 16
        ∙ number_of-le_bytes 16 p.h.dst_addr rest dst,
  )

  v4_type : (load (packet ipv4) 12 2 ≡ 8) × (packet ipv4 23 ≡ protocol p.h.l4_proto)
  unfolding ethernet network be_bytes skipped le_bytes
  v4_type = (load-drop (ethernet p ++ (network p ipv4 ++ rest)) 12 2, refl)

  v6_type : (load (packet ipv6) 12 2 ≡ 56710) × (packet ipv6 20 ≡ protocol p.h.l4_proto)
  unfolding ethernet network be_bytes skipped le_bytes
  v6_type = (load-drop (ethernet p ++ (network p ipv6 ++ rest)) 12 2, refl)

  v4_transport :
      34 + size_of p.h.l4_proto ≤ caplen
      → parse_l4 caplen (packet ipv4) (begun p ipv4) (protocol p.h.l4_proto) 34
        ≡ some (parsed_l4 p 34 (begun p ipv4) p.h.l4_proto)
  unfolding ethernet network be_bytes skipped le_bytes
  v4_transport le =
      parse_l4_lem p ok (ethernet p ++ (network p ipv4 ++ rest)) payload 34 caplen (begun p ipv4)
        p.h.l4_proto refl le

  v6_transport :
      54 + size_of p.h.l4_proto ≤ caplen
      → parse_l4 caplen (packet ipv6) (begun p ipv6) (protocol p.h.l4_proto) 54
        ≡ some (parsed_l4 p 54 (begun p ipv6) p.h.l4_proto)
  unfolding ethernet network be_bytes skipped le_bytes
  v6_transport le =
      parse_l4_lem p ok (ethernet p ++ (network p ipv6 ++ rest)) payload 54 caplen (begun p ipv6)
        p.h.l4_proto refl le

  parse_v4 :
      p.h.src_addr < 2 ^ 32
      → p.h.dst_addr < 2 ^ 32
      → 34 + size_of p.h.l4_proto ≤ caplen
      → parse p.garbage caplen (packet ipv4) ≡ some (parsed_l4 p 34 (begun p ipv4) p.h.l4_proto)
  unfolding parse
  parse_v4 src dst le =
      let enough : ltb caplen 14 ≡ false = ground arith in
      let enough' : ltb caplen 34 ≡ false = ground arith in
      let (src_at, dst_at) = v4_addresses src dst in
      let (type, next) = v4_type in
      let ts_at : eth_to_ts (packet ipv4) ≡ p.ingress_ts =
        ts_lem p (network p ipv4 ++ rest) ok.ts in
      let port_at : swap_endian_16 (load (packet ipv4) 10 2) ≡ p.dev_port =
        dev_port_lem p (network p ipv4 ++ rest) ok.port in
      rw (enough, type, enough', src_at, dst_at, next, ts_at, port_at) (v4_transport le)

  parse_v6 :
      p.h.src_addr < 256 ^ 16
      → p.h.dst_addr < 256 ^ 16
      → 54 + size_of p.h.l4_proto ≤ caplen
      → parse p.garbage caplen (packet ipv6) ≡ some (parsed_l4 p 54 (begun p ipv6) p.h.l4_proto)
  unfolding parse
  parse_v6 src dst le =
      let enough : ltb caplen 14 ≡ false = ground arith in
      let enough' : ltb caplen 54 ≡ false = ground arith in
      let (src_at, dst_at) = v6_addresses src dst in
      let (type, next) = v6_type in
      let ts_at : eth_to_ts (packet ipv6) ≡ p.ingress_ts =
        ts_lem p (network p ipv6 ++ rest) ok.ts in
      let port_at : swap_endian_16 (load (packet ipv6) 10 2) ≡ p.dev_port =
        dev_port_lem p (network p ipv6 ++ rest) ok.port in
      rw (enough, type, enough', src_at, dst_at, next, ts_at, port_at) (v6_transport le)

-- Whether the addresses fit into the header of the network protocol, and the headers into the
-- capture.
abbrev pub Fits : Headers → ℕ → Type 0
Fits p caplen =
    (p.h.src_addr < 256 ^ width_of p.h.l3_proto)
    × (p.h.dst_addr < 256 ^ width_of p.h.l3_proto)
    × (transport_at p.h.l3_proto + size_of p.h.l4_proto ≤ caplen)

-- Parsing what the headers are written as gives them back: the addresses, the ports, the protocols,
-- the time and the port of the switch, and the flags of TCP, for both versions of IP, TCP and
-- UDP, whatever the other bytes and the payload are, if the capture holds the headers.
pub parse-encode :
    (p : Headers) (payload : List ℕ) (caplen : ℕ)
    → p.h.l3_proto ≢ unspec
    → IsEncodable p
    → Fits p caplen
    → parse p.garbage caplen (byte_at (encode p payload)) ≡ some (decoded p)
unfolding encode
parse-encode p payload caplen known ok (src, dst, le) = by_l3 p.h.l3_proto refl
  where
    by_l3 :
        (l3 : L3Proto)
        → p.h.l3_proto ≡ l3
        → parse p.garbage caplen (byte_at (encode p payload)) ≡ some (decoded p)
    by_l3 unspec e = absurd (known e)
    by_l3 ipv4 e =
        let src' : p.h.src_addr < 256 ^ 4 = rw e at src in
        let dst' : p.h.dst_addr < 256 ^ 4 = rw e at dst in
        let le' : 34 + size_of p.h.l4_proto ≤ caplen = rw e at le in
        ap (λ l3. parse p.garbage caplen (packet p ok payload caplen l3)) e
        ∙ parse_v4 p ok payload caplen (omega arith) (omega arith) le'
        ∙ ap (λ l3. some (parsed_l4 p (transport_at l3) (begun p l3) p.h.l4_proto)) (sym e)
    by_l3 ipv6 e =
        let src' : p.h.src_addr < 256 ^ 16 = rw e at src in
        let dst' : p.h.dst_addr < 256 ^ 16 = rw e at dst in
        let le' : 54 + size_of p.h.l4_proto ≤ caplen = rw e at le in
        ap (λ l3. parse p.garbage caplen (packet p ok payload caplen l3)) e
        ∙ parse_v6 p ok payload caplen src' dst' le'
        ∙ ap (λ l3. some (parsed_l4 p (transport_at l3) (begun p l3) p.h.l4_proto)) (sym e)
