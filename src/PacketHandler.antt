-- ===== src/PacketHandler.antt =====
-- controller/packet_handler/packet_handler.c: from captured packets to messages. The bytes of a
-- packet are a function of the offset; the layouts of the headers are those of <netinet>, on a
-- little-endian machine. The tables are those that the other threads write, as they are while the
-- packet is handled; `now` is the clock. `hexDump` only prints.
pub mod Parse
pub mod Heuristic
pub mod Encode
pub mod Bytes
pub mod RoundTrip
mod Tests
use marina.Prelude.{
  ℕ, zero, suc, ◌+◌, ◌-◌, ◌*◌, ◌/◌, ◌%◌, ◌^◌, ◌==◌, ltb, ◌&&◌, max, Bool, true, false, Option, none,
  some, ◌>>=◌, if◌then◌else◌, List, [], ◌∷◌,
}
use marina.Prelude.Int.{ℤ}
use marina.Structs.{
  L3Proto, unspec, ipv4, ipv6, L4Proto, udp, tcp, FiveTuple, FiveTupleForHash,
  FiveTupleForSessionHash, swap_endian_16,
}
use marina.Commands.{
  PacketItem, pkt_add_flow, pkt_remove_flow, pkt_add_bloom_filter_irrelevant,
  pkt_fix_bloom_filter_relevant, DnsItem, dns_add_pkt, dns_remove_ip,
}
use marina.FlowHashtable.{FlowHashtable, flow_hashtable_get, zero_five_tuple}
use marina.DnsHashtable.{DnsHashtable, DnsHashtableKey, dns_hashtable_get}
use marina.Ringbuffer.{Ringbuffer}
use marina.Ringbuffer

-- The little-endian number of `n` bytes.
unfoldable pub load : (ℕ → ℕ) → ℕ → ℕ → ℕ
load bytes offset zero = 0
load bytes offset (suc n) = bytes offset + 256 * load bytes (offset + 1) n

-- `ETH_TO_TS`.
unfoldable pub eth_to_ts : (ℕ → ℕ) → ℕ
eth_to_ts b = ((((b 0 * 256 + b 1) * 256 + b 2) * 256 + b 3) * 256 + b 4) * 256 + b 5

-- What the headers give: the five tuple, the flags of TCP, the source port of UDP as it is in the
-- packet, and `curSize`.
pub record Parsed : Type 0 where
  pub five_tuple : FiveTuple
  pub flags : ℕ
  pub source : ℕ
  pub cur_size : ℕ

-- `EXTRACT`, with the rest of the function.
abbrev pub extract {ℓ} : {A : Type ℓ} → ℕ → ℕ → ℕ → Option A → Option A
extract caplen cur_size size rest = if ltb caplen (cur_size + size) then none else rest

abbrev pub ipproto_tcp : ℕ
ipproto_tcp = 6

abbrev pub ipproto_udp : ℕ
ipproto_udp = 17

-- The five tuple before the transport header.
abbrev pub ip_tuple : ℤ → (ℕ → ℕ) → L3Proto → ℕ → ℕ → FiveTuple
ip_tuple garbage bytes l3 src dst = record {
  h = record {
    src_addr = src;
    dst_addr = dst;
    src_port = 0;
    dst_port = 0;
    l3_proto = l3;
    l4_proto = udp;
  };
  sh = record { client_addr = 0; to_server = false };
  ingress_ts = eth_to_ts bytes;
  dev_port = swap_endian_16 (load bytes 10 2);
  session_id_egress_offset = garbage;
}

abbrev pub with_ports : FiveTuple → (ℕ → ℕ) → ℕ → L4Proto → FiveTuple
with_ports t bytes at l4 = record t {
  h = record t.h {
    src_port = swap_endian_16 (load bytes at 2);
    dst_port = swap_endian_16 (load bytes (at + 2) 2);
    l4_proto = l4;
  };
}

-- The transport header, at `at`.
unfoldable pub parse_l4 : ℕ → (ℕ → ℕ) → FiveTuple → ℕ → ℕ → Option Parsed
parse_l4 caplen bytes t l4_proto at =
    if l4_proto == ipproto_tcp
    then extract caplen at 20 (
        some (record {
          five_tuple = with_ports t bytes at tcp;
          flags = bytes (at + 13);
          source = 0;
          cur_size = at + 20;
        }))
    else if l4_proto == ipproto_udp
    then extract caplen at 8 (
        some (record {
          five_tuple = with_ports t bytes at udp;
          flags = 0;
          source = load bytes at 2;
          cur_size = at + 8;
        }))
    else none

-- The headers of `packet_handler`; `none` is an early return. The ether types are as the machine
-- loads them.
-- `garbage` is what the variable holds in the one field that is not initialised.
unfoldable pub parse : ℤ → ℕ → (ℕ → ℕ) → Option Parsed
parse garbage caplen bytes =
    let ether_type = load bytes 12 2 in
    extract caplen 0 14 (
      if ether_type == 8
      then extract caplen 14 20 (
          parse_l4 caplen bytes (ip_tuple garbage bytes ipv4 (load bytes 26 4) (load bytes 30 4))
            (bytes 23) 34)
      else if ether_type == 56710
      then extract caplen 14 40 (
          parse_l4 caplen bytes (ip_tuple garbage bytes ipv6 (load bytes 22 16) (load bytes 38 16))
            (bytes 20) 54)
      else none)

-- What the thread reads and sends to.
pub record Handler : Type 0 where
  pub flows : FlowHashtable
  pub dns : DnsHashtable
  pub packet_ring : Ringbuffer PacketItem
  pub dns_ring : Ringbuffer DnsItem

pub record Setting : Type 0 where
  pub murmur_h : FiveTupleForHash → ℕ
  pub murmur_dns : DnsHashtableKey → ℕ
  pub flow_table_size : ℕ
  pub dns_table_size : ℕ
  pub packet_ring_size : ℕ
  pub dns_ring_size : ℕ

unfoldable pub to_dns_hashtable_key : ℕ → L3Proto → DnsHashtableKey
to_dns_hashtable_key address unspec = record { type = unspec; address = 0 }
to_dns_hashtable_key address ipv4 = record { type = ipv4; address = address }
to_dns_hashtable_key address ipv6 = record { type = ipv6; address = address }

abbrev pub src_key : FiveTuple → DnsHashtableKey
src_key t = to_dns_hashtable_key t.h.src_addr t.h.l3_proto

abbrev pub dst_key : FiveTuple → DnsHashtableKey
dst_key t = to_dns_hashtable_key t.h.dst_addr t.h.l3_proto

abbrev pub is_found : Option ℕ → Bool
is_found none = false
is_found (some v) = true

-- The flags of TCP.
unfoldable pub is_syn : ℕ → Bool
is_syn flags = flags / 2 % 2 == 1

unfoldable pub is_fin : ℕ → Bool
is_fin flags = flags % 2 == 1

module _ (g : Setting) where
  open g use {
    murmur_h, murmur_dns, flow_table_size, dns_table_size, packet_ring_size, dns_ring_size,
  }

  unfoldable pub is_known : Handler → FiveTuple → Option Bool
  is_known s t = flow_hashtable_get murmur_h flow_table_size s.flows t >>= λ v. some (is_found v)

  unfoldable pub is_in_dns_hashtable : Handler → DnsHashtableKey → Option Bool
  is_in_dns_hashtable s key =
      dns_hashtable_get murmur_dns dns_table_size s.dns key >>= λ v. some (is_found v)

  unfoldable pub send_packet_item : Handler → PacketItem → Handler
  send_packet_item s item = record s {
    packet_ring = (Ringbuffer.put packet_ring_size s.packet_ring item).1;
  }

  unfoldable pub send_dns_item : Handler → DnsItem → Handler
  send_dns_item s item = record s { dns_ring = (Ringbuffer.put dns_ring_size s.dns_ring item).1 }

  -- One of the two tests of `heuristic`.
  unfoldable pub judge : ℕ → Handler → DnsHashtableKey → Option ℕ → Bool × Handler
  judge now s key none = (false, s)
  judge now s key (some timeout) =
      if ltb timeout now then (false, send_dns_item s (dns_remove_ip key)) else (true, s)

  unfoldable pub examine : ℕ → Handler → DnsHashtableKey → Option (Bool × Handler)
  examine now s key =
      dns_hashtable_get murmur_dns dns_table_size s.dns key >>= λ v. some (judge now s key v)

  -- `heuristic`, with `USE_DNS_DB`.
  pub heuristic : ℕ → Handler → FiveTuple → Option (Bool × Handler)
  heuristic now s t = examine now s (src_key t) >>= λ (match, s').
      let rest = examine now s' (dst_key t) in if match then some (true, s') else rest

  pub setup_session_hash : Handler → FiveTuple → Option FiveTuple
  setup_session_hash s t = is_in_dns_hashtable s (src_key t) >>= λ from_server.
      let rest = is_in_dns_hashtable s (dst_key t) >>= λ to_server. some (
        if to_server
        then record t { sh = record { client_addr = t.h.src_addr; to_server = true } }
        else t) in
      if from_server
      then some (record t { sh = record { client_addr = t.h.dst_addr; to_server = false } })
      else rest

  -- The messages of `process_packet` once the heuristic has said whether the flow is relevant.
  unfoldable pub classified : Bool → L4Proto → Handler → FiveTuple → Handler
  classified true tcp s t = send_packet_item s (pkt_add_flow t)
  classified true udp s t =
      send_packet_item (send_packet_item s (pkt_add_flow t)) (pkt_fix_bloom_filter_relevant t)
  classified false tcp s t = s
  classified false udp s t = send_packet_item s (pkt_add_bloom_filter_irrelevant t)

  unfoldable pub classify : ℕ → Handler → FiveTuple → Option Handler
  classify now s t =
      heuristic now s t >>= λ (relevant, s'). some (classified relevant t.h.l4_proto s' t)

  -- The flow table is asked only if SYN is set.
  unfoldable pub process_tcp : ℕ → Handler → FiveTuple → ℕ → Option Handler
  process_tcp now s t flags =
      let rest = classify now s t in
      let finish = if is_fin flags then some (send_packet_item s (pkt_remove_flow t)) else rest in
      let syn = is_known s t >>= λ known. if known then some s else finish in
      if is_syn flags then syn else finish

  unfoldable pub process_by : L4Proto → ℕ → Handler → FiveTuple → ℕ → Option Handler
  process_by tcp now s t flags = process_tcp now s t flags
  process_by udp now s t flags = classify now s t

  pub process_packet : ℕ → Handler → FiveTuple → ℕ → Option Handler
  process_packet now s t flags = process_by t.h.l4_proto now s t flags

-- The bytes that `memcpy` reads.
pub bytes_from : (ℕ → ℕ) → ℕ → ℕ → List ℕ
bytes_from bytes at zero = []
bytes_from bytes at (suc n) = bytes at ∷ bytes_from bytes (at + 1) n

abbrev pub max_dns_pkt_len : ℕ
max_dns_pkt_len = 2048

-- The test for a DNS response; the port is not swapped.
unfoldable pub is_dns_response : Parsed → Bool
is_dns_response p = p.source == 53

module _ (g : Setting) where
  unfoldable pub handle_dns : ℕ → (ℕ → ℕ) → Handler → Parsed → Handler
  handle_dns caplen bytes s p =
      let len = max (caplen - p.cur_size) max_dns_pkt_len in
      if ltb len 12 then s else send_dns_item g s (dns_add_pkt (bytes_from bytes p.cur_size len))

  unfoldable pub handle_parsed : ℕ → ℕ → (ℕ → ℕ) → Handler → Option Parsed → Option Handler
  handle_parsed now caplen bytes s none = some s
  handle_parsed now caplen bytes s (some p) =
      let rest = setup_session_hash g s p.five_tuple >>= λ t. process_packet g now s t p.flags in
      if is_dns_response p then some (handle_dns caplen bytes s p) else rest

  -- `packet_handler`, for a capture of `caplen` bytes.
  pub packet_handler : ℕ → Handler → ℤ → ℕ → (ℕ → ℕ) → Option Handler
  packet_handler now s garbage caplen bytes =
      handle_parsed now caplen bytes s (parse garbage caplen bytes)
