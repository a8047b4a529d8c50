-- ===== src/PacketHandler/Tests.antt =====
-- A packet of UDP over IPv4 with the bytes of port 53 in the wrong order, and a table with one server.
use marina.Prelude.{
  ℕ, ◌<◌, ◌≡◌, refl, true, false, arith, Option, none, some, ◌==◌, if◌then◌else◌, Returns,
  Returns-result, Status, failure, result_or,
}
use marina.Prelude.Int.{pos}
use marina.Structs.{l3_code, FiveTuple, ipv4, ipv6, tcp, unspec, swap_endian_16}
use marina.FlowHashtable.{zero_five_tuple, flow_hashtable_init}
use marina.Hashtable.{get_hashtable_index, probe_loop, home}
use marina.DnsHashtable.{
  change_at, DnsHashtable, DnsHashtableKey, dns_hashtable_init, dns_hashtable_add_or_change, scheme,
  same_key,
}
use marina.DnsHashtable.Laws.{
  Models, same_key_iff, dns_hashtable_init-Models, dns_hashtable_add_or_change_lem,
}
use marina.Hashtable.Represents.{bind}
use marina.Commands.{pkt_remove_bloom_filter, dns_add_pkt}
use marina.Prelude.{◌≢◌, [], ◌∷◌, Bool-cases, inl, inr, ap, sym}
use marina.Ringbuffer
use marina.PacketHandler.{
  Setting, Handler, Parsed, load, parse, parse_l4, eth_to_ts, is_dns_response, with_ports, ip_tuple,
  heuristic,
}
use marina.PacketHandler.Encode.{Headers, encode, byte_at}
use marina.PacketHandler.Bytes.{IsEncodable, decoded}
use marina.PacketHandler.RoundTrip.{Fits, parse-encode}
use marina.PacketHandler.Parse.{Agree, parse_in_bounds, dns_response_port}
use marina.PacketHandler.Heuristic.{Judged, heuristic_lem, heuristic_needs_type}

-- The ether type, the protocol, and the source port; all other bytes are zero.
abbrev packet : ℕ → ℕ
packet i = if i == 12 then 8 else if i == 23 then 17 else if i == 34 then 53 else 0

-- The same, with another byte behind the 42 that are captured.
abbrev longer : ℕ → ℕ
longer i = if i == 42 then 1 else packet i

agree : Agree 42 packet longer
agree i lt = ground arith

parse_in_bounds_example : parse (pos 3) 42 packet ≡ parse (pos 3) 42 longer
parse_in_bounds_example = parse_in_bounds (pos 3) 42 packet longer agree

abbrev parsed : Parsed
parsed = record {
  five_tuple = with_ports (ip_tuple (pos 3) packet ipv4 0 0) packet 34 (zero_five_tuple.h.l4_proto);
  flags = 0;
  source = 53;
  cur_size = 42;
}

packet-parsed : parse (pos 3) 42 packet ≡ some parsed
unfolding parse parse_l4 load eth_to_ts swap_endian_16
packet-parsed = refl

taken_for_response : is_dns_response parsed ≡ true
unfolding is_dns_response
taken_for_response = refl

dns_response_port_example : parsed.five_tuple.h.src_port ≡ 13568
dns_response_port_example =
    dns_response_port (pos 3) 42 packet parsed packet-parsed taken_for_response

abbrev setting : Setting
setting = record {
  murmur_h = λ h. h.src_port;
  murmur_dns = λ k. k.address;
  flow_table_size = 4;
  dns_table_size = 4;
  packet_ring_size = 2;
  dns_ring_size = 2;
}

pos_size : 0 < 4
pos_size = omega arith

abbrev server : DnsHashtableKey
server = record { type = unspec; address = 5 }

abbrev no_servers : DnsHashtableKey → Option ℕ
no_servers _ = none

abbrev one_known : DnsHashtableKey → Option ℕ
one_known = bind (scheme setting.murmur_dns 4) server 60 no_servers

abbrev adding : Status × DnsHashtable
adding =
    result_or (failure, dns_hashtable_init)
      (dns_hashtable_add_or_change setting.murmur_dns 4 dns_hashtable_init server 60)

one_Models : Models setting.murmur_dns 4 pos_size adding.1 one_known
unfolding dns_hashtable_init
one_Models =
    (Returns-result (failure, dns_hashtable_init)
      (dns_hashtable_add_or_change_lem setting.murmur_dns 4 pos_size dns_hashtable_init no_servers
        (dns_hashtable_init-Models setting.murmur_dns 4 pos_size) server 60 (omega arith))).1

abbrev handler : Handler
handler = record {
  flows = flow_hashtable_init;
  dns = adding.1;
  packet_ring = Ringbuffer.init (λ _. pkt_remove_bloom_filter) 0;
  dns_ring = Ringbuffer.init (λ _. dns_add_pkt []) 0;
}

room : adding.1.num_entries < 4
unfolding dns_hashtable_init dns_hashtable_add_or_change change_at get_hashtable_index probe_loop
    home same_key l3_code
room = omega arith

-- A flow from the server.
abbrev flow : FiveTuple
flow = record zero_five_tuple { h = record zero_five_tuple.h { src_addr = 5; l3_proto = ipv4 } }

untyped : (key : DnsHashtableKey) (v : ℕ) → one_known key ≡ some v → key.type ≡ unspec
untyped key v known = elim (Bool-cases (same_key server key)) [
  | inl same ↦ ap (λ (k : DnsHashtableKey). k.type) (sym ((same_key_iff server key).0 same))
  | inr other ↦ let e : none ≡ some v = rw other at known in cc e
]

heuristic_example :
    Returns (Judged setting pos_size 30 one_known flow handler) (heuristic setting 30 handler flow)
heuristic_example = heuristic_lem setting pos_size 30 handler one_known flow one_Models room

heuristic_needs_type_example : heuristic setting 30 handler flow ≡ some (false, handler)
heuristic_needs_type_example =
    heuristic_needs_type setting pos_size 30 handler one_known flow one_Models room untyped
      (λ e. cc)

-- A packet of TCP over IPv6, in full.
abbrev headers : Headers
headers = record {
  h = record {
    src_addr = 42540488161975842760550356425300246592;
    dst_addr = 7;
    src_port = 443;
    dst_port = 50000;
    l3_proto = ipv6;
    l4_proto = tcp;
  };
  ingress_ts = 1234567890123;
  dev_port = 300;
  flags = 2;
  others = λ i. i;
  garbage = pos 77;
}

headers-IsEncodable : IsEncodable headers
headers-IsEncodable = record {
  ts = omega arith;
  port = omega arith;
  src_port = omega arith;
  dst_port = omega arith;
}

headers-Fits : Fits headers 80
headers-Fits = (omega arith, omega arith, omega arith)

is_ipv6 : ipv6 ≢ unspec
is_ipv6 e = cc e

parse-encode_example :
    parse (pos 77) 80 (byte_at (encode headers (1 ∷ 2 ∷ []))) ≡ some (decoded headers)
parse-encode_example = parse-encode headers (1 ∷ 2 ∷ []) 80 is_ipv6 headers-IsEncodable headers-Fits
