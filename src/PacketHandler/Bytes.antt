-- ===== src/PacketHandler/Bytes.antt =====
-- What the parser loads from the bytes of PacketHandler.Encode, header by header.
use marina.Prelude.{
  ℕ, zero, suc, ◌+◌, ◌*◌, ◌/◌, ◌%◌, ◌^◌, ◌<◌, ◌≤◌, ◌≡◌, refl, sym, ◌∙◌, ap, arith, ltb, List, [],
  ◌∷◌, ◌++◌, some, false,
}
use marina.Structs.{L3Proto, unspec, ipv4, ipv6, L4Proto, udp, tcp, FiveTuple, swap_endian_16}
use marina.PacketHandler.{load, eth_to_ts, Parsed, parse_l4}
use marina.PacketHandler.Encode.{
  le_bytes, be_bytes, Headers, skipped, transport, protocol, ethernet, byte_at, drop, number_of,
}

load_nothing : (offset n : ℕ) → load (byte_at []) offset n ≡ 0
unfolding load
load_nothing offset zero = refl
load_nothing offset (suc n) = omega (arith, load_nothing (offset + 1) n)

load_from :
    (b : ℕ) (bs : List ℕ) (offset n : ℕ)
    → load (byte_at (b ∷ bs)) (suc offset) n ≡ load (byte_at bs) offset n
unfolding load
load_from b bs offset zero = refl
load_from b bs offset (suc n) =
    let e : suc offset + 1 ≡ suc (offset + 1) = omega arith in
    rw e (ap (λ k. byte_at bs offset + 256 * k) (load_from b bs (offset + 1) n))

number_of_nothing : (offset n : ℕ) → number_of (drop offset []) n ≡ 0
number_of_nothing zero zero = refl
number_of_nothing zero (suc n) = refl
number_of_nothing (suc offset) zero = refl
number_of_nothing (suc offset) (suc n) = refl

pub load-drop :
    (bs : List ℕ) (offset n : ℕ) → load (byte_at bs) offset n ≡ number_of (drop offset bs) n
unfolding load
load-drop [] offset n = load_nothing offset n ∙ sym (number_of_nothing offset n)
load-drop (b ∷ bs) zero zero = refl
load-drop (b ∷ bs) zero (suc n) = ap (λ k. b + 256 * k) (load_from b bs 0 n ∙ load-drop bs 0 n)
load-drop (b ∷ bs) (suc offset) n = load_from b bs offset n ∙ load-drop bs offset n

pub number_of-le_bytes :
    (n x : ℕ) (rest : List ℕ) → x < 256 ^ n → number_of (le_bytes n x ++ rest) n ≡ x
unfolding le_bytes
number_of-le_bytes zero x rest lt = omega arith
number_of-le_bytes (suc n) x rest lt =
    let e : 256 ^ suc n ≡ 256 * 256 ^ n = omega arith in
    omega (arith, e, number_of-le_bytes n (x / 256) rest (omega (arith, e)))

drop_nothing : (n : ℕ) → drop n [] ≡ []
drop_nothing zero = refl
drop_nothing (suc n) = refl

-- A port, as it is loaded and swapped.
swapped_port : (x : ℕ) → x < 2 ^ 16 → swap_endian_16 (x / 256 % 256 + 256 * (x % 256 + 256 * 0)) ≡ x
unfolding swap_endian_16
swapped_port x lt = omega arith

loaded_port_lem : (x : ℕ) → x / 256 % 256 + 256 * (x % 256 + 256 * 0) ≡ swap_endian_16 x
unfolding swap_endian_16
loaded_port_lem x = omega arith

-- The ranges of the fields.
pub record IsEncodable (p : Headers) : Type 0 where
  pub ts : p.ingress_ts < 2 ^ 48
  pub port : p.dev_port < 2 ^ 16
  pub src_port : p.h.src_port < 2 ^ 16
  pub dst_port : p.h.dst_port < 2 ^ 16

abbrev pub width_of : L3Proto → ℕ
width_of unspec = 0
width_of ipv4 = 4
width_of ipv6 = 16

-- The length of the headers up to that of the transport protocol.
abbrev pub transport_at : L3Proto → ℕ
transport_at unspec = 14
transport_at ipv4 = 34
transport_at ipv6 = 54

abbrev pub size_of : L4Proto → ℕ
size_of tcp = 20
size_of udp = 8

-- The flags are those of TCP, the loaded port that of UDP.
abbrev pub flags_of : L4Proto → ℕ → ℕ
flags_of tcp flags = flags
flags_of udp flags = 0

abbrev pub loaded_port : L4Proto → ℕ → ℕ
loaded_port tcp port = 0
loaded_port udp port = swap_endian_16 port

-- What the controller is to make of the headers.
abbrev pub decoded : Headers → Parsed
decoded p = record {
  five_tuple = record {
    h = p.h;
    sh = record { client_addr = 0; to_server = false };
    ingress_ts = p.ingress_ts;
    dev_port = p.dev_port;
    session_id_egress_offset = p.garbage;
  };
  flags = flags_of p.h.l4_proto p.flags;
  source = loaded_port p.h.l4_proto p.h.src_port;
  cur_size = transport_at p.h.l3_proto + size_of p.h.l4_proto;
}

-- The time and the port of Ethernet, before any other header.
pub ts_lem :
    (p : Headers) (rest : List ℕ)
    → p.ingress_ts < 2 ^ 48
    → eth_to_ts (byte_at (ethernet p ++ rest)) ≡ p.ingress_ts
unfolding eth_to_ts ethernet be_bytes skipped
ts_lem p rest lt = omega arith

pub dev_port_lem :
    (p : Headers) (rest : List ℕ)
    → p.dev_port < 2 ^ 16
    → swap_endian_16 (load (byte_at (ethernet p ++ rest)) 10 2) ≡ p.dev_port
unfolding ethernet be_bytes skipped
dev_port_lem p rest lt = rw (load-drop (ethernet p ++ rest) 10 2) (swapped_port p.dev_port lt)

byte_at-drop : (bs : List ℕ) (n k : ℕ) → byte_at bs (n + k) ≡ byte_at (drop n bs) k
byte_at-drop bs zero k = ap (byte_at bs) (omega arith)
byte_at-drop [] (suc n) k = refl
byte_at-drop (b ∷ bs) (suc n) k =
    let e : suc n + k ≡ suc (n + k) = omega arith in ap (byte_at (b ∷ bs)) e ∙ byte_at-drop bs n k

drop-drop : (bs : List ℕ) (n k : ℕ) → drop (n + k) bs ≡ drop k (drop n bs)
drop-drop bs zero k = ap (λ i. drop i bs) (omega arith)
drop-drop [] (suc n) zero = drop_nothing (suc n + 0)
drop-drop [] (suc n) (suc k) = drop_nothing (suc n + suc k)
drop-drop (b ∷ bs) (suc n) k =
    let e : suc n + k ≡ suc (n + k) = omega arith in ap (λ i. drop i (b ∷ bs)) e ∙ drop-drop bs n k

abbrev pub parsed_l4 : Headers → ℕ → FiveTuple → L4Proto → Parsed
parsed_l4 p at t l4 = record {
  five_tuple = record t {
    h = record t.h { src_port = p.h.src_port; dst_port = p.h.dst_port; l4_proto = l4 };
  };
  flags = flags_of l4 p.flags;
  source = loaded_port l4 p.h.src_port;
  cur_size = at + size_of l4;
}

-- The transport header, at the place where the parser looks for it.
module _ (p : Headers) (ok : IsEncodable p) (bs payload : List ℕ) (at caplen : ℕ)
    (t : FiveTuple) where
  ports_lem :
      (l4 : L4Proto)
      → drop at bs ≡ transport p l4 ++ payload
      → (load (byte_at bs) at 2 ≡ p.h.src_port / 256 % 256 + 256 * (p.h.src_port % 256 + 256 * 0))
        × (load (byte_at bs) (at + 2) 2
            ≡ p.h.dst_port / 256 % 256 + 256 * (p.h.dst_port % 256 + 256 * 0))
  unfolding transport be_bytes skipped
  ports_lem tcp e = (
    load-drop bs at 2 ∙ ap (λ l. number_of l 2) e,
    load-drop bs (at + 2) 2
        ∙ ap (λ l. number_of l 2) (drop-drop bs at 2)
        ∙ ap (λ l. number_of (drop 2 l) 2) e,
  )
  ports_lem udp e = (
    load-drop bs at 2 ∙ ap (λ l. number_of l 2) e,
    load-drop bs (at + 2) 2
        ∙ ap (λ l. number_of l 2) (drop-drop bs at 2)
        ∙ ap (λ l. number_of (drop 2 l) 2) e,
  )

  pub parse_l4_lem :
      (l4 : L4Proto)
      → drop at bs ≡ transport p l4 ++ payload
      → at + size_of l4 ≤ caplen
      → parse_l4 caplen (byte_at bs) t (protocol l4) at ≡ some (parsed_l4 p at t l4)
  unfolding parse_l4 protocol transport be_bytes skipped
  parse_l4_lem tcp e le =
      let (src, dst) = ports_lem tcp e in
      let enough : ltb caplen (at + 20) ≡ false = ground arith in
      let flags : byte_at bs (at + 13) ≡ p.flags =
        byte_at-drop bs at 13 ∙ ap (λ l. byte_at l 13) e in
      rw
        (
          enough,
          src,
          dst,
          flags,
          swapped_port p.h.src_port ok.src_port,
          swapped_port p.h.dst_port ok.dst_port,
        )
        refl
  parse_l4_lem udp e le =
      let (src, dst) = ports_lem udp e in
      let enough : ltb caplen (at + 8) ≡ false = ground arith in
      rw
        (
          enough,
          src,
          dst,
          swapped_port p.h.src_port ok.src_port,
          swapped_port p.h.dst_port ok.dst_port,
          loaded_port_lem p.h.src_port,
        )
        refl
