-- ===== src/PacketHandler/Parse.antt =====
-- What the parser reads, and the ports that it finds.
use marina.Prelude.{
  ℕ, zero, suc, ◌+◌, ◌<◌, ◌≤◌, ◌≡◌, refl, arith, ltb, ◌==◌, Bool-cases, inl, inr, some, true,
}
use marina.Prelude.Int.{ℤ}
use marina.Structs.{FiveTuple, swap_endian_16, ipv4, ipv6}
use marina.PacketHandler.{
  load, eth_to_ts, parse_l4, parse, ip_tuple, Parsed, is_dns_response, ipproto_tcp, ipproto_udp,
}

-- The captures agree on their first `n` bytes.
abbrev pub Agree : ℕ → (ℕ → ℕ) → (ℕ → ℕ) → Type 0
Agree n a b = (i : ℕ) → i < n → a i ≡ b i

module _ (garbage : ℤ) (caplen : ℕ) (a b : ℕ → ℕ) (agree : Agree caplen a b) where
  load_agrees : (offset n : ℕ) → offset + n ≤ caplen → load a offset n ≡ load b offset n
  unfolding load
  load_agrees offset zero le = refl
  load_agrees offset (suc n) le =
      omega (arith, agree offset, load_agrees (offset + 1) n (omega arith))

  eth_to_ts_agrees : 14 ≤ caplen → eth_to_ts a ≡ eth_to_ts b
  unfolding eth_to_ts
  eth_to_ts_agrees le = omega (arith, agree 0, agree 1, agree 2, agree 3, agree 4, agree 5)

  parse_l4_agrees :
      (t : FiveTuple) (l4_proto at : ℕ)
      → parse_l4 caplen a t l4_proto at ≡ parse_l4 caplen b t l4_proto at
  unfolding parse_l4
  parse_l4_agrees t l4_proto at = elim (Bool-cases (l4_proto == ipproto_tcp)) [
    | inl is_tcp ↦ rw is_tcp (elim (Bool-cases (ltb caplen (at + 20))) [
      | inl short ↦ rw short refl
      | inr enough ↦
          let le : at + 20 ≤ caplen = ground arith in
          rw
            (
              enough,
              load_agrees at 2 (omega arith),
              load_agrees (at + 2) 2 (omega arith),
              agree (at + 13) (omega arith),
            )
            refl
    ])
    | inr not_tcp ↦ rw not_tcp (elim (Bool-cases (l4_proto == ipproto_udp)) [
      | inr other ↦ rw other refl
      | inl is_udp ↦ rw is_udp (elim (Bool-cases (ltb caplen (at + 8))) [
        | inl short ↦ rw short refl
        | inr enough ↦
            let le : at + 8 ≤ caplen = ground arith in
            rw (enough, load_agrees at 2 (omega arith), load_agrees (at + 2) 2 (omega arith)) refl
      ])
    ])
  ]

  -- The parser reads no byte past the capture: captures that agree on the bytes that were captured are parsed alike.
  pub parse_in_bounds : parse garbage caplen a ≡ parse garbage caplen b
  unfolding parse
  parse_in_bounds = elim (Bool-cases (ltb caplen 14)) [
    | inl short ↦ rw short refl
    | inr enough ↦
        let le : 14 ≤ caplen = ground arith in
        rw (enough, load_agrees 12 2 (omega arith))
          (elim (Bool-cases (load b 12 2 == 8)) [
            | inl v4 ↦ rw v4 (elim (Bool-cases (ltb caplen 34)) [
              | inl short ↦ rw short refl
              | inr enough' ↦
                  let le' : 34 ≤ caplen = ground arith in
                  rw
                    (
                      enough',
                      load_agrees 26 4 (omega arith),
                      load_agrees 30 4 (omega arith),
                      load_agrees 10 2 (omega arith),
                      eth_to_ts_agrees le,
                      agree 23 (omega arith),
                    )
                    (parse_l4_agrees (ip_tuple garbage b ipv4 (load b 26 4) (load b 30 4)) (b 23)
                      34)
            ])
            | inr not_v4 ↦ rw not_v4 (elim (Bool-cases (load b 12 2 == 56710)) [
              | inr other ↦ rw other refl
              | inl v6 ↦ rw v6 (elim (Bool-cases (ltb caplen 54)) [
                | inl short ↦ rw short refl
                | inr enough' ↦
                    let le' : 54 ≤ caplen = ground arith in
                    rw
                      (
                        enough',
                        load_agrees 22 16 (omega arith),
                        load_agrees 38 16 (omega arith),
                        load_agrees 10 2 (omega arith),
                        eth_to_ts_agrees le,
                        agree 20 (omega arith),
                      )
                      (parse_l4_agrees (ip_tuple garbage b ipv6 (load b 22 16) (load b 38 16))
                        (b 20) 54)
              ])
            ])
          ])
  ]

-- The source port of the parsed tuple is the one that was read, with its bytes swapped.
parse_l4_source :
    (caplen : ℕ) (bytes : ℕ → ℕ) (t : FiveTuple) (l4_proto at : ℕ) (p : Parsed)
    → parse_l4 caplen bytes t l4_proto at ≡ some p
    → p.source ≡ 53
    → p.five_tuple.h.src_port ≡ 13568
unfolding parse_l4 swap_endian_16
parse_l4_source caplen bytes t l4_proto at p e is_53 = elim (Bool-cases (l4_proto == ipproto_tcp)) [
  | inl is_tcp ↦ ground arith
  | inr not_tcp ↦ ground arith
]

-- A packet that is taken for a DNS response has the source port 13568 in its five tuple: its bytes are those of port 53 in the wrong order.
pub dns_response_port :
    (garbage : ℤ) (caplen : ℕ) (bytes : ℕ → ℕ) (p : Parsed)
    → parse garbage caplen bytes ≡ some p
    → is_dns_response p ≡ true
    → p.five_tuple.h.src_port ≡ 13568
unfolding parse is_dns_response
dns_response_port garbage caplen bytes p e response = ground (
  arith,
  parse_l4_source caplen bytes (ip_tuple garbage bytes ipv4 (load bytes 26 4) (load bytes 30 4))
      (bytes 23) 34 p,
  parse_l4_source caplen bytes (ip_tuple garbage bytes ipv6 (load bytes 22 16) (load bytes 38 16))
      (bytes 20) 54 p,
)
