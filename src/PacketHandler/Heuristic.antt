-- ===== src/PacketHandler/Heuristic.antt =====
-- Which flows the heuristic takes to be relevant.
use marina.Prelude.{
  ℕ, ◌<◌, ◌≡◌, ◌≢◌, refl, sym, ◌∙◌, ltb, not, ◌||◌, Bool, false, Bool-cases, inl, inr, Option, none,
  some, Option-cases, Returns, returns,
}
use marina.Structs.{FiveTuple, L3Proto, unspec, ipv4, ipv6}
use marina.DnsHashtable.{DnsHashtableKey, dns_hashtable_get}
use marina.DnsHashtable.Laws.{Models, dns_hashtable_get_lem}
use marina.PacketHandler.{
  Setting, Handler, src_key, dst_key, judge, examine, heuristic, send_dns_item,
  to_dns_hashtable_key,
}

-- Whether an entry has not expired.
abbrev pub is_fresh : ℕ → Option ℕ → Bool
is_fresh now none = false
is_fresh now (some timeout) = not (ltb timeout now)

type_of : (address : ℕ) (l3 : L3Proto) → (to_dns_hashtable_key address l3).type ≡ l3
unfolding to_dns_hashtable_key
type_of address unspec = refl
type_of address ipv4 = refl
type_of address ipv6 = refl

module _ (g : Setting) (pos : 0 < g.dns_table_size) (now : ℕ) where
  open g use {murmur_dns, dns_table_size}

  judge_lem :
      (s : Handler) (key : DnsHashtableKey) (v : Option ℕ)
      → ((judge g now s key v).0 ≡ is_fresh now v)
        × ((judge g now s key v).1.dns ≡ s.dns)
        × ((judge g now s key v).1.flows ≡ s.flows)
        × ((judge g now s key v).1.packet_ring ≡ s.packet_ring)
  unfolding judge send_dns_item
  judge_lem s key none = (refl, refl, refl, refl)
  judge_lem s key (some timeout) = elim (Bool-cases (ltb timeout now)) [
    | inl old ↦ rw old (refl, refl, refl, refl)
    | inr new ↦ rw new (refl, refl, refl, refl)
  ]

  -- What the heuristic says of a flow, and what it leaves alone.
  pub record Judged (d : DnsHashtableKey → Option ℕ) (t : FiveTuple) (s : Handler)
      (r : Bool × Handler) : Type 0 where
    pub verdict : r.0 ≡ (is_fresh now (d (src_key t)) || is_fresh now (d (dst_key t)))
    pub tables : (r.1.flows ≡ s.flows) × (r.1.dns ≡ s.dns)
    pub packets : r.1.packet_ring ≡ s.packet_ring

  -- If the DNS table represents a map and is not full, `heuristic` ends, and takes a flow to be relevant exactly if the map has an entry for one of its two addresses that has not expired. It changes neither table and sends no packet message.
  pub heuristic_lem :
      (s : Handler) (d : DnsHashtableKey → Option ℕ) (t : FiveTuple)
      → Models murmur_dns dns_table_size pos s.dns d
      → s.dns.num_entries < dns_table_size
      → Returns (Judged d t s) (heuristic g now s t)
  unfolding heuristic examine
  heuristic_lem s d t models room =
      let first = judge_lem s (src_key t) (d (src_key t)) in
      let s' = (judge g now s (src_key t) (d (src_key t))).1 in
      let second = judge_lem s' (dst_key t) (d (dst_key t)) in
      rw (dns_hashtable_get_lem murmur_dns dns_table_size pos s.dns d models (src_key t) room)
        (elim (Bool-cases (is_fresh now (d (src_key t)))) [
          | inl fresh ↦
              rw (first.0, fresh)
                (returns (record {
                  verdict = rw fresh refl;
                  tables = (first.2, first.1);
                  packets = first.3;
                }))
          | inr old ↦
              let lookup : dns_hashtable_get murmur_dns dns_table_size s'.dns (dst_key t)
                  ≡ some (d (dst_key t)) =
                rw first.1 (
                  dns_hashtable_get_lem murmur_dns dns_table_size pos s.dns d models (dst_key t)
                    room) in
              rw (first.0, old, lookup)
                (returns (record {
                  verdict = rw old second.0;
                  tables = (second.2 ∙ first.2, second.1 ∙ first.1);
                  packets = second.3 ∙ first.3;
                }))
        ])

  -- The heuristic takes no flow of IPv4 or IPv6 to be relevant while all entries of the DNS table are stored without a protocol.
  pub heuristic_needs_type :
      (s : Handler) (d : DnsHashtableKey → Option ℕ) (t : FiveTuple)
      → Models murmur_dns dns_table_size pos s.dns d
      → s.dns.num_entries < dns_table_size
      → ((key : DnsHashtableKey) (v : ℕ) → d key ≡ some v → key.type ≡ unspec)
      → t.h.l3_proto ≢ unspec
      → heuristic g now s t ≡ some (false, s)
  unfolding heuristic examine judge
  heuristic_needs_type s d t models room untyped typed =
      let typed_key : (address : ℕ) → d (to_dns_hashtable_key address t.h.l3_proto) ≡ none =
        λ address.
          let key = to_dns_hashtable_key address t.h.l3_proto in
          elim (Option-cases (d key)) [
            | inl missing ↦ missing
            | inr (v, known) ↦
                absurd (typed (sym (type_of address t.h.l3_proto) ∙ untyped key v known))
          ] in
      rw
        (
          dns_hashtable_get_lem murmur_dns dns_table_size pos s.dns d models (src_key t) room,
          typed_key t.h.src_addr,
          dns_hashtable_get_lem murmur_dns dns_table_size pos s.dns d models (dst_key t) room,
          typed_key t.h.dst_addr,
        )
        refl
