-- ===== src/DnsDb.antt =====
-- controller/dns_db/dns_db.c: from DNS responses to the table of relevant servers. The resolver
-- library is a parameter: what `ns_initparse` makes of a packet, and what `ns_parserr` gives for each
-- record of the answer section. `now` is the clock, and the pipe is the list of what was written.
pub mod Types
mod Tests
use marina.Prelude.{
  ℕ, zero, suc, ◌+◌, ◌-◌, ◌==◌, leb, ◌&&◌, ◌||◌, Bool, true, false, Option, none, some, ◌>>=◌,
  if◌then◌else◌, List, [], ◌∷◌, ◌++◌, length, Status,
}
use marina.Structs.{unspec}
use marina.Commands.{DnsItem, dns_add_pkt, dns_remove_ip}
use marina.DnsHashtable.{
  DnsHashtable, DnsHashtableKey, dns_hashtable_add_or_change, dns_hashtable_remove,
}

-- `ns_rr`: the type, the name, the address in its data, and the time to live.
pub record Rr : Type 0 where
  pub type : ℕ
  pub name : List ℕ
  pub rdata : ℕ
  pub ttl : ℕ

abbrev pub ns_t_a : ℕ
ns_t_a = 1

abbrev pub ns_t_aaaa : ℕ
ns_t_aaaa = 28

-- A line of the pipe.
pub record Export : Type 0 where
  pub type : ℕ
  pub address : ℕ
  pub ttl : ℕ

pub record DnsDb : Type 0 where
  pub table : DnsHashtable
  pub pipe : List Export

unfoldable pub skip : ℕ → List ℕ → List ℕ
skip zero xs = xs
skip (suc n) [] = []
skip (suc n) (x ∷ xs) = skip n xs

-- `strncmp` of the first `length entry` characters.
unfoldable pub starts_with : List ℕ → List ℕ → Bool
starts_with [] xs = true
starts_with (e ∷ entry) [] = false
starts_with (e ∷ entry) (x ∷ xs) = e == x && starts_with entry xs

unfoldable pub ends_with : List ℕ → List ℕ → Bool
ends_with entry name =
    leb (length entry) (length name) && starts_with entry (skip (length name - length entry) name)

-- The loop over `RELEVANT_DOMAIN_NAMES`: whether an entry matches.
unfoldable pub is_relevant : List (List ℕ) → List ℕ → Bool
is_relevant [] name = false
is_relevant (entry ∷ rest) name = ends_with entry name || is_relevant rest name

unfoldable pub has_address : Rr → Bool
has_address rr = rr.type == ns_t_a || rr.type == ns_t_aaaa

-- The key of the first match: it is zeroed, and only its address is written.
unfoldable pub key_of : Rr → DnsHashtableKey
key_of rr = record { type = unspec; address = rr.rdata }

-- What `ns_initparse` and `ns_parserr` give: `none` is a failure.
abbrev pub Resolver : Type 0
Resolver = List ℕ → Option (List (Option Rr))

module _ (murmur : DnsHashtableKey → ℕ) (size : ℕ) (relevant : List (List ℕ))
    (resolver : Resolver) where
  unfoldable pub insert : DnsDb → ℕ → Rr → Option DnsDb
  insert db now rr =
      dns_hashtable_add_or_change murmur size db.table (key_of rr) (now + rr.ttl) >>= λ (_, table).
      some (record {
        table = table;
        pipe = db.pipe ++ record { type = rr.type; address = rr.rdata; ttl = rr.ttl } ∷ [];
      })

  -- The loop over the answer section.
  pub parse_answers : DnsDb → ℕ → List (Option Rr) → Option DnsDb
  parse_answers db now [] = some db
  parse_answers db now (none ∷ rest) = some db
  parse_answers db now (some rr ∷ rest) =
      let later = parse_answers db now rest in
      if has_address rr && is_relevant relevant rr.name then insert db now rr else later

  unfoldable pub parse_answered : DnsDb → ℕ → Option (List (Option Rr)) → Option DnsDb
  parse_answered db now none = some db
  parse_answered db now (some answers) = parse_answers db now answers

  pub parse_dns_packet : DnsDb → ℕ → List ℕ → Option DnsDb
  parse_dns_packet db now pkt = parse_answered db now (resolver pkt)

  -- A round of `dns_db_thread`.
  pub execute : DnsDb → ℕ → DnsItem → Option DnsDb
  execute db now (dns_add_pkt pkt) = parse_dns_packet db now pkt
  execute db now (dns_remove_ip address) =
      dns_hashtable_remove murmur size db.table address >>= λ (_, table).
      some (record db { table = table })
