-- ===== src/DnsDb/Types.antt =====
-- controller/dns_db/dns_db.c: the protocol of the entries that the DNS thread stores.
use marina.Prelude.{
  ℕ, ◌+◌, ◌<◌, ◌≡◌, sym, ap, ◌&&◌, Bool-cases, inl, inr, Option, none, some, List, [], ◌∷◌, Returns,
  returns, Returns-bind,
}
use marina.Structs.{unspec}
use marina.Commands.{DnsItem, dns_add_pkt, dns_remove_ip}
use marina.DnsHashtable.{DnsHashtable, DnsHashtableKey, same_key}
use marina.DnsHashtable.Laws.{
  Models, same_key_iff, dns_hashtable_add_or_change_lem, dns_hashtable_remove_lem,
}
use marina.DnsDb.{
  DnsDb, Rr, Resolver, has_address, is_relevant, key_of, insert, parse_answers, parse_answered,
  parse_dns_packet, execute,
}

module _ (murmur : DnsHashtableKey → ℕ) (size : ℕ) (pos : 0 < size) where
  -- The table represents a map all of whose keys have no protocol.
  abbrev pub Untyped : DnsHashtable → Type 0
  Untyped t =
      (d : DnsHashtableKey → Option ℕ) × Models murmur size pos t d
      × ((key : DnsHashtableKey) (v : ℕ) → d key ≡ some v → key.type ≡ unspec)

module _ (murmur : DnsHashtableKey → ℕ) (size : ℕ) (pos : 0 < size) (relevant : List (List ℕ))
    (resolver : Resolver) where
  abbrev Good : DnsDb → Type 0
  Good db = Untyped murmur size pos db.table

  insert_lem :
      (db : DnsDb) (now : ℕ) (rr : Rr)
      → Good db
      → db.table.num_entries < size
      → Returns Good (insert murmur size relevant resolver db now rr)
  unfolding insert key_of
  insert_lem db now rr (d, models, untyped) room =
      Returns-bind
        (dns_hashtable_add_or_change_lem murmur size pos db.table d models (key_of rr)
          (now + rr.ttl) room)
        λ (status, table) (_, models'). returns (
          _,
          models',
          λ key v known. elim (Bool-cases (same_key (key_of rr) key)) [
            | inl same ↦
                ap (λ (k : DnsHashtableKey). k.type) (sym ((same_key_iff (key_of rr) key).0 same))
            | inr other ↦ untyped key v (rw other at known)
          ],
        )

  parse_answers_lem :
      (db : DnsDb) (now : ℕ) (answers : List (Option Rr))
      → Good db
      → db.table.num_entries < size
      → Returns Good (parse_answers murmur size relevant resolver db now answers)
  unfolding parse_answers
  parse_answers_lem db now [] good room = returns good
  parse_answers_lem db now (none ∷ rest) good room = returns good
  parse_answers_lem db now (some rr ∷ rest) good room =
      elim (Bool-cases (has_address rr && is_relevant relevant rr.name)) [
        | inl hit ↦ rw hit (insert_lem db now rr good room)
        | inr miss ↦ rw miss (parse_answers_lem db now rest good room)
      ]

  parse_answered_lem :
      (db : DnsDb) (now : ℕ) (answers : Option (List (Option Rr)))
      → Good db
      → db.table.num_entries < size
      → Returns Good (parse_answered murmur size relevant resolver db now answers)
  unfolding parse_answered
  parse_answered_lem db now none good room = returns good
  parse_answered_lem db now (some answers) good room = parse_answers_lem db now answers good room

  -- Whatever the resolver library makes of the packets, every message that the DNS thread handles on a table that is not full ends, and leaves a table of entries without a protocol, if all entries had none before.
  pub execute_keeps_Untyped :
      (db : DnsDb) (now : ℕ) (item : DnsItem)
      → Untyped murmur size pos db.table
      → db.table.num_entries < size
      → Returns
          (λ db'. Untyped murmur size pos db'.table)
          (execute murmur size relevant resolver db now item)
  unfolding execute parse_dns_packet
  execute_keeps_Untyped db now (dns_add_pkt pkt) good room =
      parse_answered_lem db now (resolver pkt) good room
  execute_keeps_Untyped db now (dns_remove_ip address) (d, models, untyped) room =
      Returns-bind (dns_hashtable_remove_lem murmur size pos db.table d models address room)
        λ (status, table) (models', _). returns (
          _,
          models',
          λ key v known. elim (Bool-cases (same_key address key)) [
            | inl same ↦ let e : none ≡ some v = rw same at known in cc e
            | inr other ↦ untyped key v (rw other at known)
          ],
        )
