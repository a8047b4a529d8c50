-- ===== src/DnsDb/Tests.antt =====
-- A response with one address, for the relevant name "ab".
use marina.Prelude.{ℕ, ◌<◌, ◌≡◌, refl, true, arith, none, some, [], ◌∷◌, Returns}
use marina.DnsHashtable.{DnsHashtableKey, dns_hashtable_init}
use marina.DnsHashtable.Laws.{dns_hashtable_init-Models}
use marina.Commands.{dns_add_pkt}
use marina.DnsDb.{DnsDb, Rr, Resolver, execute, is_relevant, ends_with, starts_with, skip}
use marina.DnsDb.Types.{Untyped, execute_keeps_Untyped}

abbrev answer : Rr
answer = record { type = 1; name = 99 ∷ 97 ∷ 98 ∷ []; rdata = 5; ttl = 60 }

abbrev resolver : Resolver
resolver pkt = some (some answer ∷ none ∷ [])

abbrev fresh : DnsDb
fresh = record { table = dns_hashtable_init; pipe = [] }

abbrev hash : DnsHashtableKey → ℕ
hash key = key.address

name_is_relevant : is_relevant ((97 ∷ 98 ∷ []) ∷ []) answer.name ≡ true
unfolding is_relevant ends_with starts_with skip
name_is_relevant = refl

pos_size : 0 < 4
pos_size = omega arith

room : dns_hashtable_init.num_entries < 4
unfolding dns_hashtable_init
room = omega arith

fresh_Untyped : Untyped hash 4 pos_size dns_hashtable_init
fresh_Untyped = (λ _. none, dns_hashtable_init-Models hash 4 pos_size, λ key v e. cc)

execute_keeps_Untyped_example :
    Returns
      (λ db'. Untyped hash 4 pos_size db'.table)
      (execute hash 4 ((97 ∷ 98 ∷ []) ∷ []) resolver fresh 100 (dns_add_pkt (1 ∷ [])))
execute_keeps_Untyped_example =
    execute_keeps_Untyped hash 4 pos_size ((97 ∷ 98 ∷ []) ∷ []) resolver fresh 100
      (dns_add_pkt (1 ∷ [])) fresh_Untyped room
