-- ===== src/DnsHashtable/Tests.antt =====
-- A table of four cells with one server, and one of a single cell that the server fills.
use marina.Prelude.{
  ℕ, ◌+◌, ◌<◌, ◌≡◌, refl, Option, none, arith, result_or, Returns, Returns-result, success, failure,
}
use marina.Structs.{l3_code, ipv4}
use marina.Hashtable.{probe_loop, get_hashtable_index}
use marina.Hashtable.Represents.{bind, unbind}
use marina.DnsHashtable.{
  change_at, DnsHashtableKey, DnsHashtable, same_key, dns_hashtable_init, scheme,
  dns_hashtable_add_or_change, dns_hashtable_remove,
}
use marina.DnsHashtable.Laws.{
  Models, known_status, dns_hashtable_init-Models, dns_hashtable_add_or_change_lem,
  dns_hashtable_full_hangs, dns_hashtable_remove_lem,
}

abbrev hash : DnsHashtableKey → ℕ
hash k = l3_code k.type + k.address

abbrev server : ℕ → DnsHashtableKey
server address = record { type = ipv4; address = address }

abbrev no_servers : DnsHashtableKey → Option ℕ
no_servers _ = none

abbrev one_known : ℕ → DnsHashtableKey → Option ℕ
one_known size = bind (scheme hash size) (server 5) 60 no_servers

abbrev one_server : ℕ → DnsHashtable
one_server size =
    (result_or (failure, dns_hashtable_init)
      (dns_hashtable_add_or_change hash size dns_hashtable_init (server 5) 60)).1

module _ (size : ℕ) (pos : 0 < size) where
  one_added :
      Returns
        (λ r. (r.0 ≡ success) × Models hash size pos r.1 (one_known size))
        (dns_hashtable_add_or_change hash size dns_hashtable_init (server 5) 60)
  unfolding dns_hashtable_init
  one_added =
      dns_hashtable_add_or_change_lem hash size pos dns_hashtable_init no_servers
        (dns_hashtable_init-Models hash size pos) (server 5) 60 pos

  one_Models : Models hash size pos (one_server size) (one_known size)
  one_Models = (Returns-result (failure, dns_hashtable_init) one_added).1

four : 0 < 4
four = omega arith

one : 0 < 1
one = omega arith

one_room : (one_server 4).num_entries < 4
unfolding dns_hashtable_init dns_hashtable_add_or_change change_at probe_loop get_hashtable_index
one_room = omega arith

one_full : (one_server 1).num_entries ≡ 1
unfolding dns_hashtable_init dns_hashtable_add_or_change change_at probe_loop get_hashtable_index
one_full = refl

unknown_server : one_known 1 (server 6) ≡ none
unfolding same_key
unknown_server = refl

dns_hashtable_add_or_change_example :
    Returns
      (λ r.
        (r.0 ≡ success) × Models hash 4 four r.1 (bind (scheme hash 4) (server 5) 90 (one_known 4)))
      (dns_hashtable_add_or_change hash 4 (one_server 4) (server 5) 90)
dns_hashtable_add_or_change_example =
    dns_hashtable_add_or_change_lem hash 4 four (one_server 4) (one_known 4) (one_Models 4 four)
      (server 5) 90 one_room

dns_hashtable_full_hangs_example :
    probe_loop (scheme hash 1) 1000 (one_server 1).entries (server 6) (hash (server 6)) 0 ≡ none
dns_hashtable_full_hangs_example =
    dns_hashtable_full_hangs hash 1 one (one_server 1) (one_known 1) (one_Models 1 one) (server 6)
      1000 0 one_full unknown_server one

dns_hashtable_remove_example :
    Returns
      (λ r.
        Models hash 4 four r.1 (unbind (scheme hash 4) (server 5) (one_known 4))
        × (r.0 ≡ known_status (one_known 4 (server 5))))
      (dns_hashtable_remove hash 4 (one_server 4) (server 5))
dns_hashtable_remove_example =
    dns_hashtable_remove_lem hash 4 four (one_server 4) (one_known 4) (one_Models 4 four) (server 5)
      one_room
