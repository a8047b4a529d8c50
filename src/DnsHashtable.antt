-- ===== src/DnsHashtable.antt =====
-- controller/datastructures/dns_hashtable.c: the table from the addresses of relevant servers to
-- the second at which their DNS entry expires. MurmurHash3 and the number of cells are parameters.
pub mod Laws
mod Tests
use marina.Prelude.{
  ℕ, ◌+◌, ◌-◌, ◌==◌, ◌&&◌, Bool, false, true, Option, none, some, ◌>>=◌, if◌then◌else◌, update,
  Status, success, failure,
}
use marina.Structs.{L3Proto, unspec, l3_code}
use marina.Hashtable.{Scheme, Entry, Slot, found, free, get_hashtable_index, shift_loop}

pub record DnsHashtableKey : Type 0 where
  pub type : L3Proto
  pub address : ℕ

-- `memcmp` of two zeroed and filled keys.
unfoldable pub same_key : DnsHashtableKey → DnsHashtableKey → Bool
unfolding l3_code
same_key a b = l3_code a.type == l3_code b.type && a.address == b.address

pub record DnsHashtable : Type 0 where
  pub num_entries : ℕ
  pub entries : ℕ → Entry DnsHashtableKey ℕ

-- What `memset` leaves.
abbrev pub zero_entry : Entry DnsHashtableKey ℕ
zero_entry = record {
  key = record { type = unspec; address = 0 };
  value = 0;
  hash = 0;
  occupied = false;
}

unfoldable pub dns_hashtable_init : DnsHashtable
dns_hashtable_init = record { num_entries = 0; entries = λ _. zero_entry }

-- This table keeps no map back to the cells.
abbrev no_note : Entry DnsHashtableKey ℕ → ℕ → Unit {0} → Unit {0}
no_note e cell notes = notes

module _ (murmur : DnsHashtableKey → ℕ) (size : ℕ) where
  abbrev pub scheme : Scheme DnsHashtableKey
  scheme = record { size = size; hash_of = murmur; same = same_key }

  unfoldable pub change_at : DnsHashtable → DnsHashtableKey → ℕ → Slot → DnsHashtable
  change_at t key value (found i) = record t {
    entries = update t.entries i (record (t.entries i) { value = value });
  }
  change_at t key value (free i) = record {
    num_entries = t.num_entries + 1;
    entries =
        update t.entries i
          (record { key = key; value = value; hash = murmur key; occupied = true });
  }

  unfoldable pub dns_hashtable_add_or_change :
      DnsHashtable → DnsHashtableKey → ℕ → Option (Status × DnsHashtable)
  dns_hashtable_add_or_change t key value =
      let search = get_hashtable_index scheme t.entries key (murmur key) >>= λ slot.
      some (success, change_at t key value slot) in
      if t.num_entries == size then some (failure, t) else search

  read_at : DnsHashtable → Slot → Option ℕ
  read_at t (found i) = some (t.entries i).value
  read_at t (free i) = none

  -- The inner `none` is the return value 1.
  pub dns_hashtable_get : DnsHashtable → DnsHashtableKey → Option (Option ℕ)
  dns_hashtable_get t key =
      get_hashtable_index scheme t.entries key (murmur key) >>= λ slot. some (read_at t slot)

  remove_at : DnsHashtable → Slot → Option (Status × DnsHashtable)
  remove_at t (free i) = some (failure, t)
  remove_at t (found i) =
      shift_loop scheme no_note size
        (update t.entries i (record (t.entries i) { occupied = false })) tt i i
      >>= λ (entries, _).
          some (success, record { num_entries = t.num_entries - 1; entries = entries })

  pub dns_hashtable_remove : DnsHashtable → DnsHashtableKey → Option (Status × DnsHashtable)
  dns_hashtable_remove t key = get_hashtable_index scheme t.entries key (murmur key) >>= remove_at t
