-- ===== src/DnsHashtable/Laws.antt =====
-- The DNS hash table as a finite map from addresses to expiry times.
use marina.Prelude.{
  ℕ, ◌<◌, ◌≡◌, ◌↔◌, inl, inr, refl, sym, ◌∙◌, true, false, arith, Option, none, some, ne→==_false,
  ==_iff, update, Returns, returns, Returns-bind, ap, Status, success, failure, Option-cases,
  Bool-cases,
}
use mathlib.Core.Path.{subst, fun_ext}
use marina.Hashtable.{Scheme, Entry, probe_loop}
use marina.Hashtable.Chain.{IsLawful, IsChained}
use marina.Hashtable.Contents.{
  occupied_count, occupied_count-update, occupied_count-free, occupied_count-congr, all_occupied,
}
use marina.Hashtable.Probe.{probe_loop_diverges}
use marina.Hashtable.Represents.{
  Represents, bind, unbind, search-some, search-none, write-IsChained, write-Represents,
  absent_of_none,
}
use marina.Hashtable.Evict.{evict_lem}
use marina.Hashtable.Overwrite.{changed-IsChained, changed-Represents, occupied-changed}
use marina.DnsHashtable.{
  DnsHashtableKey, same_key, DnsHashtable, zero_entry, dns_hashtable_init, scheme, change_at,
  dns_hashtable_add_or_change, read_at, dns_hashtable_get, no_note, remove_at, dns_hashtable_remove,
}

pub same_key_iff : (a b : DnsHashtableKey) → (same_key a b ≡ true) ↔ (a ≡ b)
unfolding same_key
same_key_iff a b = ground arith

abbrev pub known_status : Option ℕ → Status
known_status (some _) = success
known_status none = failure

module _ (murmur : DnsHashtableKey → ℕ) (size : ℕ) (pos : 0 < size) where
  abbrev pub addresses : Scheme DnsHashtableKey
  addresses = scheme murmur size

  lawful : IsLawful addresses
  lawful = record {
    positive = pos;
    same_refl = λ a. (same_key_iff a a).1 refl;
    same_symm = λ a b e. (same_key_iff b a).1 (sym ((same_key_iff a b).0 e));
    same_trans =
        λ a b c e f. (same_key_iff a c).1 ((same_key_iff a b).0 e ∙ (same_key_iff b c).0 f);
    same_hash = λ a b e. ap murmur ((same_key_iff a b).0 e);
  }

  -- The table holds the addresses of `m`.
  pub record Models (t : DnsHashtable) (m : DnsHashtableKey → Option ℕ) : Type 0 where
    pub chained : IsChained addresses t.entries
    pub counted : t.num_entries ≡ occupied_count t.entries size
    pub represents : Represents addresses t.entries m

  pub dns_hashtable_init-Models : Models dns_hashtable_init (λ _. none)
  unfolding dns_hashtable_init
  dns_hashtable_init-Models = record {
    chained = record {
      hashed = λ c hc oc. cc;
      unique = λ c d hc hd oc od e. cc;
      reach = λ c d hc hd oc near. cc;
    };
    counted = sym (occupied_count-free (λ _. zero_entry) size (λ c. refl));
    represents = λ key v. ((λ s. let (c, hc, oc, _, _) = s in cc), (λ e. cc));
  }

  module _ (t : DnsHashtable) (m : DnsHashtableKey → Option ℕ) (holds : Models t m) where
    -- `dns_hashtable_get` on a table that represents a map and is not full ends, with the time
    -- that the map has for the address, or with none if it has none.
    pub dns_hashtable_get_lem :
        (key : DnsHashtableKey)
        → t.num_entries < size
        → dns_hashtable_get murmur size t key ≡ some (m key)
    unfolding dns_hashtable_get read_at
    dns_hashtable_get_lem key room = elim (Option-cases (m key)) [
      | inl missing ↦
          let (i, e, _, _) =
            search-none addresses lawful t.entries holds.chained m holds.represents key missing
              (omega (arith, holds.counted)) in
          rw (e, missing)
      | inr (v, known) ↦
          let (j, e, _, _, _, val) =
            search-some addresses lawful t.entries holds.chained m holds.represents key v known in
          rw (e, known, val)
    ]

    -- `dns_hashtable_add_or_change` on a table that represents a map and is not full ends with
    -- success. The table then represents the map with the address taken to the new time,
    -- whether or not the map had the address.
    pub dns_hashtable_add_or_change_lem :
        (key : DnsHashtableKey) (value : ℕ)
        → t.num_entries < size
        → Returns
            (λ r. (r.0 ≡ success) × Models r.1 (bind addresses key value m))
            (dns_hashtable_add_or_change murmur size t key value)
    unfolding dns_hashtable_add_or_change change_at
    dns_hashtable_add_or_change_lem key value room = elim (Option-cases (m key)) [
      | inl missing ↦
          let (i, e, off, passed) =
            search-none addresses lawful t.entries holds.chained m holds.represents key missing
              (omega (arith, holds.counted)) in
          let entry : Entry DnsHashtableKey ℕ = record {
            key = key;
            value = value;
            hash = murmur key;
            occupied = true;
          } in
          rw (e, ne→==_false t.num_entries size (omega arith))
            (returns (
              refl,
              record {
                chained =
                    write-IsChained addresses lawful t.entries holds.chained m holds.represents
                      entry i missing refl refl off passed;
                counted =
                    ground
                      (arith, holds.counted, occupied_count-update t.entries size i entry off.0);
                represents =
                    write-Represents addresses lawful t.entries holds.chained m holds.represents
                      entry i missing refl refl off passed;
              },
            ))
      | inr (v, known) ↦
          let (j, e, hj, on, hit, val) =
            search-some addresses lawful t.entries holds.chained m holds.represents key v known in
          rw (e, ne→==_false t.num_entries size (omega arith))
            (returns (
              refl,
              record {
                chained = changed-IsChained addresses t.entries j value lawful holds.chained hj on;
                counted =
                    holds.counted
                    ∙ occupied_count-congr _ _ size
                        (λ c. sym (occupied-changed addresses t.entries j value c));
                represents =
                    subst
                      (λ k.
                        Represents addresses
                          (update t.entries j (record (t.entries j) { value = value }))
                          (bind addresses k value m))
                      ((same_key_iff (t.entries j).key key).0 hit)
                      (changed-Represents addresses t.entries j value lawful holds.chained hj on m
                        holds.represents);
              },
            ))
    ]

    -- On a full table `dns_hashtable_add_or_change` fails, also for an address that the table has, and changes nothing.
    pub dns_hashtable_add_or_change-full :
        (key : DnsHashtableKey) (value : ℕ)
        → t.num_entries ≡ size
        → dns_hashtable_add_or_change murmur size t key value ≡ some (failure, t)
    unfolding dns_hashtable_add_or_change
    dns_hashtable_add_or_change-full key value full = rw ((==_iff t.num_entries size).1 full)

    -- On a full table the search for an address that it does not have never ends: from no cell
    -- is any number of rounds enough.
    pub dns_hashtable_full_hangs :
        (key : DnsHashtableKey) (fuel i : ℕ)
        → t.num_entries ≡ size
        → m key ≡ none
        → i < size
        → probe_loop addresses fuel t.entries key (murmur key) i ≡ none
    dns_hashtable_full_hangs key fuel i full missing hi =
        probe_loop_diverges addresses t.entries key (murmur key) fuel i hi λ c hc.
          let on = all_occupied t.entries size (sym holds.counted ∙ full) c hc in
          (
            on,
            elim (Bool-cases (same_key (t.entries c).key key)) [
              | inl hit ↦ absurd (
                  absent_of_none addresses lawful t.entries holds.chained m holds.represents key
                    missing c (hc, on, hit))
              | inr other ↦ other
            ],
          )

    -- `dns_hashtable_remove` on a table that represents a map and is not full ends. The table
    -- then represents the map without the address, and the status says whether the map had it.
    pub dns_hashtable_remove_lem :
        (key : DnsHashtableKey)
        → t.num_entries < size
        → Returns
            (λ r. Models r.1 (unbind addresses key m) × (r.0 ≡ known_status (m key)))
            (dns_hashtable_remove murmur size t key)
    unfolding dns_hashtable_remove remove_at
    dns_hashtable_remove_lem key room = elim (Option-cases (m key)) [
      | inl missing ↦
          let (i, e, off, passed) =
            search-none addresses lawful t.entries holds.chained m holds.represents key missing
              (omega (arith, holds.counted)) in
          rw (e, missing)
            (returns (subst (Models t) (sym (unbind_missing key missing)) holds, refl))
      | inr (v, known) ↦
          let (j, e, hj, on, hit, val) =
            search-some addresses lawful t.entries holds.chained m holds.represents key v known in
          rw (e, known)
            (Returns-bind
              (evict_lem addresses lawful t.entries holds.chained j hj on
                (record (t.entries j) { occupied = false }) refl no_note (λ _ _. Unit {0})
                (λ _ _ _ _ _ _ _ _ _ _. tt) m tt holds.represents (omega (arith, holds.counted)) tt)
              λ r v. returns (
                record {
                  chained = v.in_order;
                  counted = omega (arith, v.counted, holds.counted);
                  represents =
                      subst (λ k. Represents addresses r.0 (unbind addresses k m))
                        ((same_key_iff (t.entries j).key key).0 hit) v.represents;
                },
                refl,
              ))
    ]
      where
        unbind_missing : (key : DnsHashtableKey) → m key ≡ none → unbind addresses key m ≡ m
        unbind_missing key missing = fun_ext λ k. elim (Bool-cases (same_key key k)) [
          | inl eq ↦ rw eq (sym missing ∙ ap m ((same_key_iff key k).0 eq))
          | inr other ↦ rw other
        ]
