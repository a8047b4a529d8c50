-- ===== src/Hashtable/Chain.antt =====
-- What a hash table keeps true of its cells.
use marina.Prelude.{ℕ, ◌<◌, ◌≡◌, true, false}
use marina.Hashtable.{Scheme, Entry, home, dist}

-- What is asked of the test of keys and of the hash: keys that the test takes to be the same have
-- the same hash.
pub record IsLawful {K : Type 0} (scheme : Scheme K) : Type 0 where
  pub positive : 0 < scheme.size
  pub same_refl : (a : K) → scheme.same a a ≡ true
  pub same_symm : (a b : K) → scheme.same a b ≡ true → scheme.same b a ≡ true
  pub same_trans :
      (a b c : K) → scheme.same a b ≡ true → scheme.same b c ≡ true → scheme.same a c ≡ true
  pub same_hash : (a b : K) → scheme.same a b ≡ true → scheme.hash_of a ≡ scheme.hash_of b

module _ {K V : Type 0} (scheme : Scheme K) (entries : ℕ → Entry K V) where
  open scheme use {size, hash_of, same}

  abbrev pub IsOccupied : ℕ → Type 0
  IsOccupied c = (entries c).occupied ≡ true

  abbrev pub IsFree : ℕ → Type 0
  IsFree c = (c < size) × ((entries c).occupied ≡ false)

  -- The cell `c` holds an entry with the key.
  abbrev pub IsAt : K → ℕ → Type 0
  IsAt key c = (c < size) × IsOccupied c × (same (entries c).key key ≡ true)

  pub record IsChained : Type 0 where
    pub hashed : (c : ℕ) → c < size → IsOccupied c → (entries c).hash ≡ hash_of (entries c).key
    -- A key is in one cell at most.
    pub unique :
        (c d : ℕ)
        → c < size
        → d < size
        → IsOccupied c
        → IsOccupied d
        → same (entries c).key (entries d).key ≡ true
        → c ≡ d
    -- No cell between the home of an entry and its cell is free.
    pub reach :
        (c d : ℕ)
        → c < size
        → d < size
        → IsOccupied c
        → dist size (home scheme (entries c)) d < dist size (home scheme (entries c)) c
        → IsOccupied d
