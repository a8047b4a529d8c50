-- ===== src/Hashtable/Overwrite.antt =====
-- Changing the value of an entry in its cell.
use marina.Prelude.{
  ℕ, ◌<◌, ◌≡◌, Option, some, update, update_self, update_ne, ℕ_discrete, Bool-cases, inl, inr, ap,
  ◌∙◌, sym,
}
use marina.Hashtable.{Scheme, Entry, home}
use marina.Hashtable.Chain.{IsLawful, IsOccupied, IsChained}
use marina.Hashtable.Contents.{Stores}
use marina.Hashtable.Represents.{Represents, bind}

module _ {K V : Type 0} (scheme : Scheme K) (entries : ℕ → Entry K V) (i : ℕ) (v : V) where
  open scheme use {size, hash_of, same}

  abbrev changed : ℕ → Entry K V
  changed = update entries i (record (entries i) { value = v })

  key-changed : (c : ℕ) → (changed c).key ≡ (entries c).key
  key-changed c = elim (ℕ_discrete i c) [
    | yes p ↦ rw (← p, update_self entries i (record (entries i) { value = v }))
    | no ne ↦ rw (update_ne entries i (record (entries i) { value = v }) c ne)
  ]

  hash-changed : (c : ℕ) → (changed c).hash ≡ (entries c).hash
  hash-changed c = elim (ℕ_discrete i c) [
    | yes p ↦ rw (← p, update_self entries i (record (entries i) { value = v }))
    | no ne ↦ rw (update_ne entries i (record (entries i) { value = v }) c ne)
  ]

  pub occupied-changed : (c : ℕ) → (changed c).occupied ≡ (entries c).occupied
  occupied-changed c = elim (ℕ_discrete i c) [
    | yes p ↦ rw (← p, update_self entries i (record (entries i) { value = v }))
    | no ne ↦ rw (update_ne entries i (record (entries i) { value = v }) c ne)
  ]

  home-changed : (c : ℕ) → home scheme (changed c) ≡ home scheme (entries c)
  unfolding home
  home-changed c = rw (hash-changed c)

  module _ (lawful : IsLawful scheme) (chained : IsChained scheme entries) (hi : i < size)
      (on : IsOccupied scheme entries i) where
    was_on : (c : ℕ) → IsOccupied scheme changed c → IsOccupied scheme entries c
    was_on c oc = sym (occupied-changed c) ∙ oc

    pub changed-IsChained : IsChained scheme changed
    changed-IsChained = record {
      hashed = λ c hc oc. rw (hash-changed c, key-changed c) (chained.hashed c hc (was_on c oc));
      unique = λ c d hc hd oc od eq.
          chained.unique c d hc hd (was_on c oc) (was_on d od)
            (rw (key-changed c, key-changed d) at eq);
      reach = λ c d hc hd oc near.
          occupied-changed d ∙ chained.reach c d hc hd (was_on c oc) (rw (home-changed c) at near);
    }

    pub changed-Represents :
        (m : K → Option V)
        → Represents scheme entries m
        → Represents scheme changed (bind scheme (entries i).key v m)
    changed-Represents m rep key w = (down, up)
      where
        down : Stores scheme changed key w → bind scheme (entries i).key v m key ≡ some w
        down (c, hc, oc, hit, val) = elim (Bool-cases (same (entries i).key key)) [
          | inl eq ↦
              let same_cell : c ≡ i = chained.unique c i hc hi (was_on c oc) on (
                lawful.same_trans (entries c).key key (entries i).key (rw (key-changed c) at hit)
                  (lawful.same_symm (entries i).key key eq)) in
              rw eq (
                ap some (
                  sym (
                    ap (λ (e : Entry K V). e.value)
                      (update_self entries i (record (entries i) { value = v })))
                  ∙ ap (λ k. (changed k).value) (sym same_cell)
                  ∙ val))
          | inr other ↦
              let ne : ¬ (i ≡ c) = λ p. cc (
                ap (λ k. same (entries k).key key) p,
                other,
                hit,
                ap (λ k. same k key) (key-changed c),
              ) in
              let w' = update_ne entries i (record (entries i) { value = v }) c ne in
              rw other ((rep key w).0 (c, hc, was_on c oc, rw (key-changed c) at hit, rw w' at val))
        ]

        up : bind scheme (entries i).key v m key ≡ some w → Stores scheme changed key w
        up b = elim (Bool-cases (same (entries i).key key)) [
          | inl eq ↦
              let b' : some v ≡ some w = rw eq at b in
              let at = update_self entries i (record (entries i) { value = v }) in
              (i, hi, rw at on, rw at eq, rw at (cc))
          | inr other ↦
              let (c, hc, oc, hit, val) = (rep key w).1 (rw other at b) in
              let ne : ¬ (i ≡ c) = λ p. cc (ap (λ k. same (entries k).key key) p, other, hit) in
              let w' = update_ne entries i (record (entries i) { value = v }) c ne in
              (c, hc, rw w' oc, rw w' hit, rw w' val)
        ]
