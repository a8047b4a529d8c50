-- ===== src/Hashtable/Uses.antt =====
-- Which values a hash table with a map back from values to cells uses.
use marina.Prelude.{
  ℕ, ◌⊎◌, ◌+◌, ◌≡◌, ◌≢◌, refl, sym, ◌∙◌, ap, true, arith, Option, none, some, if◌then◌else◌, ◌==◌,
  ==_iff, ne→==_false, ℕ_discrete, Option-cases, inl, inr, Bool-cases,
}
use marina.Hashtable.{Scheme, Entry}
use marina.Hashtable.Chain.{IsLawful}
use marina.Hashtable.Represents.{Represents, bind, unbind}
use marina.Hashtable.Indexed.{IsIndexed}

abbrev pub uses_of : Option ℕ → ℕ
uses_of none = 0
uses_of (some i) = 1

module _ {K : Type 0} (scheme : Scheme K) (lawful : IsLawful scheme) where
  open scheme use {size, same}

  -- The cells hold the map `m`, and `notes` leads back to them.
  pub record Holds (m : K → Option ℕ) (entries : ℕ → Entry K ℕ) (notes : ℕ → Option ℕ)
      : Type 0 where
    pub represents : Represents scheme entries m
    pub indexed : IsIndexed scheme entries notes

  module _ (m : K → Option ℕ) {entries : ℕ → Entry K ℕ} {notes : ℕ → Option ℕ}
      (holds : Holds m entries notes) where
    used_key : (x i : ℕ) → notes x ≡ some i → (key : K) × (m key ≡ some x)
    used_key x i used =
        let (hi, on, val) = holds.indexed.points x i used in
        (
          (entries i).key,
          (holds.represents (entries i).key x).0 (i, hi, on, lawful.same_refl (entries i).key, val),
        )

    pub key_used : (x : ℕ) (key : K) → m key ≡ some x → uses_of (notes x) ≡ 1
    key_used x key known =
        let (c, hc, oc, _, val) = (holds.represents key x).1 known in
        rw (sym val, holds.indexed.noted c hc oc) refl

    -- No two keys have the same value.
    one_value : (x : ℕ) (k k' : K) → m k ≡ some x → m k' ≡ some x → same k k' ≡ true
    one_value x k k' a b =
        let (c, hc, oc, hit, val) = (holds.represents k x).1 a in
        let (d, hd, od, hit', val') = (holds.represents k' x).1 b in
        let same_cell : some c ≡ some d =
          sym (holds.indexed.noted c hc oc)
          ∙ ap notes (val ∙ sym val')
          ∙ holds.indexed.noted d hd od in
        let here : d ≡ c = cc same_cell in
        lawful.same_trans k (entries c).key k' (lawful.same_symm (entries c).key k hit)
          (ap (λ o. same (entries o).key k') (sym here) ∙ hit')

    -- A value is in use exactly if a key has it.
    uses_cases :
        (x : ℕ)
        → ((uses_of (notes x) ≡ 0) × ((key : K) → m key ≢ some x))
          ⊎ ((uses_of (notes x) ≡ 1) × ((key : K) × (m key ≡ some x)))
    uses_cases x = elim (Option-cases (notes x)) [
      | inl unused ↦
          inl (ap uses_of unused, λ key known. cc (key_used x key known, ap uses_of unused))
      | inr (i, used) ↦ inr (ap uses_of used, used_key x i used)
    ]

    -- Keys that are the same to the table have the same value.
    same_value : (x : ℕ) (key k : K) → same key k ≡ true → m k ≡ some x → m key ≡ some x
    same_value x key k eq known =
        let (c, hc, oc, hit, val) = (holds.represents k x).1 known in
        (holds.represents key x).0
          (c, hc, oc, lawful.same_trans (entries c).key k key hit (lawful.same_symm key k eq), val)

  module _ (m : K → Option ℕ) {entries : ℕ → Entry K ℕ} {notes : ℕ → Option ℕ}
      (holds : Holds m entries notes) where
    -- Adding an entry takes one value into use.
    pub uses-add :
        {entries' : ℕ → Entry K ℕ} {notes' : ℕ → Option ℕ} (key : K) (v : ℕ)
        → m key ≡ none
        → notes v ≡ none
        → Holds (bind scheme key v m) entries' notes'
        → (x : ℕ) → uses_of (notes' x) ≡ uses_of (notes x) + (if v == x then 1 else 0)
    uses-add {entries'} {notes'} key v missing unused holds' x =
        let m' = bind scheme key v m in
        elim (ℕ_discrete v x) [
          | yes e ↦
              let now : uses_of (notes' v) ≡ 1 =
                key_used m' holds' v key (rw (lawful.same_refl key) refl) in
              rw ((==_iff v x).1 e, sym e) (now ∙ ap (λ o. uses_of o + 1) (sym unused))
          | no ne ↦ rw (ne→==_false v x ne) (elim (uses_cases m holds x) [
            | inr (before, (k, known)) ↦ elim (Bool-cases (same key k)) [
              | inl eq ↦ cc (same_value m holds x key k eq known, missing)
              | inr other ↦ ground (arith, before, key_used m' holds' x k (rw other known))
            ]
            | inl (before, none_has) ↦ elim (uses_cases m' holds' x) [
              | inl (now, _) ↦ omega (arith, now, before)
              | inr (now, (k, known)) ↦ elim (Bool-cases (same key k)) [
                | inl eq ↦ let e : some v ≡ some x = rw eq at known in absurd (ne (cc e))
                | inr other ↦ absurd (none_has k (rw other at known))
              ]
            ]
          ])
        ]

    -- Removing an entry frees its value.
    pub uses-remove :
        {entries' : ℕ → Entry K ℕ} {notes' : ℕ → Option ℕ} (key : K) (v : ℕ)
        → m key ≡ some v
        → Holds (unbind scheme key m) entries' notes'
        → (x : ℕ) → uses_of (notes' x) + (if v == x then 1 else 0) ≡ uses_of (notes x)
    uses-remove {entries'} {notes'} key v had holds' x =
        let m' = unbind scheme key m in
        elim (uses_cases m' holds' x) [
          | inr (now, (k, known)) ↦ elim (Bool-cases (same key k)) [
            | inl eq ↦ let e : none ≡ some x = rw eq at known in cc e
            | inr other ↦
                let known' : m k ≡ some x = rw other at known in
                let ne : v ≢ x =
                  λ e. cc (one_value m holds x key k (had ∙ ap some e) known', other) in
                rw (ne→==_false v x ne) (omega (arith, now, key_used m holds x k known'))
          ]
          | inl (now, none_has) ↦ elim (ℕ_discrete v x) [
            | yes e ↦
                rw ((==_iff v x).1 e) (omega (arith, now, key_used m holds x key (had ∙ ap some e)))
            | no ne ↦ rw (ne→==_false v x ne) (elim (uses_cases m holds x) [
              | inl (before, _) ↦ omega (arith, now, before)
              | inr (before, (k, known)) ↦ elim (Bool-cases (same key k)) [
                | inl eq ↦
                    let e : some v ≡ some x = sym had ∙ same_value m holds x key k eq known in
                    absurd (ne (cc e))
                | inr other ↦ absurd (none_has k (rw other known))
              ]
            ])
          ]
        ]
