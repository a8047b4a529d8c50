-- ===== src/Dataplane/MirrorSteps.antt =====
-- What adding and removing one row of a classification table makes of the rows beside the live flows.
use marina.Prelude.{
  ℕ, ◌≡◌, ◌≢◌, sym, inl, inr, Bool-cases, ◌∙◌, update_self, update_ne, arith, false, ◌==◌, ◌&&◌,
  if◌then◌else◌, update, Option, none, some,
}
use marina.DpApi.Rows.{Row}
use marina.DpApi.{Driver}
use marina.Dataplane.{Dataplane}
use marina.Dataplane.Mirror.{
  Live, proto_of, row_of, row-by, update-bound, update-none-bound, Mirrors,
}

module _ {S : Type 0} (driver : Driver S ℕ) (rows : S → ℕ → ℕ → Option Row) where
  -- A typed flow has a row.
  row-of : (l : Live) → proto_of l.five_tuple ≢ 0 → (row : Row) × (row_of l ≡ some row)
  unfolding row_of
  row-of l typed = row-by l.five_tuple.h.l3_proto l.five_tuple l.register_index typed

  -- A live flow holds its handle.
  pub held :
      (live : ℕ → Option Live) (d : Dataplane S ℕ) (g : ℕ) (l : Live)
      → Mirrors driver rows live d
      → live g ≡ some l
      → (row : Row) × (rows d.switch (proto_of l.five_tuple) (d.entry_hdls g) ≡ some row)
  held live d g l m e = let (row, r) = row-of l (m.typed g l e) in (row, m.has g l e ∙ r)

  -- A handle that is free is that of no live flow of the protocol.
  not_held :
      (live : ℕ → Option Live) (d : Dataplane S ℕ) (g handle : ℕ) (l l' : Live)
      → Mirrors driver rows live d
      → live g ≡ some l'
      → rows d.switch (proto_of l.five_tuple) handle ≡ none
      → (proto_of l'.five_tuple == proto_of l.five_tuple && d.entry_hdls g == handle) ≡ false
  not_held live d g handle l l' m e free =
      elim (Bool-cases
        (proto_of l'.five_tuple == proto_of l.five_tuple && d.entry_hdls g == handle)) [
          | inr apart ↦ apart
          | inl both ↦
              let (row, r) = held live d g l' m e in
              let code : proto_of l'.five_tuple ≡ proto_of l.five_tuple = ground (arith, both) in
              let at : d.entry_hdls g ≡ handle = ground (arith, both) in
              absurd (cc (r, free, code, at))
        ]

  -- An added flow, with a handle that was free.
  pub Mirrors-added :
      (live : ℕ → Option Live) (d d' : Dataplane S ℕ) (f handle : ℕ) (l : Live)
      → Mirrors driver rows live d
      → live f ≡ none
      → proto_of l.five_tuple ≢ 0
      → rows d.switch (proto_of l.five_tuple) handle ≡ none
      → ((p k : ℕ)
          → rows d'.switch p k
            ≡ (if p == proto_of l.five_tuple && k == handle then row_of l else rows d.switch p k))
      → ((k : ℕ) → d'.entry_hdls k ≡ (if f == k then handle else d.entry_hdls k))
      → Mirrors driver rows (update live f (some l)) d'
  Mirrors-added live d d' f handle l m absent typed free at hdl = record {
    typed = λ g l' e. elim (update-bound live f g l l' e) [
      | inl (same, it) ↦ rw (sym it) typed
      | inr (other, e') ↦ m.typed g l' e'
    ];
    has = λ g l' e. elim (update-bound live f g l l' e) [
      | inl (same, it) ↦
          rw (sym it, sym same)
            (ground (arith, at (proto_of l.five_tuple) (d'.entry_hdls f), hdl f))
      | inr (other, e') ↦ ground (
        arith,
        at (proto_of l'.five_tuple) (d'.entry_hdls g),
        hdl g,
        other,
        m.has g l' e',
        not_held live d g handle l l' m e' free,
      )
    ];
    only = λ p k row there. elim (Bool-cases (p == proto_of l.five_tuple && k == handle)) [
      | inl new ↦
          (f, l, update_self live f (some l), ground (arith, new), ground (arith, new, hdl f))
      | inr old ↦
          let (g, l', e', code, here) = m.only p k row (ground (arith, at p k, old, there)) in
          let other : f ≢ g = λ same. cc (same, absent, e') in
          (g, l', update_ne live f (some l) g other ∙ e', code, ground (arith, hdl g, other, here))
    ];
    apart = λ g g' l₁ l₂ e₁ e₂ code same. elim (update-bound live f g l l₁ e₁) [
      | inl (isf, it) ↦ elim (update-bound live f g' l l₂ e₂) [
        | inl (isf', it') ↦ cc (isf, isf')
        | inr (other', e₂') ↦ absurd (
            ground (
              arith,
              not_held live d g' handle l l₂ m e₂' free,
              hdl g,
              hdl g',
              isf,
              other',
              same,
              code,
              it,
            ))
      ]
      | inr (other, e₁') ↦ elim (update-bound live f g' l l₂ e₂) [
        | inl (isf', it') ↦ absurd (
            ground (
              arith,
              not_held live d g handle l l₁ m e₁' free,
              hdl g,
              hdl g',
              isf',
              other,
              same,
              code,
              it',
            ))
        | inr (other', e₂') ↦
            m.apart g g' l₁ l₂ e₁' e₂' code (ground (arith, hdl g, hdl g', other, other', same))
      ]
    ];
  }

  -- A removed flow, whose handle was in use.
  pub Mirrors-removed :
      (live : ℕ → Option Live) (d d' : Dataplane S ℕ) (f : ℕ) (l : Live)
      → Mirrors driver rows live d
      → live f ≡ some l
      → ((p k : ℕ)
          → rows d'.switch p k ≡ (
              if p == proto_of l.five_tuple && k == d.entry_hdls f
              then none
              else rows d.switch p k))
      → ((k : ℕ) → d'.entry_hdls k ≡ d.entry_hdls k)
      → Mirrors driver rows (update live f none) d'
  Mirrors-removed live d d' f l m present at hdl = record {
    typed = λ g l' e. m.typed g l' (update-none-bound live f g l' e).1;
    has = λ g l' e.
        let (other, e') = update-none-bound live f g l' e in
        elim (Bool-cases
          (proto_of l'.five_tuple == proto_of l.five_tuple && d.entry_hdls g == d.entry_hdls f)) [
            | inl both ↦
                absurd (
                  other (m.apart f g l l' present e' (ground (arith, both)) (ground (arith, both))))
            | inr apart ↦
                rw (hdl g) (
                  ground
                    (arith, at (proto_of l'.five_tuple) (d.entry_hdls g), apart, m.has g l' e'))
          ];
    only = λ p k row there. elim (Bool-cases (p == proto_of l.five_tuple && k == d.entry_hdls f)) [
      | inl gone ↦ absurd (ground (arith, at p k, gone, there))
      | inr old ↦
          let (g, l', e', code, here) = m.only p k row (ground (arith, at p k, old, there)) in
          let other : f ≢ g = λ same.
            let here' : d.entry_hdls f ≡ k = cc (same, here) in
            let it : l ≡ l' = cc (same, present, e') in
            let code' : proto_of l.five_tuple ≡ p = rw it code in
            ground (arith, old, here', code') in
          (g, l', update_ne live f none g other ∙ e', code, hdl g ∙ here)
    ];
    apart = λ g g' l₁ l₂ e₁ e₂ code same.
        m.apart g g' l₁ l₂ (update-none-bound live f g l₁ e₁).1
          (update-none-bound live f g' l₂ e₂).1 code (cc (hdl g, hdl g', same));
  }
