-- ===== src/Export/Exports.antt =====
-- controller/export/export_features.c: when the thread exports, and what its file is like.
use marina.Prelude.{
  ℕ, ◌+◌, ◌-◌, ◌*◌, ◌<◌, ◌≤◌, ◌≡◌, refl, ap, sym, arith, Bool, true, false, List, [], ◌∷◌, length,
  Bool-cases, length-append, inl, inr, ◌↔◌, ◌∙◌,
}
use mathlib.Core.List.{Memᴰ}
use mathlib.Core.List.Memᴰ.{head, tail, cases_cons, append_cases}
use marina.Features.{min_session_id}
use marina.Features.Registers.{RegisterDriver, features}
use marina.Export.{Field, Timespec, is_due, print_flow_data}
use marina.Export.Rows.{flow_line-shorter, line_of_cell}
use marina.Export.Thread.{
  Written, Turn, ExportThread, export, turn, written, store_after, printed_features,
  feature_export_thread,
}

unfoldable pub nanoseconds : Timespec → ℕ
nanoseconds t = t.tv_sec * 1000000000 + t.tv_nsec

due_apart :
    (now last : Timespec) → is_due now last ≡ true → nanoseconds last + 1000000000 ≤ nanoseconds now
unfolding is_due nanoseconds
due_apart now last due = ground arith

is_due_iff :
    (now last : Timespec)
    → (is_due now last ≡ true) ↔ ((last.tv_sec < now.tv_sec) × (last.tv_nsec ≤ now.tv_nsec))
unfolding is_due
is_due_iff now last = (λ due. (ground arith, ground arith), λ (sec, nsec). ground arith)

-- A file whose lines have one field less than their header.
unfoldable pub AllShorter : List Written → Type 0
AllShorter file =
    (w : Written)
    → Memᴰ w file
    → (line : List Field) → Memᴰ line w.lines
    → length line + 1 ≡ length w.header

module _ {S : Type 0} (driver : RegisterDriver S) (debug : Bool) (on_egress : ℕ → Bool)
    (ring_size feature_size : ℕ) where
  turn_rate :
      (t : Turn S) (thread : ExportThread S)
      → let after = turn driver debug on_egress ring_size feature_size t thread in
        nanoseconds thread.last + length after.file * 1000000000
        ≤ nanoseconds after.last + length thread.file * 1000000000
  unfolding turn export
  turn_rate t thread = elim (Bool-cases (is_due t.now thread.last)) [
    | inl due ↦ rw due (
        rw
          (length-append thread.file
            (written driver debug on_egress ring_size feature_size t thread ∷ []))
          (omega (arith, due_apart t.now thread.last due)))
    | inr not_due ↦ rw not_due (omega arith)
  ]

  -- From one state of the thread to a later one, at least a second of the clock has passed for
  -- each export, whatever the clock shows and whatever the other threads do.
  pub export_rate :
      (turns : List (Turn S)) (thread : ExportThread S)
      → let after =
          feature_export_thread driver debug on_egress ring_size feature_size turns thread in
        nanoseconds thread.last + length after.file * 1000000000
        ≤ nanoseconds after.last + length thread.file * 1000000000
  unfolding feature_export_thread
  export_rate [] thread = omega arith
  export_rate (t ∷ rest) thread = omega (
    arith,
    turn_rate t thread,
    export_rate rest (turn driver debug on_egress ring_size feature_size t thread),
  )

  last_line :
      (t : Turn S) (thread : ExportThread S) (line : List Field)
      → let w = written driver debug on_egress ring_size feature_size t thread in
        Memᴰ line w.lines → length line + 1 ≡ length w.header
  unfolding written print_flow_data
  last_line t thread line m =
      let printed =
        printed_features on_egress 0 features
          (store_after driver debug on_egress ring_size feature_size t thread) in
      let (x, c, known, e) =
        line_of_cell debug printed t.session_hashtable (feature_size - min_session_id)
          min_session_id line m in
      rw e (flow_line-shorter debug printed t.session_hashtable (t.session_hashtable.entries c))

  turn-AllShorter :
      (t : Turn S) (thread : ExportThread S)
      → AllShorter thread.file
      → AllShorter (turn driver debug on_egress ring_size feature_size t thread).file
  unfolding turn export AllShorter
  turn-AllShorter t thread before w m line n = elim (Bool-cases (is_due t.now thread.last)) [
    | inl due ↦ elim (append_cases thread.file (rw due at m)) [
      | inl old ↦ before w old line n
      | inr new ↦ elim (cases_cons new) [
        | inl e ↦ rw e (last_line t thread line (rw e at n))
        | inr none ↦ elim none [ ]
      ]
    ]
    | inr not_due ↦ before w (rw not_due at m) line n
  ]

  -- Whatever the clock shows and the other threads do, every line that the thread writes has one
  -- field less than the header of its export, if this holds of what the file has already.
  pub feature_export_thread-AllShorter :
      (turns : List (Turn S)) (thread : ExportThread S)
      → AllShorter thread.file
      → AllShorter
          (feature_export_thread driver debug on_egress ring_size feature_size turns thread).file
  unfolding feature_export_thread
  feature_export_thread-AllShorter [] thread before = before
  feature_export_thread-AllShorter (t ∷ rest) thread before =
      feature_export_thread-AllShorter rest
        (turn driver debug on_egress ring_size feature_size t thread)
        (turn-AllShorter t thread before)

  turn_due :
      (t : Turn S) (thread : ExportThread S)
      → is_due t.now thread.last ≡ true
      → length (turn driver debug on_egress ring_size feature_size t thread).file
        ≡ length thread.file + 1
  unfolding turn export
  turn_due t thread due = rw due (
      length-append thread.file
        (written driver debug on_egress ring_size feature_size t thread ∷ []))

  turn_early :
      (t : Turn S) (thread : ExportThread S)
      → is_due t.now thread.last ≡ false
      → let after = turn driver debug on_egress ring_size feature_size t thread in
        (after.file ≡ thread.file) × (after.last ≡ thread.last)
  unfolding turn
  turn_early t thread early = rw early (refl, refl)

  file_grows :
      (turns : List (Turn S)) (thread : ExportThread S)
      → length thread.file
        ≤ length
            (feature_export_thread driver debug on_egress ring_size feature_size turns thread).file
  unfolding feature_export_thread
  file_grows [] thread = omega arith
  file_grows (t ∷ rest) thread =
      let after = turn driver debug on_egress ring_size feature_size t thread in
      elim (Bool-cases (is_due t.now thread.last)) [
        | inl due ↦ omega (arith, turn_due t thread due, file_grows rest after)
        | inr early ↦ omega (arith, ap length (turn_early t thread early).0, file_grows rest after)
      ]

  due_exports :
      (turns : List (Turn S)) (thread : ExportThread S) (t : Turn S)
      → Memᴰ t turns
      → is_due t.now thread.last ≡ true
      → length thread.file
        < length
            (feature_export_thread driver debug on_egress ring_size feature_size turns thread).file
  unfolding feature_export_thread
  due_exports [] thread t m due = elim m [ ]
  due_exports (first ∷ rest) thread t m due =
      let after = turn driver debug on_egress ring_size feature_size first thread in
      elim (Bool-cases (is_due first.now thread.last)) [
        | inl now ↦ omega (arith, turn_due first thread now, file_grows rest after)
        | inr early ↦ elim (cases_cons m) [
          | inl e ↦
              let now : is_due first.now thread.last ≡ true =
                ap (λ x. is_due x.now thread.last) (sym e) ∙ due in
              absurd (ground arith)
          | inr m' ↦
              let (same, last) = turn_early first thread early in
              let still : is_due t.now after.last ≡ true = rw last due in
              omega (arith, ap length same, due_exports rest after t m' still)
        ]
      ]

  export_was_due :
      (turns : List (Turn S)) (thread : ExportThread S)
      → length thread.file
        < length
            (feature_export_thread driver debug on_egress ring_size feature_size turns thread).file
      → (t : Turn S) × Memᴰ t turns × (is_due t.now thread.last ≡ true)
  unfolding feature_export_thread
  export_was_due [] thread more = absurd (omega arith)
  export_was_due (first ∷ rest) thread more =
      let after = turn driver debug on_egress ring_size feature_size first thread in
      elim (Bool-cases (is_due first.now thread.last)) [
        | inl now ↦ (first, head refl, now)
        | inr early ↦
            let (same, last) = turn_early first thread early in
            let (t, m, due) = export_was_due rest after (omega (arith, ap length same)) in
            (t, tail m, ap (is_due t.now) (sym last) ∙ due)
      ]

  -- Whatever the other threads do, the thread exports something exactly if one of the readings of
  -- the clock has more seconds than the time of the last export, and not fewer nanoseconds: a
  -- reading that is seconds later is passed over while its nanoseconds are fewer.
  pub exports_iff_due :
      (turns : List (Turn S)) (thread : ExportThread S)
      → (length thread.file
          < length
              (feature_export_thread driver debug on_egress ring_size feature_size turns
                thread).file)
        ↔ ((t : Turn S) × Memᴰ t turns
            × (thread.last.tv_sec < t.now.tv_sec)
            × (thread.last.tv_nsec ≤ t.now.tv_nsec))
  exports_iff_due turns thread = (
    λ more.
        let (t, m, due) = export_was_due turns thread more in
        let (sec, nsec) = (is_due_iff t.now thread.last).0 due in (t, m, sec, nsec),
    λ (t, m, sec, nsec).
        due_exports turns thread t m ((is_due_iff t.now thread.last).1 (sec, nsec)),
  )
