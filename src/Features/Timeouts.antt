-- ===== src/Features/Timeouts.antt =====
-- controller/dataplane/features.c: the timeouts that `process_and_age_feature` sends.
use marina.Prelude.{
  ℕ, zero, suc, ◌+◌, ◌-◌, ◌%◌, ◌^◌, ◌<◌, ◌≤◌, ◌≡◌, ◌≢◌, refl, sym, ◌∙◌, ap, arith, Bool, not, ◌&&◌,
  ◌||◌, ◌==◌, ltb, Option, none, some, List, [], ◌∷◌, ◌++◌, append_assoc, append-nil, length,
  length-append, ℕ_discrete, if◌then◌else◌, update_self, update_ne, Bool-cases, inl, inr,
}
use marina.Commands.{PacketItem, pkt_timeout_flow}
use marina.Ringbuffer.Refine.{Holds}
use marina.Ringbuffer.Calls.{put_fits}
use marina.Features.{
  FeatureRegister, accumulate, each, Ageing, flow_timeout, has_session, timed_out, send_timeout,
  age, process_and_age_feature, min_session_id,
}

module _ (ring_size now : ℕ) (sessions : ℕ → Option ℕ) where
  -- The counter of the index moved between the last two readings, or its flow is new.
  abbrev pub is_alive : FeatureRegister → (ℕ → ℕ) → ℕ → Bool
  is_alive r updated i =
      not (r.data_plane_values i == r.last_data_plane_value i)
      || updated i == 0 && has_session ring_size now sessions (sessions i)

  -- The last update lies before the timeout.
  abbrev pub is_old : (ℕ → ℕ) → ℕ → Bool
  is_old updated i = ltb (updated i) ((now % 2 ^ 32 + 2 ^ 32 - flow_timeout) % 2 ^ 32)

  -- The session of an index, if it is timed out.
  abbrev pub expired : FeatureRegister → (ℕ → ℕ) → ℕ → Option ℕ
  expired r updated i =
      if is_alive r updated i then none else if is_old updated i then sessions i else none

  abbrev pub timeout_of : Option ℕ → List PacketItem
  timeout_of none = []
  timeout_of (some id) = pkt_timeout_flow id ∷ []

  -- The timeouts of `k` indices from `i` on.
  unfoldable pub timeouts : FeatureRegister → (ℕ → ℕ) → ℕ → ℕ → List PacketItem
  timeouts r updated zero i = []
  timeouts r updated (suc k) i = timeout_of (expired r updated i) ++ timeouts r updated k (i + 1)

  abbrev zero_if : Option ℕ → ℕ → ℕ
  zero_if none old = old
  zero_if (some id) old = 0

  -- The new last update of an index.
  abbrev pub updated_at : FeatureRegister → (ℕ → ℕ) → ℕ → ℕ
  updated_at r updated i =
      if is_alive r updated i then now % 2 ^ 32 else zero_if (expired r updated i) (updated i)

  -- What a round leaves, where `session` is timed out and `new` is the last update.
  record Aged (s : Ageing) (i : ℕ) (q : List PacketItem) (session : Option ℕ) (new : ℕ)
      (s' : Ageing) : Type 0 where
    holds : Holds ring_size s'.packet_ring (q ++ timeout_of session)
    here : s'.last_flow_update i ≡ new
    others : (j : ℕ) → i ≢ j → s'.last_flow_update j ≡ s.last_flow_update j
    same : s'.register ≡ accumulate s.register i

  send_timeout-Aged :
      (i : ℕ) (s s' : Ageing) (q : List PacketItem) (session : Option ℕ)
      → s' ≡ record s { register = accumulate s.register i }
      → 0 < ring_size
      → Holds ring_size s.packet_ring q
      → length q + length (timeout_of session) ≤ ring_size
      → Aged s i q session
          (zero_if session (s.last_flow_update i))
          (send_timeout ring_size now sessions i s' session)
  unfolding send_timeout timed_out
  send_timeout-Aged i s s' q none e pos h le =
      rw e (record { holds = rw (append-nil q) h; here = refl; others = λ j ne. refl; same = refl })
  send_timeout-Aged i s s' q (some id) e pos h le =
      let (status, h') = put_fits ring_size pos (pkt_timeout_flow id) h (omega arith) in
      rw (e, status)
        (record {
          holds = h';
          here = update_self s.last_flow_update i 0;
          others = λ j ne. update_ne s.last_flow_update i 0 j ne;
          same = refl;
        })

  age-Aged :
      (i : ℕ) (s : Ageing) (q : List PacketItem)
      → 0 < ring_size
      → Holds ring_size s.packet_ring q
      → length q + length (timeout_of (expired s.register s.last_flow_update i)) ≤ ring_size
      → Aged s i q
          (expired s.register s.last_flow_update i)
          (updated_at s.register s.last_flow_update i)
          (age ring_size now sessions i s)
  unfolding age
  age-Aged i s q pos h le = elim (Bool-cases (is_alive s.register s.last_flow_update i)) [
    | inl alive ↦ rw alive (record {
      holds = rw (append-nil q) h;
      here = update_self s.last_flow_update i (now % 2 ^ 32);
      others = λ j ne. update_ne s.last_flow_update i (now % 2 ^ 32) j ne;
      same = refl;
    })
    | inr still ↦ elim (Bool-cases (is_old s.last_flow_update i)) [
      | inr young ↦
          rw (still, young)
            (record {
              holds = rw (append-nil q) h;
              here = refl;
              others = λ j ne. refl;
              same = refl;
            })
      | inl old ↦
          let le' : length q + length (timeout_of (sessions i)) ≤ ring_size =
            rw (still, old) at le in
          rw (still, old) (send_timeout-Aged i s _ q (sessions i) refl pos h le')
    ]
  ]

  -- What the rounds before have changed does not matter to an index.
  timeouts-next :
      (r : FeatureRegister) (m : ℕ) (u u' : ℕ → ℕ) (k i : ℕ)
      → ((j : ℕ) → i ≤ j → u' j ≡ u j)
      → timeouts (accumulate r m) u' k i ≡ timeouts r u k i
  unfolding timeouts accumulate
  timeouts-next r m u u' zero i same = refl
  timeouts-next r m u u' (suc k) i same = rw (same i (omega arith)) (
      ap (λ l. timeout_of (expired r u i) ++ l)
        (timeouts-next r m u u' k (i + 1) (λ j le. same j (omega arith))))

  updated_at-next :
      (r : FeatureRegister) (m : ℕ) (u u' : ℕ → ℕ) (j : ℕ)
      → u' j ≡ u j
      → updated_at (accumulate r m) u' j ≡ updated_at r u j
  unfolding accumulate
  updated_at-next r m u u' j same = rw same refl

  -- What the rounds of `k` indices from `i` on leave.
  record Swept (s : Ageing) (k i : ℕ) (q : List PacketItem) (s' : Ageing) : Type 0 where
    holds : Holds ring_size s'.packet_ring (q ++ timeouts s.register s.last_flow_update k i)
    inside :
        (j : ℕ)
        → i ≤ j
        → j < i + k
        → s'.last_flow_update j ≡ updated_at s.register s.last_flow_update j
    before : (j : ℕ) → j < i → s'.last_flow_update j ≡ s.last_flow_update j

  each-Swept :
      (k i : ℕ) (s : Ageing) (q : List PacketItem)
      → 0 < ring_size
      → Holds ring_size s.packet_ring q
      → length q + length (timeouts s.register s.last_flow_update k i) ≤ ring_size
      → Swept s k i q (each (age ring_size now sessions) k i s)
  unfolding each timeouts
  each-Swept zero i s q pos h le = record {
    holds = rw (append-nil q) h;
    inside = λ j low high. absurd (omega arith);
    before = λ j lt. refl;
  }
  each-Swept (suc k) i s q pos h le =
      let r = s.register in
      let u = s.last_flow_update in
      let first = timeout_of (expired r u i) in
      let later = timeouts r u k (i + 1) in
      let a = age-Aged i s q pos h (omega (arith, length-append first later)) in
      let s' = age ring_size now sessions i s in
      let rest : timeouts s'.register s'.last_flow_update k (i + 1) ≡ later = rw a.same (
        timeouts-next r i u s'.last_flow_update k (i + 1)
          (λ j le'. a.others j (λ e. omega (arith, e)))) in
      let swept =
        each-Swept k (i + 1) s' (q ++ first) pos a.holds
          (omega (arith, ap length rest, length-append q first, length-append first later)) in
      record {
        holds = rw (rest, append_assoc q first later) at swept.holds;
        inside = λ j low high. elim (ℕ_discrete i j) [
          | yes e ↦ rw (sym e) (swept.before i (omega arith) ∙ a.here)
          | no ne ↦
              swept.inside j (omega arith) (omega arith)
              ∙ rw a.same (updated_at-next r i u s'.last_flow_update j (a.others j ne))
        ];
        before = λ j lt. swept.before j (omega arith) ∙ a.others j (λ e. omega (arith, e));
      }

  -- If the ring buffer of packets has room for them, `process_and_age_feature` puts one
  -- timeout, in the order of the indices, for the session of every index whose counter has
  -- not moved since the last reading, whose flow is not new, and whose last update lies before
  -- the timeout, and puts nothing else. The last update of every index is then the present
  -- time if the counter moved or the flow is new, 0 if it is timed out, and else what it was.
  pub timeouts_sent :
      (feature_size : ℕ) (s : Ageing) (q : List PacketItem) (j : ℕ)
      → 0 < ring_size
      → Holds ring_size s.packet_ring q
      → length q
          + length (
              timeouts s.register s.last_flow_update (feature_size - min_session_id) min_session_id)
        ≤ ring_size
      → min_session_id ≤ j
      → j < feature_size
      → let after = process_and_age_feature ring_size now sessions feature_size s in
        Holds ring_size after.packet_ring (
          q
          ++ timeouts s.register s.last_flow_update (feature_size - min_session_id) min_session_id)
        × (after.last_flow_update j ≡ updated_at s.register s.last_flow_update j)
  unfolding process_and_age_feature
  timeouts_sent feature_size s q j pos h le low high =
      let swept = each-Swept (feature_size - min_session_id) min_session_id s q pos h le in
      (swept.holds, swept.inside j low (omega arith))
